-- ===== src/Conf/Noise.antt =====
-- pkg/wgconf/parse.go: the lines that `Parse` takes no notice of.
use wgturn_core.Prelude.{Bool, not, ◌&&◌, ◌||◌, List, [], ◌∷◌, Bytes, if◌then◌else◌}
use wgturn_core.Tunnel.{is_nil}
use wgturn_core.Conf.Strings.{trim_space}
use wgturn_core.Conf.{meta_prefix, has_prefix_fold, is_comment}

-- A blank line, and a comment that is no metadata.
abbrev pub is_noise : Bytes → Bool
is_noise t = is_nil t || (not (has_prefix_fold t meta_prefix) && is_comment t)

unfoldable pub without_noise : List Bytes → List Bytes
without_noise [] = []
without_noise (line ∷ lines) =
    if is_noise (trim_space line) then without_noise lines else line ∷ without_noise lines
