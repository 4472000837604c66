-- ===== src/Links.antt =====
-- pkg/wgturn/provider/vk/parse.go and pkg/wgturn/provider/yandex/parse.go: the links of calls, and the
-- URLs of TURN servers. Both files have the same loop over the bytes of an id; an id has ASCII only.
mod Ids
mod Tests
use wgturn_core.Prelude.{
  ℕ, Bool, true, false, not, ◌&&◌, ◌||◌, List, [], ◌∷◌, ◌++◌, Option, none, some, Bytes, codes,
  contains, has_prefix, drop, length, leb, ◌==◌, if◌then◌else◌,
}
use wgturn_core.Hub.{ConfigInt, count, below_zero}
use wgturn_core.Tunnel.{is_nil}
use wgturn_core.Tunnel.HostPort.{split_host_port}
use wgturn_core.Conf.Strings.{trim_space, to_lower, atoi}

-- What is behind the first place of a text in another one.
unfoldable pub after_first : Bytes → Bytes → Option Bytes
after_first m [] = if is_nil m then some [] else none
after_first m (c ∷ s) =
    let rest = after_first m s in
    if has_prefix (c ∷ s) m then some (drop (length m) (c ∷ s)) else rest

abbrev pub or_same : Option Bytes → Bytes → Bytes
or_same none s = s
or_same (some t) s = t

-- `/`, `?` and `#`, where an id ends.
abbrev pub ends_id : ℕ → Bool
ends_id c = (c == 47) || ((c == 63) || (c == 35))

unfoldable pub until : (ℕ → Bool) → Bytes → Bytes
until stop [] = []
until stop (c ∷ s) = if stop c then [] else c ∷ until stop s

-- `isCallIDRune`
abbrev pub is_call_id_byte : ℕ → Bool
is_call_id_byte c =
    (leb 97 c && leb c 122)
    || ((leb 65 c && leb c 90)
        || ((leb 48 c && leb c 57) || ((c == 45) || ((c == 95) || (c == 46)))))

unfoldable pub all_call_id : Bytes → Bool
all_call_id [] = true
all_call_id (c ∷ s) = is_call_id_byte c && all_call_id s

-- The end of `extractCallID`: the id up to a delimiter, trimmed and looked through.
unfoldable pub checked_id : Bytes → Option Bytes
unfolding all_call_id
checked_id v = if is_nil v then none else if all_call_id v then some v else none

-- `extractCallID` of a trimmed link, with the marker in front of the id.
unfoldable pub call_id : Bytes → Bytes → Option Bytes
unfolding after_first until checked_id
call_id marker s = elim (after_first marker (or_same (after_first (codes "://") s) s)) [
  | some t ↦ checked_id (trim_space (until ends_id t))
  | none ↦
      if contains s (codes "/") || contains s (codes "://")
      then none
      else checked_id (trim_space (until ends_id (or_same (after_first (codes "://") s) s)))
]

-- `extractCallID` of the VK provider.
unfoldable pub vk_call_id : Bytes → Option Bytes
unfolding call_id
vk_call_id link =
    if is_nil (trim_space link) then none else call_id (codes "join/") (trim_space link)

abbrev pub telemost_tag : Bytes
telemost_tag = codes "telemost:"

abbrev pub without_tag : Bytes → Bytes
without_tag s = if has_prefix (to_lower s) telemost_tag then drop (length telemost_tag) s else s

-- `extractCallID` of the Yandex provider.
unfoldable pub telemost_call_id : Bytes → Option Bytes
unfolding call_id
telemost_call_id link =
    if is_nil (trim_space link) then none else call_id (codes "/j/") (without_tag (trim_space link))

-- `IsTelemostLink`
unfoldable pub is_telemost_link : Bytes → Bool
is_telemost_link s =
    has_prefix (to_lower (trim_space s)) telemost_tag
    || contains (to_lower (trim_space s)) (codes "telemost.yandex.")

-- The first scheme of a list is dropped.
unfoldable pub drop_scheme : List Bytes → Bytes → Bytes
drop_scheme [] s = s
drop_scheme (p ∷ ps) s = if has_prefix s p then drop (length p) s else drop_scheme ps s

abbrev pub vk_schemes : List Bytes
vk_schemes = codes "turns:" ∷ codes "turn:" ∷ codes "stun:" ∷ codes "stuns:" ∷ []

abbrev pub telemost_schemes : List Bytes
telemost_schemes = codes "turns:" ∷ codes "turn:" ∷ codes "stuns:" ∷ codes "stun:" ∷ []

-- A URL without its scheme and its query.
unfoldable pub bare_url : List Bytes → Bytes → Bytes
unfolding drop_scheme until
bare_url schemes s = until (λ c. c == 63) (drop_scheme schemes s)

abbrev pub is_port : Option ConfigInt → Bool
is_port none = false
is_port (some below_zero) = false
is_port (some (count n)) = leb 1 n && leb n 65535

-- `parseTurnURL` of the VK provider.
unfoldable pub vk_turn_url : Bytes → Option Bytes
unfolding bare_url
vk_turn_url s =
    if is_nil (trim_space s)
    then none
    else elim (split_host_port (bare_url vk_schemes (trim_space s))) [
      | none ↦ none
      | some hp ↦ some (bare_url vk_schemes (trim_space s))
    ]

-- `parseTurnURL` of the Yandex provider.
unfoldable pub telemost_turn_url : Bytes → Option Bytes
unfolding bare_url
telemost_turn_url s =
    if is_nil (trim_space s)
    then none
    else elim (split_host_port (bare_url telemost_schemes (trim_space s))) [
      | none ↦ none
      | some (host, port) ↦
          if is_nil host
          then none
          else if is_port (atoi port)
          then some (bare_url telemost_schemes (trim_space s))
          else none
    ]
