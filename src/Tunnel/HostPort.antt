-- ===== src/Tunnel/HostPort.antt =====
-- `net.SplitHostPort`: `host:port`, or `[host]:port` where the host has colons.
use wgturn_core.Prelude.{
  ℕ, Bool, true, false, ◌&&◌, not, [], ◌∷◌, Option, none, some, Bytes, ◌==◌, if◌then◌else◌,
}

-- The text holds the byte.
unfoldable pub has_byte : ℕ → Bytes → Bool
has_byte b [] = false
has_byte b (c ∷ cs) = if c == b then true else has_byte b cs

-- The text cut at the last occurrence of the byte.
unfoldable pub cut_last : ℕ → Bytes → Option (Bytes × Bytes)
cut_last b [] = none
cut_last b (c ∷ cs) = elim (cut_last b cs) [
  | some (before, after) ↦ some (c ∷ before, after)
  | none ↦ if c == b then some ([], cs) else none
]

-- The text cut at the first occurrence of the byte.
unfoldable pub cut_first : ℕ → Bytes → Option (Bytes × Bytes)
cut_first b [] = none
cut_first b (c ∷ cs) =
    let rest : Option (Bytes × Bytes) = elim (cut_first b cs) [
      | some (before, after) ↦ some (c ∷ before, after)
      | none ↦ none
    ] in
    if c == b then some ([], cs) else rest

abbrev has_bracket : Bytes → Bool
has_bracket s = if has_byte b'[' s then true else has_byte b']' s

-- A host in brackets: the first `]` is followed by the last colon of the address.
abbrev bracketed : Bytes → Option (Bytes × Bytes)
bracketed rest = elim (cut_first b']' rest) [
  | none ↦ none
  | some (host, behind) ↦ elim behind [
    | [] ↦ none
    | c ∷ port ↦
        if (c == b':')
          && not (has_byte b':' port)
          && not (has_byte b'[' host)
          && not (has_bracket port)
        then some (host, port)
        else none
  ]
]

-- With no bracket in front, the host has no colon.
abbrev plain : Bytes → Option (Bytes × Bytes)
plain s = elim (cut_last b':' s) [
  | none ↦ none
  | some (host, port) ↦
      if has_byte b':' host then none else if has_bracket s then none else some (host, port)
]

unfoldable pub split_host_port : Bytes → Option (Bytes × Bytes)
unfolding cut_last cut_first has_byte
split_host_port [] = none
split_host_port (c ∷ cs) = if c == b'[' then bracketed cs else plain (c ∷ cs)
