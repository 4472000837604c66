-- ===== src/Conf/Lift.antt =====
-- pkg/wgconf/parse.go against pkg/wgturn/config.go: what `Validate` can still find in a
-- configuration that comes from a file, and the values of `Backend`.
use wgturn_core.Prelude.{
  Bool, true, false, List, ◌++◌, Option, none, some, Bytes, ok, ◌≡◌, refl, Bool-cases,
  if◌then◌else◌, arith, inl, inr, codes, equal, has_prefix,
}
use wgturn_core.Tunnel.{
  Config, Problem, bad_peer_addr, bad_listen_addr, streams_over_255, watchdog_negative,
  unknown_peer_type, is_nil, is_negative, checks, first_problem, validate,
}
use wgturn_core.Conf.Strings.{trim_space, trim_left, to_lower}
use wgturn_core.Conf.Trim.{trim_right-append}
use wgturn_core.Conf.Values.{Library, Settings}
use wgturn_core.Conf.Ranges.{parse-InRange}
use wgturn_core.Conf.{backend_udp, parse, parse_backend_spec, to_tunnel_config}

-- What the caller adds to the configuration before it makes a tunnel.
abbrev pub supply : Config → Config
supply c = record c { has_provider = true; has_protector = true }

-- The problems that a file can have although `Parse` and `ToTunnelConfig` accept it.
abbrev pub is_late : Problem → Bool
is_late bad_peer_addr = true
is_late bad_listen_addr = true
is_late streams_over_255 = true
is_late watchdog_negative = true
is_late unknown_peer_type = true
is_late _ = false

abbrev pub IsLate : Option Problem → Type 0
IsLate o = (p : Problem) → o ≡ some p → is_late p ≡ true

late :
    (bad : Bool) (q : Problem) (rest : Option Problem)
    → is_late q ≡ true
    → IsLate rest
    → IsLate (if bad then some q else rest)
late true q rest e h p e2 = grind (arith, e)
late false q rest e h p e2 = h p e2

none-IsLate : IsLate none
none-IsLate p e = cc

first_problem-IsLate :
    (c : Config)
    → is_nil c.peer_addr ≡ false
    → is_nil c.listen_addr ≡ false
    → is_negative c.streams ≡ false
    → is_negative c.streams_per_cred ≡ false
    → IsLate (first_problem (checks (supply c)))
unfolding first_problem
first_problem-IsLate c e0 e1 e2 e3 =
    rw (e0, e1, e2, e3)
      (late _ bad_peer_addr _ refl (
        late _ bad_listen_addr _ refl (
          late _ streams_over_255 _ refl
            (late _ watchdog_negative _ refl (late _ unknown_peer_type _ refl none-IsLate)))))

module _ {Prefix Addr : Type 0} (lib : Library Prefix Addr) where
  lifted-fields :
      (s : Settings Prefix Addr) {c : Config}
      → to_tunnel_config s ≡ ok c
      → (is_nil c.peer_addr ≡ false)
        × (is_nil c.listen_addr ≡ false)
        × (c.streams ≡ s.streams)
        × (c.streams_per_cred ≡ s.streams_per_cred)
  unfolding to_tunnel_config
  lifted-fields s h = elim (Bool-cases s.enable_turn) [
    | inl e ↦ elim (Bool-cases (is_nil s.peer)) [
      | inl e1 ↦ grind (arith, e, e1)
      | inr e1 ↦ elim (Bool-cases (is_nil s.local_listen)) [
        | inl e2 ↦ grind (arith, e, e1, e2)
        | inr e2 ↦ grind (arith, e, e1, e2)
      ]
    ]
    | inr e ↦ grind (arith, e)
  ]

  -- If `Parse` and `ToTunnelConfig` succeed and the caller has set a provider and a protector, then
  -- `Validate` finds nothing, or one of five problems: an address that does not split, more than
  -- 255 streams, a negative watchdog timeout or an unknown peer type.
  pub parse-validate :
      (lines : List Bytes) (failed : Bool) {s : Settings Prefix Addr} {c : Config} (p : Problem)
      → parse lib lines failed ≡ ok s
      → to_tunnel_config s ≡ ok c
      → validate (supply c) ≡ some p
      → is_late p ≡ true
  unfolding validate
  parse-validate lines failed {s = s} {c = c} p h h2 h3 =
      let r = parse-InRange lib lines failed h in
      let (a, b, e, f) = lifted-fields s h2 in
      first_problem-IsLate c a b (rw (e) r.streams_count) (rw (f) r.streams_per_cred_count) p h3

trim_space-udp :
    (addr : Bytes)
    → is_nil addr ≡ false
    → trim_space addr ≡ addr
    → trim_space (codes "udp:" ++ addr) ≡ codes "udp:" ++ addr
unfolding trim_space trim_left
trim_space-udp addr h e = trim_right-append (codes "udp:") addr h e

-- `ParseBackendSpec` reads `udp:` and an address as this address in the letters that it was written
-- in, if the address is not empty and has no white space around it.
pub parse_backend_spec_udp :
    (addr : Bytes)
    → is_nil addr ≡ false
    → trim_space addr ≡ addr
    → parse_backend_spec (codes "udp:" ++ addr) ≡ ok (backend_udp, addr)
unfolding parse_backend_spec to_lower equal has_prefix
parse_backend_spec_udp addr h e = rw (trim_space-udp addr h e, e, h) refl
