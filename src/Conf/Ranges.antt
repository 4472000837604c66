-- ===== src/Conf/Ranges.antt =====
-- pkg/wgconf/parse.go: what the loop of `Parse` keeps, and the ranges of the numbers that it reads.
use wgturn_core.Prelude.{
  ℕ, ◌+◌, ◌≤◌, Bool, false, List, [], ◌∷◌, Bytes, ok, >>=-ok, ◌≡◌, Bool-cases, Option-cases,
  Result-cases, arith, inl, inr, length, drop, equal, codes,
}
use wgturn_core.Tunnel.{is_negative, is_over}
use wgturn_core.Conf.Strings.{trim_space, cut_byte, to_lower}
use wgturn_core.Conf.Values.{
  Library, IfaceSection, Settings, MetaKey, enable_turn_key, mode_key, vk_link_key, peer_type_key,
  streams_key, streams_per_cred_key, watchdog_key, udp_key, turn_host_key, turn_port_key,
  local_listen_key, peer_key, enable_server_key, listen_key, backend_key, IfaceKey, private_key_key,
  address_key, dns_key, mtu_key, listen_port_key, max_port, find_key, meta_keys, iface_keys,
  peer_keys,
}
use wgturn_core.Conf.Keys.{
  empty_settings, set_case, set, set_iface_case, set_iface, set_peer_case, set_peer,
}
use wgturn_core.Conf.Loop.{unchanged, by_meta, by_header, by_pair, parse_line-cases}
use wgturn_core.Conf.{
  Section, section_none, section_interface, section_peer, meta_prefix, strip_comment, header_name,
  parse_meta, parse_pair, enter, parse_ini, parse_line, parse_lines, parse,
}

module _ {Prefix Addr : Type 0} where
  -- The numbers that the file gives and the program takes as they are.
  pub record InRange (s : Settings Prefix Addr) : Type 0 where
    pub streams_count : is_negative s.streams ≡ false
    pub streams_per_cred_count : is_negative s.streams_per_cred ≡ false
    pub mtu_count : is_negative s.iface.mtu ≡ false
    pub turn_port_count : is_negative s.turn_port ≡ false
    pub turn_port_bound : is_over max_port s.turn_port ≡ false
    pub listen_port_bound : s.iface.listen_port ≤ max_port

  module _ (lib : Library Prefix Addr) where
    set_case-InRange :
        (k : MetaKey) (v : Bytes) (s : Settings Prefix Addr) {s' : Settings Prefix Addr}
        → InRange s
        → set_case lib k v s ≡ ok s'
        → InRange s'
    set_case-InRange enable_turn_key v s i h = grind arith
    set_case-InRange mode_key v s i h = grind arith
    set_case-InRange vk_link_key v s i h = grind arith
    set_case-InRange peer_type_key v s i h = grind arith
    set_case-InRange streams_key v s i h = grind arith
    set_case-InRange streams_per_cred_key v s i h = grind arith
    set_case-InRange watchdog_key v s i h = grind arith
    set_case-InRange udp_key v s i h = grind arith
    set_case-InRange turn_host_key v s i h = grind arith
    set_case-InRange turn_port_key v s i h = grind arith
    set_case-InRange local_listen_key v s i h = grind arith
    set_case-InRange peer_key v s i h = grind arith
    set_case-InRange enable_server_key v s i h = grind arith
    set_case-InRange listen_key v s i h = grind arith
    set_case-InRange backend_key v s i h = grind arith

    set-InRange :
        (key v : Bytes) (s : Settings Prefix Addr) {s' : Settings Prefix Addr}
        → InRange s
        → set lib key v s ≡ ok s'
        → InRange s'
    unfolding set
    set-InRange key v s i h = elim (Option-cases (find_key (to_lower key) meta_keys)) [
      | inl e ↦ grind (arith, e)
      | inr (k, e) ↦ set_case-InRange k v s i (rw (e, set) at h)
    ]

    set_iface_case-InRange :
        (k : IfaceKey) (v : Bytes) (s : Settings Prefix Addr) {i' : IfaceSection Prefix Addr}
        → InRange s
        → set_iface_case lib k v s.iface ≡ ok i'
        → InRange (record s { iface = i' })
    set_iface_case-InRange private_key_key v s i h = grind arith
    set_iface_case-InRange address_key v s i h = grind arith
    set_iface_case-InRange dns_key v s i h = grind arith
    set_iface_case-InRange mtu_key v s i h = grind arith
    set_iface_case-InRange listen_port_key v s i h = grind arith

    set_iface-InRange :
        (key v : Bytes) (s : Settings Prefix Addr) {s' : Settings Prefix Addr}
        → InRange s
        → set_iface lib key v s ≡ ok s'
        → InRange s'
    unfolding set_iface
    set_iface-InRange key v s i h = elim (Option-cases (find_key (to_lower key) iface_keys)) [
      | inl e ↦ grind (arith, e)
      | inr (k, e) ↦
          let (j, e1, e2) = >>=-ok (set_iface_case lib k v s.iface) _ (rw (e, set_iface) at h) in
          let r = set_iface_case-InRange k v s i e1 in grind (arith, r, e2)
    ]

    set_peer-InRange :
        (key v : Bytes) (s : Settings Prefix Addr) {s' : Settings Prefix Addr}
        → InRange s
        → set_peer lib key v s ≡ ok s'
        → InRange s'
    unfolding set_peer
    set_peer-InRange key v s i h = elim (Option-cases (find_key (to_lower key) peer_keys)) [
      | inl e ↦ grind (arith, e)
      | inr (k, e) ↦ elim (Result-cases (set_peer_case lib k v)) [
        | inl (f, e1) ↦ grind (arith, e, e1)
        | inr (f, e1) ↦ grind (arith, e, e1)
      ]
    ]

    parse_meta-InRange :
        (t : Bytes) (s : Settings Prefix Addr) {s' : Settings Prefix Addr}
        → InRange s
        → parse_meta lib t s ≡ ok s'
        → InRange s'
    unfolding parse_meta
    parse_meta-InRange t s i h =
        let body = trim_space (drop (length meta_prefix) t) in
        elim (Option-cases (cut_byte 61 (strip_comment body))) [
          | inl e ↦ grind (arith, e)
          | inr ((key, v), e) ↦ grind (arith, e, set-InRange (trim_space key) (trim_space v) s)
        ]

    parse_pair-InRange :
        (cur : Section) (body : Bytes) (s : Settings Prefix Addr) {s' : Settings Prefix Addr}
        → InRange s
        → parse_pair lib cur body s ≡ ok s'
        → InRange s'
    unfolding parse_pair
    parse_pair-InRange section_none body s i h = elim (Option-cases (cut_byte 61 body)) [
      | inl e ↦ grind (arith, e)
      | inr ((key, v), e) ↦ grind (arith, e)
    ]
    parse_pair-InRange section_interface body s i h = elim (Option-cases (cut_byte 61 body)) [
      | inl e ↦ grind (arith, e)
      | inr ((key, v), e) ↦ grind (arith, e, set_iface-InRange (trim_space key) (trim_space v) s)
    ]
    parse_pair-InRange section_peer body s i h = elim (Option-cases (cut_byte 61 body)) [
      | inl e ↦ grind (arith, e)
      | inr ((key, v), e) ↦ grind (arith, e, set_peer-InRange (trim_space key) (trim_space v) s)
    ]

    parse_ini-InRange :
        (cur : Section) (t : Bytes) (s : Settings Prefix Addr) {s' : Settings Prefix Addr}
        → InRange s
        → parse_ini lib cur t s ≡ ok s'
        → InRange s'
    unfolding parse_ini
    parse_ini-InRange section_none t s i h = grind arith
    parse_ini-InRange section_interface t s i h =
        grind (arith, parse_pair-InRange section_interface (strip_comment t) s)
    parse_ini-InRange section_peer t s i h =
        grind (arith, parse_pair-InRange section_peer (strip_comment t) s)

    enter-InRange :
        (name : Bytes) (s : Settings Prefix Addr) → InRange s → InRange ((enter name s).1)
    enter-InRange name s i = elim (Bool-cases (equal name (codes "interface"))) [
      | inl e ↦ rw (e) i
      | inr e ↦ elim (Bool-cases (equal name (codes "peer"))) [
        | inl e2 ↦ grind (arith, e, e2)
        | inr e2 ↦ rw (e, e2) i
      ]
    ]

    parse_line-InRange :
        (cur : Section) (t : Bytes) (s : Settings Prefix Addr) {r : Section × Settings Prefix Addr}
        → InRange s
        → parse_line lib cur t s ≡ ok r
        → InRange r.1
    parse_line-InRange cur t s i h = elim (parse_line-cases lib cur t s h) [
      | unchanged e0 e ↦ rw (e) i
      | by_meta s1 e0 e1 e ↦ rw (e) (parse_meta-InRange t s i e1)
      | by_header e0 e ↦ rw (e) (enter-InRange (header_name t) s i)
      | by_pair s1 e0 e1 e ↦ rw (e) (parse_ini-InRange cur t s i e1)
    ]

    parse_lines-InRange :
        (cur : Section) (n : ℕ) (lines : List Bytes) (failed : Bool) (s : Settings Prefix Addr)
        {s' : Settings Prefix Addr}
        → InRange s
        → parse_lines lib cur n lines failed s ≡ ok s'
        → InRange s'
    unfolding parse_lines
    parse_lines-InRange cur n [] failed s i h = grind arith
    parse_lines-InRange cur n (line ∷ lines) failed s i h =
        elim (Result-cases (parse_line lib cur (trim_space line) s)) [
          | inl (f, e) ↦ grind (arith, e)
          | inr (r, e) ↦
              parse_lines-InRange r.0 (n + 1) lines failed r.1
                (parse_line-InRange cur (trim_space line) s i e) (rw (e, parse_lines) at h)
        ]

    -- If `Parse` succeeds, then the stream counts, the MTU and the TURN port are not negative, and
    -- the TURN port and the listen port are at most 65535.
    pub parse-InRange :
        (lines : List Bytes) (failed : Bool) {s : Settings Prefix Addr}
        → parse lib lines failed ≡ ok s
        → InRange s
    unfolding parse
    parse-InRange lines failed h =
        parse_lines-InRange section_none 0 lines failed empty_settings (grind arith) h
