-- ===== src/Conf/Peers.antt =====
-- pkg/wgconf/parse.go: the peers that `Parse` collects.
use wgturn_core.Prelude.{
  ℕ, ◌+◌, Bool, true, false, List, [], ◌∷◌, Bytes, ok, >>=-ok, ◌≡◌, refl, Bool-cases, Option-cases,
  Result-cases, if◌then◌else◌, arith, inl, inr, length, length-append, equal, equal_iff, codes,
  ◌&&◌, drop,
}
use wgturn_core.Conf.Strings.{trim_space, cut_byte, to_lower}
use wgturn_core.Conf.Values.{
  Library, PeerSection, Settings, MetaKey, enable_turn_key, mode_key, vk_link_key, peer_type_key,
  streams_key, streams_per_cred_key, watchdog_key, udp_key, turn_host_key, turn_port_key,
  local_listen_key, peer_key, enable_server_key, listen_key, backend_key, find_key, meta_keys,
  iface_keys, peer_keys,
}
use wgturn_core.Conf.Keys.{
  empty_peer, update_last, empty_settings, set_case, set, set_iface_case, set_iface, set_peer_case,
  set_peer,
}
use wgturn_core.Conf.Loop.{unchanged, by_meta, by_header, by_pair, parse_line-cases}
use wgturn_core.Conf.{
  Section, section_none, section_interface, section_peer, meta_prefix, strip_comment, is_header,
  header_name, parse_meta, parse_pair, enter, parse_ini, parse_line, parse_lines, parse,
}

-- The lines that open a peer, whatever stands around them.
abbrev pub is_peer_line : Bytes → Bool
is_peer_line t = is_header t && equal (header_name t) (codes "peer")

abbrev pub peer_line : Bool → ℕ
peer_line b = if b then 1 else 0

unfoldable pub peer_lines : List Bytes → ℕ
peer_lines [] = 0
peer_lines (line ∷ lines) = peer_line (is_peer_line (trim_space line)) + peer_lines lines

interface-peer :
    (name : Bytes) → equal name (codes "interface") ≡ true → equal name (codes "peer") ≡ false
unfolding equal
interface-peer name h = rw ((equal_iff name (codes "interface")).0 h) refl

module _ {Prefix : Type 0} where
  length-update_last :
      (f : PeerSection Prefix → PeerSection Prefix) (ps : List (PeerSection Prefix))
      → length (update_last f ps) ≡ length ps
  unfolding update_last
  length-update_last f [] = refl
  length-update_last f (p ∷ []) = refl
  length-update_last f (p ∷ q ∷ ps) = ground (arith, length-update_last f (q ∷ ps))

module _ {Prefix Addr : Type 0} where
  abbrev pub peer_count : Settings Prefix Addr → ℕ
  peer_count s = length s.wg_peers

  module _ (lib : Library Prefix Addr) where
    set_case-peers :
        (k : MetaKey) (v : Bytes) (s : Settings Prefix Addr) {s' : Settings Prefix Addr}
        → set_case lib k v s ≡ ok s'
        → s'.wg_peers ≡ s.wg_peers
    set_case-peers enable_turn_key v s h = grind arith
    set_case-peers mode_key v s h = grind arith
    set_case-peers vk_link_key v s h = grind arith
    set_case-peers peer_type_key v s h = grind arith
    set_case-peers streams_key v s h = grind arith
    set_case-peers streams_per_cred_key v s h = grind arith
    set_case-peers watchdog_key v s h = grind arith
    set_case-peers udp_key v s h = grind arith
    set_case-peers turn_host_key v s h = grind arith
    set_case-peers turn_port_key v s h = grind arith
    set_case-peers local_listen_key v s h = grind arith
    set_case-peers peer_key v s h = grind arith
    set_case-peers enable_server_key v s h = grind arith
    set_case-peers listen_key v s h = grind arith
    set_case-peers backend_key v s h = grind arith

    set-peers :
        (key v : Bytes) (s : Settings Prefix Addr) {s' : Settings Prefix Addr}
        → set lib key v s ≡ ok s'
        → s'.wg_peers ≡ s.wg_peers
    unfolding set
    set-peers key v s h = elim (Option-cases (find_key (to_lower key) meta_keys)) [
      | inl e ↦ grind (arith, e)
      | inr (k, e) ↦ set_case-peers k v s (rw (e, set) at h)
    ]

    set_iface-peers :
        (key v : Bytes) (s : Settings Prefix Addr) {s' : Settings Prefix Addr}
        → set_iface lib key v s ≡ ok s'
        → s'.wg_peers ≡ s.wg_peers
    unfolding set_iface
    set_iface-peers key v s h = elim (Option-cases (find_key (to_lower key) iface_keys)) [
      | inl e ↦ grind (arith, e)
      | inr (k, e) ↦
          let (j, e1, e2) = >>=-ok (set_iface_case lib k v s.iface) _ (rw (e, set_iface) at h) in
          grind (arith, e2)
    ]

    set_peer-count :
        (key v : Bytes) (s : Settings Prefix Addr) {s' : Settings Prefix Addr}
        → set_peer lib key v s ≡ ok s'
        → peer_count s' ≡ peer_count s
    unfolding set_peer
    set_peer-count key v s h = elim (Option-cases (find_key (to_lower key) peer_keys)) [
      | inl e ↦ grind (arith, e)
      | inr (k, e) ↦ elim (Result-cases (set_peer_case lib k v)) [
        | inl (f, e1) ↦ grind (arith, e, e1)
        | inr (f, e1) ↦ grind (arith, e, e1, length-update_last f s.wg_peers)
      ]
    ]

    pub parse_meta-count :
        (t : Bytes) (s : Settings Prefix Addr) {s' : Settings Prefix Addr}
        → parse_meta lib t s ≡ ok s'
        → peer_count s' ≡ peer_count s
    unfolding parse_meta
    parse_meta-count t s h =
        let body = trim_space (drop (length meta_prefix) t) in
        elim (Option-cases (cut_byte 61 (strip_comment body))) [
          | inl e ↦ grind (arith, e)
          | inr ((key, v), e) ↦ grind (arith, e, set-peers (trim_space key) (trim_space v) s)
        ]

    parse_pair-count :
        (cur : Section) (body : Bytes) (s : Settings Prefix Addr) {s' : Settings Prefix Addr}
        → parse_pair lib cur body s ≡ ok s'
        → peer_count s' ≡ peer_count s
    unfolding parse_pair
    parse_pair-count section_none body s h = elim (Option-cases (cut_byte 61 body)) [
      | inl e ↦ grind (arith, e)
      | inr ((key, v), e) ↦ grind (arith, e)
    ]
    parse_pair-count section_interface body s h = elim (Option-cases (cut_byte 61 body)) [
      | inl e ↦ grind (arith, e)
      | inr ((key, v), e) ↦ grind (arith, e, set_iface-peers (trim_space key) (trim_space v) s)
    ]
    parse_pair-count section_peer body s h = elim (Option-cases (cut_byte 61 body)) [
      | inl e ↦ grind (arith, e)
      | inr ((key, v), e) ↦ grind (arith, e, set_peer-count (trim_space key) (trim_space v) s)
    ]

    pub parse_ini-count :
        (cur : Section) (t : Bytes) (s : Settings Prefix Addr) {s' : Settings Prefix Addr}
        → parse_ini lib cur t s ≡ ok s'
        → peer_count s' ≡ peer_count s
    unfolding parse_ini
    parse_ini-count section_none t s h = grind arith
    parse_ini-count section_interface t s h =
        grind (arith, parse_pair-count section_interface (strip_comment t) s)
    parse_ini-count section_peer t s h =
        grind (arith, parse_pair-count section_peer (strip_comment t) s)

    enter-count :
        (name : Bytes) (s : Settings Prefix Addr)
        → peer_count ((enter name s).1) ≡ peer_line (equal name (codes "peer")) + peer_count s
    enter-count name s = elim (Bool-cases (equal name (codes "interface"))) [
      | inl e ↦ rw (e, interface-peer name e) (omega arith)
      | inr e ↦ elim (Bool-cases (equal name (codes "peer"))) [
        | inl e2 ↦ rw (e, e2) (grind (arith, length-append s.wg_peers (empty_peer ∷ [])))
        | inr e2 ↦ rw (e, e2) (omega arith)
      ]
    ]

    parse_line-count :
        (cur : Section) (t : Bytes) (s : Settings Prefix Addr) {r : Section × Settings Prefix Addr}
        → parse_line lib cur t s ≡ ok r
        → peer_count r.1 ≡ peer_line (is_peer_line t) + peer_count s
    parse_line-count cur t s h = elim (parse_line-cases lib cur t s h) [
      | unchanged e0 e ↦ rw (e, e0) (omega arith)
      | by_meta s1 e0 e1 e ↦ rw (e, e0) (omega (arith, parse_meta-count t s e1))
      | by_header e0 e ↦ rw (e, e0) (enter-count (header_name t) s)
      | by_pair s1 e0 e1 e ↦ rw (e, e0) (omega (arith, parse_ini-count cur t s e1))
    ]

    parse_lines-count :
        (cur : Section) (n : ℕ) (lines : List Bytes) (failed : Bool) (s : Settings Prefix Addr)
        {s' : Settings Prefix Addr}
        → parse_lines lib cur n lines failed s ≡ ok s'
        → peer_count s' ≡ peer_lines lines + peer_count s
    unfolding parse_lines peer_lines
    parse_lines-count cur n [] failed s h = grind arith
    parse_lines-count cur n (line ∷ lines) failed s {s' = s'} h =
        elim (Result-cases (parse_line lib cur (trim_space line) s)) [
          | inl (f, e) ↦ grind (arith, e)
          | inr (r, e) ↦
              let rest =
                parse_lines-count r.0 (n + 1) lines failed r.1 (rw (e, parse_lines) at h) in
              let here = parse_line-count cur (trim_space line) s e in omega (arith, rest, here)
        ]

    -- If `Parse` succeeds, then it has collected as many peers as there are lines with a `[Peer]`
    -- header, whatever stands between these lines.
    pub parse-peer_lines :
        (lines : List Bytes) (failed : Bool) {s : Settings Prefix Addr}
        → parse lib lines failed ≡ ok s
        → length s.wg_peers ≡ peer_lines lines
    unfolding parse
    parse-peer_lines lines failed h =
        let r = parse_lines-count section_none 0 lines failed empty_settings h in omega (arith, r)
