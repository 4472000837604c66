-- ===== src/Conf/Active.antt =====
-- pkg/wgconf/parse.go: the error of `setPeer` for a file without a peer.
use wgturn_core.Prelude.{
  ℕ, ◌+◌, ◌<◌, Bool, List, [], ◌∷◌, Bytes, Result, ok, err, ◌≡◌, refl, ◌≢◌, Bool-cases,
  Option-cases, Result-cases, arith, inl, inr, length, length-append, equal, codes, drop,
}
use wgturn_core.Tunnel.{is_nil}
use wgturn_core.Conf.Strings.{trim_space, cut_byte, to_lower}
use wgturn_core.Conf.Values.{
  Library, IfaceSection, Settings, Fault, no_active_peer, MetaKey, enable_turn_key, mode_key,
  vk_link_key, peer_type_key, streams_key, streams_per_cred_key, watchdog_key, udp_key,
  turn_host_key, turn_port_key, local_listen_key, peer_key, enable_server_key, listen_key,
  backend_key, IfaceKey, private_key_key, address_key, dns_key, mtu_key, listen_port_key, PeerKey,
  public_key_key, preshared_key_key, endpoint_key, allowed_ips_key, keepalive_key, find_key,
  meta_keys, iface_keys, peer_keys,
}
use wgturn_core.Conf.Keys.{
  empty_peer, empty_settings, set_case, set, set_iface_case, set_iface, set_peer_case, set_peer,
}
use wgturn_core.Conf.Loop.{unchanged, by_meta, by_header, by_pair, parse_line-cases}
use wgturn_core.Conf.Peers.{peer_count, parse_meta-count, parse_ini-count}
use wgturn_core.Conf.{
  Section, section_none, section_interface, section_peer, line_error, meta_prefix, has_prefix_fold,
  strip_comment, is_comment, is_header, header_name, parse_meta, set_in, parse_pair, enter, stay,
  parse_ini, parse_line, parse_lines, parse,
}

module _ {Prefix Addr : Type 0} where
  -- Inside a peer's section there is a peer.
  abbrev HasPeer : Section → Settings Prefix Addr → Type 0
  HasPeer cur s = cur ≡ section_peer → 0 < peer_count s

  module _ (lib : Library Prefix Addr) where
    set_case-active :
        (k : MetaKey) (v : Bytes) (s : Settings Prefix Addr)
        → set_case lib k v s ≢ err no_active_peer
    set_case-active enable_turn_key v s h = grind arith
    set_case-active mode_key v s h = grind arith
    set_case-active vk_link_key v s h = grind arith
    set_case-active peer_type_key v s h = grind arith
    set_case-active streams_key v s h = grind arith
    set_case-active streams_per_cred_key v s h = grind arith
    set_case-active watchdog_key v s h = grind arith
    set_case-active udp_key v s h = grind arith
    set_case-active turn_host_key v s h = grind arith
    set_case-active turn_port_key v s h = grind arith
    set_case-active local_listen_key v s h = grind arith
    set_case-active peer_key v s h = grind arith
    set_case-active enable_server_key v s h = grind arith
    set_case-active listen_key v s h = grind arith
    set_case-active backend_key v s h = grind arith

    set-active : (key v : Bytes) (s : Settings Prefix Addr) → set lib key v s ≢ err no_active_peer
    unfolding set
    set-active key v s h = elim (Option-cases (find_key (to_lower key) meta_keys)) [
      | inl e ↦ grind (arith, e)
      | inr (k, e) ↦ set_case-active k v s (rw (e, set) at h)
    ]

    set_iface_case-active :
        (k : IfaceKey) (v : Bytes) (i : IfaceSection Prefix Addr)
        → set_iface_case lib k v i ≢ err no_active_peer
    set_iface_case-active private_key_key v i h = grind arith
    set_iface_case-active address_key v i h = grind arith
    set_iface_case-active dns_key v i h = grind arith
    set_iface_case-active mtu_key v i h = grind arith
    set_iface_case-active listen_port_key v i h = grind arith

    set_iface-active :
        (key v : Bytes) (s : Settings Prefix Addr) → set_iface lib key v s ≢ err no_active_peer
    unfolding set_iface
    set_iface-active key v s h = elim (Option-cases (find_key (to_lower key) iface_keys)) [
      | inl e ↦ grind (arith, e)
      | inr (k, e) ↦ elim (Result-cases (set_iface_case lib k v s.iface)) [
        | inl (f, e1) ↦ grind (arith, e, e1, set_iface_case-active k v s.iface)
        | inr (i, e1) ↦ grind (arith, e, e1)
      ]
    ]

    set_peer_case-active : (k : PeerKey) (v : Bytes) → set_peer_case lib k v ≢ err no_active_peer
    set_peer_case-active public_key_key v h = grind arith
    set_peer_case-active preshared_key_key v h = grind arith
    set_peer_case-active endpoint_key v h = grind arith
    set_peer_case-active allowed_ips_key v h = grind arith
    set_peer_case-active keepalive_key v h = grind arith

    set_peer-active :
        (key v : Bytes) (s : Settings Prefix Addr)
        → 0 < peer_count s
        → set_peer lib key v s ≢ err no_active_peer
    unfolding set_peer
    set_peer-active key v s some_peer h = elim (Option-cases (find_key (to_lower key) peer_keys)) [
      | inl e ↦ grind (arith, e)
      | inr (k, e) ↦ elim (Result-cases (set_peer_case lib k v)) [
        | inl (f, e1) ↦ grind (arith, e, e1, set_peer_case-active k v)
        | inr (f, e1) ↦ grind (arith, e, e1)
      ]
    ]

    parse_meta-active :
        (t : Bytes) (s : Settings Prefix Addr) → parse_meta lib t s ≢ err no_active_peer
    unfolding parse_meta
    parse_meta-active t s h =
        let body = trim_space (drop (length meta_prefix) t) in
        elim (Option-cases (cut_byte 61 (strip_comment body))) [
          | inl e ↦ grind (arith, e)
          | inr ((key, v), e) ↦ grind (arith, e, set-active (trim_space key) (trim_space v) s)
        ]

    set_in-active :
        (cur : Section) (key v : Bytes) (s : Settings Prefix Addr)
        → HasPeer cur s
        → set_in lib cur key v s ≢ err no_active_peer
    set_in-active section_none key v s has h = grind arith
    set_in-active section_interface key v s has h = grind (arith, set_iface-active key v s)
    set_in-active section_peer key v s has h = grind (arith, set_peer-active key v s (has refl))

    parse_pair-active :
        (cur : Section) (body : Bytes) (s : Settings Prefix Addr)
        → HasPeer cur s
        → parse_pair lib cur body s ≢ err no_active_peer
    unfolding parse_pair
    parse_pair-active cur body s has h = elim (Option-cases (cut_byte 61 body)) [
      | inl e ↦ grind (arith, e)
      | inr ((key, v), e) ↦
          set_in-active cur (trim_space key) (trim_space v) s has (rw (e, parse_pair) at h)
    ]

    parse_ini-active :
        (cur : Section) (t : Bytes) (s : Settings Prefix Addr)
        → HasPeer cur s
        → parse_ini lib cur t s ≢ err no_active_peer
    unfolding parse_ini
    parse_ini-active section_none t s has h = grind arith
    parse_ini-active section_interface t s has h =
        grind (arith, parse_pair-active section_interface (strip_comment t) s has)
    parse_ini-active section_peer t s has h =
        grind (arith, parse_pair-active section_peer (strip_comment t) s has)

    stay-active :
        (cur : Section) (r : Result Fault (Settings Prefix Addr))
        → stay cur r ≡ err no_active_peer
        → r ≡ err no_active_peer
    stay-active cur (ok s) h = grind arith
    stay-active cur (err f) h = grind arith

    parse_line-active :
        (cur : Section) (t : Bytes) (s : Settings Prefix Addr)
        → HasPeer cur s
        → parse_line lib cur t s ≢ err no_active_peer
    unfolding parse_line
    parse_line-active cur t s has h = elim (Bool-cases (is_nil t)) [
      | inl e ↦ grind (arith, e)
      | inr e ↦ elim (Bool-cases (has_prefix_fold t meta_prefix)) [
        | inl e2 ↦
            parse_meta-active t s
              (stay-active cur (parse_meta lib t s) (rw (e, e2, parse_line) at h))
        | inr e2 ↦ elim (Bool-cases (is_comment t)) [
          | inl e3 ↦ grind (arith, e, e2, e3)
          | inr e3 ↦ elim (Bool-cases (is_header t)) [
            | inl e4 ↦ grind (arith, e, e2, e3, e4)
            | inr e4 ↦
                parse_ini-active cur t s has
                  (stay-active cur (parse_ini lib cur t s) (rw (e, e2, e3, e4, parse_line) at h))
          ]
        ]
      ]
    ]

    enter-HasPeer :
        (name : Bytes) (s : Settings Prefix Addr) → HasPeer (enter name s).0 (enter name s).1
    enter-HasPeer name s = elim (Bool-cases (equal name (codes "interface"))) [
      | inl e ↦ rw (e) (λ f. absurd (ground (arith, f)))
      | inr e ↦ elim (Bool-cases (equal name (codes "peer"))) [
        | inl e2 ↦ rw (e, e2) (λ f. omega (arith, length-append s.wg_peers (empty_peer ∷ [])))
        | inr e2 ↦ rw (e, e2) (λ f. absurd (ground (arith, f)))
      ]
    ]

    parse_line-HasPeer :
        (cur : Section) (t : Bytes) (s : Settings Prefix Addr) {r : Section × Settings Prefix Addr}
        → HasPeer cur s
        → parse_line lib cur t s ≡ ok r
        → HasPeer r.0 r.1
    parse_line-HasPeer cur t s has h = elim (parse_line-cases lib cur t s h) [
      | unchanged e0 e ↦ rw (e) has
      | by_meta s1 e0 e1 e ↦
          rw (e) (λ f. let n = parse_meta-count lib t s e1 in omega (arith, n, has f))
      | by_header e0 e ↦ rw (e) (enter-HasPeer (header_name t) s)
      | by_pair s1 e0 e1 e ↦
          rw (e) (λ f. let n = parse_ini-count lib cur t s e1 in omega (arith, n, has f))
    ]

    parse_lines-active :
        (cur : Section) (n m : ℕ) (lines : List Bytes) (failed : Bool) (s : Settings Prefix Addr)
        → HasPeer cur s
        → parse_lines lib cur n lines failed s ≢ err (line_error m no_active_peer)
    unfolding parse_lines
    parse_lines-active cur n m [] failed s has h = grind arith
    parse_lines-active cur n m (line ∷ lines) failed s has h =
        elim (Result-cases (parse_line lib cur (trim_space line) s)) [
          | inl (f, e) ↦ grind (arith, e, parse_line-active cur (trim_space line) s has)
          | inr (r, e) ↦
              parse_lines-active r.0 (n + 1) m lines failed r.1
                (parse_line-HasPeer cur (trim_space line) s has e) (rw (e, parse_lines) at h)
        ]

    -- No file makes `Parse` fail with the error that no peer is active.
    pub parse-active :
        (lines : List Bytes) (failed : Bool) (m : ℕ)
        → parse lib lines failed ≢ err (line_error m no_active_peer)
    unfolding parse
    parse-active lines failed m h =
        parse_lines-active section_none 0 m lines failed empty_settings
          (λ f. absurd (ground (arith, f))) h
