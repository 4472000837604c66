-- ===== src/Conf/Keys.antt =====
-- pkg/wgconf/parse.go: `set`, `setIface` and `setPeer`, which assign one key, and the lists and
-- durations that they parse.
use mathlib.Core.Option
use wgturn_core.Prelude.{
  false, List, [], ◌∷◌, Option, none, some, Bytes, Result, ok, err, ◌>>=◌, ◌==◌, if◌then◌else◌,
  length,
}
use wgturn_core.Hub.{ConfigInt, count}
use wgturn_core.Conf.Strings.{to_lower, atoi}
use wgturn_core.Conf.Values.{
  Library, IfaceSection, PeerSection, Settings, Fault, bad_enable_turn, bad_streams,
  bad_streams_per_cred, bad_watchdog, bad_udp, bad_turn_port, bad_enable_server, bad_address,
  bad_dns, bad_mtu, bad_listen_port, no_active_peer, bad_allowed_ips, bad_keepalive, MetaKey,
  enable_turn_key, mode_key, vk_link_key, peer_type_key, streams_key, streams_per_cred_key,
  watchdog_key, udp_key, turn_host_key, turn_port_key, local_listen_key, peer_key,
  enable_server_key, listen_key, backend_key, IfaceKey, private_key_key, address_key, dns_key,
  mtu_key, listen_port_key, PeerKey, public_key_key, preshared_key_key, endpoint_key,
  allowed_ips_key, keepalive_key, wrap, parse_bool, not_negative, at_most, max_port, to_uint16,
  times_second, split_list_field, parse_each, put, find_key, meta_keys, iface_keys, peer_keys,
}

module _ {Prefix : Type 0} where
  abbrev pub empty_peer : PeerSection Prefix
  empty_peer = record {
    public_key = [];
    preshared_key = [];
    endpoint = [];
    allowed_ips = [];
    persistent_keepalive = count 0;
  }

  -- A change of the last element.
  unfoldable pub update_last :
      (PeerSection Prefix → PeerSection Prefix)
      → List (PeerSection Prefix)
      → List (PeerSection Prefix)
  update_last f [] = []
  update_last f (p ∷ []) = f p ∷ []
  update_last f (p ∷ q ∷ ps) = p ∷ update_last f (q ∷ ps)

module _ {Prefix Addr : Type 0} where
  abbrev pub empty_settings : Settings Prefix Addr
  empty_settings = record {
    enable_turn = false;
    mode = [];
    vk_link = [];
    peer_type = [];
    streams = count 0;
    streams_per_cred = count 0;
    watchdog_timeout = count 0;
    udp = false;
    turn_host = [];
    turn_port = count 0;
    local_listen = [];
    peer = [];
    enable_server = false;
    listen = [];
    backend = [];
    iface = record { private_key = []; address = []; dns = []; mtu = count 0; listen_port = 0 };
    wg_peers = [];
    unknown = [];
  }

  module _ (lib : Library Prefix Addr) where
    -- A token of a prefix list: a prefix, or an address with all its bits.
    unfoldable pub parse_prefix_or_addr : Bytes → Option Prefix
    parse_prefix_or_addr t = elim (lib.parse_prefix t) [
      | some p ↦ some p
      | none ↦
          Option.map (λ a. lib.prefix_from a (if lib.is6 a then 128 else 32)) (lib.parse_addr t)
    ]

    unfoldable pub parse_prefix_list : Bytes → Option (List Prefix)
    unfolding parse_each parse_prefix_or_addr split_list_field
    parse_prefix_list v = parse_each parse_prefix_or_addr (split_list_field v)

    unfoldable pub parse_addr_list : Bytes → Option (List Addr)
    unfolding parse_each split_list_field
    parse_addr_list v = parse_each lib.parse_addr (split_list_field v)

    -- A duration as Go writes it, or bare seconds.
    unfoldable pub parse_seconds : Bytes → Option ConfigInt
    unfolding atoi
    parse_seconds v = elim (lib.parse_duration v) [
      | some d ↦ some d
      | none ↦ Option.map times_second (not_negative (atoi v))
    ]

    -- The cases of `set`.
    abbrev pub set_case :
        MetaKey → Bytes → Settings Prefix Addr → Result Fault (Settings Prefix Addr)
    set_case enable_turn_key v s =
        wrap bad_enable_turn (parse_bool v) >>= λ b. ok (record s { enable_turn = b })
    set_case mode_key v s = ok (record s { mode = v })
    set_case vk_link_key v s = ok (record s { vk_link = v })
    set_case peer_type_key v s = ok (record s { peer_type = v })
    set_case streams_key v s =
        wrap bad_streams (not_negative (atoi v)) >>= λ n. ok (record s { streams = count n })
    set_case streams_per_cred_key v s = wrap bad_streams_per_cred (not_negative (atoi v)) >>= λ n.
        ok (record s { streams_per_cred = count n })
    set_case watchdog_key v s =
        wrap bad_watchdog (parse_seconds v) >>= λ d. ok (record s { watchdog_timeout = d })
    set_case udp_key v s = wrap bad_udp (parse_bool v) >>= λ b. ok (record s { udp = b })
    set_case turn_host_key v s = ok (record s { turn_host = v })
    set_case turn_port_key v s = wrap bad_turn_port (at_most max_port (atoi v)) >>= λ n.
        ok (record s { turn_port = count n })
    set_case local_listen_key v s = ok (record s { local_listen = v })
    set_case peer_key v s = ok (record s { peer = v })
    set_case enable_server_key v s =
        wrap bad_enable_server (parse_bool v) >>= λ b. ok (record s { enable_server = b })
    set_case listen_key v s = ok (record s { listen = v })
    set_case backend_key v s = ok (record s { backend = v })

    -- `set`
    unfoldable pub set : Bytes → Bytes → Settings Prefix Addr → Result Fault (Settings Prefix Addr)
    set key v s = elim (find_key (to_lower key) meta_keys) [
      | some case ↦ set_case case v s
      | none ↦ ok (record s { unknown = put (to_lower key) v s.unknown })
    ]

    -- The cases of `setIface`.
    abbrev pub set_iface_case :
        IfaceKey → Bytes → IfaceSection Prefix Addr → Result Fault (IfaceSection Prefix Addr)
    set_iface_case private_key_key v i = ok (record i { private_key = v })
    set_iface_case address_key v i =
        wrap bad_address (parse_prefix_list v) >>= λ ps. ok (record i { address = ps })
    set_iface_case dns_key v i =
        wrap bad_dns (parse_addr_list v) >>= λ addrs. ok (record i { dns = addrs })
    set_iface_case mtu_key v i =
        wrap bad_mtu (not_negative (atoi v)) >>= λ n. ok (record i { mtu = count n })
    set_iface_case listen_port_key v i = wrap bad_listen_port (at_most max_port (atoi v)) >>= λ n.
        ok (record i { listen_port = to_uint16 n })

    -- `setIface`
    unfoldable pub set_iface :
        Bytes → Bytes → Settings Prefix Addr → Result Fault (Settings Prefix Addr)
    set_iface key v s = elim (find_key (to_lower key) iface_keys) [
      | some case ↦ set_iface_case case v s.iface >>= λ i. ok (record s { iface = i })
      | none ↦ ok s
    ]

    -- The cases of `setPeer`: the change of the peer.
    abbrev pub set_peer_case :
        PeerKey → Bytes → Result Fault (PeerSection Prefix → PeerSection Prefix)
    set_peer_case public_key_key v = ok (λ p. record p { public_key = v })
    set_peer_case preshared_key_key v = ok (λ p. record p { preshared_key = v })
    set_peer_case endpoint_key v = ok (λ p. record p { endpoint = v })
    set_peer_case allowed_ips_key v =
        wrap bad_allowed_ips (parse_prefix_list v) >>= λ ps. ok (λ p. record p { allowed_ips = ps })
    set_peer_case keepalive_key v = wrap bad_keepalive (parse_seconds v) >>= λ d.
        ok (λ p. record p { persistent_keepalive = d })

    -- `setPeer`, on the last peer.
    unfoldable pub set_peer :
        Bytes → Bytes → Settings Prefix Addr → Result Fault (Settings Prefix Addr)
    unfolding update_last
    set_peer key v s =
        if length s.wg_peers == 0
        then err no_active_peer
        else elim (find_key (to_lower key) peer_keys) [
          | some case ↦
              set_peer_case case v >>= λ f. ok (record s { wg_peers = update_last f s.wg_peers })
          | none ↦ ok s
        ]
