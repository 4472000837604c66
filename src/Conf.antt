-- ===== src/Conf.antt =====
-- pkg/wgconf/parse.go: the configuration file. What the reader's scanner delivers, its lines and
-- whether it failed at the end, is an argument; the settings that accompany an error are left out.
pub mod Strings
pub mod Values
pub mod Keys
pub mod Trim
mod Loop
mod Tests
pub mod Active
pub mod Ranges
pub mod Noise
pub mod Lift
pub mod Peers
use Strings.{
  is_space, trim_left, keep, trim_right, trim_space, lower, to_lower, before, cut_byte, ends_in,
  init, digits, number, in_range, positive, negated, atoi, flush, extend, split_at, fields_func,
}
use Values.{
  Library, IfaceSection, PeerSection, Settings, Fault, missing_equals, empty_key, bad_enable_turn,
  bad_streams, bad_streams_per_cred, bad_watchdog, bad_udp, bad_turn_port, bad_enable_server,
  bad_address, bad_dns, bad_mtu, bad_listen_port, no_active_peer, bad_allowed_ips, bad_keepalive,
  MetaKey, enable_turn_key, mode_key, vk_link_key, peer_type_key, streams_key, streams_per_cred_key,
  watchdog_key, udp_key, turn_host_key, turn_port_key, local_listen_key, peer_key,
  enable_server_key, listen_key, backend_key, IfaceKey, private_key_key, address_key, dns_key,
  mtu_key, listen_port_key, PeerKey, public_key_key, preshared_key_key, endpoint_key,
  allowed_ips_key, keepalive_key, wrap, is_one_of, parse_bool, not_negative, at_most, max_port,
  to_uint16, signed, times_second, is_separator, trimmed, split_list_field, parse_each, put,
  find_key, meta_keys, iface_keys, peer_keys,
}
use Keys.{
  empty_peer, update_last, empty_settings, parse_prefix_or_addr, parse_prefix_list, parse_addr_list,
  parse_seconds, set_case, set, set_iface_case, set_iface, set_peer_case, set_peer,
}
use mathlib.Core.Option
use wgturn_core.Prelude.{
  ℕ, zero, suc, ◌+◌, ◌-◌, ◌*◌, ◌%◌, ◌^◌, ◌≤◌, Bool, true, false, not, ◌&&◌, ◌||◌, List, [], ◌∷◌,
  ◌++◌, Option, none, some, Bytes, codes, equal, Result, ok, err, ◌>>=◌, leb, ltb, ◌==◌,
  if◌then◌else◌, take, drop, length, has_prefix,
}
use wgturn_core.Hub.{ConfigInt, count, below_zero}
use wgturn_core.Tunnel.{is_nil, Config}

abbrev pub meta_prefix : Bytes
meta_prefix = codes "#@wgt:"

abbrev pub default_local_listen : Bytes
default_local_listen = codes "127.0.0.1:9000"

pub data Section : Type 0 where
  section_none section_interface section_peer : Section

pub data ConfError : Type 0 where
  line_error : ℕ → Fault → ConfError
  read_error : ConfError

-- `hasPrefixFold`
unfoldable pub has_prefix_fold : Bytes → Bytes → Bool
unfolding to_lower
has_prefix_fold s prefix =
    if ltb (length s) (length prefix)
    then false
    else equal (to_lower (take (length prefix) s)) (to_lower prefix)

-- The text in front of a `;`, trimmed.
unfoldable pub strip_comment : Bytes → Bytes
unfolding cut_byte trim_space
strip_comment body = elim (cut_byte 59 body) [ none ↦ body | some (s, t) ↦ trim_space s ]

-- The tests of the loop of `Parse` on a trimmed line, and the name of a section header.
unfoldable pub is_comment : Bytes → Bool
is_comment t = has_prefix t (codes "#") || has_prefix t (codes ";")

unfoldable pub is_header : Bytes → Bool
unfolding ends_in
is_header t = has_prefix t (codes "[") && ends_in 93 t

unfoldable pub header_name : Bytes → Bytes
unfolding to_lower trim_space init
header_name t = to_lower (trim_space (init (drop 1 t)))

abbrev pub at_line {ℓ} : {A : Type ℓ} → ℕ → Result Fault A → Result ConfError A
at_line n (err e) = err (line_error n e)
at_line n (ok a) = ok a

module _ {Prefix Addr : Type 0} where
  -- A section header.
  abbrev pub enter : Bytes → Settings Prefix Addr → Section × Settings Prefix Addr
  enter name s =
      if equal name (codes "interface")
      then (section_interface, s)
      else if equal name (codes "peer")
      then (section_peer, record s { wg_peers = s.wg_peers ++ (empty_peer ∷ []) })
      else (section_none, s)

  abbrev pub stay :
      Section → Result Fault (Settings Prefix Addr) → Result Fault (Section × Settings Prefix Addr)
  stay cur r = r >>= λ s. ok (cur, s)

  module _ (lib : Library Prefix Addr) where
    -- What is done with the key and the value of a metadata line, both trimmed.
    abbrev pub set_meta : Bytes → Bytes → Settings Prefix Addr → Result Fault (Settings Prefix Addr)
    set_meta key v s = if is_nil key then err empty_key else set lib key v s

    -- `parseMeta`
    unfoldable pub parse_meta : Bytes → Settings Prefix Addr → Result Fault (Settings Prefix Addr)
    unfolding cut_byte trim_space set
    parse_meta line s =
        let body = trim_space (drop (length meta_prefix) line) in
        if is_nil body then ok s else elim (cut_byte 61 (strip_comment body)) [
          | none ↦ err missing_equals
          | some (key, v) ↦ set_meta (trim_space key) (trim_space v) s
        ]

    -- A line of a section, without its comment.
    abbrev pub set_in :
        Section → Bytes → Bytes → Settings Prefix Addr → Result Fault (Settings Prefix Addr)
    set_in section_none key v s = ok s
    set_in section_interface key v s = if is_nil key then ok s else set_iface lib key v s
    set_in section_peer key v s = if is_nil key then ok s else set_peer lib key v s

    unfoldable pub parse_pair :
        Section → Bytes → Settings Prefix Addr → Result Fault (Settings Prefix Addr)
    unfolding cut_byte trim_space set_iface set_peer
    parse_pair cur body s = elim (cut_byte 61 body) [
      | none ↦ ok s
      | some (key, v) ↦ set_in cur (trim_space key) (trim_space v) s
    ]

    -- A line of the sections, without its comment.
    abbrev pub parse_body :
        Section → Bytes → Settings Prefix Addr → Result Fault (Settings Prefix Addr)
    parse_body cur body s = if is_nil body then ok s else parse_pair cur body s

    unfoldable pub parse_ini :
        Section → Bytes → Settings Prefix Addr → Result Fault (Settings Prefix Addr)
    unfolding parse_pair strip_comment
    parse_ini section_none t s = ok s
    parse_ini section_interface t s = parse_body section_interface (strip_comment t) s
    parse_ini section_peer t s = parse_body section_peer (strip_comment t) s

    -- One round of the loop of `Parse`, on the trimmed line: the section and the settings after it.
    unfoldable pub parse_line :
        Section → Bytes → Settings Prefix Addr → Result Fault (Section × Settings Prefix Addr)
    unfolding has_prefix_fold parse_meta parse_ini is_header header_name
    parse_line cur t s =
        if is_nil t
        then ok (cur, s)
        else if has_prefix_fold t meta_prefix
        then stay cur (parse_meta t s)
        else if is_comment t
        then ok (cur, s)
        else if is_header t
        then ok (enter (header_name t) s)
        else stay cur (parse_ini cur t s)

    -- The lines behind line `n`, and whether the scanner failed after them.
    unfoldable pub parse_lines :
        Section
        → ℕ
        → List Bytes
        → Bool
        → Settings Prefix Addr
        → Result ConfError (Settings Prefix Addr)
    unfolding parse_line
    parse_lines cur n [] failed s = if failed then err read_error else ok s
    parse_lines cur n (line ∷ lines) failed s =
        at_line (n + 1) (parse_line cur (trim_space line) s) >>= λ r.
        parse_lines r.0 (n + 1) lines failed r.1

    -- `Parse`
    unfoldable pub parse : List Bytes → Bool → Result ConfError (Settings Prefix Addr)
    unfolding parse_lines
    parse lines failed = parse_lines section_none 0 lines failed empty_settings

-- `ParseBackendSpec`
pub data BackendKind : Type 0 where
  backend_udp backend_wgkernel : BackendKind

pub data SpecError : Type 0 where
  empty_spec missing_host_port unknown_spec : SpecError

abbrev pub udp_spec : Bytes → Result SpecError (BackendKind × Bytes)
udp_spec addr = if is_nil addr then err missing_host_port else ok (backend_udp, addr)

unfoldable pub parse_backend_spec : Bytes → Result SpecError (BackendKind × Bytes)
unfolding to_lower trim_space
parse_backend_spec spec =
    let t = trim_space spec in
    if is_nil t
    then err empty_spec
    else if equal (to_lower t) (codes "wgkernel")
    then ok (backend_wgkernel, [])
    else if has_prefix (to_lower t) (codes "udp:")
    then udp_spec (trim_space (drop 4 t))
    else err unknown_spec

-- `ToTunnelConfig`
pub data LiftError : Type 0 where
  turn_disabled peer_required : LiftError

unfoldable pub to_tunnel_config :
    {Prefix Addr : Type 0} → Settings Prefix Addr → Result LiftError Config
to_tunnel_config s =
    if not s.enable_turn
    then err turn_disabled
    else if is_nil s.peer
    then err peer_required
    else ok (record {
      peer_addr = s.peer;
      listen_addr = if is_nil s.local_listen then default_local_listen else s.local_listen;
      streams = s.streams;
      streams_per_cred = s.streams_per_cred;
      peer_type = s.peer_type;
      mode = s.mode;
      hint = s.vk_link;
      hints = [];
      udp = s.udp;
      turn_host_override = s.turn_host;
      turn_port_override = s.turn_port;
      watchdog_timeout = s.watchdog_timeout;
      has_provider = false;
      has_protector = false;
      has_logger = false;
    })
