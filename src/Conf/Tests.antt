-- ===== src/Conf/Tests.antt =====
-- Runs of the configuration parser, and the properties at concrete files.
use wgturn_core.Prelude.{
  true, false, List, [], ◌∷◌, ◌++◌, none, some, Bytes, codes, contains, equal, ok, err, ◌≡◌, ◌≢◌,
  refl, if◌then◌else◌, length, has_prefix,
}
use wgturn_core.Hub.{count, below_zero}
use wgturn_core.Tunnel.{Config, streams_over_255, validate, is_peer_type, first_problem}
use wgturn_core.Tunnel.HostPort.{split_host_port}
use wgturn_core.Conf.Strings.{
  trim_left, trim_right, trim_space, to_lower, cut_byte, ends_in, init, digits, number, atoi,
  split_at, fields_func,
}
use wgturn_core.Conf.Values.{
  no_active_peer, Library, Settings, missing_equals, is_one_of, parse_bool, trimmed,
  split_list_field, parse_each, put, find_key,
}
use wgturn_core.Conf.Keys.{
  empty_peer, update_last, empty_settings, parse_prefix_or_addr, parse_prefix_list, parse_addr_list,
  parse_seconds, set, set_iface, set_peer,
}
use wgturn_core.Conf.Ranges.{InRange, parse-InRange}
use wgturn_core.Conf.Peers.{peer_lines, parse-peer_lines}
use wgturn_core.Conf.Active.{parse-active}
use wgturn_core.Conf.Lift.{is_late, supply, parse-validate, parse_backend_spec_udp}
use wgturn_core.Conf.{
  line_error, backend_udp, default_local_listen, has_prefix_fold, strip_comment, is_comment,
  is_header, header_name, parse_meta, parse_pair, parse_ini, parse_line, parse_lines, parse,
  parse_backend_spec, to_tunnel_config,
}

-- Prefixes and addresses as their texts; a prefix has a slash, an address a dot.
abbrev text_library : Library Bytes Bytes
text_library = record {
  parse_duration = λ t. if equal t (codes "90s") then some (count 90000000000) else none;
  parse_prefix = λ t. if contains t (codes "/") then some t else none;
  parse_addr = λ t. if contains t (codes ".") then some t else none;
  is6 = λ a. contains a (codes ":");
  prefix_from = λ a bits. a ++ codes "/32";
}

abbrev some_file : List Bytes
some_file =
    codes "# a comment"
    ∷ codes "#@WGT:EnableTURN = yes"
    ∷ codes "#@wgt:Streams = 300 ; too many"
    ∷ codes "#@wgt:Peer = 192.0.2.1:56000"
    ∷ []
    ∷ codes "[Interface]"
    ∷ codes "ListenPort = 51820"
    ∷ codes "Address = 10.0.0.2, 10.0.1.0/24"
    ∷ codes " [Peer] "
    ∷ codes "PublicKey = abc"
    ∷ codes "PersistentKeepalive = 25"
    ∷ codes "PostUp = anything"
    ∷ []

abbrev some_settings : Settings Bytes Bytes
some_settings = record empty_settings {
  enable_turn = true;
  streams = count 300;
  peer = codes "192.0.2.1:56000";
  iface = record {
    private_key = [];
    address = codes "10.0.0.2/32" ∷ codes "10.0.1.0/24" ∷ [];
    dns = [];
    mtu = count 0;
    listen_port = 51820;
  };
  wg_peers =
      record empty_peer { public_key = codes "abc"; persistent_keepalive = count 25000000000 } ∷ [];
}

some_file_parsed : parse text_library some_file false ≡ ok some_settings
unfolding trim_left trim_right trim_space to_lower cut_byte ends_in digits number atoi split_at
    fields_func is_one_of parse_bool trimmed split_list_field parse_each put find_key update_last
    parse_prefix_or_addr parse_prefix_list parse_addr_list parse_seconds set set_iface set_peer
    has_prefix_fold strip_comment is_comment is_header header_name parse_meta parse_pair parse_ini
    parse_line parse_lines parse init has_prefix contains equal
some_file_parsed = refl

-- A file whose second line is no pair.
missing_equals_refused :
    parse text_library (codes "#@wgt:Mode = stub" ∷ codes "#@wgt:Mode" ∷ []) false
    ≡ err (line_error 2 missing_equals)
unfolding trim_left trim_right trim_space to_lower cut_byte ends_in digits number atoi split_at
    fields_func is_one_of parse_bool trimmed split_list_field parse_each put find_key update_last
    parse_prefix_or_addr parse_prefix_list parse_addr_list parse_seconds set set_iface set_peer
    has_prefix_fold strip_comment is_comment is_header header_name parse_meta parse_pair parse_ini
    parse_line parse_lines parse init has_prefix contains equal
missing_equals_refused = refl

-- Bare seconds wrap: this number of seconds is a negative duration, and the next a short one.
long_watchdog_negative : parse_seconds text_library (codes "9223372037") ≡ some below_zero
unfolding trim_left trim_right trim_space to_lower cut_byte ends_in digits number atoi split_at
    fields_func is_one_of parse_bool trimmed split_list_field parse_each put find_key update_last
    parse_prefix_or_addr parse_prefix_list parse_addr_list parse_seconds set set_iface set_peer
    has_prefix_fold strip_comment is_comment is_header header_name parse_meta parse_pair parse_ini
    parse_line parse_lines parse init has_prefix contains equal
long_watchdog_negative = refl

longer_watchdog_short : parse_seconds text_library (codes "18446744074") ≡ some (count 290448384)
unfolding trim_left trim_right trim_space to_lower cut_byte ends_in digits number atoi split_at
    fields_func is_one_of parse_bool trimmed split_list_field parse_each put find_key update_last
    parse_prefix_or_addr parse_prefix_list parse_addr_list parse_seconds set set_iface set_peer
    has_prefix_fold strip_comment is_comment is_header header_name parse_meta parse_pair parse_ini
    parse_line parse_lines parse init has_prefix contains equal
longer_watchdog_short = refl

parse-InRange_example : InRange some_settings
parse-InRange_example = parse-InRange text_library some_file false some_file_parsed

parse-peer_lines_runs : length some_settings.wg_peers ≡ peer_lines some_file
parse-peer_lines_runs = parse-peer_lines text_library some_file false some_file_parsed

parse_active_file : parse text_library some_file false ≢ err (line_error 10 no_active_peer)
parse_active_file = parse-active text_library some_file false 10

abbrev some_config : Config
some_config = record {
  peer_addr = codes "192.0.2.1:56000";
  listen_addr = default_local_listen;
  streams = count 300;
  streams_per_cred = count 0;
  peer_type = [];
  mode = [];
  hint = [];
  hints = [];
  udp = false;
  turn_host_override = [];
  turn_port_override = count 0;
  watchdog_timeout = count 0;
  has_provider = false;
  has_protector = false;
  has_logger = false;
}

some_settings_lifted : to_tunnel_config some_settings ≡ ok some_config
unfolding to_tunnel_config
some_settings_lifted = refl

some_config_problem : validate (supply some_config) ≡ some streams_over_255
unfolding validate first_problem is_peer_type equal split_host_port
some_config_problem = refl

parse-validate_example : is_late streams_over_255 ≡ true
parse-validate_example =
    parse-validate text_library some_file false streams_over_255 some_file_parsed
      some_settings_lifted some_config_problem

spec_trimmed : trim_space (codes "Host:51820") ≡ codes "Host:51820"
unfolding trim_space trim_left trim_right
spec_trimmed = refl

udp_with_port :
    parse_backend_spec (codes "udp:" ++ codes "Host:51820") ≡ ok (backend_udp, codes "Host:51820")
udp_with_port = parse_backend_spec_udp (codes "Host:51820") refl spec_trimmed
