-- ===== src/Admin/Tests.antt =====
-- Runs of the administration, and the properties at a concrete file.
use wgturn_core.Prelude.{
  ℕ, ◌/◌, ◌%◌, ◌+◌, ◌*◌, ◌||◌, true, false, List, [], ◌∷◌, ◌++◌, map, Option, none, some, Bytes,
  codes, contains, equal, has_prefix, Result, ok, err, ◌≡◌, refl, if◌then◌else◌, ◌==◌, ltb,
}
use wgturn_core.Conf.Strings.{
  trim_left, trim_right, trim_space, to_lower, cut_byte, ends_in, init, digits, number, split_at,
  fields_func,
}
use wgturn_core.Conf.Values.{trimmed, parse_each}
use wgturn_core.Conf.Keys.{parse_prefix_or_addr}
use wgturn_core.Conf.{is_comment, is_header, header_name}
use wgturn_core.Admin.Allocate.{
  Address, Subnet, subnet_exhausted, size, first, in_subnet, next, is_broadcast, is_used,
  search_free, allocate_client_ip,
}
use wgturn_core.Admin.Allocate.Lowest.{Allocates, allocate_client_ip-Allocates}
use wgturn_core.Admin.File.{
  AdminPeer, ConfState, split_lines, scan_lines, print_lines, enter_section, interface_line,
  parse_ips, peer_line, section_line, scan_line, scan_all, parse_conf, join_ips, key_lines,
  format_peer, blocks, write_conf,
}
use wgturn_core.Admin.File.Text.{is_clean-Clean, no_return-NoReturn}
use wgturn_core.Admin.File.RoundTrip.{parse_conf-write_conf}
use wgturn_core.Admin.Clients.{Provisioned, provision-Provisioned, provision_failed}
use wgturn_core.Admin.Relist.{list-revoke}
use wgturn_core.Admin.Enroll.{IsField}
use wgturn_core.Admin.Enrolled.{list-provision}
use wgturn_core.Admin.{
  Prefixes, AdminServer, Profile, Keypair, Outside, client, has_name, remove_name, single_addresses,
  existing_peer_addrs, read_state, list_peers, commit, prepare, provision, AdminError, without_peer,
  revoke, port_lines, stripped_peers, stripped_conf, peer_exists,
}

-- Prefixes as their texts, such as `10.7.0.2/32`.
abbrev decimal : ℕ → Bytes
decimal n =
    if ltb n 10
    then (48 + n) ∷ []
    else if ltb n 100
    then (48 + n / 10) ∷ (48 + n % 10) ∷ []
    else (48 + n / 100) ∷ (48 + n / 10 % 10) ∷ (48 + n % 10) ∷ []

abbrev dotted : ℕ → Bytes
dotted n =
    decimal (n / 16777216)
    ++ codes "."
    ++ decimal (n / 65536 % 256)
    ++ codes "."
    ++ decimal (n / 256 % 256)
    ++ codes "."
    ++ decimal (n % 256)

abbrev v4 : ℕ → Address
v4 n = record { is4 = true; value = n }

abbrev single_of : List (Option ℕ) → Option Address
single_of (some a ∷ some b ∷ some c ∷ some d ∷ some n ∷ []) =
    if n == 32 then some (v4 (16777216 * a + 65536 * b + 256 * c + d)) else none
single_of fields = none

abbrev text_prefixes : Prefixes Bytes
text_prefixes = record {
  lib = record {
    parse_duration = λ t. none;
    parse_prefix = λ t. if contains t (codes "/") then some t else none;
    parse_addr = λ t. none;
    is6 = λ a. false;
    prefix_from = λ a n. dotted a.value ++ (47 ∷ decimal n);
  };
  show = λ p. p;
  single = λ p. single_of (map number (fields_func (λ c. (c == 46) || (c == 47)) p));
}

-- 10.7.0.0/29, with the server at 10.7.0.1.
abbrev small_subnet : Subnet
small_subnet = record { network = v4 168230912; bits = 29 }

abbrev some_server : AdminServer Bytes
some_server = record {
  conf_path = codes "/etc/wireguard/wg0.conf";
  subnet = some small_subnet;
  server_address = some (v4 168230913);
  endpoint = codes "198.51.100.7:51820";
  allowed_ips = [];
}

abbrev some_outside : Outside
some_outside = record {
  public_key_for = λ k. some (codes "SERVER");
  keypair = some (record { private = codes "PRIV"; public = codes "PUB" });
  preshared = some (codes "PSK");
  writes = true;
  syncs = true;
}

abbrev some_lines : List Bytes
some_lines =
    codes "[Interface]"
    ∷ codes "PrivateKey = KEY"
    ∷ codes "ListenPort = 51820"
    ∷ codes "PostUp = iptables -A FORWARD"
    ∷ []
    ∷ codes "[Peer]"
    ∷ codes "# wgturn-name = alice"
    ∷ codes "PublicKey = A"
    ∷ codes "AllowedIPs = 10.7.0.2/32"
    ∷ []

abbrev some_conf : Bytes
some_conf = print_lines some_lines

some_conf-lines : scan_lines some_conf ≡ some_lines
unfolding scan_lines split_lines print_lines ends_in
some_conf-lines = refl

abbrev alice : AdminPeer Bytes
alice = record {
  name = codes "alice";
  public_key = codes "A";
  preshared_key = [];
  allowed_ips = codes "10.7.0.2/32" ∷ [];
  raw_lines =
      codes "[Peer]"
      ∷ codes "# wgturn-name = alice"
      ∷ codes "PublicKey = A"
      ∷ codes "AllowedIPs = 10.7.0.2/32"
      ∷ [];
}

abbrev some_state : ConfState Bytes
some_state = record {
  header =
      codes "[Interface]"
      ∷ codes "PrivateKey = KEY"
      ∷ codes "ListenPort = 51820"
      ∷ codes "PostUp = iptables -A FORWARD"
      ∷ []
      ∷ [];
  private_key = codes "KEY";
  peers = alice ∷ [];
}

some_conf-state : parse_conf text_prefixes.lib some_conf ≡ ok some_state
unfolding parse_conf scan_lines split_lines print_lines ends_in init scan_all scan_line section_line
    enter_section interface_line peer_line parse_ips parse_prefix_or_addr parse_each fields_func
    split_at trim_space trim_left trim_right to_lower cut_byte is_comment is_header header_name
    has_prefix equal contains trimmed
some_conf-state = refl

parse_conf-write_conf_example :
    parse_conf text_prefixes.lib (write_conf text_prefixes.show some_state) ≡ ok some_state
unfolding print_lines
parse_conf-write_conf_example =
    parse_conf-write_conf text_prefixes.lib text_prefixes.show some_conf
      (no_return-NoReturn some_conf refl) some_conf-state

allocate_client_ip-Allocates_example :
    Allocates small_subnet
      (v4 168230913 ∷ v4 168230914 ∷ [])
      (allocate_client_ip (some small_subnet) (some (v4 168230913)) (v4 168230914 ∷ []))
allocate_client_ip-Allocates_example =
    allocate_client_ip-Allocates small_subnet (some (v4 168230913)) (v4 168230914 ∷ [])

-- The address behind the server's and alice's; and a subnet whose last address is the broadcast one.
allocate_third :
    (allocate_client_ip (some small_subnet) (some (v4 168230913)) (v4 168230914 ∷ [])
      ≡ ok (v4 168230915))
    × (allocate_client_ip
          (some (record small_subnet { bits = 30 }))
          (some (v4 168230913))
          (v4 168230914 ∷ [])
        ≡ err subnet_exhausted)
unfolding allocate_client_ip search_free next first size in_subnet is_broadcast is_used
allocate_third = (refl, refl)

abbrev keys_of_bob : Keypair
keys_of_bob = record { private = codes "PRIV"; public = codes "PUB" }

abbrev bob : AdminPeer Bytes
bob = client text_prefixes (codes "bob") keys_of_bob (codes "PSK") (v4 168230915)

abbrev profile_of_bob : Profile Bytes
profile_of_bob = record {
  label = codes "bob";
  server_public_key = codes "SERVER";
  client_private_key = codes "PRIV";
  preshared_key = codes "PSK";
  endpoint = codes "198.51.100.7:51820";
  address = codes "10.7.0.3/29";
  allowed_ips = [];
}

abbrev conf_with_bob : Bytes
conf_with_bob = print_lines (
    some_lines
    ++ ([]
        ∷ codes "[Peer]"
        ∷ codes "# wgturn-name = bob"
        ∷ codes "PublicKey = PUB"
        ∷ codes "PresharedKey = PSK"
        ∷ codes "AllowedIPs = 10.7.0.3/32"
        ∷ []))

provision_bob :
    provision text_prefixes some_server some_outside (some some_conf) (codes "bob")
    ≡ (some conf_with_bob, ok profile_of_bob)
unfolding provision prepare read_state has_name existing_peer_addrs single_addresses
    allocate_client_ip search_free next first size in_subnet is_broadcast is_used commit write_conf
    blocks format_peer key_lines join_ips number digits parse_conf scan_lines split_lines
    print_lines ends_in init scan_all scan_line section_line enter_section interface_line peer_line
    parse_ips parse_prefix_or_addr parse_each fields_func split_at trim_space trim_left trim_right
    to_lower cut_byte is_comment is_header header_name has_prefix equal contains trimmed
provision_bob = refl

provision-Provisioned_runs :
    Provisioned text_prefixes some_server some_outside
      (some some_conf)
      (some conf_with_bob)
      (codes "bob")
      profile_of_bob
provision-Provisioned_runs =
    provision-Provisioned text_prefixes some_server some_outside (some some_conf) (codes "bob")
      provision_bob

shown_alice :
    list_peers text_prefixes some_server (some some_conf)
    ≡ ok (record alice { raw_lines = [] } ∷ [])
unfolding list_peers read_state parse_conf scan_lines split_lines print_lines ends_in init scan_all
    scan_line section_line enter_section interface_line peer_line parse_ips parse_prefix_or_addr
    parse_each fields_func split_at trim_space trim_left trim_right to_lower cut_byte is_comment
    is_header header_name has_prefix equal contains trimmed
shown_alice = refl

bob_address :
    allocate_client_ip
      (some small_subnet)
      (some (v4 168230913))
      (existing_peer_addrs text_prefixes (record alice { raw_lines = [] } ∷ []))
    ≡ ok (v4 168230915)
unfolding allocate_client_ip search_free next first size in_subnet is_broadcast is_used
    existing_peer_addrs single_addresses number digits fields_func split_at
bob_address = refl

bob_ips : parse_ips text_prefixes.lib (codes "10.7.0.3/32") ≡ some (codes "10.7.0.3/32" ∷ [])
unfolding parse_ips parse_each parse_prefix_or_addr contains has_prefix fields_func split_at trimmed
    trim_space trim_left trim_right
bob_ips = refl

bob-IsField : IsField (codes "bob")
unfolding trim_space trim_left trim_right
bob-IsField = record { filled = refl; trimmed = refl; clean = is_clean-Clean (codes "bob") refl }

key-IsField : IsField (codes "PUB")
unfolding trim_space trim_left trim_right
key-IsField = record { filled = refl; trimmed = refl; clean = is_clean-Clean (codes "PUB") refl }

psk-IsField : IsField (codes "PSK")
unfolding trim_space trim_left trim_right
psk-IsField = record { filled = refl; trimmed = refl; clean = is_clean-Clean (codes "PSK") refl }

ips-IsField : IsField (codes "10.7.0.3/32")
unfolding trim_space trim_left trim_right
ips-IsField = record {
  filled = refl;
  trimmed = refl;
  clean = is_clean-Clean (codes "10.7.0.3/32") refl;
}

list-provision_example :
    list_peers text_prefixes some_server (some conf_with_bob)
    ≡ ok (record alice { raw_lines = [] } ∷ bob ∷ [])
unfolding print_lines
list-provision_example =
    list-provision text_prefixes some_server some_outside some_conf (codes "bob") (codes "PSK")
      keys_of_bob (record alice { raw_lines = [] } ∷ []) (v4 168230915)
      (no_return-NoReturn some_conf refl) shown_alice bob_address ips-IsField bob_ips refl refl
      bob-IsField key-IsField psk-IsField provision_bob

provision_alice :
    provision text_prefixes some_server some_outside (some some_conf) (codes "alice")
    ≡ (some some_conf, err peer_exists)
unfolding provision prepare read_state has_name existing_peer_addrs single_addresses
    allocate_client_ip search_free next first size in_subnet is_broadcast is_used commit write_conf
    blocks format_peer key_lines join_ips number digits parse_conf scan_lines split_lines
    print_lines ends_in init scan_all scan_line section_line enter_section interface_line peer_line
    parse_ips parse_prefix_or_addr parse_each fields_func split_at trim_space trim_left trim_right
    to_lower cut_byte is_comment is_header header_name has_prefix equal contains trimmed
provision_alice = refl

provision_failed_runs : some some_conf ≡ some some_conf
provision_failed_runs =
    provision_failed text_prefixes some_server some_outside (some some_conf) (codes "alice")
      peer_exists (λ e. cc) provision_alice

abbrev conf_without_alice : Bytes
conf_without_alice = print_lines (
    codes "[Interface]"
    ∷ codes "PrivateKey = KEY"
    ∷ codes "ListenPort = 51820"
    ∷ codes "PostUp = iptables -A FORWARD"
    ∷ []
    ∷ [])

revoke_alice :
    revoke text_prefixes some_server some_outside (some some_conf) (codes "alice")
    ≡ (some conf_without_alice, ok tt)
unfolding revoke without_peer remove_name provision prepare read_state has_name existing_peer_addrs
    single_addresses allocate_client_ip search_free next first size in_subnet is_broadcast is_used
    commit write_conf blocks format_peer key_lines join_ips number digits parse_conf scan_lines
    split_lines print_lines ends_in init scan_all scan_line section_line enter_section
    interface_line peer_line parse_ips parse_prefix_or_addr parse_each fields_func split_at
    trim_space trim_left trim_right to_lower cut_byte is_comment is_header header_name has_prefix
    equal contains trimmed
revoke_alice = refl

list-revoke_example :
    (rest : List (AdminPeer Bytes)) × (remove_name
        (codes "alice")
        (record alice { raw_lines = [] } ∷ [])
      ≡ some rest)
    × (list_peers text_prefixes some_server (some conf_without_alice) ≡ ok rest)
unfolding print_lines
list-revoke_example =
    list-revoke text_prefixes some_server some_outside some_conf (codes "alice")
      (record alice { raw_lines = [] } ∷ []) (some conf_without_alice)
      (no_return-NoReturn some_conf refl) shown_alice revoke_alice

-- A name with a space at its end is taken as new, and is the other peer's name in the file.
abbrev names_of : Option Bytes × Result AdminError (Profile Bytes) → List Bytes
names_of (disk, r) = elim (list_peers text_prefixes some_server disk) [
  | err e ↦ []
  | ok ps ↦ map (λ (p : AdminPeer Bytes). p.name) ps
]

name_with_space :
    names_of (provision text_prefixes some_server some_outside (some some_conf) (codes "alice "))
    ≡ codes "alice" ∷ codes "alice" ∷ []
unfolding list_peers provision prepare read_state has_name existing_peer_addrs single_addresses
    allocate_client_ip search_free next first size in_subnet is_broadcast is_used commit write_conf
    blocks format_peer key_lines join_ips number digits parse_conf scan_lines split_lines
    print_lines ends_in init scan_all scan_line section_line enter_section interface_line peer_line
    parse_ips parse_prefix_or_addr parse_each fields_func split_at trim_space trim_left trim_right
    to_lower cut_byte is_comment is_header header_name has_prefix equal contains trimmed
name_with_space = refl

-- A line feed in a name ends the line of the tag: what is behind it is a line of its own.
name_with_line_feed :
    names_of (
      provision text_prefixes some_server some_outside
        (some some_conf)
        (codes "bob" ++ (10 ∷ codes "[Peer]")))
    ≡ codes "alice" ∷ codes "bob" ∷ [] ∷ []
unfolding list_peers provision prepare read_state has_name existing_peer_addrs single_addresses
    allocate_client_ip search_free next first size in_subnet is_broadcast is_used commit write_conf
    blocks format_peer key_lines join_ips number digits parse_conf scan_lines split_lines
    print_lines ends_in init scan_all scan_line section_line enter_section interface_line peer_line
    parse_ips parse_prefix_or_addr parse_each fields_func split_at trim_space trim_left trim_right
    to_lower cut_byte is_comment is_header header_name has_prefix equal contains trimmed
name_with_line_feed = refl

-- `wg syncconf` gets the private key, the listen port and the keys of the peers.
stripped :
    stripped_conf text_prefixes some_state
    ≡ print_lines (
        codes "[Interface]"
        ∷ codes "PrivateKey = KEY"
        ∷ codes "ListenPort = 51820"
        ∷ []
        ∷ codes "[Peer]"
        ∷ codes "PublicKey = A"
        ∷ codes "AllowedIPs = 10.7.0.2/32"
        ∷ [])
unfolding stripped_conf stripped_peers port_lines has_prefix to_lower trim_space trim_left
    trim_right print_lines key_lines join_ips
stripped = refl
