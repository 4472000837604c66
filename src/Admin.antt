-- ===== src/Admin.antt =====
-- pkg/wgadmin/server.go: the management of a server's clients. The disk is the file's bytes, or
-- `none` where the file does not open. Key generation, the write and `wg syncconf` are outside: what
-- they answer is an argument. `writeState` renames a finished temporary file, so that a write
-- replaces the whole file or nothing. Each operation holds the lock from its start to its end.
pub mod Allocate
pub mod File
pub mod Clients
pub mod Enroll
pub mod Relist
pub mod Enrolled
mod Tests
use mathlib.Core.Option
use wgturn_core.Prelude.{
  ℕ, Bool, true, false, not, ◌&&◌, ◌||◌, List, [], ◌∷◌, ◌++◌, map, Option, none, some, Bytes, codes,
  equal, has_prefix, Result, ok, err, ◌>>=◌, if◌then◌else◌,
}
use wgturn_core.Tunnel.{is_nil}
use wgturn_core.Conf.Strings.{trim_space, to_lower}
use wgturn_core.Conf.Values.{Library}
use Allocate.{
  Address, Subnet, SubnetError, bit_len, first, next, network_address, allocate_client_ip,
}
use File.{FileError, AdminPeer, ConfState, parse_conf, write_conf, key_lines, print_lines}

-- What the library `netip` does with prefixes.
pub record Prefixes (Prefix : Type 0) : Type 0 where
  pub lib : Library Prefix Address
  pub show : Prefix → Bytes
  -- `IsSingleIP` and `Addr` of such a prefix.
  pub single : Prefix → Option Address

-- `Server`; `none` is a subnet or an address that is not valid.
pub record AdminServer (Prefix : Type 0) : Type 0 where
  pub conf_path : Bytes
  pub subnet : Option Subnet
  pub server_address : Option Address
  pub endpoint : Bytes
  pub allowed_ips : List Prefix

-- The profile that a client gets; DNS, MTU and the keepalive are passed on from the server.
pub record Profile (Prefix : Type 0) : Type 0 where
  pub label : Bytes
  pub server_public_key : Bytes
  pub client_private_key : Bytes
  pub preshared_key : Bytes
  pub endpoint : Bytes
  pub address : Prefix
  pub allowed_ips : List Prefix

pub data AdminError : Type 0 where
  name_required conf_path_required open_failed bad_conf no_private_key peer_exists : AdminError
  derive_failed keypair_failed preshared_failed write_failed sync_failed peer_not_found : AdminError
  no_address : SubnetError → AdminError

pub record Keypair : Type 0 where
  pub private : Bytes
  pub public : Bytes

-- What the functions outside of the model answer to one operation.
pub record Outside : Type 0 where
  pub public_key_for : Bytes → Option Bytes
  pub keypair : Option Keypair
  pub preshared : Option Bytes
  pub writes : Bool
  pub syncs : Bool

-- A value, or the operation's error.
abbrev pub need {ℓ} : {A : Type ℓ} → AdminError → Option A → Result AdminError A
need e none = err e
need e (some a) = ok a

infixl 5 ◌>>◌
abbrev pub ◌>>◌ {ℓ} :
    {B : Type ℓ} → Result AdminError (Unit {0}) → Result AdminError B → Result AdminError B
r >> rest = r >>= λ _. rest

-- Nothing, or the operation's error.
abbrev pub refuse : Bool → AdminError → Result AdminError (Unit {0})
refuse true e = err e
refuse false e = ok tt

abbrev pub allocated : Result SubnetError Address → Result AdminError Address
allocated (err e) = err (no_address e)
allocated (ok a) = ok a

-- The defaults of `NewServer` that are addresses: 10.7.0.0/24 and the first host.
abbrev pub default_subnet : Subnet
default_subnet = record { network = record { is4 = true; value = 168230912 }; bits = 24 }

abbrev pub or_subnet : Option Subnet → Subnet
or_subnet none = default_subnet
or_subnet (some s) = s

abbrev pub or_gateway : Subnet → Option Address → Option Address
or_gateway s none = next (network_address s)
or_gateway s (some a) = some a

abbrev pub prefix_bits : Option Subnet → ℕ
prefix_bits none = 0
prefix_bits (some s) = s.bits

module _ {Prefix : Type 0} where
  abbrev pub or_everything : List Prefix → Prefix → List Prefix
  or_everything [] all = all ∷ []
  or_everything (p ∷ ps) all = p ∷ ps

  -- `NewServer`; `all` is the prefix 0.0.0.0/0.
  unfoldable pub new_admin : Prefix → AdminServer Prefix → AdminServer Prefix
  new_admin all s = record s {
    subnet = some (or_subnet s.subnet);
    server_address = or_gateway (or_subnet s.subnet) s.server_address;
    allowed_ips = or_everything s.allowed_ips all;
  }

  -- A peer without its lines.
  abbrev pub shown : AdminPeer Prefix → AdminPeer Prefix
  shown p = record p { raw_lines = [] }

  -- Whether a peer has the name.
  unfoldable pub has_name : Bytes → List (AdminPeer Prefix) → Bool
  has_name name [] = false
  has_name name (p ∷ ps) = equal p.name name || has_name name ps

  -- The peers without the first one of the name; `none` if there is none.
  unfoldable pub remove_name : Bytes → List (AdminPeer Prefix) → Option (List (AdminPeer Prefix))
  remove_name name [] = none
  remove_name name (p ∷ ps) =
      if equal p.name name then some ps else Option.map (λ rest. p ∷ rest) (remove_name name ps)

  module _ (net : Prefixes Prefix) where
    -- The addresses of a peer's prefixes that are single ones.
    unfoldable pub single_addresses : List Prefix → List Address
    single_addresses [] = []
    single_addresses (a ∷ ips) = elim (net.single a) [
      | none ↦ single_addresses ips
      | some x ↦ x ∷ single_addresses ips
    ]

    -- `existingPeerAddrs`
    unfoldable pub existing_peer_addrs : List (AdminPeer Prefix) → List Address
    unfolding single_addresses
    existing_peer_addrs [] = []
    existing_peer_addrs (p ∷ ps) = single_addresses p.allowed_ips ++ existing_peer_addrs ps

    abbrev pub parsed : Result FileError (ConfState Prefix) → Result AdminError (ConfState Prefix)
    parsed (err e) = err bad_conf
    parsed (ok st) = ok st

    -- `readState`
    unfoldable pub read_state :
        AdminServer Prefix → Option Bytes → Result AdminError (ConfState Prefix)
    unfolding parse_conf
    read_state s disk = do
      refuse (is_nil s.conf_path) conf_path_required
      file ← need open_failed disk
      st ← parsed (parse_conf net.lib file)
      refuse (is_nil st.private_key) no_private_key
      ok st

    -- `List`
    unfoldable pub list_peers :
        AdminServer Prefix → Option Bytes → Result AdminError (List (AdminPeer Prefix))
    unfolding read_state
    list_peers s disk = do st ← read_state s disk; ok (map shown st.peers)

    -- `writeState` and `sync`: the disk after them, and the result. The temporary file, its write and the
    -- rename that puts it in place are one test, `writes`: where one of them fails, the file is as before.
    unfoldable pub commit {ℓ} :
        {A : Type ℓ}
        → Outside
        → Option Bytes
        → ConfState Prefix
        → A
        → Option Bytes × Result AdminError A
    unfolding write_conf
    commit out disk st a =
        if out.writes
        then (some (write_conf net.show st), if out.syncs then ok a else err sync_failed)
        else (disk, err write_failed)

    -- The new peer and the profile of a client, or the error that comes before any change.
    pub record Prepared : Type 0 where
      pub state : ConfState Prefix
      pub profile : Profile Prefix

    abbrev pub client : Bytes → Keypair → Bytes → Address → AdminPeer Prefix
    client name keys psk a = record {
      name = name;
      public_key = keys.public;
      preshared_key = psk;
      allowed_ips = net.lib.prefix_from a (bit_len a) ∷ [];
      raw_lines = [];
    }

    unfoldable pub prepare :
        AdminServer Prefix → Outside → Option Bytes → Bytes → Result AdminError Prepared
    unfolding read_state has_name existing_peer_addrs allocate_client_ip
    prepare s out disk name = do
      refuse (is_nil name) name_required
      st ← read_state s disk
      refuse (has_name name st.peers) peer_exists
      server_pub ← need derive_failed (out.public_key_for st.private_key)
      keys ← need keypair_failed out.keypair
      psk ← need preshared_failed out.preshared
      a ← allocated (allocate_client_ip s.subnet s.server_address (existing_peer_addrs st.peers))
      ok (record {
        state = record st { peers = st.peers ++ (client name keys psk a ∷ []) };
        profile = record {
          label = name;
          server_public_key = server_pub;
          client_private_key = keys.private;
          preshared_key = psk;
          endpoint = s.endpoint;
          address = net.lib.prefix_from a (prefix_bits s.subnet);
          allowed_ips = s.allowed_ips;
        };
      })

    -- A prepared change is committed.
    abbrev pub provisioned :
        Outside
        → Option Bytes
        → Result AdminError Prepared
        → Option Bytes × Result AdminError (Profile Prefix)
    provisioned out disk (err e) = (disk, err e)
    provisioned out disk (ok r) = commit out disk r.state r.profile

    -- `Provision`
    unfoldable pub provision :
        AdminServer Prefix
        → Outside
        → Option Bytes
        → Bytes
        → Option Bytes × Result AdminError (Profile Prefix)
    unfolding prepare
    provision s out disk name = provisioned out disk (prepare s out disk name)

    unfoldable pub without_peer :
        AdminServer Prefix → Option Bytes → Bytes → Result AdminError (ConfState Prefix)
    unfolding read_state remove_name
    without_peer s disk name = do
      refuse (is_nil name) name_required
      st ← read_state s disk
      rest ← need peer_not_found (remove_name name st.peers)
      ok (record st { peers = rest })

    abbrev pub revoked :
        Outside
        → Option Bytes
        → Result AdminError (ConfState Prefix)
        → Option Bytes × Result AdminError (Unit {0})
    revoked out disk (err e) = (disk, err e)
    revoked out disk (ok st) = commit out disk st tt

    -- `Revoke`
    unfoldable pub revoke :
        AdminServer Prefix
        → Outside
        → Option Bytes
        → Bytes
        → Option Bytes × Result AdminError (Unit {0})
    unfolding without_peer
    revoke s out disk name = revoked out disk (without_peer s disk name)

    -- The listen port's lines of the header.
    unfoldable pub port_lines : List Bytes → List Bytes
    port_lines [] = []
    port_lines (l ∷ ls) =
        if has_prefix (to_lower (trim_space l)) (codes "listenport")
        then l ∷ port_lines ls
        else port_lines ls

    unfoldable pub stripped_peers : List (AdminPeer Prefix) → List Bytes
    stripped_peers [] = []
    stripped_peers (p ∷ ps) = [] ∷ codes "[Peer]" ∷ (key_lines net.show p ++ stripped_peers ps)

    -- `strippedConf`
    unfoldable pub stripped_conf : ConfState Prefix → Bytes
    unfolding port_lines stripped_peers
    stripped_conf st = print_lines (
        codes "[Interface]"
        ∷ (codes "PrivateKey = " ++ st.private_key)
        ∷ (port_lines st.header ++ stripped_peers st.peers))
