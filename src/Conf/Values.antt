-- ===== src/Conf/Values.antt =====
-- pkg/wgconf/parse.go: the settings, and the functions that set one key. `netip` and
-- `time.ParseDuration` are parameters: addresses, prefixes and what their texts mean. Durations
-- count nanoseconds, and only the sign of a negative one is kept.
use mathlib.Core.Option
use wgturn_core.Prelude.{
  ℕ, ◌*◌, ◌%◌, ◌^◌, Bool, true, false, List, [], ◌∷◌, Option, none, some, Bytes, codes, equal,
  Result, ok, err, leb, ltb, ◌==◌, if◌then◌else◌,
}
use wgturn_core.Hub.{ConfigInt, count, below_zero}
use wgturn_core.Tunnel.{is_nil}
use wgturn_core.Conf.Strings.{trim_space, to_lower, fields_func}

-- What the standard library makes of texts that are durations, prefixes and addresses.
pub record Library (Prefix Addr : Type 0) : Type 0 where
  pub parse_duration : Bytes → Option ConfigInt
  pub parse_prefix : Bytes → Option Prefix
  pub parse_addr : Bytes → Option Addr
  pub is6 : Addr → Bool
  pub prefix_from : Addr → ℕ → Prefix

pub record IfaceSection (Prefix Addr : Type 0) : Type 0 where
  pub private_key : Bytes
  pub address : List Prefix
  pub dns : List Addr
  pub mtu : ConfigInt
  pub listen_port : ℕ

pub record PeerSection (Prefix : Type 0) : Type 0 where
  pub public_key : Bytes
  pub preshared_key : Bytes
  pub endpoint : Bytes
  pub allowed_ips : List Prefix
  pub persistent_keepalive : ConfigInt

pub record Settings (Prefix Addr : Type 0) : Type 0 where
  pub enable_turn : Bool
  pub mode : Bytes
  pub vk_link : Bytes
  pub peer_type : Bytes
  pub streams : ConfigInt
  pub streams_per_cred : ConfigInt
  pub watchdog_timeout : ConfigInt
  pub udp : Bool
  pub turn_host : Bytes
  pub turn_port : ConfigInt
  pub local_listen : Bytes
  pub peer : Bytes
  pub enable_server : Bool
  pub listen : Bytes
  pub backend : Bytes
  pub iface : IfaceSection Prefix Addr
  pub wg_peers : List (PeerSection Prefix)
  -- The map `Unknown`: each key once, in the order of its first entry.
  pub unknown : List (Bytes × Bytes)

-- The errors of the functions below.
pub data Fault : Type 0 where
  missing_equals empty_key : Fault
  bad_enable_turn bad_streams bad_streams_per_cred bad_watchdog bad_udp bad_turn_port : Fault
  bad_enable_server bad_address bad_dns bad_mtu bad_listen_port : Fault
  no_active_peer bad_allowed_ips bad_keepalive : Fault

-- An error of a call under the name of the caller's field.
abbrev pub wrap {ℓ} : {A : Type ℓ} → Fault → Option A → Result Fault A
wrap e none = err e
wrap e (some a) = ok a

unfoldable pub is_one_of : Bytes → List Bytes → Bool
is_one_of s [] = false
is_one_of s (t ∷ ts) = if equal s t then true else is_one_of s ts

-- `parseBool`; `none` is its error.
unfoldable pub parse_bool : Bytes → Option Bool
unfolding is_one_of
parse_bool v =
    let w = to_lower (trim_space v) in
    if is_one_of w (codes "1" ∷ codes "true" ∷ codes "yes" ∷ codes "on" ∷ codes "y" ∷ [])
    then some true
    else if is_one_of w (codes "0" ∷ codes "false" ∷ codes "no" ∷ codes "off" ∷ codes "n" ∷ [])
    then some false
    else none

-- An `int` that is not negative, and one that is also at most a bound.
abbrev pub not_negative : Option ConfigInt → Option ℕ
not_negative none = none
not_negative (some below_zero) = none
not_negative (some (count n)) = some n

abbrev pub at_most : ℕ → Option ConfigInt → Option ℕ
at_most bound none = none
at_most bound (some below_zero) = none
at_most bound (some (count n)) = if leb n bound then some n else none

abbrev pub max_port : ℕ
max_port = 65535

-- `uint16(n)`
abbrev pub to_uint16 : ℕ → ℕ
to_uint16 n = n % 2 ^ 16

-- `time.Duration(n) * time.Second`, wrapped at 2 ^ 64.
abbrev pub signed : ℕ → ConfigInt
signed w = if ltb w (2 ^ 63) then count w else below_zero

abbrev pub times_second : ℕ → ConfigInt
times_second n = signed (n * 1000000000 % 2 ^ 64)

abbrev pub is_separator : ℕ → Bool
is_separator c =
    if c == 44 then true else if c == 32 then true else if c == 9 then true else c == 10

-- The tokens of a list that are not empty once they are trimmed.
unfoldable pub trimmed : List Bytes → List Bytes
trimmed [] = []
trimmed (p ∷ ps) = if is_nil (trim_space p) then trimmed ps else trim_space p ∷ trimmed ps

-- `splitListField`
unfoldable pub split_list_field : Bytes → List Bytes
unfolding trimmed fields_func
split_list_field v = trimmed (fields_func is_separator v)

-- What each token is parsed to, or `none` at the first that is not.
unfoldable pub parse_each {ℓ} : {A : Type ℓ} → (Bytes → Option A) → List Bytes → Option (List A)
parse_each f [] = some []
parse_each f (t ∷ ts) = elim (f t) [
  | none ↦ none
  | some a ↦ Option.map (λ rest. a ∷ rest) (parse_each f ts)
]

-- `s.Unknown[key] = val`
unfoldable pub put : Bytes → Bytes → List (Bytes × Bytes) → List (Bytes × Bytes)
put k v [] = (k, v) ∷ []
put k v ((k', v') ∷ kvs) = if equal k k' then (k, v) ∷ kvs else (k', v') ∷ put k v kvs

-- The cases of the switches on a lower-case key.
pub data MetaKey : Type 0 where
  enable_turn_key mode_key vk_link_key peer_type_key streams_key streams_per_cred_key : MetaKey
  watchdog_key udp_key turn_host_key turn_port_key local_listen_key peer_key : MetaKey
  enable_server_key listen_key backend_key : MetaKey

pub data IfaceKey : Type 0 where
  private_key_key address_key dns_key mtu_key listen_port_key : IfaceKey

pub data PeerKey : Type 0 where
  public_key_key preshared_key_key endpoint_key allowed_ips_key keepalive_key : PeerKey

-- The case of a key, or `none` for the default.
unfoldable pub find_key {ℓ} : {K : Type ℓ} → Bytes → List (Bytes × K) → Option K
find_key k [] = none
find_key k ((name, case) ∷ rest) = if equal k name then some case else find_key k rest

abbrev pub meta_keys : List (Bytes × MetaKey)
meta_keys =
    (codes "enableturn", enable_turn_key)
    ∷ (codes "mode", mode_key)
    ∷ (codes "vklink", vk_link_key)
    ∷ (codes "peertype", peer_type_key)
    ∷ (codes "streamnum", streams_key)
    ∷ (codes "streams", streams_key)
    ∷ (codes "streamspercred", streams_per_cred_key)
    ∷ (codes "watchdogtimeout", watchdog_key)
    ∷ (codes "udp", udp_key)
    ∷ (codes "turnhost", turn_host_key)
    ∷ (codes "turnport", turn_port_key)
    ∷ (codes "locallisten", local_listen_key)
    ∷ (codes "peer", peer_key)
    ∷ (codes "enableserver", enable_server_key)
    ∷ (codes "listen", listen_key)
    ∷ (codes "backend", backend_key)
    ∷ []

abbrev pub iface_keys : List (Bytes × IfaceKey)
iface_keys =
    (codes "privatekey", private_key_key)
    ∷ (codes "address", address_key)
    ∷ (codes "dns", dns_key)
    ∷ (codes "mtu", mtu_key)
    ∷ (codes "listenport", listen_port_key)
    ∷ []

abbrev pub peer_keys : List (Bytes × PeerKey)
peer_keys =
    (codes "publickey", public_key_key)
    ∷ (codes "presharedkey", preshared_key_key)
    ∷ (codes "endpoint", endpoint_key)
    ∷ (codes "allowedips", allowed_ips_key)
    ∷ (codes "persistentkeepalive", keepalive_key)
    ∷ []
