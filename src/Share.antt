-- ===== src/Share.antt =====
-- pkg/wgshare/share.go and convert.go: the link of a client's profile. JSON, base64, the escapes of a URL and
-- prefixes as texts are parameters. An `int` and a duration in nanoseconds are integers, and a
-- duration wraps at 64 bits.
mod RoundTrip
mod Convert
mod Tests
use mathlib.Core.Option
use wgturn_core.Prelude.{
  ℕ, zero, suc, ◌+◌, ◌-◌, ◌*◌, ◌/◌, ◌%◌, ◌^◌, Bool, true, false, not, List, [], ◌∷◌, ◌++◌, map,
  Option, none, some, Bytes, codes, has_prefix, Result, ok, err, ◌>>=◌, drop, length, ltb, ◌==◌,
  if◌then◌else◌,
}
use wgturn_core.Hub.{count}
use wgturn_core.Tunnel.{Config, is_nil, peer_type_proxy_v2}
use wgturn_core.Conf.Strings.{cut_byte}

pub data ℤ : Type 0 where
  pos negsuc : ℕ → ℤ

abbrev neg : ℕ → ℤ
neg zero = pos 0
neg (suc n) = negsuc n

abbrev pub nanoseconds : ℕ
nanoseconds = 1000000000

-- The division by `time.Second`, which drops what is behind the point.
unfoldable pub whole_seconds : ℤ → ℤ
whole_seconds (pos n) = pos (n / nanoseconds)
whole_seconds (negsuc n) = neg ((n + 1) / nanoseconds)

-- A word of 64 bits as a number with a sign.
abbrev pub int64_of : ℕ → ℤ
int64_of n = if ltb n (2 ^ 63) then pos n else neg (2 ^ 64 - n)

-- The product with `time.Second`, modulo 2 ^ 64.
unfoldable pub duration_of : ℤ → ℤ
duration_of (pos n) = int64_of (n * nanoseconds % 2 ^ 64)
duration_of (negsuc n) = int64_of ((2 ^ 64 - (n + 1) * nanoseconds % 2 ^ 64) % 2 ^ 64)

-- `formatVersion`
abbrev pub format_version : ℤ
format_version = pos 1

abbrev pub is_version : ℤ → Bool
is_version (pos n) = n == 1
is_version (negsuc n) = false

-- `Scheme` with what stands behind it.
abbrev pub scheme_prefix : Bytes
scheme_prefix = codes "wgturn://"

-- `Profile`; `none` is an address that is not valid.
pub record ShareProfile (Prefix Addr : Type 0) : Type 0 where
  pub label : Bytes
  pub server_public_key : Bytes
  pub client_private_key : Bytes
  pub preshared_key : Bytes
  pub endpoint : Bytes
  pub address : Option Prefix
  pub allowed_ips : List Prefix
  pub dns : List Addr
  pub mtu : ℤ
  pub persistent_keepalive : ℤ

pub record WireFormat : Type 0 where
  pub v : ℤ
  pub sp : Bytes
  pub cp : Bytes
  pub psk : Bytes
  pub ep : Bytes
  pub ad : Bytes
  pub ai : List Bytes
  pub dns : List Bytes
  pub mtu : ℤ
  pub ka : ℤ

pub data ShareError : Type 0 where
  server_key_required client_key_required endpoint_required address_required : ShareError
  missing_scheme empty_payload bad_base64 bad_json unsupported_version : ShareError
  bad_address bad_allowed_ips bad_dns : ShareError

-- What the libraries do.
pub record Formats (Prefix Addr : Type 0) : Type 0 where
  pub marshal : WireFormat → Bytes
  pub unmarshal : Bytes → Option WireFormat
  pub encode64 : Bytes → Bytes
  pub decode64 : Bytes → Option Bytes
  pub escape : Bytes → Bytes
  pub unescape : Bytes → Option Bytes
  pub show_prefix : Prefix → Bytes
  pub parse_prefix : Bytes → Option Prefix
  pub show_addr : Addr → Bytes
  pub parse_addr : Bytes → Option Addr

abbrev pub demand {ℓ} : {A : Type ℓ} → ShareError → Option A → Result ShareError A
demand e none = err e
demand e (some a) = ok a

-- Texts that are parsed one by one; the first one that fails gives the error.
unfoldable pub parse_texts {ℓ} :
    {A : Type ℓ} → (Bytes → Option A) → ShareError → List Bytes → Result ShareError (List A)
parse_texts parse_text e [] = ok []
parse_texts parse_text e (t ∷ ts) = do
  a ← demand e (parse_text t)
  rest ← parse_texts parse_text e ts
  ok (a ∷ rest)

abbrev is_missing {ℓ} : {Prefix : Type ℓ} → Option Prefix → Bool
is_missing none = true
is_missing (some a) = false

-- A result, unless there is an error.
abbrev pub unless_error {ℓ} :
    {A : Type ℓ} → Option ShareError → Result ShareError A → Result ShareError A
unless_error none r = r
unless_error (some e) r = err e

module _ {Prefix Addr : Type 0} where
  -- `Profile.Validate`; `none` is the success.
  unfoldable pub validate_profile : ShareProfile Prefix Addr → Option ShareError
  validate_profile p =
      if is_nil p.server_public_key
      then some server_key_required
      else if is_nil p.client_private_key
      then some client_key_required
      else if is_nil p.endpoint
      then some endpoint_required
      else if is_missing p.address
      then some address_required
      else none

  module _ (lib : Formats Prefix Addr) where
    -- `Address.String`, for an address that is valid.
    abbrev pub show_address : Option Prefix → Bytes
    show_address none = codes "invalid Prefix"
    show_address (some a) = lib.show_prefix a

    unfoldable pub to_wire : ShareProfile Prefix Addr → WireFormat
    unfolding whole_seconds
    to_wire p = record {
      v = format_version;
      sp = p.server_public_key;
      cp = p.client_private_key;
      psk = p.preshared_key;
      ep = p.endpoint;
      ad = show_address p.address;
      ai = map lib.show_prefix p.allowed_ips;
      dns = map lib.show_addr p.dns;
      mtu = p.mtu;
      ka = whole_seconds p.persistent_keepalive;
    }

    abbrev pub fragment : Bytes → Bytes
    fragment l = if is_nil l then [] else 35 ∷ lib.escape l

    -- `Encode`
    unfoldable pub encode : ShareProfile Prefix Addr → Result ShareError Bytes
    unfolding validate_profile to_wire
    encode p =
        unless_error (validate_profile p)
          (ok (scheme_prefix ++ (lib.encode64 (lib.marshal (to_wire p)) ++ fragment p.label)))

    abbrev pub label_or_raw : Bytes → Option Bytes → Bytes
    label_or_raw raw none = raw
    label_or_raw raw (some l) = l

    -- The payload and the label of what stands behind the scheme.
    abbrev pub split_fragment : Bytes → Option (Bytes × Bytes) → Bytes × Bytes
    split_fragment rest none = (rest, [])
    split_fragment rest (some (front, raw)) = (front, label_or_raw raw (lib.unescape raw))

    unfoldable pub parse_address : Bytes → Result ShareError (Option Prefix)
    parse_address t =
        if is_nil t then ok none else (demand bad_address (lib.parse_prefix t) >>= λ a. ok (some a))

    -- A profile from the fields of a link.
    unfoldable pub from_wire : Bytes → WireFormat → Result ShareError (ShareProfile Prefix Addr)
    unfolding parse_texts duration_of validate_profile parse_address
    from_wire l w = do
      address ← parse_address w.ad
      allowed ← parse_texts lib.parse_prefix bad_allowed_ips w.ai
      servers ← parse_texts lib.parse_addr bad_dns w.dns
      let p : ShareProfile Prefix Addr = record {
        label = l;
        server_public_key = w.sp;
        client_private_key = w.cp;
        preshared_key = w.psk;
        endpoint = w.ep;
        address = address;
        allowed_ips = allowed;
        dns = servers;
        mtu = w.mtu;
        persistent_keepalive = duration_of w.ka;
      }
      unless_error (validate_profile p) (ok p)

    -- The payload and the label of a link, decoded.
    unfoldable pub parse_payload : Bytes × Bytes → Result ShareError (ShareProfile Prefix Addr)
    unfolding from_wire
    parse_payload (payload, l) = if is_nil payload then err empty_payload else do
      js ← demand bad_base64 (lib.decode64 payload)
      w ← demand bad_json (lib.unmarshal js)
      if is_version w.v then from_wire l w else err unsupported_version

    -- `Parse`
    unfoldable pub parse_url : Bytes → Result ShareError (ShareProfile Prefix Addr)
    unfolding parse_payload
    parse_url s =
        if has_prefix s scheme_prefix
        then (let rest = drop (length scheme_prefix) s in
            parse_payload (split_fragment rest (cut_byte 35 rest)))
        else err missing_scheme

-- `ModeVKLink`
abbrev pub mode_vk_link : Bytes
mode_vk_link = codes "vk_link"

-- `Profile.ToTunnelConfig`
unfoldable pub share_to_tunnel_config :
    {Prefix Addr : Type 0} → ShareProfile Prefix Addr → Bytes → Config
share_to_tunnel_config p vk_link = record {
  peer_addr = p.endpoint;
  listen_addr = codes "127.0.0.1:0";
  streams = count 24;
  streams_per_cred = count 0;
  peer_type = peer_type_proxy_v2;
  mode = if is_nil vk_link then [] else mode_vk_link;
  hint = vk_link;
  hints = [];
  udp = true;
  turn_host_override = [];
  turn_port_override = count 0;
  watchdog_timeout = count 0;
  has_provider = false;
  has_protector = false;
  has_logger = false;
}
