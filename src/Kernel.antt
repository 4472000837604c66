-- ===== src/Kernel.antt =====
-- pkg/wgkernel/config.go: the configuration of the embedded kernel and its IPC text, and
-- pkg/wgshare/convert.go: the configuration from a profile. Hex, base64 and prefixes as texts are
-- parameters. A prefix that is `none` is not valid. `time.Duration` is an integer.
mod Ipc
mod Life
mod Cycle
mod Applied
mod Stats
mod Tests
use mathlib.Core.Option
use wgturn_core.Prelude.{
  ℕ, zero, suc, ◌+◌, ◌/◌, ◌%◌, Bool, true, false, not, ◌||◌, List, [], ◌∷◌, ◌++◌, map, Option, none,
  some, Bytes, codes, Result, ok, err, ◌>>=◌, length, ltb, ◌==◌, if◌then◌else◌,
}
use wgturn_core.Tunnel.{is_nil}
use wgturn_core.Conf.Strings.{trim_space}
use wgturn_core.Admin.File.{print_lines}
use wgturn_core.Share.{ℤ, pos, negsuc, nanoseconds, ShareProfile}

abbrev pub default_mtu : ℕ
default_mtu = 1280

abbrev pub max_mtu : ℕ
max_mtu = 1380

-- `clampMTU`
unfoldable pub clamp_mtu : ℤ → ℕ
clamp_mtu (negsuc n) = default_mtu
clamp_mtu (pos n) = if n == 0 then default_mtu else if ltb max_mtu n then max_mtu else n

pub record KernelPeer (Prefix : Type 0) : Type 0 where
  pub public_key : Bytes
  pub preshared_key : Bytes
  pub endpoint : Bytes
  pub allowed_ips : List (Option Prefix)
  pub persistent_keepalive : ℤ

pub record KernelConfig (Prefix Addr : Type 0) : Type 0 where
  pub private_key : Bytes
  pub address : List (Option Prefix)
  pub listen_port : ℕ
  pub mtu : ℤ
  pub dns : List Addr
  pub peers : List (KernelPeer Prefix)

pub data KeyError : Type 0 where
  empty_key bad_hex hex_length bad_base64_key base64_length key_length : KeyError

pub data KernelError : Type 0 where
  bad_private_key : KeyError → KernelError
  negative_mtu : KernelError
  bad_public_key bad_preshared_key : ℕ → KeyError → KernelError
  bad_prefix : ℕ → ℕ → KernelError
  negative_keepalive : ℕ → KernelError

-- What the libraries do.
pub record KeyFormats (Prefix : Type 0) : Type 0 where
  pub decode_hex : Bytes → Option Bytes
  pub decode_base64 : Bytes → Option Bytes
  pub encode_hex : Bytes → Bytes
  pub show_prefix : Option Prefix → Bytes

abbrev pub is_below_zero : ℤ → Bool
is_below_zero (pos n) = false
is_below_zero (negsuc n) = true

-- Thirty-two bytes, or an error.
abbrev pub sized : KeyError → KeyError → Option Bytes → Result KeyError Bytes
sized bad wrong none = err bad
sized bad wrong (some k) = if length k == 32 then ok k else err wrong

-- An error of a key, with its place.
abbrev pub at_place {ℓ} :
    {A : Type ℓ} → (KeyError → KernelError) → Result KeyError A → Result KernelError A
at_place place (ok a) = ok a
at_place place (err e) = err (place e)

abbrev pub refuse_if : Bool → KernelError → Result KernelError (Unit {0})
refuse_if true e = err e
refuse_if false e = ok tt

-- The decimal digits of a number, at most as many as the first argument.
unfoldable pub decimal : ℕ → ℕ → Bytes
decimal zero n = []
decimal (suc f) n =
    let front = decimal f (n / 10) in
    if ltb n 10 then (48 + n) ∷ [] else front ++ ((48 + n % 10) ∷ [])

-- A number of 64 bits has at most 20 digits.
abbrev pub print_number : ℕ → Bytes
print_number n = decimal 20 n

-- `int(d.Seconds())` of a duration that is not negative, below 2 ^ 22 seconds, where the floating point
-- number keeps the nanoseconds.
abbrev pub seconds_of : ℤ → ℕ
seconds_of (pos n) = n / nanoseconds
seconds_of (negsuc n) = 0

abbrev pub is_positive : ℤ → Bool
is_positive (pos n) = ltb 0 n
is_positive (negsuc n) = false

abbrev pub line_if : Bool → Bytes → List Bytes
line_if true line = line ∷ []
line_if false line = []

module _ {Prefix : Type 0} (lib : KeyFormats Prefix) where
  -- `decodeWGKey`, after the white space is trimmed.
  unfoldable pub decode_trimmed : Bytes → Result KeyError Bytes
  decode_trimmed s =
      if is_nil s
      then err empty_key
      else if length s == 64
      then sized bad_hex hex_length (lib.decode_hex s)
      else if length s == 44
      then sized bad_base64_key base64_length (lib.decode_base64 s)
      else err key_length

  unfoldable pub decode_wg_key : Bytes → Result KeyError Bytes
  unfolding decode_trimmed
  decode_wg_key s = decode_trimmed (trim_space s)

  -- The place of the first prefix that is not valid, from a place on.
  unfoldable pub first_invalid : ℕ → List (Option Prefix) → Option ℕ
  first_invalid j [] = none
  first_invalid j (none ∷ ips) = some j
  first_invalid j (some a ∷ ips) = first_invalid (j + 1) ips

  abbrev pub valid_prefixes : ℕ → Option ℕ → Result KernelError (Unit {0})
  valid_prefixes i none = ok tt
  valid_prefixes i (some j) = err (bad_prefix i j)

  -- A preshared key is looked at only if there is one.
  unfoldable pub optional_key : ℕ → Bytes → Result KernelError (Option Bytes)
  optional_key i s =
      if is_nil s
      then ok none
      else (at_place (bad_preshared_key i) (decode_wg_key s) >>= λ k. ok (some k))

  unfoldable pub validate_peer : ℕ → KernelPeer Prefix → Result KernelError (Unit {0})
  unfolding decode_wg_key optional_key first_invalid
  validate_peer i p = do
    key ← at_place (bad_public_key i) (decode_wg_key p.public_key)
    psk ← optional_key i p.preshared_key
    _ ← valid_prefixes i (first_invalid 0 p.allowed_ips)
    refuse_if (is_below_zero p.persistent_keepalive) (negative_keepalive i)

  unfoldable pub validate_peers : ℕ → List (KernelPeer Prefix) → Result KernelError (Unit {0})
  unfolding validate_peer
  validate_peers i [] = ok tt
  validate_peers i (p ∷ ps) = validate_peer i p >>= λ u. validate_peers (i + 1) ps

  -- The lines of a peer in the IPC text.
  unfoldable pub ip_lines : List (Option Prefix) → List Bytes
  ip_lines [] = []
  ip_lines (a ∷ ips) = (codes "allowed_ip=" ++ lib.show_prefix a) ∷ ip_lines ips

  abbrev pub preshared_lines : Option Bytes → List Bytes
  preshared_lines none = []
  preshared_lines (some k) = (codes "preshared_key=" ++ lib.encode_hex k) ∷ []

  abbrev pub all_ip_lines : List (Option Prefix) → List Bytes
  all_ip_lines [] = []
  all_ip_lines (a ∷ ips) = codes "replace_allowed_ips=true" ∷ ip_lines (a ∷ ips)

  unfoldable pub peer_lines_of : KernelPeer Prefix → Bytes → Option Bytes → List Bytes
  unfolding decimal ip_lines
  peer_lines_of p key psk =
      (codes "public_key=" ++ lib.encode_hex key)
      ∷ (preshared_lines psk
          ++ line_if (not (is_nil p.endpoint)) (codes "endpoint=" ++ p.endpoint)
          ++ line_if (is_positive p.persistent_keepalive) (
              codes "persistent_keepalive_interval="
              ++ print_number (seconds_of p.persistent_keepalive))
          ++ all_ip_lines p.allowed_ips)

  unfoldable pub ipc_peers : ℕ → List (KernelPeer Prefix) → Result KernelError (List Bytes)
  unfolding decode_wg_key optional_key peer_lines_of
  ipc_peers i [] = ok []
  ipc_peers i (p ∷ ps) = do
    key ← at_place (bad_public_key i) (decode_wg_key p.public_key)
    psk ← optional_key i p.preshared_key
    rest ← ipc_peers (i + 1) ps
    ok (peer_lines_of p key psk ++ rest)

  module _ {Addr : Type 0} where
    -- `Config.Validate`
    unfoldable pub validate_kernel : KernelConfig Prefix Addr → Result KernelError (Unit {0})
    unfolding decode_wg_key validate_peers
    validate_kernel c = do
      key ← at_place bad_private_key (decode_wg_key c.private_key)
      _ ← refuse_if (is_below_zero c.mtu) negative_mtu
      validate_peers 0 c.peers

    -- `Config.IPC`
    unfoldable pub ipc : KernelConfig Prefix Addr → Result KernelError Bytes
    unfolding decode_wg_key ipc_peers print_lines decimal
    ipc c = do
      key ← at_place bad_private_key (decode_wg_key c.private_key)
      lines ← ipc_peers 0 c.peers
      ok (
          print_lines (
            (codes "private_key=" ++ lib.encode_hex key)
            ∷ (codes "listen_port=" ++ print_number c.listen_port)
            ∷ codes "replace_peers=true"
            ∷ lines))

-- `Config.withDefaults`
abbrev pub kernel_mtu : ℤ → ℤ
kernel_mtu (pos zero) = pos default_mtu
kernel_mtu (pos (suc n)) = pos (suc n)
kernel_mtu (negsuc n) = negsuc n

abbrev pub or_all {ℓ} : {Prefix : Type ℓ} → List Prefix → Prefix → List (Option Prefix)
or_all [] all = some all ∷ []
or_all (a ∷ ips) all = some a ∷ map some ips

module _ {Prefix Addr : Type 0} where
  abbrev pub with_kernel_defaults : KernelConfig Prefix Addr → KernelConfig Prefix Addr
  with_kernel_defaults c = record c { mtu = kernel_mtu c.mtu }

  -- `Profile.ToKernelConfig`; `all` is the prefix 0.0.0.0/0.
  unfoldable pub to_kernel_config : Prefix → ShareProfile Prefix Addr → KernelConfig Prefix Addr
  to_kernel_config all p = record {
    private_key = p.client_private_key;
    address = p.address ∷ [];
    listen_port = 0;
    mtu = p.mtu;
    dns = p.dns;
    peers =
        record {
          public_key = p.server_public_key;
          preshared_key = p.preshared_key;
          endpoint = [];
          allowed_ips = or_all p.allowed_ips all;
          persistent_keepalive = p.persistent_keepalive;
        }
        ∷ [];
  }
