-- ===== src/Kernel/Life.antt =====
-- pkg/wgkernel/kernel.go: the life cycle of a kernel, and what it reads from the device. The device of
-- wireguard-go is a parameter: whether it takes an IPC text, whether it goes up, and the text it gives.
use wgturn_core.Prelude.{
  ℕ, zero, suc, ◌+◌, ◌-◌, ◌^◌, Bool, true, false, not, List, [], ◌∷◌, map, Option, none, some,
  Bytes, codes, has_prefix, drop, Result, ok, err, leb, ltb, ◌==◌, if◌then◌else◌,
}
use wgturn_core.Share.{ℤ, pos, negsuc}
use wgturn_core.Tunnel.{is_nil}
use wgturn_core.Conf.Strings.{number}
use wgturn_core.Kernel.{
  KernelPeer, KernelConfig, KernelError, KeyFormats, validate_kernel, with_kernel_defaults, ipc,
}

pub data KernelPhase : Type 0 where
  state_new state_started state_stopped : KernelPhase

-- `Kernel`: `with_tunnel` is whether `WithTurnTunnel` was given one, `applied` the text that the running
-- device has, and the two numbers count the devices that were made and closed.
pub record WgKernel (Prefix Addr : Type 0) : Type 0 where
  pub cfg : KernelConfig Prefix Addr
  pub with_tunnel : Bool
  pub state : KernelPhase
  pub applied : Bytes
  pub devices : ℕ
  pub closed : ℕ

pub data NewError : Type 0 where
  bad_config : KernelError → NewError
  nil_device : NewError

pub data KernelStartError : Type 0 where
  already_started : KernelStartError
  ctx_done : KernelStartError
  tunnel_not_started : KernelStartError
  build_ipc : KernelError → KernelStartError
  ipc_set : KernelStartError
  device_up : KernelStartError

-- What `Start` meets: a context that is done, the local address of the tunnel, and the device.
pub record StartEnv : Type 0 where
  pub cancelled : Bool
  pub local_addr : Option Bytes
  pub accepts : Bytes → Bool
  pub goes_up : Bool

-- The endpoint of a peer is the tunnel.
abbrev pub to_endpoint : {Prefix : Type 0} → Bytes → KernelPeer Prefix → KernelPeer Prefix
to_endpoint addr p = record p { endpoint = addr }

module _ {Prefix Addr : Type 0} where
  abbrev pub through : Bytes → KernelConfig Prefix Addr → KernelConfig Prefix Addr
  through addr c = record c { peers = map (to_endpoint addr) (c.peers) }

  -- The configuration that is applied; `none` if the tunnel has no address.
  abbrev pub start_config :
      Bool → Option Bytes → KernelConfig Prefix Addr → Option (KernelConfig Prefix Addr)
  start_config false addr c = some c
  start_config true none c = none
  start_config true (some addr) c = some (through addr c)

  abbrev pub stop_at : KernelPhase → WgKernel Prefix Addr → WgKernel Prefix Addr
  stop_at state_started k = record k { state = state_stopped; closed = k.closed + 1 }
  stop_at _ k = k

  -- `Stop`
  unfoldable pub stop_kernel : WgKernel Prefix Addr → WgKernel Prefix Addr
  stop_kernel k = stop_at (k.state) k

  -- A device is made, and closed again if it refuses the text or does not go up.
  abbrev pub bring_up :
      Bool
      → Bool
      → Bytes
      → WgKernel Prefix Addr
      → WgKernel Prefix Addr × Result KernelStartError (Unit {0})
  bring_up false goes_up text k =
      (record k { devices = k.devices + 1; closed = k.closed + 1 }, err ipc_set)
  bring_up true false text k =
      (record k { devices = k.devices + 1; closed = k.closed + 1 }, err device_up)
  bring_up true true text k =
      (record k { state = state_started; applied = text; devices = k.devices + 1 }, ok tt)

  abbrev pub with_text :
      StartEnv
      → Result KernelError Bytes
      → WgKernel Prefix Addr
      → WgKernel Prefix Addr × Result KernelStartError (Unit {0})
  with_text env (err e) k = (k, err (build_ipc e))
  with_text env (ok text) k = bring_up (env.accepts text) (env.goes_up) text k

module _ {Prefix Addr : Type 0} (lib : KeyFormats Prefix) where
  abbrev pub checked :
      Result KernelError (Unit {0})
      → KernelConfig Prefix Addr
      → Bool
      → Bool
      → Result NewError (WgKernel Prefix Addr)
  checked (err e) c has_tun with_tunnel = err (bad_config e)
  checked (ok u) c has_tun with_tunnel =
      if not has_tun
      then err nil_device
      else ok (record {
        cfg = with_kernel_defaults c;
        with_tunnel = with_tunnel;
        state = state_new;
        applied = [];
        devices = 0;
        closed = 0;
      })

  -- `New`, with whether there is a TUN device and a tunnel.
  unfoldable pub new_kernel :
      KernelConfig Prefix Addr → Bool → Bool → Result NewError (WgKernel Prefix Addr)
  new_kernel c has_tun with_tunnel = checked (validate_kernel lib c) c has_tun with_tunnel

  abbrev pub with_config :
      StartEnv
      → Option (KernelConfig Prefix Addr)
      → WgKernel Prefix Addr
      → WgKernel Prefix Addr × Result KernelStartError (Unit {0})
  with_config env none k = (k, err tunnel_not_started)
  with_config env (some c) k = with_text env (ipc lib c) k

  abbrev pub start_at :
      KernelPhase
      → Bool
      → StartEnv
      → WgKernel Prefix Addr
      → WgKernel Prefix Addr × Result KernelStartError (Unit {0})
  start_at state_new false env k =
      with_config env (start_config (k.with_tunnel) (env.local_addr) (k.cfg)) k
  start_at state_new true env k = (k, err ctx_done)
  start_at _ done env k = (k, err already_started)

  -- `Start`
  unfoldable pub start_kernel :
      StartEnv → WgKernel Prefix Addr → WgKernel Prefix Addr × Result KernelStartError (Unit {0})
  start_kernel env k = start_at (k.state) (env.cancelled) env k

abbrev pub clamp_uint : ℕ → Option ℕ → ℕ
clamp_uint bits none = 0
clamp_uint bits (some n) = if ltb n (2 ^ bits) then n else 2 ^ bits - 1

-- `strconv.ParseUint(s, 10, bits)` with its error passed over: 0, or the bound where it is above it.
abbrev pub parse_uint : ℕ → Bytes → ℕ
parse_uint bits s = clamp_uint bits (number s)

abbrev pub neg_int : ℕ → ℤ
neg_int zero = pos 0
neg_int (suc n) = negsuc n

abbrev pub clamp_int : Option ℕ → ℤ
clamp_int none = pos 0
clamp_int (some n) = if ltb n (2 ^ 63) then pos n else pos (2 ^ 63 - 1)

abbrev pub clamp_neg : Option ℕ → ℤ
clamp_neg none = pos 0
clamp_neg (some n) = if leb n (2 ^ 63) then neg_int n else neg_int (2 ^ 63)

-- `strconv.ParseInt(s, 10, 64)` with its error passed over.
abbrev pub parse_int : Bytes → ℤ
parse_int [] = pos 0
parse_int (c ∷ s) =
    if c == 45 then clamp_neg (number s) else clamp_int (number (if c == 43 then s else c ∷ s))

-- `PeerStats`
pub record PeerStats : Type 0 where
  pub peer_key : Bytes
  pub last_handshake_time_sec : ℤ
  pub rx_bytes : ℕ
  pub tx_bytes : ℕ

abbrev pub no_stats : PeerStats
no_stats = record { peer_key = []; last_handshake_time_sec = pos 0; rx_bytes = 0; tx_bytes = 0 }

-- The peer so far, if it has a key, in front of the later ones.
abbrev pub flush_stats : PeerStats → List PeerStats → List PeerStats
flush_stats cur later = if is_nil (cur.peer_key) then later else cur ∷ later

-- The loop of `Stats` over the lines, with the peer so far.
unfoldable pub stats_lines : PeerStats → List Bytes → List PeerStats
stats_lines cur [] = flush_stats cur []
stats_lines cur (line ∷ lines) =
    let next = stats_lines (record no_stats { peer_key = drop 11 line }) lines in
    let handshake =
      stats_lines (record cur { last_handshake_time_sec = parse_int (drop 24 line) }) lines in
    let rx = stats_lines (record cur { rx_bytes = parse_uint 64 (drop 9 line) }) lines in
    let tx = stats_lines (record cur { tx_bytes = parse_uint 64 (drop 9 line) }) lines in
    let other = stats_lines cur lines in
    if has_prefix line (codes "public_key=")
    then flush_stats cur next
    else if has_prefix line (codes "last_handshake_time_sec=")
    then handshake
    else if has_prefix line (codes "rx_bytes=")
    then rx
    else if has_prefix line (codes "tx_bytes=")
    then tx
    else other

-- The loop of `ActualListenPort` over the lines; the text behind the first `listen_port=`.
unfoldable pub listen_port_line : List Bytes → Option Bytes
listen_port_line [] = none
listen_port_line (line ∷ lines) =
    let later = listen_port_line lines in
    if has_prefix line (codes "listen_port=") then some (drop 12 line) else later
