-- ===== src/Bridge.antt =====
-- pkg/wgturnsrv/backend_kernel.go: the bridge between the server's session and a kernel in the same
-- process. A channel that is only closed is a flag: the `closeC` of a connection, and the channel of
-- a generation. A `select` takes one of the cases that are ready, so that a function with a `select`
-- has the case that is taken as an argument, and is `none` where that case is not ready. A deadline
-- is a time, and its timer is an argument, since a timer may go off late.
mod Fifo
mod Delivery
mod Control
mod Held
mod Sessions
mod Tests
use wgturn_core.Prelude.{
  ℕ, ◌+◌, Bool, true, false, not, ◌&&◌, List, [], ◌∷◌, ◌++◌, Option, none, some, Bytes, Result, ok,
  err, length, ◌≡◌, set, get_or, take, leb, ltb, ◌==◌, if◌then◌else◌,
}
use wgturn_core.Tunnel.{is_nil}

-- `kernelBindQueueDepth`
abbrev pub bind_queue_depth : ℕ
bind_queue_depth = 256

pub data BridgeError : Type 0 where
  session_active net_closed bind_deadline : BridgeError

-- `WGKernelBackend` and its `kernelBind`. A generation and a connection are numbers, and their flags
-- say which are closed, and for which connections `Close` has given the backend back.
pub record Bridge : Type 0 where
  pub to_kernel : List Bytes
  pub from_kernel : List Bytes
  pub gens : List Bool
  pub open_gen : Option ℕ
  pub conns : List Bool
  pub released : List Bool
  pub opened : Bool
  pub read_deadline : Option ℕ
  pub write_deadline : Option ℕ

-- The case that a `select` takes.
pub data Ready : Type 0 where
  on_channel on_close on_timer on_default : Ready

-- `NewWGKernelBackend`
abbrev pub new_bridge : Bridge
new_bridge = record {
  to_kernel = [];
  from_kernel = [];
  gens = [];
  open_gen = none;
  conns = [];
  released = [];
  opened = false;
  read_deadline = none;
  write_deadline = none;
}

-- `WGKernelBackend.Open`: the bridge and the number of the connection.
unfoldable pub open_conn : Bridge → Result BridgeError (Bridge × ℕ)
open_conn b =
    if b.opened
    then err session_active
    else ok (
      record b {
        opened = true;
        conns = b.conns ++ (false ∷ []);
        released = b.released ++ (false ∷ []);
      },
      length b.conns,
    )

abbrev pub is_closed : ℕ → Bridge → Bool
is_closed c b = get_or b.conns c true

-- `kernelBackendConn.Close` up to `release`: the connection is closed, and its channel.
unfoldable pub mark_closed : ℕ → Bridge → Bridge
mark_closed c b = if is_closed c b then b else record b { conns = set b.conns c true }

abbrev pub is_released : ℕ → Bridge → Bool
is_released c b = get_or b.released c true

-- `release`, which the `Close` that closed a connection calls once behind it: the backend is free.
unfoldable pub release : ℕ → Bridge → Bridge
release c b =
    if is_closed c b && not (is_released c b)
    then record b { released = set b.released c true; opened = false }
    else b

-- The generation that is open is closed.
abbrev pub end_gen : Option ℕ → List Bool → List Bool
end_gen none gens = gens
end_gen (some g) gens = set gens g true

abbrev pub nonzero_port : ℕ → ℕ
nonzero_port port = if port == 0 then 1 else port

-- `kernelBind.Open`: the bridge, the generation that its `ReceiveFunc` watches, and the port.
unfoldable pub bind_open : ℕ → Bridge → Bridge × ℕ × ℕ
bind_open port b = (
  record b { gens = end_gen b.open_gen b.gens ++ (false ∷ []); open_gen = some (length b.gens) },
  length b.gens,
  nonzero_port port,
)

-- `kernelBind.Close`. The device calls `Open` and `Close` of its bind one at a time, so that the generation,
-- which is closed behind the lock, is closed in the same step.
unfoldable pub bind_close : Bridge → Bridge
bind_close b = record b { gens = end_gen b.open_gen b.gens; open_gen = none }

-- A packet to a channel; it is dropped when the channel is full.
unfoldable pub offer : Bytes → List Bytes → List Bytes
offer p q = if ltb (length q) bind_queue_depth then q ++ (p ∷ []) else q

abbrev pub offer_filled : Bytes → List Bytes → List Bytes
offer_filled p q = if is_nil p then q else offer p q

unfoldable pub offer_all : List Bytes → List Bytes → List Bytes
offer_all [] q = q
offer_all (p ∷ ps) q = offer_all ps (offer_filled p q)

-- `kernelBind.Send`
unfoldable pub send : List Bytes → Bridge → Bridge
unfolding offer_all
send bufs b = record b { from_kernel = offer_all bufs b.from_kernel }

-- Whether a timer has gone off, at a time: only one for a deadline that is set and past.
abbrev pub fires : Bool → ℕ → Option ℕ → Bool
fires timer now none = false
fires timer now (some d) = timer && leb d now

-- `sendToKernel`: the channel after it, and the error.
unfoldable pub send_to_kernel :
    Ready → Bool → Bool → Bytes → List Bytes → Option (List Bytes × Option BridgeError)
send_to_kernel on_channel closed fired p q =
    if ltb (length q) bind_queue_depth then some (q ++ (p ∷ []), none) else none
send_to_kernel on_close closed fired p q = if closed then some (q, some net_closed) else none
send_to_kernel on_timer closed fired p q = if fired then some (q, some bind_deadline) else none
send_to_kernel on_default closed fired p q =
    if ltb (length q) bind_queue_depth
    then none
    else if closed
    then none
    else if fired
    then none
    else some (q, none)

abbrev pub written_to : Bridge → ℕ → List Bytes × Option BridgeError → Bridge × Result BridgeError ℕ
written_to b n (q, none) = (record b { to_kernel = q }, ok n)
written_to b n (q, some e) = (record b { to_kernel = q }, err e)

-- `kernelBackendConn.Write`; the first test for a closed connection has the result of `on_close`.
unfoldable pub conn_write :
    Ready → ℕ → Bool → ℕ → Bytes → Bridge → Option (Bridge × Result BridgeError ℕ)
unfolding send_to_kernel
conn_write ready c timer now p b =
    elim (send_to_kernel ready (is_closed c b) (fires timer now b.write_deadline) p b.to_kernel) [
      | none ↦ none
      | some out ↦ some (written_to b (length p) out)
    ]

-- The first packet of a channel.
abbrev pub pop : List Bytes → Option (Bytes × List Bytes)
pop [] = none
pop (p ∷ q) = some (p, q)

-- `kernelBackendConn.Read` with `recvFromKernel`, into a buffer of a size.
unfoldable pub conn_read :
    Ready → ℕ → Bool → ℕ → ℕ → Bridge → Option (Bridge × Result BridgeError Bytes)
conn_read on_channel c timer now size b = elim (pop b.from_kernel) [
  | none ↦ none
  | some (p, q) ↦ some (record b { from_kernel = q }, ok (take size p))
]
conn_read on_close c timer now size b = if is_closed c b then some (b, err net_closed) else none
conn_read on_timer c timer now size b =
    if fires timer now b.read_deadline then some (b, err bind_deadline) else none
conn_read on_default c timer now size b = none

abbrev pub is_ended : ℕ → Bridge → Bool
is_ended g b = get_or b.gens g true

-- The `ReceiveFunc` of a generation, into a buffer of a size.
unfoldable pub receive : Ready → ℕ → ℕ → Bridge → Option (Bridge × Result BridgeError Bytes)
receive on_channel g size b = elim (pop b.to_kernel) [
  | none ↦ none
  | some (p, q) ↦ some (record b { to_kernel = q }, ok (take size p))
]
receive on_close g size b = if is_ended g b then some (b, err net_closed) else none
receive ready g size b = none

abbrev pub set_read_deadline : Option ℕ → Bridge → Bridge
set_read_deadline d b = record b { read_deadline = d }

abbrev pub set_write_deadline : Option ℕ → Bridge → Bridge
set_write_deadline d b = record b { write_deadline = d }

abbrev pub set_deadline : Option ℕ → Bridge → Bridge
set_deadline d b = set_write_deadline d (set_read_deadline d b)

-- What is seen of a step.
pub data Event : Type 0 where
  wrote received was_read : Bytes → Event
  sent : List Bytes → Event
  nothing : Event

-- The goroutines' steps: buffers of `kernel_size` bytes receive, buffers of `session_size` bytes read.
module _ (kernel_size session_size : ℕ) where
  pub data BridgeStep (b : Bridge) : Event → Bridge → Type 0 where
    open_step : (c : ℕ) (b' : Bridge) → open_conn b ≡ ok (b', c) → BridgeStep b nothing b'
    close_step : (c : ℕ) → BridgeStep b nothing (mark_closed c b)
    release_step : (c : ℕ) → BridgeStep b nothing (release c b)
    arm_step : (port : ℕ) → BridgeStep b nothing (bind_open port b).0
    disarm_step : BridgeStep b nothing (bind_close b)
    send_step : (bufs : List Bytes) → BridgeStep b (sent bufs) (send bufs b)
    deadline_step :
        (r w : Option ℕ) → BridgeStep b nothing (set_write_deadline w (set_read_deadline r b))
    write_step :
        (ready : Ready) (c : ℕ) (timer : Bool) (now n : ℕ) (p : Bytes) (b' : Bridge)
        → conn_write ready c timer now p b ≡ some (b', ok n)
        → BridgeStep b (wrote p) b'
    write_error_step :
        (ready : Ready) (c : ℕ) (timer : Bool) (now : ℕ) (p : Bytes) (b' : Bridge) (e : BridgeError)
        → conn_write ready c timer now p b ≡ some (b', err e)
        → BridgeStep b nothing b'
    read_step :
        (ready : Ready) (c : ℕ) (timer : Bool) (now : ℕ) (b' : Bridge) (r : Bytes)
        → conn_read ready c timer now session_size b ≡ some (b', ok r)
        → BridgeStep b (was_read r) b'
    receive_step :
        (ready : Ready) (g : ℕ) (b' : Bridge) (r : Bytes)
        → receive ready g kernel_size b ≡ some (b', ok r)
        → BridgeStep b (received r) b'

  -- Steps with these events lead from a bridge to another one.
  abbrev pub BridgeSteps : Bridge → List Event → Bridge → Type 0
  BridgeSteps b [] d = b ≡ d
  BridgeSteps b (e ∷ es) d = (c : Bridge) × BridgeStep b e c × BridgeSteps c es d
