-- ===== src/Stream/Pump.antt =====
-- internal/proxy/stream.go: the two goroutines of a pump between the hub's queue and the relay, as events
-- in the order they happen. The queue is the channel `in`; counters are `uint64`; times are nanoseconds,
-- and the watchdog's mark is in seconds. The two carrier goroutines of `pumpDTLS` are left out.
use wgturn_core.Prelude.{
  ℕ, ◌+◌, ◌*◌, ◌/◌, ◌%◌, ◌^◌, Bool, true, false, ◌&&◌, List, [], ◌∷◌, ◌++◌, Option, none, some,
  Bytes, ltb, if◌then◌else◌,
}
use wgturn_core.Creds.{second}

pub record StreamCounters : Type 0 where
  pub bytes_tx : ℕ
  pub packets_tx : ℕ
  pub drops_tx : ℕ
  pub errors_tx : ℕ
  pub bytes_rx : ℕ
  pub packets_rx : ℕ
  pub errors_rx : ℕ

-- The state of a pump: the queue, what was written to the relay, in order, the second of the last packet
-- from it, and which of its two goroutines run.
pub record PumpState : Type 0 where
  pub queue : List Bytes
  pub written : List Bytes
  pub last_rx : ℕ
  pub tx_live : Bool
  pub rx_live : Bool
  pub counters : StreamCounters

-- What becomes of a packet from the relay: no local peer is known, the local write fails, or it is done.
pub data Delivery : Type 0 where
  no_peer : Delivery
  local_failed : Delivery
  delivered : Delivery

pub data PumpEvent : Type 0 where
  arrive : Bytes → PumpEvent
  -- The TX goroutine takes a packet at a time; the write gives a length or fails.
  take_one : ℕ → Option ℕ → PumpEvent
  tx_done : PumpEvent
  -- The RX goroutine: a read that fails, with whether the error is of a cancelled context, and a packet
  -- of a length, at a time, with whether it is from the peer.
  read_failed : Bool → PumpEvent
  received : ℕ → ℕ → Bool → Delivery → PumpEvent

abbrev pub add_count : ℕ → ℕ → ℕ
add_count c n = (c + n) % 2 ^ 64

-- `wd > 0 && time.Since(time.Unix(lastRx, 0)) > wd`
abbrev pub is_stale : ℕ → ℕ → ℕ → Bool
is_stale wd last_rx now = ltb 0 wd && ltb (last_rx * second + wd) now

-- The packet is given to the relay.
abbrev pub write_one : Bytes → List Bytes → Option ℕ → PumpState → PumpState
write_one b rest none s = record s {
  queue = rest;
  tx_live = false;
  counters = record (s.counters) { errors_tx = add_count (s.counters.errors_tx) 1 };
}
write_one b rest (some n) s = record s {
  queue = rest;
  written = s.written ++ (b ∷ []);
  counters = record (s.counters) {
    bytes_tx = add_count (s.counters.bytes_tx) n;
    packets_tx = add_count (s.counters.packets_tx) 1;
  };
}

-- The watchdog drops the packet and ends the goroutine.
abbrev pub drop_one : List Bytes → PumpState → PumpState
drop_one rest s = record s {
  queue = rest;
  tx_live = false;
  counters = record (s.counters) { drops_tx = add_count (s.counters.drops_tx) 1 };
}

abbrev pub take_from : ℕ → ℕ → Option ℕ → List Bytes → PumpState → PumpState
take_from wd now result [] s = s
take_from wd now result (b ∷ rest) s =
    if is_stale wd (s.last_rx) now then drop_one rest s else write_one b rest result s

abbrev pub count_rx_error : PumpState → PumpState
count_rx_error s = record s {
  rx_live = false;
  counters = record (s.counters) { errors_rx = add_count (s.counters.errors_rx) 1 };
}

abbrev pub deliver : ℕ → Delivery → PumpState → PumpState
deliver n no_peer s = s
deliver n local_failed s = count_rx_error s
deliver n delivered s = record s {
  counters = record (s.counters) {
    bytes_rx = add_count (s.counters.bytes_rx) n;
    packets_rx = add_count (s.counters.packets_rx) 1;
  };
}

-- A step of `pumpDTLS`; every packet is from the peer.
unfoldable pub step_dtls : ℕ → PumpEvent → PumpState → PumpState
step_dtls wd (arrive b) s = record s { queue = s.queue ++ (b ∷ []) }
step_dtls wd (take_one now result) s = if s.tx_live then take_from wd now result (s.queue) s else s
step_dtls wd tx_done s = record s { tx_live = false }
step_dtls wd (read_failed canceled) s =
    if s.rx_live then if canceled then record s { rx_live = false } else count_rx_error s else s
step_dtls wd (received n now from_peer delivery) s =
    if s.rx_live then deliver n delivery (record s { last_rx = now / second }) else s

-- A step of `pumpRaw`: no watchdog, and packets of others are passed over.
unfoldable pub step_raw : PumpEvent → PumpState → PumpState
step_raw (arrive b) s = record s { queue = s.queue ++ (b ∷ []) }
step_raw (take_one now result) s = if s.tx_live then take_from 0 now result (s.queue) s else s
step_raw tx_done s = record s { tx_live = false }
step_raw (read_failed canceled) s = if s.rx_live then count_rx_error s else s
step_raw (received n now from_peer delivery) s =
    if s.rx_live then if from_peer then deliver n delivery s else s else s

unfoldable pub run_pump :
    (PumpEvent → PumpState → PumpState) → List PumpEvent → PumpState → PumpState
run_pump step [] s = s
run_pump step (e ∷ es) s = run_pump step es (step e s)

abbrev pub no_counts : StreamCounters
no_counts = record {
  bytes_tx = 0;
  packets_tx = 0;
  drops_tx = 0;
  errors_tx = 0;
  bytes_rx = 0;
  packets_rx = 0;
  errors_rx = 0;
}

-- A pump that starts at a time, with what the queue holds. Its counters count from its start on; those of
-- the stream go on, and the goroutines of `pumpDTLS` between the pipe and the relay, which are left out,
-- add to its errors too.
abbrev pub new_pump : List Bytes → ℕ → PumpState
new_pump queue now = record {
  queue = queue;
  written = [];
  last_rx = now / second;
  tx_live = true;
  rx_live = true;
  counters = no_counts;
}
