-- ===== src/Hub.antt =====
-- internal/proxy/hub.go: the hub's choice of hints, its scheduler, and its counters. The streams are
-- those of internal/proxy/stream.go, seen through the fields that the hub touches. Addresses and
-- counters are numbers; `uint64` counters wrap.
mod Tests
pub mod Schedule
pub mod Queues
pub mod Counters
pub mod Hints
use wgturn_core.Prelude.{
  ℕ, zero, suc, ◌+◌, ◌-◌, ◌/◌, ◌%◌, ◌^◌, Bool, true, false, not, ◌&&◌, ◌||◌, List, [], ◌∷◌, ◌++◌,
  Option, none, some, Bytes, Result, ok, err, length, get_elem?, get_or, set, leb, ltb, ◌==◌,
  if◌then◌else◌,
}

-- An `int` of a configuration: `below_zero` stands for the values less than 0.
pub data ConfigInt : Type 0 where
  count : ℕ → ConfigInt
  below_zero : ConfigInt

-- The fields of `HubConfig` that the hub itself reads.
pub record HubConfig : Type 0 where
  pub streams : ConfigInt
  pub streams_per_cred : ConfigInt
  pub hints : List Bytes
  pub has_provider : Bool
  pub has_logger : Bool

pub data HubError : Type 0 where
  provider_required logger_required already_started listen_failed certificate_failed : HubError

-- What `NewHub` settles: the numbers of streams and of streams to a credential group.
pub record HubPlan : Type 0 where
  pub n_streams : ℕ
  pub per_cred : ℕ
  pub pool : List Bytes

abbrev pub or_default : ConfigInt → ℕ → ℕ
or_default (count zero) d = d
or_default (count (suc n)) d = suc n
or_default below_zero d = d

-- `NewHub`
unfoldable pub new_hub : HubConfig → Result HubError HubPlan
new_hub cfg =
    if not cfg.has_provider
    then err provider_required
    else if not cfg.has_logger
    then err logger_required
    else ok (record {
      n_streams = or_default cfg.streams 1;
      per_cred = or_default cfg.streams_per_cred 4;
      pool = cfg.hints;
    })

-- `hintFor`; the empty hint if the pool is empty.
unfoldable pub hint_for : HubPlan → ℕ → Bytes
hint_for h stream_id =
    if length h.pool == 0 then [] else get_or h.pool ((stream_id / h.per_cred) % length h.pool) []

-- The capacity of the channel `in`.
abbrev pub queue_depth : ℕ
queue_depth = 512

-- A stream: `queue` is the channel `in`, `peer` the last return address.
pub record Stream : Type 0 where
  pub ready : Bool
  pub queue : List Bytes
  pub peer : Option ℕ
  pub bytes_tx : ℕ
  pub bytes_rx : ℕ
  pub packets_tx : ℕ
  pub packets_rx : ℕ
  pub drops_tx : ℕ
  pub errors_tx : ℕ
  pub errors_rx : ℕ

abbrev pub u64_mod : ℕ
u64_mod = 2 ^ 64

-- Whether the stream in slot `i` is ready; no slot, no stream.
abbrev pub is_ready : List Stream → ℕ → Bool
is_ready ss i = elim (get_elem? ss i) [ none ↦ false | some s ↦ s.ready ]

-- The search of `scheduleLoop`: `rounds` slots are left to look at, from offset `i` behind `start`.
unfoldable pub find_ready : List Stream → ℕ → ℕ → ℕ → Option ℕ
find_ready ss start zero i = none
find_ready ss start (suc rounds) i =
    let slot = (start + i) % length ss in
    let rest = find_ready ss start rounds (i + 1) in if is_ready ss slot then some slot else rest

-- The non-blocking send into the stream's channel, once its return address is set; a channel that holds
-- `queue_depth` packets, its capacity, takes no more.
abbrev pub hand_off : Stream → Bytes → ℕ → Stream
hand_off s packet addr =
    if ltb (length s.queue) queue_depth
    then record s { peer = some addr; queue = s.queue ++ (packet ∷ []) }
    else record s { peer = some addr; drops_tx = (s.drops_tx + 1) % u64_mod }

-- The scheduler's state: the variable `lastUsed` and the hub's streams.
pub record Scheduler : Type 0 where
  pub last_used : ℕ
  pub streams : List Stream

-- One round of `scheduleLoop`, on a packet that the listener read from `addr`.
unfoldable pub schedule : Scheduler → Bytes → ℕ → Scheduler
unfolding find_ready
schedule h packet addr =
    if length h.streams == 0
    then h
    else let last = (h.last_used + 1) % length h.streams in
      elim (find_ready h.streams last (length h.streams) 0) [
        | none ↦ record h { last_used = last }
        | some i ↦ elim (get_elem? h.streams i) [
          | none ↦ record h { last_used = last }
          | some s ↦ record { last_used = last; streams = set h.streams i (hand_off s packet addr) }
        ]
      ]

-- `scheduleLoop` over the packets that are read before the listener closes.
unfoldable pub schedule_loop : Scheduler → List (Bytes × ℕ) → Scheduler
unfolding schedule
schedule_loop h [] = h
schedule_loop h ((packet, addr) ∷ rest) = schedule_loop (schedule h packet addr) rest

-- `HubStats`
pub record HubStats : Type 0 where
  pub streams_running : ℕ
  pub streams_total : ℕ
  pub total_bytes_tx : ℕ
  pub total_bytes_rx : ℕ
  pub total_packets_tx : ℕ
  pub total_packets_rx : ℕ
  pub total_drops_tx : ℕ
  pub total_errors_tx : ℕ
  pub total_errors_rx : ℕ

abbrev pub add64 : ℕ → ℕ → ℕ
add64 a b = (a + b) % u64_mod

abbrev pub add_stream_stats : HubStats → Stream → HubStats
add_stream_stats out s = record {
  streams_running = if s.ready then out.streams_running + 1 else out.streams_running;
  streams_total = out.streams_total;
  total_bytes_tx = add64 out.total_bytes_tx s.bytes_tx;
  total_bytes_rx = add64 out.total_bytes_rx s.bytes_rx;
  total_packets_tx = add64 out.total_packets_tx s.packets_tx;
  total_packets_rx = add64 out.total_packets_rx s.packets_rx;
  total_drops_tx = add64 out.total_drops_tx s.drops_tx;
  total_errors_tx = add64 out.total_errors_tx s.errors_tx;
  total_errors_rx = add64 out.total_errors_rx s.errors_rx;
}

unfoldable pub sum_stats : HubStats → List Stream → HubStats
sum_stats out [] = out
sum_stats out (s ∷ ss) = sum_stats (add_stream_stats out s) ss

-- `Stats`
unfoldable pub stats : List Stream → HubStats
unfolding sum_stats
stats ss =
    sum_stats
      (record {
        streams_running = 0;
        streams_total = length ss;
        total_bytes_tx = 0;
        total_bytes_rx = 0;
        total_packets_tx = 0;
        total_packets_rx = 0;
        total_drops_tx = 0;
        total_errors_tx = 0;
        total_errors_rx = 0;
      })
      ss
