-- ===== src/Hub/Schedule.antt =====
-- The scheduler of internal/proxy/hub.go: which stream gets a packet, and what becomes of it.
use wgturn_core.Prelude.{
  ℕ, zero, suc, ◌+◌, ◌%◌, ◌^◌, ◌≤◌, ◌<◌, ◌≡◌, refl, subst, ==_iff, true, false, List, [], ◌∷◌, ◌++◌,
  Option, none, some, Bytes, ltb, length, get_elem?, set, ◌==◌, arith, Bool-cases, Option-cases,
  inl, inr,
}
use wgturn_core.Hub.{Stream, Scheduler, is_ready, find_ready, hand_off, queue_depth, schedule}

-- The first ready slot at or behind `start + i`, of the `rounds` slots from there: all slots before
-- it are not ready.
abbrev Finds : List Stream → ℕ → ℕ → ℕ → Option ℕ → Type 0
Finds ss start rounds i none =
    (j : ℕ) → i ≤ j → j < i + rounds → is_ready ss ((start + j) % length ss) ≡ false
Finds ss start rounds i (some slot) =
    (k : ℕ) × (i ≤ k)
    × (k < i + rounds)
    × (slot ≡ (start + k) % length ss)
    × (is_ready ss slot ≡ true)
    × ((j : ℕ) → i ≤ j → j < k → is_ready ss ((start + j) % length ss) ≡ false)

-- What holds at `i` and behind it holds from `i` on.
from_first : (P : ℕ → Type 0) (i j : ℕ) → P i → (i + 1 ≤ j → P j) → i ≤ j → P j
from_first P i j p q low = elim (Bool-cases (i == j)) [
  | inl e ↦ subst P ((==_iff i j).0 e) p
  | inr e ↦ q (ground arith)
]

skip-Finds :
    (ss : List Stream) (start rounds i : ℕ) (r : Option ℕ)
    → is_ready ss ((start + i) % length ss) ≡ false
    → Finds ss start rounds (i + 1) r
    → Finds ss start (suc rounds) i r
skip-Finds ss start rounds i none h f = λ j low high.
    from_first (λ j. is_ready ss ((start + j) % length ss) ≡ false) i j h (λ b. f j b (omega arith))
      low
skip-Finds ss start rounds i (some slot) h (k, lo, hi, e, ready, before) = (
  k,
  omega arith,
  omega arith,
  e,
  ready,
  λ j low high.
      from_first (λ j. is_ready ss ((start + j) % length ss) ≡ false) i j h (λ b. before j b high)
        low,
)

find_ready-Finds :
    (ss : List Stream) (start rounds i : ℕ) → Finds ss start rounds i (find_ready ss start rounds i)
unfolding find_ready
find_ready-Finds ss start zero i = λ j low high. absurd (omega arith)
find_ready-Finds ss start (suc rounds) i =
    elim (Bool-cases (is_ready ss ((start + i) % length ss))) [
      | inl h ↦
          rw (h, find_ready)
            (i, omega arith, omega arith, refl, h, λ j low high. absurd (omega arith))
      | inr h ↦
          rw (h, find_ready)
            (skip-Finds ss start rounds i _ h (find_ready-Finds ss start rounds (i + 1)))
    ]

-- The slot that the scheduler starts from.
abbrev pub next_slot : Scheduler → ℕ
next_slot h = (h.last_used + 1) % length h.streams

-- The slot at distance `k` behind the start is the first one whose stream is ready, and `s` is its stream.
pub record FirstReady (h : Scheduler) (k slot : ℕ) (s : Stream) : Type 0 where
  pub near : k < length h.streams
  pub place : slot ≡ (next_slot h + k) % length h.streams
  pub here : get_elem? h.streams slot ≡ some s
  pub up : s.ready ≡ true
  pub before : (j : ℕ) → j < k → is_ready h.streams ((next_slot h + j) % length h.streams) ≡ false

-- What one packet does. No stream is ready, and the packet is dropped; or it goes to the end of the queue
-- of the first ready stream, which learns the return address; or that queue is full, and the stream
-- counts a drop.
pub data Scheduled (h : Scheduler) (packet : Bytes) (addr : ℕ) (h' : Scheduler) : Type 0 where
  none_ready :
      ((j : ℕ)
        → j < length h.streams
        → is_ready h.streams ((next_slot h + j) % length h.streams) ≡ false)
      → h' ≡ record h { last_used = next_slot h }
      → Scheduled h packet addr h'
  handed :
      (k slot : ℕ) (s : Stream)
      → FirstReady h k slot s
      → length s.queue < 512
      → h' ≡ record {
        last_used = next_slot h;
        streams =
            set h.streams slot (record s { peer = some addr; queue = s.queue ++ (packet ∷ []) });
      }
      → Scheduled h packet addr h'
  full :
      (k slot : ℕ) (s : Stream)
      → FirstReady h k slot s
      → 512 ≤ length s.queue
      → h' ≡ record {
        last_used = next_slot h;
        streams =
            set h.streams slot
              (record s { peer = some addr; drops_tx = (s.drops_tx + 1) % 2 ^ 64 });
      }
      → Scheduled h packet addr h'

is_ready-some :
    (ss : List Stream) (i : ℕ)
    → is_ready ss i ≡ true
    → (s : Stream) × (get_elem? ss i ≡ some s) × (s.ready ≡ true)
is_ready-some ss i h = elim (Option-cases (get_elem? ss i)) [
  | inl e ↦ absurd (ground arith)
  | inr (s, e) ↦ (s, e, ground arith)
]

-- What the first ready stream does with a packet, by the room in its queue.
hand_off-Scheduled :
    (h : Scheduler) (packet : Bytes) (addr k slot : ℕ) (s : Stream)
    → FirstReady h k slot s
    → Scheduled h packet addr
        (record { last_used = next_slot h; streams = set h.streams slot (hand_off s packet addr) })
hand_off-Scheduled h packet addr k slot s f = elim (Bool-cases (ltb (length s.queue) queue_depth)) [
  | inl e ↦ rw (e) (handed k slot s f (ground arith) refl)
  | inr e ↦ rw (e) (full k slot s f (ground arith) refl)
]

-- Where there are streams, a packet from the listener goes to the first ready one behind the one that was
-- tried first for the packet before, in slot order and around the end: to the end of its queue where that
-- holds less than 512 packets, and else it is dropped and counted there. It is dropped, too, where no
-- stream is ready. Nothing but that stream and the scheduler's position changes.
pub schedule-Scheduled :
    (h : Scheduler) (packet : Bytes) (addr : ℕ)
    → 0 < length h.streams
    → Scheduled h packet addr (schedule h packet addr)
unfolding schedule
schedule-Scheduled h packet addr n =
    let some_streams : (length h.streams == 0) ≡ false = ground arith in
    let found = find_ready-Finds h.streams (next_slot h) (length h.streams) 0 in
    elim (Option-cases (find_ready h.streams (next_slot h) (length h.streams) 0)) [
      | inl e ↦
          let none_found : Finds h.streams (next_slot h) (length h.streams) 0 none =
            rw e at found in
          rw (some_streams, e, schedule)
            (none_ready (λ j low. none_found j (omega arith) (omega arith)) refl)
      | inr (slot, e) ↦
          let (k, _, hi, at, ready, before) = rw e at found in
          let (s, got, up) = is_ready-some h.streams slot ready in
          let first : FirstReady h k slot s = record {
            near = omega arith;
            place = at;
            here = got;
            up = up;
            before = λ j. before j (omega arith);
          } in
          rw (some_streams, e, schedule) (rw got (hand_off-Scheduled h packet addr k slot s first))
    ]
