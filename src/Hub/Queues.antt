-- ===== src/Hub/Queues.antt =====
-- The channels of the streams (internal/proxy/hub.go): never over their capacity.
use wgturn_core.Prelude.{
  ℕ, zero, suc, ◌≤◌, ◌≡◌, refl, List, [], ◌∷◌, some, Bytes, length, get_elem?, set, arith, inl, inr,
  length-append, All, subst, some-inj, Bool-cases, ◌==◌,
}
use wgturn_core.Hub.{Stream, Scheduler, schedule, schedule_loop, queue_depth}
use wgturn_core.Hub.Schedule.{Scheduled, none_ready, handed, full, schedule-Scheduled}

abbrev pub WithinDepth : List Stream → Type 0
WithinDepth = All (λ s. length s.queue ≤ queue_depth)

set-WithinDepth :
    (ss : List Stream) (i : ℕ) (s : Stream)
    → length s.queue ≤ queue_depth
    → WithinDepth ss
    → WithinDepth (set ss i s)
set-WithinDepth [] i s h w = tt
set-WithinDepth (x ∷ ss) zero s h w = (h, w.1)
set-WithinDepth (x ∷ ss) (suc i) s h w = (w.0, set-WithinDepth ss i s h w.1)

stream-WithinDepth :
    (ss : List Stream) (i : ℕ) (s : Stream)
    → get_elem? ss i ≡ some s
    → WithinDepth ss
    → length s.queue ≤ queue_depth
stream-WithinDepth [] i s e w = cc
stream-WithinDepth (x ∷ ss) zero s e w = subst (λ y. length y.queue ≤ queue_depth) (some-inj e) w.0
stream-WithinDepth (x ∷ ss) (suc i) s e w = stream-WithinDepth ss i s e w.1

Scheduled-WithinDepth :
    (h h' : Scheduler) (packet : Bytes) (addr : ℕ)
    → Scheduled h packet addr h'
    → WithinDepth h.streams
    → WithinDepth h'.streams
Scheduled-WithinDepth h h' packet addr (none_ready busy e) w = rw e w
Scheduled-WithinDepth h h' packet addr (handed k slot s first low e) w =
    rw e (set-WithinDepth h.streams slot _ (ground (arith, length-append s.queue (packet ∷ []))) w)
Scheduled-WithinDepth h h' packet addr (full k slot s first high e) w =
    rw e (set-WithinDepth h.streams slot _ (stream-WithinDepth h.streams slot s (first.here) w) w)

schedule_empty :
    (h : Scheduler) (packet : Bytes) (addr : ℕ) → length h.streams ≡ 0 → schedule h packet addr ≡ h
unfolding schedule
schedule_empty h packet addr e = rw (e, schedule) refl

-- Whatever packets the listener reads, no stream's channel ever holds more than 512 packets.
pub schedule_loop-WithinDepth :
    (packets : List (Bytes × ℕ)) (h : Scheduler)
    → WithinDepth h.streams
    → WithinDepth (schedule_loop h packets).streams
unfolding schedule_loop
schedule_loop-WithinDepth [] h w = w
schedule_loop-WithinDepth ((packet, addr) ∷ rest) h w =
    schedule_loop-WithinDepth rest (schedule h packet addr)
      (elim (Bool-cases (length h.streams == 0)) [
        | inl e ↦ rw (schedule_empty h packet addr (ground arith)) w
        | inr e ↦
            Scheduled-WithinDepth h _ packet addr (schedule-Scheduled h packet addr (ground arith))
              w
      ])
