-- ===== src/Stream/Loop.antt =====
-- internal/proxy/stream.go: the loop of attempts.
use wgturn_core.Prelude.{
  ◌≤◌, ◌*◌, Bool, true, false, List, [], ◌∷◌, Option, none, some, Bytes, Result, ok, err, ◌≡◌, refl,
  Bool-cases, inl, inr, arith, codes,
}
use wgturn_core.Creds.{Credentials, second, is_rate_limit_error}
use wgturn_core.Stream.{
  StreamConfig, Attempt, RunRound, turn_call, connect, connected, with_creds, run_once, back_off,
  StreamEvent, attempted, waited, has_error, run_loop, pump, round_events,
}

turn_call-some :
    (prefix : Bytes) (call : Option Bytes) (later : Option Bytes × Bool)
    → has_error (later.0) ≡ true
    → has_error ((turn_call prefix call later).0) ≡ true
turn_call-some prefix none later h = h
turn_call-some prefix (some text) later h = refl

connected-some :
    (cfg : StreamConfig) (a : Attempt) (r : Result Bytes (Unit {0}))
    → has_error ((connected cfg a r).0) ≡ true
connected-some cfg a (err e) = refl
connected-some cfg a (ok u) =
    let pumped : Option Bytes × Bool = (some (pump (cfg.peer_type) a), false) in
    turn_call-some (codes "turn listen: ") (a.listen)
      (turn_call (codes "turn allocate: ") (a.allocate) pumped)
      (turn_call-some (codes "turn allocate: ") (a.allocate) pumped refl)

with_creds-some :
    (cfg : StreamConfig) (a : Attempt) (r : Result Bytes Credentials)
    → has_error ((with_creds cfg a r).0) ≡ true
with_creds-some cfg a (err e) = refl
with_creds-some cfg a (ok cr) = connected-some cfg a (connect cfg a cr)

-- An attempt never ends without an error.
pub run_once-some : (cfg : StreamConfig) (a : Attempt) → has_error ((run_once cfg a).0) ≡ true
unfolding run_once
run_once-some cfg a = with_creds-some cfg a (a.creds)

-- A context that is done after an attempt is done when the next round starts.
abbrev pub StaysDone : List RunRound → Type 0
StaysDone [] = Unit
StaysDone (r ∷ []) = Unit
StaysDone (r ∷ q ∷ rs) = (r.done_after ≡ true → q.done_before ≡ true) × StaysDone (q ∷ rs)

-- Each attempt is the last one or is followed by a wait of a second at least, and of fifteen seconds
-- where its error is one of the rate limit.
abbrev pub Spaced : List StreamEvent → Type 0
Spaced [] = Unit
Spaced (attempted e refused ∷ []) = Unit
Spaced (attempted e refused ∷ waited d ∷ rest) =
    (second ≤ d) × (is_rate_limit_error e ≡ true → d ≡ 15 * second) × Spaced rest
Spaced _ = ⊥

back_off-bounds :
    (e : Option Bytes)
    → (second ≤ back_off e) × (is_rate_limit_error e ≡ true → back_off e ≡ 15 * second)
unfolding back_off
back_off-bounds e = elim (Bool-cases (is_rate_limit_error e)) [
  | inl h ↦ rw (h) (omega arith, λ k. refl)
  | inr h ↦ rw (h) (omega arith, λ k. cc)
]

round_events-Spaced :
    (before : Bool) (result : Option Bytes × Bool) (after in_wait : Bool) (later : List StreamEvent)
    → has_error (result.0) ≡ true
    → Spaced later
    → (after ≡ true → later ≡ [])
    → Spaced (round_events before result after in_wait later)
round_events-Spaced true result after in_wait later h s stop = tt
round_events-Spaced false (none, refused) after in_wait later h s stop = cc
round_events-Spaced false (some e, refused) true in_wait later h s stop = rw (stop refl) tt
round_events-Spaced false (some e, refused) false true later h s stop =
    let (least, limit) = back_off-bounds (some e) in (least, limit, tt)
round_events-Spaced false (some e, refused) false false later h s stop =
    let (least, limit) = back_off-bounds (some e) in (least, limit, s)

run_loop-done :
    (cfg : StreamConfig) (q : RunRound) (rs : List RunRound)
    → q.done_before ≡ true
    → run_loop cfg (q ∷ rs) ≡ []
unfolding run_loop
run_loop-done cfg q rs h = rw (h) refl

-- With a context that stays done, the loop of a stream waits between any two attempts for a second at
-- least, and for fifteen seconds where the attempt failed with an error of the rate limit.
pub run_loop-Spaced :
    (cfg : StreamConfig) (rs : List RunRound) → StaysDone rs → Spaced (run_loop cfg rs)
unfolding run_loop
run_loop-Spaced cfg [] h = tt
run_loop-Spaced cfg (r ∷ []) h =
    round_events-Spaced (r.done_before) (run_once cfg (r.attempt)) (r.done_after) (r.done_in_wait)
      [] (run_once-some cfg (r.attempt)) tt (λ e. refl)
run_loop-Spaced cfg (r ∷ q ∷ rs) h =
    round_events-Spaced (r.done_before) (run_once cfg (r.attempt)) (r.done_after) (r.done_in_wait)
      (run_loop cfg (q ∷ rs)) (run_once-some cfg (r.attempt)) (run_loop-Spaced cfg (q ∷ rs) (h.1))
      (λ e. run_loop-done cfg q rs (h.0 e))
