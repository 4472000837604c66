-- ===== src/Stream/Order.antt =====
-- internal/proxy/stream.go: what a pump writes.
use mathlib.Core.List.{append_assoc, append-nil}
use wgturn_core.Prelude.{
  ℕ, ◌/◌, Bool, true, false, List, [], ◌∷◌, ◌++◌, Bytes, if◌then◌else◌, ◌≡◌, refl, sym, arith,
  subst,
}
use wgturn_core.Creds.{second}
use wgturn_core.Stream.Pump.{
  PumpState, PumpEvent, arrive, take_one, tx_done, read_failed, received, take_from, count_rx_error,
  deliver, step_dtls, step_raw, run_pump, new_pump,
}
use wgturn_core.Stream.Parts.{
  InOrder, arrive-InOrder, take-InOrder, rx_end-InOrder, deliver-InOrder, mark_rx-InOrder,
  stop_rx-InOrder, stop_tx-InOrder,
}

-- The packets that the events bring.
abbrev pub arrivals : List PumpEvent → List Bytes
arrivals [] = []
arrivals (arrive b ∷ es) = b ∷ arrivals es
arrivals (_ ∷ es) = arrivals es

-- What came in before, and what an event brings.
abbrev with_event : List Bytes → PumpEvent → List Bytes
with_event offered (arrive b) = offered ++ (b ∷ [])
with_event offered _ = offered

-- A step that a goroutine takes only while it runs.
while_live :
    (P : PumpState → Type 0) (live : Bool) (x y : PumpState)
    → (live ≡ true → P x)
    → P y
    → P (if live then x else y)
while_live P true x y px py = px refl
while_live P false x y px py = py

step_dtls-InOrder :
    (wd : ℕ) (offered : List Bytes) (e : PumpEvent) (s : PumpState)
    → InOrder offered s
    → InOrder (with_event offered e) (step_dtls wd e s)
unfolding step_dtls
step_dtls-InOrder wd offered (arrive b) s h = arrive-InOrder offered b s h
step_dtls-InOrder wd offered (take_one now result) s h =
    while_live (InOrder offered) (s.tx_live) (take_from wd now result (s.queue) s) s
      (λ live. take-InOrder wd now result (s.queue) offered s refl live h) h
step_dtls-InOrder wd offered tx_done s h = stop_tx-InOrder offered s h
step_dtls-InOrder wd offered (read_failed true) s h =
    while_live (InOrder offered) (s.rx_live) _ s (λ live. stop_rx-InOrder offered s h) h
step_dtls-InOrder wd offered (read_failed false) s h =
    while_live (InOrder offered) (s.rx_live) (count_rx_error s) s
      (λ live. rx_end-InOrder offered s h) h
step_dtls-InOrder wd offered (received n now from_peer d) s h =
    let marked = record s { last_rx = now / second } in
    while_live (InOrder offered) (s.rx_live) (deliver n d marked) s
      (λ live. deliver-InOrder offered n d marked (mark_rx-InOrder offered (now / second) s h)) h

step_raw-InOrder :
    (offered : List Bytes) (e : PumpEvent) (s : PumpState)
    → InOrder offered s
    → InOrder (with_event offered e) (step_raw e s)
unfolding step_raw
step_raw-InOrder offered (arrive b) s h = arrive-InOrder offered b s h
step_raw-InOrder offered (take_one now result) s h =
    while_live (InOrder offered) (s.tx_live) (take_from 0 now result (s.queue) s) s
      (λ live. take-InOrder 0 now result (s.queue) offered s refl live h) h
step_raw-InOrder offered tx_done s h = stop_tx-InOrder offered s h
step_raw-InOrder offered (read_failed canceled) s h =
    while_live (InOrder offered) (s.rx_live) (count_rx_error s) s
      (λ live. rx_end-InOrder offered s h) h
step_raw-InOrder offered (received n now true d) s h =
    while_live (InOrder offered) (s.rx_live) (deliver n d s) s
      (λ live. deliver-InOrder offered n d s h) h
step_raw-InOrder offered (received n now false d) s h =
    while_live (InOrder offered) (s.rx_live) s s (λ live. h) h

-- A pump whose steps keep the order keeps it over all its events.
run_pump-InOrder :
    (step : PumpEvent → PumpState → PumpState)
    → ((offered : List Bytes) (e : PumpEvent) (s : PumpState)
        → InOrder offered s
        → InOrder (with_event offered e) (step e s))
    → (es : List PumpEvent) (offered : List Bytes) (s : PumpState) → InOrder offered s
    → InOrder (offered ++ arrivals es) (run_pump step es s)
unfolding run_pump
run_pump-InOrder step keeps [] offered s h = subst (λ o. InOrder o s) (sym (append-nil offered)) h
run_pump-InOrder step keeps (arrive b ∷ es) offered s h =
    subst (λ o. InOrder o (run_pump step es (step (arrive b) s)))
      (append_assoc offered (b ∷ []) (arrivals es))
      (run_pump-InOrder step keeps es (offered ++ (b ∷ [])) (step (arrive b) s)
        (keeps offered (arrive b) s h))
run_pump-InOrder step keeps (take_one now result ∷ es) offered s h =
    run_pump-InOrder step keeps es offered _ (keeps offered (take_one now result) s h)
run_pump-InOrder step keeps (tx_done ∷ es) offered s h =
    run_pump-InOrder step keeps es offered _ (keeps offered tx_done s h)
run_pump-InOrder step keeps (read_failed canceled ∷ es) offered s h =
    run_pump-InOrder step keeps es offered _ (keeps offered (read_failed canceled) s h)
run_pump-InOrder step keeps (received n now from_peer d ∷ es) offered s h =
    run_pump-InOrder step keeps es offered _ (keeps offered (received n now from_peer d) s h)

new_pump-InOrder : (queue : List Bytes) (now : ℕ) → InOrder queue (new_pump queue now)
new_pump-InOrder queue now = record {
  lost = [];
  parts = refl;
  few = omega arith;
  none_yet = λ e. refl;
  counted = refl;
  lost_counted = refl;
}

-- Both pumps, over any events in any order: the packets of the queue are written in order, each once, but
-- for one at most, which is counted as an error or a drop and is the last one taken; the packets written
-- are counted modulo 2 to the 64.
pub run_pump_both-InOrder :
    (wd : ℕ) (es : List PumpEvent) (queue : List Bytes) (now : ℕ)
    → InOrder (queue ++ arrivals es) (run_pump (step_dtls wd) es (new_pump queue now))
      × InOrder (queue ++ arrivals es) (run_pump step_raw es (new_pump queue now))
run_pump_both-InOrder wd es queue now =
    let start = new_pump-InOrder queue now in
    (
      run_pump-InOrder (step_dtls wd) (step_dtls-InOrder wd) es queue (new_pump queue now) start,
      run_pump-InOrder step_raw step_raw-InOrder es queue (new_pump queue now) start,
    )
