-- ===== src/Stream/Parts.antt =====
-- internal/proxy/stream.go: what one step of a pump does to its queue.
use mathlib.Core.List.{append_assoc}
use wgturn_core.Prelude.{
  ℕ, ◌+◌, ◌%◌, ◌^◌, ◌≤◌, Bool, true, false, List, [], ◌∷◌, ◌++◌, Option, none, some, Bytes, length,
  length-append, ◌≡◌, refl, sym, ap, ◌∙◌, Bool-cases, inl, inr, arith,
}
use wgturn_core.Stream.Pump.{
  PumpState, Delivery, no_peer, local_failed, delivered, is_stale, write_one, drop_one, take_from,
  count_rx_error, deliver,
}

-- What came into the queue was written, in order, but for one packet at most, and is in the queue. The
-- packet that is missing was counted as an error or as a drop, and ended the goroutine.
pub record InOrder (offered : List Bytes) (s : PumpState) : Type 0 where
  pub lost : List Bytes
  pub parts : offered ≡ s.written ++ (lost ++ s.queue)
  pub few : length lost ≤ 1
  pub none_yet : s.tx_live ≡ true → lost ≡ []
  pub counted : s.counters.packets_tx ≡ length (s.written) % 2 ^ 64
  pub lost_counted : s.counters.drops_tx + s.counters.errors_tx ≡ length lost

pub arrive-InOrder :
    (offered : List Bytes) (b : Bytes) (s : PumpState)
    → InOrder offered s
    → InOrder (offered ++ (b ∷ [])) (record s { queue = s.queue ++ (b ∷ []) })
arrive-InOrder offered b s h = record {
  lost = h.lost;
  parts =
      ap (λ o. o ++ (b ∷ [])) (h.parts)
      ∙ (append_assoc (s.written) (h.lost ++ s.queue) (b ∷ [])
          ∙ ap (λ o. s.written ++ o) (append_assoc (h.lost) (s.queue) (b ∷ [])));
  few = h.few;
  none_yet = h.none_yet;
  counted = h.counted;
  lost_counted = h.lost_counted;
}

-- A goroutine that runs has lost nothing.
live-clean :
    (offered queue : List Bytes) (s : PumpState)
    → s.queue ≡ queue
    → s.tx_live ≡ true
    → InOrder offered s
    → (offered ≡ s.written ++ queue) × (s.counters.drops_tx + s.counters.errors_tx ≡ 0)
live-clean offered queue s q live h =
    let no_loss = h.none_yet live in
    (
      h.parts ∙ (ap (λ l. s.written ++ (l ++ s.queue)) no_loss ∙ ap (λ k. s.written ++ k) q),
      h.lost_counted ∙ ap length no_loss,
    )

drop_one-InOrder :
    (offered : List Bytes) (b : Bytes) (rest : List Bytes) (s : PumpState)
    → offered ≡ s.written ++ (b ∷ rest)
    → s.counters.drops_tx + s.counters.errors_tx ≡ 0
    → s.counters.packets_tx ≡ length (s.written) % 2 ^ 64
    → InOrder offered (drop_one rest s)
drop_one-InOrder offered b rest s parts clean counted = record {
  lost = b ∷ [];
  parts = parts;
  few = omega arith;
  none_yet = λ e. cc;
  counted = counted;
  lost_counted = omega (arith, clean);
}

write_one-InOrder :
    (offered : List Bytes) (b : Bytes) (rest : List Bytes) (result : Option ℕ) (s : PumpState)
    → offered ≡ s.written ++ (b ∷ rest)
    → s.counters.drops_tx + s.counters.errors_tx ≡ 0
    → s.counters.packets_tx ≡ length (s.written) % 2 ^ 64
    → InOrder offered (write_one b rest result s)
write_one-InOrder offered b rest none s parts clean counted = record {
  lost = b ∷ [];
  parts = parts;
  few = omega arith;
  none_yet = λ e. cc;
  counted = counted;
  lost_counted = omega (arith, clean);
}
write_one-InOrder offered b rest (some n) s parts clean counted = record {
  lost = [];
  parts = parts ∙ sym (append_assoc (s.written) (b ∷ []) rest);
  few = omega arith;
  none_yet = λ e. refl;
  counted = omega (arith, counted, length-append (s.written) (b ∷ []));
  lost_counted = clean;
}

-- A packet at the head of the queue, while the goroutine runs.
pub take-InOrder :
    (wd now : ℕ) (result : Option ℕ) (queue offered : List Bytes) (s : PumpState)
    → s.queue ≡ queue
    → s.tx_live ≡ true
    → InOrder offered s
    → InOrder offered (take_from wd now result queue s)
take-InOrder wd now result [] offered s q live h = h
take-InOrder wd now result (b ∷ rest) offered s q live h =
    let (parts, clean) = live-clean offered (b ∷ rest) s q live h in
    elim (Bool-cases (is_stale wd (s.last_rx) now)) [
      | inl e ↦ rw (e) (drop_one-InOrder offered b rest s parts clean (h.counted))
      | inr e ↦ rw (e) (write_one-InOrder offered b rest result s parts clean (h.counted))
    ]

-- What the RX goroutine may change leaves the queue and what was written alone.
pub rx_change-InOrder :
    (offered : List Bytes) (s : PumpState) (t : ℕ) (live : Bool) (bytes packets errors : ℕ)
    → InOrder offered s
    → InOrder offered (record s {
      last_rx = t;
      rx_live = live;
      counters = record (s.counters) { bytes_rx = bytes; packets_rx = packets; errors_rx = errors };
    })
rx_change-InOrder offered s t live bytes packets errors h = record {
  lost = h.lost;
  parts = h.parts;
  few = h.few;
  none_yet = h.none_yet;
  counted = h.counted;
  lost_counted = h.lost_counted;
}

pub rx_end-InOrder :
    (offered : List Bytes) (s : PumpState) → InOrder offered s → InOrder offered (count_rx_error s)
rx_end-InOrder offered s h = rx_change-InOrder offered s (s.last_rx) false _ _ _ h

pub deliver-InOrder :
    (offered : List Bytes) (n : ℕ) (d : Delivery) (s : PumpState)
    → InOrder offered s
    → InOrder offered (deliver n d s)
deliver-InOrder offered n no_peer s h = h
deliver-InOrder offered n local_failed s h = rx_end-InOrder offered s h
deliver-InOrder offered n delivered s h =
    rx_change-InOrder offered s (s.last_rx) (s.rx_live) _ _ _ h

pub mark_rx-InOrder :
    (offered : List Bytes) (t : ℕ) (s : PumpState)
    → InOrder offered s
    → InOrder offered (record s { last_rx = t })
mark_rx-InOrder offered t s h = rx_change-InOrder offered s t (s.rx_live) _ _ _ h

pub stop_rx-InOrder :
    (offered : List Bytes) (s : PumpState)
    → InOrder offered s
    → InOrder offered (record s { rx_live = false })
stop_rx-InOrder offered s h = rx_change-InOrder offered s (s.last_rx) false _ _ _ h

pub stop_tx-InOrder :
    (offered : List Bytes) (s : PumpState)
    → InOrder offered s
    → InOrder offered (record s { tx_live = false })
stop_tx-InOrder offered s h = record {
  lost = h.lost;
  parts = h.parts;
  few = h.few;
  none_yet = λ e. cc;
  counted = h.counted;
  lost_counted = h.lost_counted;
}
