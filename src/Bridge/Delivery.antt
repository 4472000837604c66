-- ===== src/Bridge/Delivery.antt =====
-- pkg/wgturnsrv/backend_kernel.go: the packets of both directions, under any interleaving.
use wgturn_core.Prelude.{
  ℕ, ◌+◌, ◌≤◌, Bool, List, [], ◌∷◌, ◌++◌, map, none, some, Bytes, ok, err, err-ne-ok, ok-inj,
  length, take, ◌≡◌, ◌≢◌, refl, sym, ◌∙◌, ap, Bool-cases, Option-cases, inl, inr, arith,
  if◌then◌else◌,
}
use wgturn_core.Tunnel.{is_nil}
use wgturn_core.Bridge.Fifo.{
  Move, put, got, puts, gots, IsSublist, Behaves, Behaves-IsSublist, Behaves-all,
}
use wgturn_core.Bridge.{
  bind_queue_depth, BridgeError, Bridge, Ready, on_channel, on_close, on_timer, on_default,
  open_conn, is_closed, mark_closed, release, release_step, bind_open, bind_close, offer, offer_all,
  send, fires, send_to_kernel, conn_write, pop, conn_read, receive, Event, wrote, received,
  was_read, sent, nothing, BridgeStep, open_step, close_step, arm_step, disarm_step, send_step,
  deadline_step, write_step, write_error_step, read_step, receive_step, BridgeSteps,
}

-- The packets of `Send` that are not empty.
unfoldable pub filled_puts : List Bytes → List Move
filled_puts [] = []
filled_puts (p ∷ ps) = if is_nil p then filled_puts ps else put p ∷ filled_puts ps

-- The moves of the channel to the kernel, and of the channel from it.
abbrev pub to_move : Event → List Move
to_move (wrote p) = put p ∷ []
to_move (received r) = got r ∷ []
to_move (was_read r) = []
to_move (sent bufs) = []
to_move nothing = []

abbrev pub from_move : Event → List Move
from_move (wrote p) = []
from_move (received r) = []
from_move (was_read r) = got r ∷ []
from_move (sent bufs) = filled_puts bufs
from_move nothing = []

abbrev pub to_moves : List Event → List Move
to_moves [] = []
to_moves (e ∷ es) = to_move e ++ to_moves es

abbrev pub from_moves : List Event → List Move
from_moves [] = []
from_moves (e ∷ es) = from_move e ++ from_moves es

some-inj {ℓ} : {A : Type ℓ} {a b : A} → some a ≡ some b → a ≡ b
some-inj h = cc

none-ne {ℓ} : {A : Type ℓ} {a : A} → none ≢ some a
none-ne h = cc

-- The channel after `sendToKernel`: a packet is offered, or an error leaves it as it was.
send_to_kernel-offer :
    (ready : Ready) (closed fired : Bool) (p : Bytes) (q : List Bytes) {q' : List Bytes}
    → send_to_kernel ready closed fired p q ≡ some (q', none)
    → q' ≡ offer p q
unfolding send_to_kernel offer
send_to_kernel-offer on_channel closed fired p q h = ground arith
send_to_kernel-offer on_close closed fired p q h = ground arith
send_to_kernel-offer on_timer closed fired p q h = ground arith
send_to_kernel-offer on_default closed fired p q h = ground arith

send_to_kernel-kept :
    (ready : Ready) (closed fired : Bool) (p : Bytes) (q : List Bytes) {q' : List Bytes}
    {e : BridgeError}
    → send_to_kernel ready closed fired p q ≡ some (q', some e)
    → q' ≡ q
unfolding send_to_kernel
send_to_kernel-kept on_channel closed fired p q h = ground arith
send_to_kernel-kept on_close closed fired p q h = ground arith
send_to_kernel-kept on_timer closed fired p q h = ground arith
send_to_kernel-kept on_default closed fired p q h = ground arith

pop-some : (q : List Bytes) {p : Bytes} {rest : List Bytes} → pop q ≡ some (p, rest) → q ≡ p ∷ rest
pop-some [] h = cc
pop-some (x ∷ q) h = let e = some-inj h in ap (λ y. y.0 ∷ y.1) e

module _ (kernel_size session_size : ℕ) where
  -- The channels after a step with an event.
  abbrev pub After : Bridge → Event → Bridge → Type 0
  After b (wrote p) c = (c.to_kernel ≡ offer p b.to_kernel) × (c.from_kernel ≡ b.from_kernel)
  After b (received r) c =
      ((p : Bytes) × (b.to_kernel ≡ p ∷ c.to_kernel) × (r ≡ take kernel_size p))
      × (c.from_kernel ≡ b.from_kernel)
  After b (was_read r) c =
      (c.to_kernel ≡ b.to_kernel)
      × ((p : Bytes) × (b.from_kernel ≡ p ∷ c.from_kernel) × (r ≡ take session_size p))
  After b (sent bufs) c =
      (c.to_kernel ≡ b.to_kernel) × (c.from_kernel ≡ offer_all bufs b.from_kernel)
  After b nothing c = (c.to_kernel ≡ b.to_kernel) × (c.from_kernel ≡ b.from_kernel)

  open_conn-After : (b b' : Bridge) (c : ℕ) → open_conn b ≡ ok (b', c) → After b nothing b'
  unfolding open_conn
  open_conn-After b b' c h = (ground arith, ground arith)

  mark_closed-After : (b : Bridge) (c : ℕ) → After b nothing (mark_closed c b)
  unfolding mark_closed
  mark_closed-After b c = (ground arith, ground arith)

  release-After : (b : Bridge) (c : ℕ) → After b nothing (release c b)
  unfolding release
  release-After b c = (ground arith, ground arith)

  conn_write-After :
      (ready : Ready) (c : ℕ) (timer : Bool) (now n : ℕ) (p : Bytes) (b b' : Bridge)
      → conn_write ready c timer now p b ≡ some (b', ok n)
      → After b (wrote p) b'
  unfolding conn_write
  conn_write-After ready c timer now n p b b' h =
      elim (Option-cases
        (send_to_kernel ready (is_closed c b) (fires timer now b.write_deadline) p b.to_kernel)) [
          | inl e ↦ absurd (none-ne (rw (e, conn_write) at h))
          | inr ((q, none), e) ↦
              let f = some-inj (rw (e, conn_write) at h) in
              let same = ap (λ y. y.0) f in
              (
                ap (λ y. y.to_kernel) (sym same) ∙ send_to_kernel-offer ready _ _ p b.to_kernel e,
                ap (λ y. y.from_kernel) (sym same),
              )
          | inr ((q, some x), e) ↦
              absurd (err-ne-ok x n (ap (λ y. y.1) (some-inj (rw (e, conn_write) at h))))
        ]

  write_error-After :
      (ready : Ready) (c : ℕ) (timer : Bool) (now : ℕ) (p : Bytes) (b b' : Bridge) (x : BridgeError)
      → conn_write ready c timer now p b ≡ some (b', err x)
      → After b nothing b'
  unfolding conn_write
  write_error-After ready c timer now p b b' x h =
      elim (Option-cases
        (send_to_kernel ready (is_closed c b) (fires timer now b.write_deadline) p b.to_kernel)) [
          | inl e ↦ absurd (none-ne (rw (e, conn_write) at h))
          | inr ((q, none), e) ↦
              absurd
                (err-ne-ok x (length p) (sym (ap (λ y. y.1) (some-inj (rw (e, conn_write) at h)))))
          | inr ((q, some z), e) ↦
              let same = ap (λ y. y.0) (some-inj (rw (e, conn_write) at h)) in
              (
                ap (λ y. y.to_kernel) (sym same) ∙ send_to_kernel-kept ready _ _ p b.to_kernel e,
                ap (λ y. y.from_kernel) (sym same),
              )
        ]

  conn_read-After :
      (ready : Ready) (c : ℕ) (timer : Bool) (now : ℕ) (b b' : Bridge) (r : Bytes)
      → conn_read ready c timer now session_size b ≡ some (b', ok r)
      → After b (was_read r) b'
  unfolding conn_read
  conn_read-After on_channel c timer now b b' r h = elim (Option-cases (pop b.from_kernel)) [
    | inl e ↦ absurd (none-ne (rw (e, conn_read) at h))
    | inr ((p, q), e) ↦
        let same = some-inj (rw (e, conn_read) at h) in
        let shape : b.from_kernel ≡ p ∷ q = pop-some b.from_kernel e in
        (
          ap (λ y. y.0.to_kernel) (sym same),
          (p, shape ∙ ap (λ y. p ∷ y.0.from_kernel) same, sym (ok-inj (ap (λ y. y.1) same))),
        )
  ]
  conn_read-After on_close c timer now b b' r h = ground arith
  conn_read-After on_timer c timer now b b' r h = ground arith
  conn_read-After on_default c timer now b b' r h = cc

  receive-After :
      (ready : Ready) (g : ℕ) (b b' : Bridge) (r : Bytes)
      → receive ready g kernel_size b ≡ some (b', ok r)
      → After b (received r) b'
  unfolding receive
  receive-After on_channel g b b' r h = elim (Option-cases (pop b.to_kernel)) [
    | inl e ↦ absurd (none-ne (rw (e, receive) at h))
    | inr ((p, q), e) ↦
        let same = some-inj (rw (e, receive) at h) in
        let shape : b.to_kernel ≡ p ∷ q = pop-some b.to_kernel e in
        (
          (p, shape ∙ ap (λ y. p ∷ y.0.to_kernel) same, sym (ok-inj (ap (λ y. y.1) same))),
          ap (λ y. y.0.from_kernel) (sym same),
        )
  ]
  receive-After on_close g b b' r h = ground arith
  receive-After on_timer g b b' r h = cc
  receive-After on_default g b b' r h = cc

  pub step-After :
      (b : Bridge) (e : Event) (c : Bridge)
      → BridgeStep kernel_size session_size b e c
      → After b e c
  unfolding send bind_open bind_close
  step-After b _ _ (open_step n c h) = open_conn-After b c n h
  step-After b _ _ (close_step n) = mark_closed-After b n
  step-After b _ _ (release_step n) = release-After b n
  step-After b _ _ (arm_step port) = (refl, refl)
  step-After b nothing c disarm_step = (refl, refl)
  step-After b _ _ (send_step bufs) = (refl, refl)
  step-After b _ _ (deadline_step r w) = (refl, refl)
  step-After b _ _ (write_step ready n timer now k p c h) =
      conn_write-After ready n timer now k p b c h
  step-After b _ _ (write_error_step ready n timer now p c x h) =
      write_error-After ready n timer now p b c x h
  step-After b _ _ (read_step ready n timer now c r h) = conn_read-After ready n timer now b c r h
  step-After b _ _ (receive_step ready g c r h) = receive-After ready g b c r h

  -- The packets of `Send` are put one by one.
  filled_puts-Behaves :
      (size : ℕ) (bufs : List Bytes) (q : List Bytes) (ms : List Move) (q' : List Bytes)
      → Behaves size (offer_all bufs q) ms q'
      → Behaves size q (filled_puts bufs ++ ms) q'
  unfolding filled_puts offer_all
  filled_puts-Behaves size [] q ms q' h = h
  filled_puts-Behaves size (p ∷ bufs) q ms q' h = elim (Bool-cases (is_nil p)) [
    | inl e ↦ rw (e) (filled_puts-Behaves size bufs q ms q' (rw (e, offer_all) at h))
    | inr e ↦ rw (e) (filled_puts-Behaves size bufs (offer p q) ms q' (rw (e, offer_all) at h))
  ]

  to_kernel-event :
      (b : Bridge) (e : Event) (c : Bridge) (ms : List Move) (q' : List Bytes)
      → After b e c
      → Behaves kernel_size c.to_kernel ms q'
      → Behaves kernel_size b.to_kernel (to_move e ++ ms) q'
  to_kernel-event b (wrote p) c ms q' a h = rw (← a.0) h
  to_kernel-event b (received r) c ms q' a h =
      let ((p, shape, f), same) = a in (p, c.to_kernel, shape, f, h)
  to_kernel-event b (was_read r) c ms q' a h = rw (← a.0) h
  to_kernel-event b (sent bufs) c ms q' a h = rw (← a.0) h
  to_kernel-event b nothing c ms q' a h = rw (← a.0) h

  from_kernel-event :
      (b : Bridge) (e : Event) (c : Bridge) (ms : List Move) (q' : List Bytes)
      → After b e c
      → Behaves session_size c.from_kernel ms q'
      → Behaves session_size b.from_kernel (from_move e ++ ms) q'
  from_kernel-event b (wrote p) c ms q' a h = rw (← a.1) h
  from_kernel-event b (received r) c ms q' a h = rw (← a.1) h
  from_kernel-event b (was_read r) c ms q' a h =
      let (same, (p, shape, f)) = a in (p, c.from_kernel, shape, f, h)
  from_kernel-event b (sent bufs) c ms q' a h =
      filled_puts-Behaves session_size bufs b.from_kernel ms q' (rw (a.1) at h)
  from_kernel-event b nothing c ms q' a h = rw (← a.1) h

  -- Under any steps of the goroutines, both channels behave as queues that drop what does not fit.
  pub steps-Behaves :
      (b : Bridge) (es : List Event) (d : Bridge)
      → BridgeSteps kernel_size session_size b es d
      → Behaves kernel_size b.to_kernel (to_moves es) d.to_kernel
        × Behaves session_size b.from_kernel (from_moves es) d.from_kernel
  steps-Behaves b [] d h = (ap (λ y. y.to_kernel) h, ap (λ y. y.from_kernel) h)
  steps-Behaves b (e ∷ es) d h =
      let (c, step, more) = h in
      let (to, from) = steps-Behaves c es d more in
      let a = step-After b e c step in
      (
        to_kernel-event b e c (to_moves es) d.to_kernel a to,
        from_kernel-event b e c (from_moves es) d.from_kernel a from,
      )

  -- Under any steps of the goroutines, what the kernel has received, with what is still under way to
  -- it, is what was under way and was written, in its order, with packets left out; and so in the
  -- other direction. A packet is cut to the size of the buffer that it is read into.
  pub delivered_in_order :
      (b : Bridge) (es : List Event) (d : Bridge)
      → BridgeSteps kernel_size session_size b es d
      → IsSublist
          (gots (to_moves es) ++ map (take kernel_size) d.to_kernel)
          (map (take kernel_size) (b.to_kernel ++ puts (to_moves es)))
        × IsSublist
            (gots (from_moves es) ++ map (take session_size) d.from_kernel)
            (map (take session_size) (b.from_kernel ++ puts (from_moves es)))
  delivered_in_order b es d h =
      let (to, from) = steps-Behaves b es d h in
      (
        Behaves-IsSublist kernel_size b.to_kernel (to_moves es) d.to_kernel to,
        Behaves-IsSublist session_size b.from_kernel (from_moves es) d.from_kernel from,
      )

  -- As long as at most 256 packets were under way or written in each direction, no packet is left out.
  pub delivered_all :
      (b : Bridge) (es : List Event) (d : Bridge)
      → length b.to_kernel + length (puts (to_moves es)) ≤ bind_queue_depth
      → length b.from_kernel + length (puts (from_moves es)) ≤ bind_queue_depth
      → BridgeSteps kernel_size session_size b es d
      → (gots (to_moves es) ++ map (take kernel_size) d.to_kernel
          ≡ map (take kernel_size) (b.to_kernel ++ puts (to_moves es)))
        × (gots (from_moves es) ++ map (take session_size) d.from_kernel
            ≡ map (take session_size) (b.from_kernel ++ puts (from_moves es)))
  delivered_all b es d le le' h =
      let (to, from) = steps-Behaves b es d h in
      (
        Behaves-all kernel_size b.to_kernel (to_moves es) d.to_kernel le to,
        Behaves-all session_size b.from_kernel (from_moves es) d.from_kernel le' from,
      )
