-- ===== src/Bridge/Sessions.antt =====
-- pkg/wgturnsrv/backend_kernel.go: the one session and the one open generation, under any
-- interleaving.
use wgturn_core.Prelude.{
  ℕ, Bool, true, false, List, [], ◌∷◌, Option, none, some, Bytes, Result, ok, err, err-ne-ok,
  ok-inj, length, ◌≡◌, ◌↔◌, not, ◌&&◌, refl, sym, ap, Bool-cases, Option-cases, inl, inr, arith,
}
use wgturn_core.Bridge.{
  BridgeError, net_closed, session_active, Bridge, new_bridge, Ready, on_channel, on_close,
  on_timer, on_default, open_conn, is_closed, is_released, mark_closed, release, release_step,
  end_gen, bind_open, bind_close, send, fires, send_to_kernel, written_to, conn_write, pop,
  conn_read, is_ended, receive, Event, BridgeStep, open_step, close_step, arm_step, disarm_step,
  send_step, deadline_step, write_step, write_error_step, read_step, receive_step, BridgeSteps,
}
use wgturn_core.Bridge.Control.{
  IsOpen, IsControlled, some-inj, none-ne, end_gen-all, opened-IsControlled, closed-IsControlled,
  armed-IsControlled, disarmed-IsControlled,
}
use wgturn_core.Bridge.Held.{IsHeld, push-IsHeld, get_or-IsOpen, marked-IsHeld, released-IsHeld}

-- What a step that is no opening or closing leaves as it was.
Keeps : Bridge → Bridge → Type 0
Keeps b c =
    (c.gens ≡ b.gens)
    × (c.open_gen ≡ b.open_gen)
    × (c.conns ≡ b.conns)
    × (c.released ≡ b.released)
    × (c.opened ≡ b.opened)

written_to-Keeps :
    (b : Bridge) (n : ℕ) (out : List Bytes × Option BridgeError) → Keeps b (written_to b n out).0
unfolding Keeps
written_to-Keeps b n (q, none) = (refl, refl, refl, refl, refl)
written_to-Keeps b n (q, some e) = (refl, refl, refl, refl, refl)

conn_write-Keeps :
    (ready : Ready) (c : ℕ) (timer : Bool) (now : ℕ) (p : Bytes) (b b' : Bridge)
    (r : Result BridgeError ℕ)
    → conn_write ready c timer now p b ≡ some (b', r)
    → Keeps b b'
unfolding conn_write
conn_write-Keeps ready c timer now p b b' r h =
    elim (Option-cases
      (send_to_kernel ready (is_closed c b) (fires timer now b.write_deadline) p b.to_kernel)) [
        | inl e ↦ absurd (none-ne (rw (e, conn_write) at h))
        | inr (out, e) ↦
            rw (← ap (λ y. y.0) (some-inj (rw (e, conn_write) at h)))
              (written_to-Keeps b (length p) out)
      ]

conn_read-Keeps :
    (ready : Ready) (c : ℕ) (timer : Bool) (now size : ℕ) (b b' : Bridge)
    (r : Result BridgeError Bytes)
    → conn_read ready c timer now size b ≡ some (b', r)
    → Keeps b b'
unfolding conn_read Keeps
conn_read-Keeps on_channel c timer now size b b' r h = elim (Option-cases (pop b.from_kernel)) [
  | inl e ↦ absurd (none-ne (rw (e, conn_read) at h))
  | inr (out, e) ↦
      rw (← ap (λ y. y.0) (some-inj (rw (e, conn_read) at h))) (refl, refl, refl, refl, refl)
]
conn_read-Keeps on_close c timer now size b b' r h =
    (ground arith, ground arith, ground arith, ground arith, ground arith)
conn_read-Keeps on_timer c timer now size b b' r h =
    (ground arith, ground arith, ground arith, ground arith, ground arith)
conn_read-Keeps on_default c timer now size b b' r h = absurd (none-ne h)

receive-Keeps :
    (ready : Ready) (g size : ℕ) (b b' : Bridge) (r : Result BridgeError Bytes)
    → receive ready g size b ≡ some (b', r)
    → Keeps b b'
unfolding receive Keeps
receive-Keeps on_channel g size b b' r h = elim (Option-cases (pop b.to_kernel)) [
  | inl e ↦ absurd (none-ne (rw (e, receive) at h))
  | inr (out, e) ↦
      rw (← ap (λ y. y.0) (some-inj (rw (e, receive) at h))) (refl, refl, refl, refl, refl)
]
receive-Keeps on_close g size b b' r h =
    (ground arith, ground arith, ground arith, ground arith, ground arith)
receive-Keeps on_timer g size b b' r h = absurd (none-ne h)
receive-Keeps on_default g size b b' r h = absurd (none-ne h)

abbrev Controlled : Bridge → Type 0
Controlled b = IsControlled b.gens b.open_gen b.released b.opened × IsHeld b.conns b.released

kept-Controlled : (b c : Bridge) → Keeps b c → Controlled b → Controlled c
unfolding Keeps
kept-Controlled b c k v = let (e, f, g, r, h) = k in rw (e, f, g, r, h) v

open_conn-Controlled :
    (b b' : Bridge) (c : ℕ) → open_conn b ≡ ok (b', c) → Controlled b → Controlled b'
unfolding open_conn
open_conn-Controlled b b' c h (v, u) = elim (Bool-cases b.opened) [
  | inl e ↦ absurd (err-ne-ok session_active (b', c) (rw (e, open_conn) at h))
  | inr e ↦
      rw (← ap (λ y. y.0) (ok-inj (rw (e, open_conn) at h)))
        (opened-IsControlled (rw (e) at v), push-IsHeld b.conns b.released u)
]

mark_closed-Controlled : (c : ℕ) (b : Bridge) → Controlled b → Controlled (mark_closed c b)
unfolding mark_closed
mark_closed-Controlled c b (v, u) = elim (Bool-cases (is_closed c b)) [
  | inl e ↦ rw (e) (v, u)
  | inr e ↦ rw (e) (v, marked-IsHeld b.conns b.released c u)
]

both_true : (p q : Bool) → (p && not q) ≡ true → (p ≡ true) × (q ≡ false)
both_true true false h = (refl, refl)
both_true true true h = cc
both_true false q h = cc

release-Controlled : (c : ℕ) (b : Bridge) → Controlled b → Controlled (release c b)
unfolding release
release-Controlled c b (v, u) = elim (Bool-cases (is_closed c b && not (is_released c b))) [
  | inr e ↦ rw (e) (v, u)
  | inl e ↦
      let (shut, held) = both_true _ _ e in
      rw (e) (
        closed-IsControlled c (get_or-IsOpen b.released c held) v,
        released-IsHeld b.conns b.released c shut u,
      )
]

module _ (kernel_size session_size : ℕ) where
  step-Controlled :
      (b : Bridge) (e : Event) (c : Bridge)
      → BridgeStep kernel_size session_size b e c
      → Controlled b
      → Controlled c
  unfolding bind_open bind_close send
  step-Controlled b _ _ (open_step n c h) v = open_conn-Controlled b c n h v
  step-Controlled b _ _ (close_step n) v = mark_closed-Controlled n b v
  step-Controlled b _ _ (release_step n) v = release-Controlled n b v
  step-Controlled b _ _ (arm_step port) v = (armed-IsControlled v.0, v.1)
  step-Controlled b _ _ disarm_step v = (disarmed-IsControlled v.0, v.1)
  step-Controlled b _ _ (send_step bufs) v = v
  step-Controlled b _ _ (deadline_step r w) v = v
  step-Controlled b _ _ (write_step ready n timer now k p c h) v =
      kept-Controlled b c (conn_write-Keeps ready n timer now p b c (ok k) h) v
  step-Controlled b _ _ (write_error_step ready n timer now p c x h) v =
      kept-Controlled b c (conn_write-Keeps ready n timer now p b c (err x) h) v
  step-Controlled b _ _ (read_step ready n timer now c r h) v =
      kept-Controlled b c (conn_read-Keeps ready n timer now session_size b c (ok r) h) v
  step-Controlled b _ _ (receive_step ready g c r h) v =
      kept-Controlled b c (receive-Keeps ready g kernel_size b c (ok r) h) v

  steps-Controlled :
      (b : Bridge) (es : List Event) (d : Bridge)
      → BridgeSteps kernel_size session_size b es d
      → Controlled b
      → Controlled d
  steps-Controlled b [] d h v = rw (← h) v
  steps-Controlled b (e ∷ es) d h v =
      let (c, step, more) = h in steps-Controlled c es d more (step-Controlled b e c step v)

  reached-Controlled :
      (es : List Event) (d : Bridge)
      → BridgeSteps kernel_size session_size new_bridge es d
      → Controlled d
  reached-Controlled es d h = steps-Controlled new_bridge es d h (
    record {
      has_conn = λ e. cc;
      conn_opened = λ c at. cc;
      conns_apart = λ c d at at'. cc;
      gen_open = λ g e. cc;
      gen_held = λ g at. cc;
    },
    record { as_long = refl; live_held = λ c at. cc },
  )

  -- The sessions of a bridge: `Open` refuses exactly while a connection is not released, there is at most
  -- one of those, and every open connection is one of those.
  pub record IsSound (b : Bridge) : Type 0 where
    pub refuses : (open_conn b ≡ err session_active) ↔ ((c : ℕ) × IsOpen b.released c)
    pub one_held : (c d : ℕ) → IsOpen b.released c → IsOpen b.released d → c ≡ d
    pub live_held : (c : ℕ) → IsOpen b.conns c → IsOpen b.released c

  open_conn_iff :
      (d : Bridge)
      → Controlled d
      → (open_conn d ≡ err session_active) ↔ ((c : ℕ) × IsOpen d.released c)
  unfolding open_conn
  open_conn_iff d (v, u) = (
    (λ e. elim (Bool-cases d.opened) [
      | inl f ↦ v.has_conn f
      | inr f ↦ absurd (err-ne-ok _ _ (sym (rw (f, open_conn) at e)))
    ]),
    (λ (c, at). rw (v.conn_opened c at) refl),
  )

  -- Whatever the goroutines do from a new bridge on, in any order, also between the two halves of a
  -- `Close`: `Open` refuses exactly while there is a connection whose `Close` has not released the backend
  -- yet, there is at most one such connection, and every open connection is such a one.
  pub reached-IsSound :
      (es : List Event) (d : Bridge)
      → BridgeSteps kernel_size session_size new_bridge es d
      → IsSound d
  reached-IsSound es d h =
      let (v, u) = reached-Controlled es d h in
      record { refuses = open_conn_iff d (v, u); one_held = v.conns_apart; live_held = u.live_held }

  -- In a bridge that was reached by any steps, once the bind is closed, the `ReceiveFunc` of each
  -- generation can return, with the error of a closed connection.
  pub bind_close-receive :
      (es : List Event) (d : Bridge) (g size : ℕ)
      → BridgeSteps kernel_size session_size new_bridge es d
      → receive on_close g size (bind_close d) ≡ some (bind_close d, err net_closed)
  unfolding receive bind_close
  bind_close-receive es d g size h =
      let v = (reached-Controlled es d h).0 in
      elim (Bool-cases (is_ended g (bind_close d))) [
        | inl e ↦ rw (e) refl
        | inr e ↦ absurd (
            end_gen-all d.gens d.open_gen g v.gen_held
              (get_or-IsOpen (end_gen d.open_gen d.gens) g e))
      ]
