-- ===== src/Bridge/Tests.antt =====
-- Runs of the bridge, and the properties at a concrete interleaving.
use wgturn_core.Prelude.{
  true, false, List, [], ◌∷◌, none, some, Bytes, codes, err, err-ne-ok, sym, ◌≡◌, ◌≢◌, refl, arith,
}
use wgturn_core.Bridge.Fifo.{IsSublist}
use wgturn_core.Bridge.Delivery.{filled_puts, delivered_in_order, delivered_all}
use wgturn_core.Bridge.Sessions.{IsSound, reached-IsSound, bind_close-receive}
use wgturn_core.Bridge.{
  session_active, net_closed, bind_deadline, Bridge, new_bridge, on_channel, on_close, on_timer,
  on_default, open_conn, mark_closed, release, release_step, bind_open, bind_close, offer,
  offer_all, send, send_to_kernel, conn_write, conn_read, receive, Event, wrote, received, was_read,
  sent, nothing, open_step, close_step, arm_step, send_step, write_step, read_step, receive_step,
  BridgeSteps,
}

-- A session, a packet to the kernel that is too long for its buffer of four bytes, an empty packet
-- and another one back, and a second session that reads what the first one left.
abbrev some_events : List Event
some_events =
    nothing
    ∷ nothing
    ∷ wrote (codes "hello")
    ∷ received (codes "hell")
    ∷ sent ([] ∷ codes "a" ∷ [])
    ∷ nothing
    ∷ nothing
    ∷ nothing
    ∷ was_read (codes "a")
    ∷ []

abbrev at_end : Bridge
at_end = record new_bridge {
  gens = false ∷ [];
  open_gen = some 0;
  conns = true ∷ false ∷ [];
  released = true ∷ false ∷ [];
  opened = true;
}

some_run : BridgeSteps 4 9 new_bridge some_events at_end
unfolding open_conn bind_open conn_write send_to_kernel receive send offer_all offer mark_closed
    release conn_read
some_run =
    let b1 : Bridge = record new_bridge {
      conns = false ∷ [];
      released = false ∷ [];
      opened = true;
    } in
    let b2 : Bridge = record b1 { gens = false ∷ []; open_gen = some 0 } in
    let b3 : Bridge = record b2 { to_kernel = codes "hello" ∷ [] } in
    let b4 : Bridge = record b2 { from_kernel = codes "a" ∷ [] } in
    let b5 : Bridge = record b4 { conns = true ∷ [] } in
    let free : Bridge = record b5 { released = true ∷ []; opened = false } in
    let b6 : Bridge = record at_end { from_kernel = codes "a" ∷ [] } in
    let late : BridgeSteps 4 9 b5 (nothing ∷ nothing ∷ was_read (codes "a") ∷ []) at_end = (
      free,
      release_step 0,
      (
        b6,
        open_step 1 b6 refl,
        (at_end, read_step on_channel 1 false 0 at_end (codes "a") refl, refl),
      ),
    ) in
    let middle : BridgeSteps 4 9 b2
        (wrote (codes "hello")
          ∷ received (codes "hell")
          ∷ sent ([] ∷ codes "a" ∷ [])
          ∷ nothing
          ∷ nothing
          ∷ nothing
          ∷ was_read (codes "a")
          ∷ [])
        at_end =
      (
        b3,
        write_step on_channel 0 false 0 5 (codes "hello") b3 refl,
        (
          b2,
          receive_step on_channel 0 b2 (codes "hell") refl,
          (b4, send_step ([] ∷ codes "a" ∷ []), (b5, close_step 0, late)),
        ),
      ) in
    (b1, open_step 0 b1 refl, (b2, arm_step 0, middle))

reached-IsSound_example : IsSound 4 9 at_end
reached-IsSound_example = reached-IsSound 4 9 some_events at_end some_run

-- Between the halves of a `Close` there is no open connection, and `Open` still refuses.
closing :
    (open_conn (mark_closed 1 at_end) ≡ err session_active)
    × (open_conn (release 1 (mark_closed 1 at_end)) ≢ err session_active)
unfolding open_conn mark_closed release
closing = (refl, λ e. err-ne-ok _ _ (sym e))

bind_close-receive_example :
    receive on_close 0 4 (bind_close at_end) ≡ some (bind_close at_end, err net_closed)
bind_close-receive_example = bind_close-receive 4 9 some_events at_end 0 4 some_run

delivered_in_order_example :
    IsSublist (codes "hell" ∷ []) (codes "hell" ∷ []) × IsSublist (codes "a" ∷ []) (codes "a" ∷ [])
unfolding filled_puts
delivered_in_order_example = delivered_in_order 4 9 new_bridge some_events at_end some_run

delivered_all_runs :
    (◌≡◌ {A = List Bytes} (codes "hell" ∷ []) (codes "hell" ∷ []))
    × (◌≡◌ {A = List Bytes} (codes "a" ∷ []) (codes "a" ∷ []))
unfolding filled_puts
delivered_all_runs =
    delivered_all 4 9 new_bridge some_events at_end (omega arith) (omega arith) some_run

-- A deadline that is past refuses a write only if its timer has gone off, and a channel takes a packet
-- as long as it has room.
past_deadline :
    (conn_write on_timer 0 true 7
        (codes "p")
        (record at_end { conns = false ∷ []; write_deadline = some 6 })
      ≡ some (record at_end { conns = false ∷ []; write_deadline = some 6 }, err bind_deadline))
    × (conn_write on_default 0 false 7 (codes "p") (record at_end { conns = false ∷ [] }) ≡ none)
unfolding conn_write send_to_kernel
past_deadline = (refl, refl)
