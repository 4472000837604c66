-- ===== src/Session/Tests.antt =====
-- Runs of a session, and the theorems about it at concrete inputs.
use wgturn_core.Prelude.{ℕ, ◌^◌, ◌≡◌, refl, [], ◌∷◌, some, none, true, false, arith, get_elem?}
use wgturn_core.Session.{
  Session, StreamEntry, to_conn, close_conn, close_backend, cancel, on_terminate, add_stream,
  remove_stream, terminate, run_backend, received, failed, dispatch, int_index,
}
use wgturn_core.Session.Slots.{
  conn_at, Distinct, add_stream-conn_at, remove_stream_own, remove_stream-add_stream,
}
use wgturn_core.Session.RoundRobin.{all_received, run_backend-dealt, run_backend_fair}

abbrev slot : ℕ → ℕ → StreamEntry
slot i c = record { id = i; conn = c }

-- Streams 1 and 2 on connections 10 and 20.
abbrev two : Session
two = record { streams = slot 1 10 ∷ slot 2 20 ∷ []; rr_counter = 0; terminated = false }

two-Distinct : Distinct two.streams
two-Distinct = omega arith

displaced_run :
    add_stream two 1 30 ≡ (record two { streams = slot 1 30 ∷ slot 2 20 ∷ [] }, some 10, true)
unfolding add_stream
displaced_run = refl

backend_run :
    run_backend two (received (7 ∷ []) ∷ received (8 ∷ []) ∷ received (9 ∷ []) ∷ failed ∷ [])
    ≡ some (
      record { streams = []; rr_counter = 3; terminated = true },
      to_conn 10 (7 ∷ [])
          ∷ to_conn 20 (8 ∷ [])
          ∷ to_conn 10 (9 ∷ [])
          ∷ cancel
          ∷ close_backend
          ∷ on_terminate
          ∷ close_conn 10
          ∷ close_conn 20
          ∷ [],
    )
unfolding run_backend dispatch terminate
backend_run = refl

-- A counter past the greatest `int` gives a negative index with three streams.
index_panics : int_index (2 ^ 63) 3 ≡ none
index_panics = refl

add_stream-conn_at_example : (add_stream two 2 30).1 ≡ some 20
add_stream-conn_at_example = (add_stream-conn_at two 2 30 refl two-Distinct).1

remove_own_stream : conn_at (remove_stream two 1 10).0.streams 2 ≡ some 20
remove_own_stream = (remove_stream_own two 1 10 two-Distinct refl).1 2

remove_stream-add_stream_example :
    (remove_stream (add_stream two 1 30).0 1 10).0 ≡ (add_stream two 1 30).0
remove_stream-add_stream_example =
    remove_stream-add_stream two 1 10 30 refl two-Distinct (omega arith)

run_backend-dealt_runs :
    run_backend two (all_received ((7 ∷ []) ∷ (8 ∷ []) ∷ (9 ∷ []) ∷ []))
    ≡ some (
      record two { rr_counter = 3 },
      to_conn 10 (7 ∷ []) ∷ to_conn 20 (8 ∷ []) ∷ to_conn 10 (9 ∷ []) ∷ [],
    )
run_backend-dealt_runs =
    run_backend-dealt ((7 ∷ []) ∷ (8 ∷ []) ∷ (9 ∷ []) ∷ []) two (omega arith) (omega arith)

run_backend_fair_example :
    get_elem? two.streams 1
    ≡ some (run_backend_fair ((7 ∷ []) ∷ (8 ∷ []) ∷ []) two 1 (omega arith) refl (omega arith)).2
run_backend_fair_example =
    (run_backend_fair ((7 ∷ []) ∷ (8 ∷ []) ∷ []) two 1 (omega arith) refl (omega arith)).6
