-- ===== src/Session.antt =====
-- pkg/wgturnsrv/session.go: one client's streams over one backend connection. A connection is a
-- number, and what is done to connections from outside (closing them, writing to them) is a list
-- of effects in order. The methods that take the session's lock are atomic steps here.
mod Tests
pub mod Slots
pub mod RoundRobin
use mathlib.Core.Option
use wgturn_core.Prelude.{
  ℕ, suc, leb, ◌+◌, ◌-◌, ◌%◌, ◌^◌, Bool, true, false, ◌&&◌, List, [], ◌∷◌, ◌++◌, map, Option, none,
  some, Bytes, length, get_elem?, ◌==◌, if◌then◌else◌, take,
}

abbrev pub read_buf_size : ℕ
read_buf_size = 1600

pub record StreamEntry : Type 0 where
  pub id : ℕ
  pub conn : ℕ

-- What a session does to the world.
pub data Effect : Type 0 where
  close_conn : ℕ → Effect
  close_backend : Effect
  cancel : Effect
  on_terminate : Effect
  -- A packet that the backend accepted, and one offered to a stream's connection.
  to_backend : Bytes → Effect
  to_conn : ℕ → Bytes → Effect

pub record Session : Type 0 where
  pub streams : List StreamEntry
  pub rr_counter : ℕ
  pub terminated : Bool

-- `newSession`
abbrev pub new_session : Session
new_session = record { streams = []; rr_counter = 0; terminated = false }

-- A slot that the loop goes past.
abbrev pub past : StreamEntry → Option (List StreamEntry × ℕ) → Option (List StreamEntry × ℕ)
past e none = none
past e (some (es, old)) = some (e ∷ es, old)

-- The loop of `addStream`: the first slot with the id takes the new connection, and its old one is
-- returned; `none` if no slot has the id.
unfoldable pub displace : ℕ → ℕ → List StreamEntry → Option (List StreamEntry × ℕ)
displace stream_id conn [] = none
displace stream_id conn (e ∷ es) =
    if e.id == stream_id
    then some (record e { conn = conn } ∷ es, e.conn)
    else past e (displace stream_id conn es)

-- `addStream`: the session after it, the displaced connection, and whether it was accepted. The flag of a
-- terminated session is read in front of the lock; here both are one step.
unfoldable pub add_stream : Session → ℕ → ℕ → Session × Option ℕ × Bool
unfolding displace
add_stream s stream_id conn =
    if s.terminated then (s, none, false) else elim (displace stream_id conn s.streams) [
      | some (es, old) ↦ (record s { streams = es }, some old, true)
      | none ↦ (
        record s { streams = s.streams ++ (record { id = stream_id; conn = conn } ∷ []) },
        none,
        true,
      )
    ]

-- The loop of `removeStream`: the first slot that holds exactly this connection under this id.
unfoldable pub remove_slot : ℕ → ℕ → List StreamEntry → List StreamEntry
remove_slot stream_id conn [] = []
remove_slot stream_id conn (e ∷ es) =
    if (e.id == stream_id) && (e.conn == conn) then es else e ∷ remove_slot stream_id conn es

abbrev pub is_empty : List StreamEntry → Bool
is_empty [] = true
is_empty (e ∷ es) = false

-- `removeStream`: the session after it, and `drained`.
unfoldable pub remove_stream : Session → ℕ → ℕ → Session × Bool
unfolding remove_slot
remove_stream s stream_id conn =
    let es = remove_slot stream_id conn s.streams in (record s { streams = es }, is_empty es)

-- `terminate`
unfoldable pub terminate : Session → Session × List Effect
terminate s = if s.terminated then (s, []) else (
  record s { terminated = true; streams = [] },
  (cancel ∷ close_backend ∷ on_terminate ∷ []) ++ map (λ e. close_conn e.conn) s.streams,
)

abbrev pub int_max : ℕ
int_max = 2 ^ 63 - 1

-- The index `int(counter) % n` for n ≥ 1, or `none` where it is negative and the access panics: a
-- `uint64` from 2^63 on is a negative `int`, and the remainder has its sign.
abbrev pub int_index : ℕ → ℕ → Option ℕ
int_index counter n =
    if leb counter int_max
    then some (counter % n)
    else if (2 ^ 64 - counter) % n == 0
    then some 0
    else none

-- One round of the loop of `runBackend` after a successful read; `none` is a panic.
unfoldable pub dispatch : Session → Bytes → Option (Session × List Effect)
dispatch s packet =
    if is_empty s.streams then some (s, []) else elim (int_index s.rr_counter (length s.streams)) [
      | none ↦ none
      | some i ↦ elim (get_elem? s.streams i) [
        | none ↦ none
        | some e ↦
            some (record s { rr_counter = (s.rr_counter + 1) % 2 ^ 64 }, to_conn e.conn packet ∷ [])
      ]
    ]

-- What the backend's `Read` returns: a packet, cut to the buffer, or an error.
pub data BackendRead : Type 0 where
  received : Bytes → BackendRead
  failed : BackendRead

-- What was done before a step stands in front of what the rest does.
abbrev pub prepend : List Effect → Session × List Effect → Session × List Effect
prepend out (s, more) = (s, out ++ more)

-- `runBackend` on the reads that it gets: it ends with `terminate`, at the first failure.
unfoldable pub run_backend : Session → List BackendRead → Option (Session × List Effect)
run_backend s [] = some (s, [])
run_backend s (failed ∷ rs) = some (terminate s)
run_backend s (received b ∷ rs) = elim (dispatch s (take read_buf_size b)) [
  | none ↦ none
  | some (s', out) ↦ Option.map (prepend out) (run_backend s' rs)
]

-- One round of the loop of `runStream`: a read of the stream's connection, and the backend's answer
-- to the write. The flag says whether the loop goes on.
pub data StreamRead : Type 0 where
  written : Bytes → StreamRead
  write_failed : Bytes → StreamRead
  read_failed : StreamRead

unfoldable pub run_stream : Session → List StreamRead → Session × List Effect
unfolding terminate
run_stream s [] = (s, [])
run_stream s (read_failed ∷ rs) = (s, [])
run_stream s (write_failed b ∷ rs) = terminate s
run_stream s (written b ∷ rs) =
    let (last, more) = run_stream s rs in (last, to_backend (take read_buf_size b) ∷ more)
