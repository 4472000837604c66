-- ===== src/Server.antt =====
-- pkg/wgturnsrv/config.go and pkg/wgturnsrv/server.go: the server's configuration, its map of
-- sessions and its life cycle. Sessions live in a heap, and the map holds pointers. The methods
-- that take a lock are atomic; what a goroutine does between two locks is a step of its own.
mod Tests
pub mod Map
mod Listing
pub mod Interleavings
pub mod Shutdown
pub mod Connections
use wgturn_core.Prelude.{
  ℕ, zero, suc, ◌+◌, ◌*◌, Bool, true, false, not, List, [], ◌∷◌, ◌++◌, Option, none, some, Bytes,
  equal, ◌≡◌, Result, ok, err, if◌then◌else◌, length, get_elem?, set, ◌==◌,
}
use wgturn_core.Hub.{ConfigInt, count, below_zero, or_default}
use wgturn_core.Tunnel.{is_nil}
use wgturn_core.Session.{Session, new_session, add_stream, remove_stream, terminate}

abbrev pub second : ℕ
second = 1000000000

abbrev pub default_handshake_timeout : ℕ
default_handshake_timeout = 30 * second

abbrev pub default_stream_read_timeout : ℕ
default_stream_read_timeout = 300 * second

abbrev pub default_backend_write_timeout : ℕ
default_backend_write_timeout = 5 * second

-- `Config`; the backend and the logger enter as whether they are set.
pub record ServerConfig : Type 0 where
  pub listen_addr : Bytes
  pub has_backend : Bool
  pub has_logger : Bool
  pub handshake_timeout : ConfigInt
  pub stream_read_timeout : ConfigInt
  pub backend_write_timeout : ConfigInt

pub data ServerProblem : Type 0 where
  listen_addr_missing backend_missing : ServerProblem

-- `validate`; `none` is no error.
unfoldable pub validate_server : ServerConfig → Option ServerProblem
validate_server c =
    if is_nil c.listen_addr
    then some listen_addr_missing
    else if not c.has_backend
    then some backend_missing
    else none

-- `withDefaults`
unfoldable pub with_server_defaults : ServerConfig → ServerConfig
with_server_defaults c = record c {
  has_logger = true;
  handshake_timeout = count (or_default c.handshake_timeout default_handshake_timeout);
  stream_read_timeout = count (or_default c.stream_read_timeout default_stream_read_timeout);
  backend_write_timeout = count (or_default c.backend_write_timeout default_backend_write_timeout);
}

pub data ServerPhase : Type 0 where
  server_new server_started server_stopped : ServerPhase

-- A session that was opened: its id, its state, and whether its `terminate` has run but its
-- `onTerminate` has not yet.
pub record Opened : Type 0 where
  pub sid : Bytes
  pub session : Session
  pub ending : Bool

pub record Server : Type 0 where
  pub config : ServerConfig
  pub phase : ServerPhase
  pub sessions : List (Bytes × ℕ)
  pub heap : List Opened

-- `New`; generating the certificate may fail.
pub data NewServerError : Type 0 where
  invalid_server : ServerProblem → NewServerError
  certificate_failed : NewServerError

abbrev pub make_server : ServerConfig → Bool → Result NewServerError Server
make_server c false = err certificate_failed
make_server c true = ok (record { config = c; phase = server_new; sessions = []; heap = [] })

unfoldable pub new_server : ServerConfig → Bool → Result NewServerError Server
unfolding validate_server with_server_defaults
new_server c certificate = elim (validate_server c) [
  | some p ↦ err (invalid_server p)
  | none ↦ make_server (with_server_defaults c) certificate
]

-- `s.sessions[sid]`, and `delete(s.sessions, sid)`.
unfoldable pub find_session : Bytes → List (Bytes × ℕ) → Option ℕ
find_session sid [] = none
find_session sid ((k, p) ∷ m) = if equal sid k then some p else find_session sid m

unfoldable pub delete_session : Bytes → List (Bytes × ℕ) → List (Bytes × ℕ)
delete_session sid [] = []
delete_session sid ((k, p) ∷ m) =
    if equal sid k then delete_session sid m else (k, p) ∷ delete_session sid m

-- `getOrCreateSession`; `opens` is whether the backend opens. The session and whether it is fresh.
unfoldable pub get_or_create_session : Server → Bytes → Bool → Option (Server × ℕ × Bool)
unfolding find_session
get_or_create_session s sid opens = elim (find_session sid s.sessions) [
  | some p ↦ some (s, p, false)
  | none ↦
      if opens
      then some (
        record s {
          sessions = (sid, length s.heap) ∷ s.sessions;
          heap = s.heap ++ (record { sid = sid; session = new_session; ending = false } ∷ []);
        },
        length s.heap,
        true,
      )
      else none
]

-- A method of the session at `p`.
abbrev pub update_session : Server → ℕ → (Opened → Opened) → Server
update_session s p f = elim (get_elem? s.heap p) [
  | none ↦ s
  | some o ↦ record s { heap = set s.heap p (f o) }
]

abbrev pub attach : ℕ → ℕ → Opened → Opened
attach stream_id conn o = record o { session = (add_stream o.session stream_id conn).0 }

abbrev pub detach : ℕ → ℕ → Opened → Opened
detach stream_id conn o = record o { session = (remove_stream o.session stream_id conn).0 }

-- `terminate` up to the call of `onTerminate`, which only the call that sets the flag gets to.
abbrev pub end_session : Opened → Opened
end_session o = record o {
  session = (terminate o.session).0;
  ending = if o.session.terminated then o.ending else true;
}

-- `onTerminate`, which is `removeSession` of the session's id.
unfoldable pub remove_session : Server → ℕ → Server
unfolding delete_session
remove_session s p = elim (get_elem? s.heap p) [
  | none ↦ s
  | some o ↦
      if o.ending
      then record s {
        sessions = delete_session o.sid s.sessions;
        heap = set s.heap p (record o { ending = false });
      }
      else s
]

-- The whole of `terminate` together with the `onTerminate` that its first call has still to run,
-- which may be a call of another goroutine: `Stop` waits for that one with `wg.Wait`.
abbrev pub finish_session : Server → ℕ → Server
finish_session s p = remove_session (update_session s p end_session) p

abbrev pub finish_all : Server → List (Bytes × ℕ) → Server
finish_all s [] = s
finish_all s ((sid, p) ∷ m) = finish_all (finish_session s p) m

-- `Stop`, over the snapshot of the map.
unfoldable pub stop_server : Server → Server
stop_server s = elim s.phase [
  | server_started ↦ finish_all (record s { phase = server_stopped }) s.sessions
  | _ ↦ s
]

-- `Start`, by whether the address resolves and the listener opens.
pub data StartError : Type 0 where
  server_already_started listen_failed : StartError

abbrev pub start_phase : ServerPhase → Bool → Result StartError ServerPhase
start_phase server_new true = ok server_started
start_phase server_new false = err listen_failed
start_phase _ listens = err server_already_started

-- What `Stop` makes of the phase, under the lock.
abbrev pub stop_phase : ServerPhase → ServerPhase
stop_phase server_started = server_stopped
stop_phase phase = phase

-- `Stats`: the sessions and their streams; `none` is `ErrNotStarted`.
unfoldable pub streams_active : List Opened → List (Bytes × ℕ) → ℕ
streams_active heap [] = 0
streams_active heap ((sid, p) ∷ m) =
    elim (get_elem? heap p) [ some o ↦ length o.session.streams | none ↦ 0 ] + streams_active heap m

unfoldable pub server_stats : Server → Option (ℕ × ℕ)
unfolding streams_active
server_stats s = elim s.phase [
  | server_started ↦ some (length s.sessions, streams_active s.heap s.sessions)
  | _ ↦ none
]

-- What the goroutines of a server do between two locks: `handleConn` opens or finds a session, adds
-- its stream and takes it off again; anybody may terminate a session, start or stop the server.
pub data Step (s : Server) : Server → Type 0 where
  open_step :
      (sid : Bytes) (opens : Bool) (s' : Server) (p : ℕ) (fresh : Bool)
      → get_or_create_session s sid opens ≡ some (s', p, fresh)
      → Step s s'
  attach_step : (p stream_id conn : ℕ) → Step s (update_session s p (attach stream_id conn))
  detach_step : (p stream_id conn : ℕ) → Step s (update_session s p (detach stream_id conn))
  end_step : (p : ℕ) → Step s (update_session s p end_session)
  remove_step : (p : ℕ) → Step s (remove_session s p)
  start_step :
      (listens : Bool) (phase : ServerPhase)
      → start_phase s.phase listens ≡ ok phase
      → Step s (record s { phase = phase })
  stop_step : Step s (record s { phase = stop_phase s.phase })

pub data Steps (s : Server) : Server → Type 0 where
  no_step : Steps s s
  one_more : (t u : Server) → Steps s t → Step t u → Steps s u
