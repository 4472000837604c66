-- ===== src/Server/Tests.antt =====
-- Runs of the server's operations, and the properties at a concrete server.
use wgturn_core.Prelude.{
  ℕ, true, false, [], ◌∷◌, none, some, Bytes, codes, equal, ok, err, ◌≡◌, refl, get_elem?,
}
use wgturn_core.Hub.{count, below_zero}
use wgturn_core.Session.{new_session, displace, add_stream, terminate}
use wgturn_core.Server.{
  Server, ServerConfig, Opened, new_server, validate_server, with_server_defaults, find_session,
  delete_session, get_or_create_session, update_session, attach, end_session, remove_session,
  open_step, attach_step, end_step, remove_step, start_step, Steps, no_step, one_more,
  server_started, server_new, stop_server, server_stats, streams_active, invalid_server,
  backend_missing, default_stream_read_timeout, default_backend_write_timeout,
}
use wgturn_core.Server.Listing.{IsListed}
use wgturn_core.Server.Interleavings.{
  reached-IsListed, live_sessions_apart, get_or_create_session_live,
}
use wgturn_core.Server.Connections.{Admitted, admit, join, leave, leave-admit}
use wgturn_core.Server.Shutdown.{stop_server_all}

abbrev server_config : ServerConfig
server_config = record {
  listen_addr = codes ":56000";
  has_backend = true;
  has_logger = false;
  handshake_timeout = count 7;
  stream_read_timeout = count 0;
  backend_write_timeout = below_zero;
}

abbrev first_server : Server
first_server = record {
  config = record {
    listen_addr = codes ":56000";
    has_backend = true;
    has_logger = true;
    handshake_timeout = count 7;
    stream_read_timeout = count default_stream_read_timeout;
    backend_write_timeout = count default_backend_write_timeout;
  };
  phase = server_new;
  sessions = [];
  heap = [];
}

first_server_made : new_server server_config true ≡ ok first_server
unfolding new_server validate_server with_server_defaults
first_server_made = refl

no_backend_refused :
    new_server (record server_config { has_backend = false }) true
    ≡ err (invalid_server backend_missing)
unfolding new_server validate_server
no_backend_refused = refl

abbrev one_session : Server
one_session = record first_server {
  sessions = (codes "ab", 0) ∷ [];
  heap = record { sid = codes "ab"; session = new_session; ending = false } ∷ [];
}

one_session_opened :
    get_or_create_session first_server (codes "ab") true ≡ some (one_session, 0, true)
unfolding get_or_create_session find_session
one_session_opened = refl

-- The session ends, another one opens, and the first one's client comes again.
abbrev ended_session : Server
ended_session = remove_session (update_session one_session 0 end_session) 0

abbrev same_again : Server
same_again = record first_server {
  sessions = (codes "ab", 1) ∷ [];
  heap =
      record {
        sid = codes "ab";
        session = record new_session { terminated = true };
        ending = false;
      }
      ∷ record { sid = codes "ab"; session = new_session; ending = false }
      ∷ [];
}

same_again_opened :
    get_or_create_session ended_session (codes "ab") true ≡ some (same_again, 1, true)
unfolding get_or_create_session find_session remove_session delete_session terminate equal
same_again_opened = refl

abbrev attached : Server
attached = update_session same_again 1 (attach 3 10)

attached_run : Steps first_server attached
attached_run =
    one_more same_again _
      (one_more ended_session _
        (one_more (update_session one_session 0 end_session) _
          (one_more one_session _
            (one_more first_server _ no_step
              (open_step (codes "ab") true one_session 0 true one_session_opened))
            (end_step 0))
          (remove_step 0))
        (open_step (codes "ab") true same_again 1 true same_again_opened))
      (attach_step 1 3 10)

abbrev attached_started : Server
attached_started = record attached { phase = server_started }

attached_started_run : Steps first_server attached_started
unfolding add_stream displace
attached_started_run = one_more attached _ attached_run (start_step true server_started refl)

attached_stats : server_stats attached_started ≡ some (1, 1)
unfolding server_stats streams_active add_stream displace
attached_stats = refl

reached-IsListed_example : IsListed attached
reached-IsListed_example =
    reached-IsListed server_config true attached first_server_made attached_run

abbrev attached_session : Opened
attached_session = attach 3 10 (record { sid = codes "ab"; session = new_session; ending = false })

attached_session_live : attached_session.session.terminated ≡ false
unfolding add_stream displace
attached_session_live = refl

abbrev attached_pointer : ℕ
attached_pointer = 1

live_sessions_apart_runs : attached_pointer ≡ attached_pointer
live_sessions_apart_runs =
    live_sessions_apart server_config true attached attached_pointer attached_pointer
      attached_session attached_session first_server_made attached_run refl refl
      attached_session_live attached_session_live refl

get_or_create_session_live_runs :
    get_or_create_session attached (codes "ab") true ≡ some (attached, 1, false)
get_or_create_session_live_runs =
    get_or_create_session_live server_config true attached 1 attached_session true first_server_made
      attached_run refl attached_session_live

stop_server_all_example :
    ((sid : Bytes) → find_session sid (stop_server attached_started).sessions ≡ none)
    × ((p : ℕ) (o : Opened)
        → get_elem? (stop_server attached_started).heap p ≡ some o
        → o.session.terminated ≡ true)
stop_server_all_example =
    stop_server_all server_config true attached_started first_server_made attached_started_run refl

abbrev admitted : Admitted
admitted = record {
  server = record first_server {
    sessions = (codes "cd", 0) ∷ [];
    heap =
        record {
          sid = codes "cd";
          session = record new_session { streams = record { id = 3; conn = 10 } ∷ [] };
          ending = false;
        }
        ∷ [];
  };
  pointer = 0;
  fresh = true;
  displaced = none;
  accepted = true;
}

admitted_run : admit first_server (codes "cd") 3 10 true ≡ some admitted
unfolding admit join get_or_create_session find_session add_stream displace
admitted_run = refl

first_server_empty : find_session (codes "cd") first_server.sessions ≡ none
unfolding find_session
first_server_empty = refl

left_alone : (leave admitted.server 0 3 10).sessions ≡ []
left_alone = leave-admit first_server (codes "cd") 3 10 admitted first_server_empty admitted_run
