-- ===== src/Stream.antt =====
-- internal/proxy/stream.go: one attempt to run a stream, and the loop of attempts. What the sockets, the
-- TURN client and DTLS do is a parameter: for each call of an attempt, its error text, if it has one.
mod Loop
mod Pump
mod Parts
mod Order
mod Watchdog
mod Tests
use wgturn_core.Prelude.{
  ℕ, Bool, true, false, not, ◌&&◌, ◌||◌, List, [], ◌∷◌, ◌++◌, Option, none, some, Bytes, codes,
  equal, Result, ok, err, ◌>>=◌, ◌==◌, ◌*◌, if◌then◌else◌,
}
use wgturn_core.Creds.{Credentials, second, is_auth_error, is_rate_limit_error}
use wgturn_core.Tunnel.{is_nil, peer_type_wireguard, peer_type_proxy_v1, peer_type_proxy_v2}
use wgturn_core.Tunnel.HostPort.{split_host_port, has_byte}
use wgturn_core.Kernel.{print_number}

-- The fields of `HubConfig` that an attempt reads. The port is a number that is not negative.
pub record StreamConfig : Type 0 where
  pub peer_type : Bytes
  pub turn_host_override : Bytes
  pub turn_port_override : ℕ
  pub udp : Bool

-- `net.JoinHostPort`
abbrev pub join_host_port : Bytes → Bytes → Bytes
join_host_port host port =
    if has_byte 58 host then 91 ∷ (host ++ (93 ∷ 58 ∷ port)) else host ++ (58 ∷ port)

-- The address that is dialled: the credentials' one, with the overrides if it splits.
unfoldable pub turn_address : StreamConfig → Bytes → Bytes
turn_address cfg addr =
    if is_nil (cfg.turn_host_override) && cfg.turn_port_override == 0
    then addr
    else elim (split_host_port addr) [
      | none ↦ addr
      | some (host, port) ↦
          join_host_port (if is_nil (cfg.turn_host_override) then host else cfg.turn_host_override)
            (if cfg.turn_port_override == 0 then port else print_number (cfg.turn_port_override))
    ]

-- The errors of the calls of one attempt, where they have one, and the error of the context when the
-- pumps have ended. The dial is given the network and the address.
pub record Attempt : Type 0 where
  pub creds : Result Bytes Credentials
  pub dial : Bool → Bytes → Option Bytes
  pub resolve_turn : Option Bytes
  pub resolve_peer : Option Bytes
  pub new_client : Option Bytes
  pub listen : Option Bytes
  pub allocate : Option Bytes
  pub dtls_client : Option Bytes
  pub dtls_handshake : Option Bytes
  pub session_handshake : Option Bytes
  pub ctx_end : Option Bytes

-- `return fmt.Errorf("...: %w", err)` if there is an error.
abbrev pub wrap_error : Bytes → Option Bytes → Result Bytes (Unit {0})
wrap_error prefix none = ok tt
wrap_error prefix (some text) = err (prefix ++ text)

-- `pumpExitErr`
abbrev pub pump_exit_err : Option Bytes → Bytes
pump_exit_err none = codes "stream pump terminated (relay/DTLS failure)"
pump_exit_err (some ctx_err) = ctx_err

-- The error that a chain of calls ends with: its own, or the one behind it.
abbrev pub ends_with : Result Bytes (Unit {0}) → Bytes → Bytes
ends_with (err e) last = e
ends_with (ok u) last = last

-- `pumpDTLS`, its result.
unfoldable pub pump_dtls : Bool → Attempt → Bytes
pump_dtls send_handshake a =
    ends_with
      (wrap_error (codes "dtls client: ") (a.dtls_client) >>= (λ _.
        wrap_error (codes "dtls handshake: ") (a.dtls_handshake) >>= (λ _.
          if send_handshake
          then wrap_error (codes "session-id handshake: ") (a.session_handshake)
          else ok tt)))
      (pump_exit_err (a.ctx_end))

-- The pump that the peer type chooses.
unfoldable pub pump : Bytes → Attempt → Bytes
unfolding pump_dtls
pump peer_type a =
    if equal peer_type peer_type_wireguard
    then pump_exit_err (a.ctx_end)
    else if equal peer_type peer_type_proxy_v1
    then pump_dtls false a
    else if equal peer_type peer_type_proxy_v2 || is_nil peer_type
    then pump_dtls true a
    else codes "unknown PeerType"

-- The error of a TURN call, and whether the credentials were reported as refused
-- (`invalidateOnAuthError`).
abbrev pub turn_call : Bytes → Option Bytes → Option Bytes × Bool → Option Bytes × Bool
turn_call prefix none later = later
turn_call prefix (some text) later = (some (prefix ++ text), is_auth_error (some (prefix ++ text)))

-- The calls behind the credentials and in front of `Listen`.
abbrev pub connect : StreamConfig → Attempt → Credentials → Result Bytes (Unit {0})
connect cfg a cr =
    wrap_error (if cfg.udp then codes "dial udp: " else codes "dial tcp: ")
      (a.dial (cfg.udp) (turn_address cfg (cr.server_addr)))
    >>= (λ _. wrap_error (codes "resolve turn addr: ") (a.resolve_turn) >>= (λ _.
        wrap_error (codes "resolve peer addr: ") (a.resolve_peer)
        >>= (λ _. wrap_error (codes "turn client: ") (a.new_client))))

abbrev pub connected : StreamConfig → Attempt → Result Bytes (Unit {0}) → Option Bytes × Bool
connected cfg a (err e) = (some e, false)
connected cfg a (ok u) =
    turn_call (codes "turn listen: ") (a.listen)
      (turn_call (codes "turn allocate: ") (a.allocate) (some (pump (cfg.peer_type) a), false))

abbrev pub with_creds : StreamConfig → Attempt → Result Bytes Credentials → Option Bytes × Bool
with_creds cfg a (err e) = (some (codes "creds: " ++ e), false)
with_creds cfg a (ok cr) = connected cfg a (connect cfg a cr)

-- `runOnce`: its error, and whether it called `HandleAuthError`.
unfoldable pub run_once : StreamConfig → Attempt → Option Bytes × Bool
unfolding pump turn_address
run_once cfg a = with_creds cfg a (a.creds)

-- The wait after an error.
unfoldable pub back_off : Option Bytes → ℕ
back_off error = if is_rate_limit_error error then 15 * second else second

-- One round of `run`: whether the context is done when the round starts, after the attempt, and before
-- the wait is over.
pub record RunRound : Type 0 where
  pub done_before : Bool
  pub attempt : Attempt
  pub done_after : Bool
  pub done_in_wait : Bool

pub data StreamEvent : Type 0 where
  attempted : Option Bytes → Bool → StreamEvent
  waited : ℕ → StreamEvent

abbrev pub has_error : Option Bytes → Bool
has_error none = false
has_error (some e) = true

-- The events of a round and of the later ones.
abbrev pub round_events :
    Bool → Option Bytes × Bool → Bool → Bool → List StreamEvent → List StreamEvent
round_events true result after in_wait later = []
round_events false (error, refused) after in_wait later =
    attempted error refused
    ∷ (if has_error error && not after
        then waited (back_off error) ∷ (if in_wait then [] else later)
        else later)

-- `run`, over the rounds that its context allows.
unfoldable pub run_loop : StreamConfig → List RunRound → List StreamEvent
unfolding run_once back_off
run_loop cfg [] = []
run_loop cfg (r ∷ rs) =
    round_events (r.done_before) (run_once cfg (r.attempt)) (r.done_after) (r.done_in_wait)
      (run_loop cfg rs)
