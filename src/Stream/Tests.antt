-- ===== src/Stream/Tests.antt =====
-- Runs of a stream's loop and of its pumps.
use wgturn_core.Prelude.{
  ◌+◌, ◌*◌, ◌/◌, ◌<◌, true, false, List, [], ◌∷◌, ◌++◌, none, some, Bytes, codes, equal, ok, err,
  contains, has_prefix, if◌then◌else◌, ◌-◌, ◌≡◌, refl, arith,
}
use wgturn_core.Creds.{Credentials, span, second, is_auth_error, is_rate_limit_error}
use wgturn_core.Tunnel.HostPort
use wgturn_core.Kernel.{decimal}
use wgturn_core.Stream.{
  StreamConfig, Attempt, RunRound, run_once, back_off, run_loop, pump, pump_dtls, turn_address,
  attempted, waited,
}
use wgturn_core.Stream.Loop.{run_loop-Spaced, Spaced}
use wgturn_core.Stream.Pump.{
  PumpEvent, arrive, take_one, received, delivered, read_failed, step_dtls, step_raw, run_pump,
  new_pump, is_stale,
}
use wgturn_core.Stream.Parts.{InOrder}
use wgturn_core.Stream.Order.{run_pump_both-InOrder, arrivals}
use wgturn_core.Stream.Watchdog.{is_stale-bounds}

abbrev udp_config : StreamConfig
udp_config = record {
  peer_type = codes "proxy_v2";
  turn_host_override = [];
  turn_port_override = 3478;
  udp = true;
}

-- A provider that the rate limit refuses.
abbrev limited : Attempt
limited = record {
  creds = err (codes "vk error code=29");
  dial = λ udp addr. none;
  resolve_turn = none;
  resolve_peer = none;
  new_client = none;
  listen = none;
  allocate = none;
  dtls_client = none;
  dtls_handshake = none;
  session_handshake = none;
  ctx_end = none;
}

abbrev some_creds : Credentials
some_creds = record {
  username = codes "u";
  password = codes "p";
  server_addr = codes "t.ru:19";
  expires_in = span 0;
}

-- Credentials that the TURN server refuses, if the dial goes to the port of the override.
abbrev refused_turn : Attempt
refused_turn = record limited {
  creds = ok some_creds;
  dial = λ udp addr. if equal addr (codes "t.ru:3478") then none else some addr;
  allocate = some (codes "401");
}

abbrev rounds : List RunRound
rounds =
    (record { done_before = false; attempt = limited; done_after = false; done_in_wait = false })
    ∷ (record {
      done_before = false;
      attempt = refused_turn;
      done_after = true;
      done_in_wait = false;
    })
    ∷ (record { done_before = true; attempt = limited; done_after = true; done_in_wait = true })
    ∷ []

run_loop-Spaced_example : Spaced (run_loop udp_config rounds)
run_loop-Spaced_example = run_loop-Spaced udp_config rounds ((λ e. cc), ((λ e. refl), tt))

run_events :
    run_loop udp_config rounds
    ≡ attempted (some (codes "creds: vk error code=29")) false
      ∷ waited 15000000000
      ∷ attempted (some (codes "turn allocate: 401")) true
      ∷ []
unfolding run_loop run_once pump pump_dtls turn_address back_off is_rate_limit_error is_auth_error
    equal contains has_prefix decimal HostPort.split_host_port HostPort.cut_last HostPort.cut_first
    HostPort.has_byte
run_events = refl

-- Two packets; a third one is dropped after a silence.
abbrev pump_events : List PumpEvent
pump_events =
    take_one (5 * second) (some 3)
    ∷ arrive (codes "c")
    ∷ received 9 (6 * second) true delivered
    ∷ take_one (7 * second) (some 3)
    ∷ take_one (60 * second) (some 3)
    ∷ read_failed true
    ∷ []

abbrev first_two : List Bytes
first_two = codes "a" ∷ codes "b" ∷ []

run_pump_both-InOrder_example :
    InOrder
      (first_two ++ arrivals pump_events)
      (run_pump (step_dtls (30 * second)) pump_events (new_pump first_two (5 * second)))
    × InOrder
        (first_two ++ arrivals pump_events)
        (run_pump step_raw pump_events (new_pump first_two (5 * second)))
run_pump_both-InOrder_example =
    run_pump_both-InOrder (30 * second) pump_events first_two (5 * second)

pump_written :
    (run_pump (step_dtls (30 * second)) pump_events (new_pump first_two (5 * second))).written
    ≡ first_two
unfolding run_pump step_dtls
pump_written = refl

is_stale-bounds_runs :
    (30 * second + 7 < 40 * second → is_stale (30 * second) (7 / second) (40 * second) ≡ true)
    × (is_stale (30 * second) (7 / second) (40 * second) ≡ true
        → 30 * second + 7 < 40 * second + second)
is_stale-bounds_runs = is_stale-bounds (30 * second) 7 (40 * second) (omega arith)

-- With a timeout of half a second, a packet is dropped 0.1 seconds after the last one from the relay.
early_drop :
    is_stale (second / 2) ((8 * second - 200000000) / second) (8 * second - 100000000) ≡ true
early_drop = refl
