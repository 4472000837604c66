-- ===== src/Tunnel/Tests.antt =====
-- Runs of the tunnel's functions, and the theorems about it at concrete inputs.
use wgturn_core.Prelude.{◌≡◌, ◌≤◌, refl, [], ◌∷◌, codes, equal, some, none, true, false, ok, arith}
use wgturn_core.Hub.{count, HubPlan, HubStats, new_hub}
use wgturn_core.Tunnel.HostPort.{split_host_port}
use wgturn_core.Tunnel.{
  Config, Tunnel, validate, with_defaults, new, start, stop, stream_ready, deadline_passed,
  streams_over_255, fresh, hub_config, resolve_hints, healthy, started,
}
use wgturn_core.Tunnel.Checks.{validate_iff, new-new_hub, IsSound}
use wgturn_core.Tunnel.Lifecycle.{start_once, start_after_timeout, healthy_iff}

split_v6 : split_host_port (codes "[::1]:80") ≡ some (codes "::1", codes "80")
unfolding split_host_port
split_v6 = refl

split_no_port : split_host_port (codes "localhost") ≡ none
unfolding split_host_port
split_no_port = refl

split_colons : split_host_port (codes "::1:80") ≡ none
unfolding split_host_port
split_colons = refl

abbrev config : Config
config = record {
  peer_addr = codes "h:1";
  listen_addr = codes "l:0";
  streams = count 0;
  peer_type = [];
  mode = [];
  hint = codes "link";
  hints = [];
  udp = true;
  turn_host_override = [];
  turn_port_override = count 0;
  streams_per_cred = count 0;
  watchdog_timeout = count 0;
  has_provider = true;
  has_protector = true;
  has_logger = false;
}

abbrev tunnel : Tunnel
tunnel = record { config = with_defaults config; phase = fresh; hub = none }

abbrev plan : HubPlan
plan = record { n_streams = 1; per_cred = 4; pool = codes "link" ∷ [] }

config-validate : validate config ≡ none
unfolding validate split_host_port equal
config-validate = refl

too_many : validate (record config { streams = count 256 }) ≡ some streams_over_255
unfolding validate split_host_port equal
too_many = refl

config-new : new config ≡ ok tunnel
unfolding new split_host_port equal
config-new = refl

tunnel-new_hub : new_hub (hub_config tunnel.config) ≡ ok plan
unfolding new_hub with_defaults resolve_hints
tunnel-new_hub = refl

validate_iff_example : IsSound config
validate_iff_example = (validate_iff config).0 config-validate

new-new_hub_runs : (new-new_hub config tunnel config-new).0.n_streams ≤ 255
new-new_hub_runs = (new-new_hub config tunnel config-new).3

started_once : stop (stop (start tunnel stream_ready).0) ≡ stop (start tunnel stream_ready).0
unfolding start new_hub with_defaults resolve_hints
started_once = (start_once tunnel stream_ready stream_ready stream_ready refl).2

start_again : (start tunnel deadline_passed).0 ≡ tunnel
start_again = (start_after_timeout tunnel plan refl tunnel-new_hub).0

abbrev counters : HubStats
counters = record {
  streams_running = 2;
  streams_total = 16;
  total_bytes_tx = 0;
  total_bytes_rx = 0;
  total_packets_tx = 0;
  total_packets_rx = 0;
  total_drops_tx = 0;
  total_errors_tx = 0;
  total_errors_rx = 0;
}

abbrev running : Tunnel
running = record tunnel { phase = started; hub = some (record { plan = plan; running = true }) }

healthy_one_of_two : healthy running counters (count 2) ≡ true
healthy_one_of_two = (healthy_iff running counters (count 2) (plan, refl)).1 (refl, omega arith)
