-- ===== src/Tunnel.antt =====
-- pkg/wgturn/config.go and pkg/wgturn/tunnel.go: the public configuration and the tunnel's life
-- cycle. `net.SplitHostPort` is modelled on the brackets and colons that it looks at. The provider,
-- the protector and the logger enter as whether they are set; what the hub's listener, its streams
-- and the clock do during `Start` is an argument.
mod Tests
pub mod HostPort
pub mod Checks
pub mod Lifecycle
use wgturn_core.Prelude.{
  ℕ, suc, ◌+◌, ◌≤◌, Bool, true, false, not, ◌&&◌, ◌||◌, List, [], ◌∷◌, Option, none, some, Bytes,
  codes, equal, Result, ok, err, ◌>>=◌, leb, ltb, ◌==◌, if◌then◌else◌, length,
}
use wgturn_core.Hub.{ConfigInt, count, below_zero, HubConfig, HubError, HubPlan, new_hub, HubStats}
use HostPort.{split_host_port}

-- The first problem that `Validate` finds, each wrapped in `ErrInvalidConfig`.
pub data Problem : Type 0 where
  peer_addr_required bad_peer_addr listen_addr_required bad_listen_addr : Problem
  streams_negative streams_over_255 streams_per_cred_negative watchdog_negative : Problem
  no_provider no_protector unknown_peer_type : Problem

-- `Config`; a `WatchdogTimeout` counts nanoseconds.
pub record Config : Type 0 where
  pub peer_addr : Bytes
  pub listen_addr : Bytes
  pub streams : ConfigInt
  pub peer_type : Bytes
  pub mode : Bytes
  pub hint : Bytes
  pub hints : List Bytes
  pub udp : Bool
  pub turn_host_override : Bytes
  pub turn_port_override : ConfigInt
  pub streams_per_cred : ConfigInt
  pub watchdog_timeout : ConfigInt
  pub has_provider : Bool
  pub has_protector : Bool
  pub has_logger : Bool

abbrev pub peer_type_proxy_v2 : Bytes
peer_type_proxy_v2 = codes "proxy_v2"

abbrev pub peer_type_proxy_v1 : Bytes
peer_type_proxy_v1 = codes "proxy_v1"

abbrev pub peer_type_wireguard : Bytes
peer_type_wireguard = codes "wireguard"

abbrev pub mode_stub : Bytes
mode_stub = codes "stub"

abbrev pub is_nil : Bytes → Bool
is_nil [] = true
is_nil (c ∷ cs) = false

abbrev pub is_negative : ConfigInt → Bool
is_negative (count n) = false
is_negative below_zero = true

abbrev pub is_over : ℕ → ConfigInt → Bool
is_over bound (count n) = ltb bound n
is_over bound below_zero = false

abbrev pub is_zero : ConfigInt → Bool
is_zero (count n) = n == 0
is_zero below_zero = false

unfoldable pub is_peer_type : Bytes → Bool
is_peer_type t =
    is_nil t
    || equal t peer_type_proxy_v2
    || equal t peer_type_proxy_v1
    || equal t peer_type_wireguard

abbrev pub is_split : Bytes → Bool
is_split addr = elim (split_host_port addr) [ some hp ↦ true | none ↦ false ]

-- The checks of `Validate` in their order: whether each finds its problem.
abbrev pub checks : Config → List (Bool × Problem)
checks c =
    (is_nil c.peer_addr, peer_addr_required)
    ∷ (not (is_split c.peer_addr), bad_peer_addr)
    ∷ (is_nil c.listen_addr, listen_addr_required)
    ∷ (not (is_split c.listen_addr), bad_listen_addr)
    ∷ (is_negative c.streams, streams_negative)
    ∷ (is_over 255 c.streams, streams_over_255)
    ∷ (is_negative c.streams_per_cred, streams_per_cred_negative)
    ∷ (is_negative c.watchdog_timeout, watchdog_negative)
    ∷ (not c.has_provider, no_provider)
    ∷ (not c.has_protector, no_protector)
    ∷ (not (is_peer_type c.peer_type), unknown_peer_type)
    ∷ []

-- The first check that fails returns.
unfoldable pub first_problem : List (Bool × Problem) → Option Problem
first_problem [] = none
first_problem ((bad, p) ∷ rest) = if bad then some p else first_problem rest

-- `Validate`; `none` is no error.
unfoldable pub validate : Config → Option Problem
unfolding is_peer_type first_problem
validate c = first_problem (checks c)

-- `withDefaults`
unfoldable pub with_defaults : Config → Config
with_defaults c = record c {
  streams = if is_zero c.streams then count 1 else c.streams;
  streams_per_cred = if is_zero c.streams_per_cred then count 4 else c.streams_per_cred;
  peer_type = if is_nil c.peer_type then peer_type_proxy_v2 else c.peer_type;
  mode = if is_nil c.mode then mode_stub else c.mode;
  has_logger = true;
}

pub data Phase : Type 0 where
  fresh started stopped : Phase

-- The errors of the tunnel's methods.
pub data TunnelError : Type 0 where
  invalid_config : Problem → TunnelError
  already_started not_started start_timeout start_cancelled : TunnelError
  hub_refused : HubError → TunnelError

-- A hub that has been started: its plan, and whether it still runs.
pub record Hub : Type 0 where
  pub plan : HubPlan
  pub running : Bool

pub record Tunnel : Type 0 where
  pub config : Config
  pub phase : Phase
  pub hub : Option Hub

-- `New`
unfoldable pub new : Config → Result TunnelError Tunnel
unfolding validate with_defaults
new c = elim (validate c) [
  | some p ↦ err (invalid_config p)
  | none ↦ ok (record { config = with_defaults c; phase = fresh; hub = none })
]

-- `Hints` if it is set, and else the single `Hint`.
unfoldable pub resolve_hints : Config → List Bytes
resolve_hints c = if (length c.hints == 0) && not (is_nil c.hint) then c.hint ∷ [] else c.hints

-- What `Start` hands to `NewHub`; a provider and a logger are set.
abbrev pub hub_config : Config → HubConfig
hub_config c = record {
  streams = c.streams;
  streams_per_cred = c.streams_per_cred;
  hints = resolve_hints c;
  has_provider = true;
  has_logger = true;
}

-- How the start of the hub ends: its own start fails, the first stream gets ready, the deadline of
-- 30 seconds passes, or the caller's context is done.
pub data StartEvent : Type 0 where
  hub_failed : HubError → StartEvent
  stream_ready deadline_passed context_done : StartEvent

-- The `select` of `Start`. A hub whose start is given up is stopped.
abbrev pub await : Tunnel → HubPlan → StartEvent → Tunnel × Option TunnelError
await t plan (hub_failed e) = (t, some (hub_refused e))
await t plan stream_ready =
    (record t { hub = some (record { plan = plan; running = true }); phase = started }, none)
await t plan deadline_passed = (t, some start_timeout)
await t plan context_done = (t, some start_cancelled)

-- `Start`
unfoldable pub start : Tunnel → StartEvent → Tunnel × Option TunnelError
start t event = elim t.phase [
  | fresh ↦ elim (new_hub (hub_config t.config)) [
    | err e ↦ (t, some (hub_refused e))
    | ok plan ↦ await t plan event
  ]
  | started ↦ (t, some already_started)
  | stopped ↦ (t, some already_started)
]

-- `hub.Stop`
abbrev pub stop_hub : Option Hub → Option Hub
stop_hub none = none
stop_hub (some h) = some (record h { running = false })

-- `Stop`
unfoldable pub stop : Tunnel → Tunnel
stop t = elim t.phase [
  | fresh ↦ t
  | started ↦ record t { phase = stopped; hub = stop_hub t.hub }
  | stopped ↦ t
]

-- `Stats`, for the counters that the hub reports.
unfoldable pub tunnel_stats : Tunnel → HubStats → Result TunnelError HubStats
tunnel_stats t hub_stats = elim t.phase [
  | fresh ↦ err not_started
  | started ↦ elim t.hub [ none ↦ err not_started | some h ↦ ok hub_stats ]
  | stopped ↦ err not_started
]

abbrev pub at_least_one : ConfigInt → ℕ
at_least_one (count n) = if n == 0 then 1 else n
at_least_one below_zero = 1

-- `Healthy`
unfoldable pub healthy : Tunnel → HubStats → ConfigInt → Bool
unfolding tunnel_stats
healthy t hub_stats min_streams = elim (tunnel_stats t hub_stats) [
  | err e ↦ false
  | ok s ↦ leb (at_least_one min_streams) s.streams_running
]
