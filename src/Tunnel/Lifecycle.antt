-- ===== src/Tunnel/Lifecycle.antt =====
-- The life cycle of a tunnel (pkg/wgturn/tunnel.go): new, started once, stopped once.
use wgturn_core.Prelude.{
  ◌≤◌, ◌≡◌, ◌⊎◌, refl, true, false, List, [], ◌∷◌, Option, none, some, ok, arith, inl, inr, ◌↔◌,
}
use wgturn_core.Hub.{ConfigInt, HubStats, HubPlan, new_hub}
use wgturn_core.Tunnel.{
  Phase, fresh, started, stopped, Hub, Tunnel, already_started, StartEvent, stream_ready, start,
  stop, healthy, at_least_one, hub_config, deadline_passed,
}

-- The calls that an embedder makes.
pub data Call : Type 0 where
  starts : StartEvent → Call
  stops : Call

abbrev pub apply : Tunnel → Call → Tunnel
apply t (starts event) = (start t event).0
apply t stops = stop t

abbrev pub run : Tunnel → List Call → Tunnel
run t [] = t
run t (c ∷ cs) = run (apply t c) cs

-- What each phase says of the hub.
abbrev pub HubIn : Phase → Option Hub → Type 0
HubIn fresh h = h ≡ none
HubIn started h = (plan : HubPlan) × (h ≡ some (record { plan = plan; running = true }))
HubIn stopped h = (plan : HubPlan) × (h ≡ some (record { plan = plan; running = false }))

abbrev pub IsConsistent : Tunnel → Type 0
IsConsistent t = HubIn t.phase t.hub

start_again :
    (t : Tunnel) (event : StartEvent)
    → (t.phase ≡ started) ⊎ (t.phase ≡ stopped)
    → start t event ≡ (t, some already_started)
unfolding start
start_again t event (inl p) = ground arith
start_again t event (inr p) = ground arith

start_works :
    (t : Tunnel) (event : StartEvent)
    → (start t event).1 ≡ none
    → ((start t event).0.phase ≡ started) × (event ≡ stream_ready)
unfolding start
start_works t event h = ground arith

stop-phase : (t : Tunnel) → t.phase ≡ started → (stop t).phase ≡ stopped
unfolding stop
stop-phase t p = rw (p, stop) refl

stop_done : (t : Tunnel) → t.phase ≡ stopped → stop t ≡ t
unfolding stop
stop_done t p = ground arith

-- A tunnel is used once. After a `Start` that succeeds every further `Start` is refused and changes
-- nothing, also after `Stop`; and a second `Stop` changes nothing.
pub start_once :
    (t : Tunnel) (first second third : StartEvent)
    → (start t first).1 ≡ none
    → let up = (start t first).0 in
      (start up second ≡ (up, some already_started))
      × (start (stop up) third ≡ (stop up, some already_started))
      × (stop (stop up) ≡ stop up)
start_once t first second third h =
    let (p, _) = start_works t first h in
    let q = stop-phase (start t first).0 p in
    (start_again _ second (inl p), start_again _ third (inr q), stop_done _ q)

-- A `Start` that times out leaves the tunnel as it was, and so the next `Start` is not refused:
-- it succeeds once a stream gets ready.
pub start_after_timeout :
    (t : Tunnel) (plan : HubPlan)
    → t.phase ≡ fresh
    → new_hub (hub_config t.config) ≡ ok plan
    → ((start t deadline_passed).0 ≡ t)
      × ((start (start t deadline_passed).0 stream_ready).1 ≡ none)
unfolding start
start_after_timeout t plan p e = ground (arith, p, e)

healthy-started :
    (t : Tunnel) (phase : Phase) (s : HubStats) (wanted : ConfigInt)
    → t.phase ≡ phase
    → healthy t s wanted ≡ true
    → (t.phase ≡ started) × (at_least_one wanted ≤ s.streams_running)
unfolding healthy
healthy-started t started s wanted p h = (p, ground arith)
healthy-started t _ s wanted p h = absurd (ground arith)

-- `Healthy` holds exactly of a started tunnel whose hub reports at least the wanted number of ready
-- streams, and at least one.
pub healthy_iff :
    (t : Tunnel) (s : HubStats) (wanted : ConfigInt)
    → IsConsistent t
    → (healthy t s wanted ≡ true)
      ↔ ((t.phase ≡ started) × (at_least_one wanted ≤ s.streams_running))
unfolding healthy
healthy_iff t s wanted v = (
  λ h. healthy-started t t.phase s wanted refl h,
  λ h. let (plan, e) : HubIn started t.hub = rw h.0 at v in ground (arith, h.0, h.1, e),
)
