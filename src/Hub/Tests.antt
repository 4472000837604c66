-- ===== src/Hub/Tests.antt =====
-- Runs of the hub's scheduler, and the theorems about it at concrete inputs.
use wgturn_core.Prelude.{◌≡◌, refl, [], ◌∷◌, Bytes, codes, some, none, true, false, Bool, ok, arith}
use wgturn_core.Hub.{
  HubConfig, HubPlan, Stream, Scheduler, new_hub, hint_for, schedule, schedule_loop, stats, count,
  hand_off,
}
use wgturn_core.Creds.{new_cache}
use wgturn_core.Hub.Schedule.{Scheduled, schedule-Scheduled}
use wgturn_core.Hub.Queues.{WithinDepth, schedule_loop-WithinDepth}
use wgturn_core.Hub.Counters.{Reports, stats-Reports}
use wgturn_core.Hub.Hints.{hint_for-group, hint_for_all}

abbrev idle : Bool → Stream
idle up = record {
  ready = up;
  queue = [];
  peer = none;
  bytes_tx = 0;
  bytes_rx = 0;
  packets_tx = 0;
  packets_rx = 0;
  drops_tx = 0;
  errors_tx = 0;
  errors_rx = 0;
}

-- Three streams, of which the middle one is not ready.
abbrev three : Scheduler
three = record { last_used = 0; streams = idle true ∷ idle false ∷ idle true ∷ [] }

abbrev packet : Bytes
packet = 1 ∷ 2 ∷ []

schedule_run : schedule three packet 5 ≡ record {
  last_used = 1;
  streams = idle true ∷ idle false ∷ hand_off (idle true) packet 5 ∷ [];
}
unfolding schedule
schedule_run = refl

schedule-Scheduled_example : Scheduled three packet 5 (schedule three packet 5)
schedule-Scheduled_example = schedule-Scheduled three packet 5 (omega arith)

schedule_loop-WithinDepth_runs :
    WithinDepth (schedule_loop three ((packet, 5) ∷ (packet, 6) ∷ [])).streams
schedule_loop-WithinDepth_runs =
    schedule_loop-WithinDepth ((packet, 5) ∷ (packet, 6) ∷ []) three (omega arith)

stats_of_two : Reports three.streams (stats three.streams)
stats_of_two = stats-Reports three.streams

abbrev config : HubConfig
config = record {
  streams = count 16;
  streams_per_cred = count 0;
  hints = codes "a" ∷ codes "b" ∷ [];
  has_provider = true;
  has_logger = true;
}

abbrev plan : HubPlan
plan = record { n_streams = 16; per_cred = 4; pool = codes "a" ∷ codes "b" ∷ [] }

plan-new_hub : new_hub config ≡ ok plan
unfolding new_hub
plan-new_hub = refl

hint_of_group : hint_for plan 4 ≡ hint_for plan 7
unfolding new_cache
hint_of_group = hint_for-group config plan 4 7 plan-new_hub refl

hint_for_two : some (codes "b") ≡ some (hint_for plan 4)
hint_for_two = hint_for_all config plan 1 plan-new_hub (omega arith)
