-- ===== src/Stream/Watchdog.antt =====
-- internal/proxy/stream.go: when the watchdog of a pump drops.
use wgturn_core.Prelude.{ℕ, ◌+◌, ◌/◌, ◌<◌, true, ◌≡◌, arith}
use wgturn_core.Creds.{second}
use wgturn_core.Stream.Pump.{is_stale}

-- The watchdog's test, for a packet at a time `now` and the last one from the relay at a time `seen`: a
-- silence longer than the timeout always counts, and what counts was a silence longer than the timeout
-- less one second.
pub is_stale-bounds :
    (wd seen now : ℕ)
    → 0 < wd
    → (wd + seen < now → is_stale wd (seen / second) now ≡ true)
      × (is_stale wd (seen / second) now ≡ true → wd + seen < now + second)
is_stale-bounds wd seen now h = ((λ lt. ground arith), (λ e. ground (arith, e)))
