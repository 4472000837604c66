-- ===== src/Hub/Counters.antt =====
-- `Stats` of internal/proxy/hub.go: the sums of the streams' counters.
use wgturn_core.Prelude.{ℕ, ◌+◌, ◌%◌, ◌≡◌, List, [], ◌∷◌, length, if◌then◌else◌, arith}
use wgturn_core.Hub.{Stream, HubStats, add_stream_stats, sum_stats, stats, u64_mod}

-- The sum of a counter over the streams, with no bound.
abbrev pub total : (Stream → ℕ) → List Stream → ℕ
total f [] = 0
total f (s ∷ ss) = f s + total f ss

abbrev pub is_up : Stream → ℕ
is_up s = if s.ready then 1 else 0

-- The counters of `a` are those of `b` with the streams' counters added.
pub record Sums (ss : List Stream) (b a : HubStats) : Type 0 where
  pub running : a.streams_running ≡ b.streams_running + total is_up ss
  pub same_total : a.streams_total ≡ b.streams_total
  pub bytes_sent :
      a.total_bytes_tx % u64_mod ≡ (b.total_bytes_tx + total (λ s. s.bytes_tx) ss) % u64_mod
  pub bytes_read :
      a.total_bytes_rx % u64_mod ≡ (b.total_bytes_rx + total (λ s. s.bytes_rx) ss) % u64_mod
  pub packets_sent :
      a.total_packets_tx % u64_mod ≡ (b.total_packets_tx + total (λ s. s.packets_tx) ss) % u64_mod
  pub packets_read :
      a.total_packets_rx % u64_mod ≡ (b.total_packets_rx + total (λ s. s.packets_rx) ss) % u64_mod
  pub drops : a.total_drops_tx % u64_mod ≡ (b.total_drops_tx + total (λ s. s.drops_tx) ss) % u64_mod
  pub errors_sent :
      a.total_errors_tx % u64_mod ≡ (b.total_errors_tx + total (λ s. s.errors_tx) ss) % u64_mod
  pub errors_read :
      a.total_errors_rx % u64_mod ≡ (b.total_errors_rx + total (λ s. s.errors_rx) ss) % u64_mod

sum_stats-Sums : (ss : List Stream) (b : HubStats) → Sums ss b (sum_stats b ss)
unfolding sum_stats
sum_stats-Sums [] b = omega arith
sum_stats-Sums (s ∷ ss) b =
    let ih = sum_stats-Sums ss (add_stream_stats b s) in
    record {
      running = ground (arith, ih.running);
      same_total = ih.same_total;
      bytes_sent = omega (arith, ih.bytes_sent);
      bytes_read = omega (arith, ih.bytes_read);
      packets_sent = omega (arith, ih.packets_sent);
      packets_read = omega (arith, ih.packets_read);
      drops = omega (arith, ih.drops);
      errors_sent = omega (arith, ih.errors_sent);
      errors_read = omega (arith, ih.errors_read);
    }

-- What `Stats` reports for given streams: their number, how many of them are ready, and the sum of
-- each of their seven counters, modulo 2 ^ 64 as `uint64` adds.
pub record Reports (ss : List Stream) (a : HubStats) : Type 0 where
  pub running : a.streams_running ≡ total is_up ss
  pub all_streams : a.streams_total ≡ length ss
  pub bytes_sent : a.total_bytes_tx % u64_mod ≡ total (λ s. s.bytes_tx) ss % u64_mod
  pub bytes_read : a.total_bytes_rx % u64_mod ≡ total (λ s. s.bytes_rx) ss % u64_mod
  pub packets_sent : a.total_packets_tx % u64_mod ≡ total (λ s. s.packets_tx) ss % u64_mod
  pub packets_read : a.total_packets_rx % u64_mod ≡ total (λ s. s.packets_rx) ss % u64_mod
  pub drops : a.total_drops_tx % u64_mod ≡ total (λ s. s.drops_tx) ss % u64_mod
  pub errors_sent : a.total_errors_tx % u64_mod ≡ total (λ s. s.errors_tx) ss % u64_mod
  pub errors_read : a.total_errors_rx % u64_mod ≡ total (λ s. s.errors_rx) ss % u64_mod

-- `Stats` counts the streams and the ready ones, and its seven counters are the sums of the
-- streams' counters modulo 2 ^ 64.
pub stats-Reports : (ss : List Stream) → Reports ss (stats ss)
unfolding stats
stats-Reports ss =
    let ih = sum_stats-Sums ss _ in
    record {
      running = omega (arith, ih.running);
      all_streams = ih.same_total;
      bytes_sent = omega (arith, ih.bytes_sent);
      bytes_read = omega (arith, ih.bytes_read);
      packets_sent = omega (arith, ih.packets_sent);
      packets_read = omega (arith, ih.packets_read);
      drops = omega (arith, ih.drops);
      errors_sent = omega (arith, ih.errors_sent);
      errors_read = omega (arith, ih.errors_read);
    }
