-- ===== src/Kernel/Stats.antt =====
-- pkg/wgkernel/kernel.go: what `Stats` reads back from the lines of a device.
use wgturn_core.Prelude.{
  ℕ, ◌+◌, ◌/◌, ◌%◌, ◌^◌, ◌<◌, false, ◌&&◌, List, [], ◌∷◌, ◌++◌, some, Bytes, codes, has_prefix, All,
  leb, ltb, ◌==◌, ◌≡◌, refl, sym, ap, ◌∙◌, Bool-cases, inl, inr, arith,
}
use wgturn_core.Share.{pos}
use wgturn_core.Tunnel.{is_nil}
use wgturn_core.Conf.Strings.{number, digits}
use wgturn_core.Kernel.{decimal, print_number}
use wgturn_core.Kernel.Ipc.{digits-print_number}
use wgturn_core.Kernel.Life.{
  PeerStats, no_stats, flush_stats, parse_uint, parse_int, clamp_uint, clamp_int, stats_lines,
}

-- A peer that a device reports: its key and numbers, and its other lines: those in front of the handshake,
-- those between it and the numbers of bytes, and those behind.
pub record Reported : Type 0 where
  pub key : Bytes
  pub before : List Bytes
  pub handshake : ℕ
  pub between : List Bytes
  pub tx : ℕ
  pub rx : ℕ
  pub behind : List Bytes

-- A line that `Stats` passes over.
abbrev pub IsOther : Bytes → Type 0
IsOther line =
    (has_prefix line (codes "public_key=") ≡ false)
    × (has_prefix line (codes "last_handshake_time_sec=") ≡ false)
    × (has_prefix line (codes "rx_bytes=") ≡ false)
    × (has_prefix line (codes "tx_bytes=") ≡ false)

-- The lines of a peer, with the ones that follow it.
abbrev pub peer_report : Reported → List Bytes → List Bytes
peer_report r later =
    (codes "public_key=" ++ r.key)
    ∷ (r.before
        ++ ((codes "last_handshake_time_sec=" ++ print_number (r.handshake))
            ∷ (r.between
                ++ ((codes "tx_bytes=" ++ print_number (r.tx))
                    ∷ (codes "rx_bytes=" ++ print_number (r.rx))
                    ∷ (r.behind ++ later)))))

abbrev pub report : List Reported → List Bytes
report [] = []
report (r ∷ rs) = peer_report r (report rs)

abbrev pub stats_of : Reported → PeerStats
stats_of r = record {
  peer_key = r.key;
  last_handshake_time_sec = pos (r.handshake);
  rx_bytes = r.rx;
  tx_bytes = r.tx;
}

abbrev pub all_stats : List Reported → List PeerStats
all_stats [] = []
all_stats (r ∷ rs) = stats_of r ∷ all_stats rs

-- A key that is not empty, other lines, and numbers of their sizes.
abbrev pub IsReport : Reported → Type 0
IsReport r =
    (is_nil (r.key) ≡ false)
    × (All IsOther (r.before))
    × (All IsOther (r.between))
    × (All IsOther (r.behind))
    × (r.handshake < 2 ^ 63)
    × (r.rx < 2 ^ 64)
    × (r.tx < 2 ^ 64)

is_nil-append : (xs : Bytes) (x : ℕ) → is_nil (xs ++ (x ∷ [])) ≡ false
is_nil-append [] x = refl
is_nil-append (y ∷ ys) x = refl

is_nil-print_number : (n : ℕ) → is_nil (print_number n) ≡ false
unfolding decimal
is_nil-print_number n = elim (Bool-cases (ltb n 10)) [
  | inl e ↦ rw (e) refl
  | inr e ↦ rw (e) (is_nil-append (decimal 19 (n / 10)) (48 + n % 10))
]

number-digits : (s : Bytes) → is_nil s ≡ false → number s ≡ digits 0 s
unfolding number
number-digits [] h = cc
number-digits (c ∷ s) h = refl

number-print_number : (n : ℕ) → n < 10 ^ 20 → number (print_number n) ≡ some n
number-print_number n h =
    number-digits (print_number n) (is_nil-print_number n) ∙ digits-print_number n h

parse_uint-print_number : (n : ℕ) → n < 2 ^ 64 → parse_uint 64 (print_number n) ≡ n
parse_uint-print_number n h =
    ap (clamp_uint 64) (number-print_number n (omega arith)) ∙ ground arith

-- A text of digits has no sign.
no_sign :
    (c : ℕ) (s : Bytes) (n : ℕ)
    → digits 0 (c ∷ s) ≡ some n
    → ((c == 45) ≡ false) × ((c == 43) ≡ false)
unfolding digits
no_sign c s n e = elim (Bool-cases (leb 48 c && leb c 57)) [
  | inl h ↦ (ground arith, ground arith)
  | inr h ↦ cc (rw (h) at e)
]

parse_int-digits :
    (s : Bytes) (n : ℕ) → is_nil s ≡ false → digits 0 s ≡ some n → n < 2 ^ 63 → parse_int s ≡ pos n
unfolding number
parse_int-digits [] n h e lt = cc
parse_int-digits (c ∷ s) n h e lt =
    let (minus, plus) = no_sign c s n e in rw (minus, plus) (ap clamp_int e ∙ ground arith)

parse_int-print_number : (n : ℕ) → n < 2 ^ 63 → parse_int (print_number n) ≡ pos n
parse_int-print_number n h =
    parse_int-digits (print_number n) n (is_nil-print_number n)
      (digits-print_number n (omega arith)) h

-- The other lines change nothing.
stats_lines-others :
    (cur : PeerStats) (others later : List Bytes)
    → All IsOther others
    → stats_lines cur (others ++ later) ≡ stats_lines cur later
unfolding stats_lines
stats_lines-others cur [] later h = refl
stats_lines-others cur (line ∷ others) later h =
    let (key, handshake, rx, tx) = h.0 in
    rw (key, handshake, rx, tx) (stats_lines-others cur others later (h.1))

-- The line of the handshake.
stats_lines-handshake :
    (cur : PeerStats) (n : ℕ) (later : List Bytes)
    → n < 2 ^ 63
    → stats_lines cur ((codes "last_handshake_time_sec=" ++ print_number n) ∷ later)
      ≡ stats_lines (record cur { last_handshake_time_sec = pos n }) later
unfolding stats_lines has_prefix
stats_lines-handshake cur n later h =
    ap (λ z. stats_lines (record cur { last_handshake_time_sec = z }) later)
      (parse_int-print_number n h)

stats_lines-tx :
    (cur : PeerStats) (n : ℕ) (later : List Bytes)
    → n < 2 ^ 64
    → stats_lines cur ((codes "tx_bytes=" ++ print_number n) ∷ later)
      ≡ stats_lines (record cur { tx_bytes = n }) later
unfolding stats_lines has_prefix
stats_lines-tx cur n later h =
    ap (λ z. stats_lines (record cur { tx_bytes = z }) later) (parse_uint-print_number n h)

stats_lines-rx :
    (cur : PeerStats) (n : ℕ) (later : List Bytes)
    → n < 2 ^ 64
    → stats_lines cur ((codes "rx_bytes=" ++ print_number n) ∷ later)
      ≡ stats_lines (record cur { rx_bytes = n }) later
unfolding stats_lines has_prefix
stats_lines-rx cur n later h =
    ap (λ z. stats_lines (record cur { rx_bytes = z }) later) (parse_uint-print_number n h)

stats_lines-end : (cur : PeerStats) → stats_lines cur [] ≡ flush_stats cur []
unfolding stats_lines
stats_lines-end cur = refl

stats_lines-key :
    (cur : PeerStats) (key : Bytes) (later : List Bytes)
    → stats_lines cur ((codes "public_key=" ++ key) ∷ later)
      ≡ flush_stats cur (stats_lines (record no_stats { peer_key = key }) later)
unfolding stats_lines has_prefix
stats_lines-key cur key later = refl

-- The lines of a peer behind its key.
stats_lines-peer :
    (r : Reported) (later : List Bytes)
    → IsReport r
    → stats_lines no_stats (peer_report r later) ≡ stats_lines (stats_of r) later
stats_lines-peer r later (has_key, before, between, behind, handshake, rx, tx) =
    let fresh : PeerStats = record no_stats { peer_key = r.key } in
    let seen : PeerStats = record fresh { last_handshake_time_sec = pos (r.handshake) } in
    let sent : PeerStats = record seen { tx_bytes = r.tx } in
    stats_lines-key no_stats (r.key) _
    ∙ (stats_lines-others fresh (r.before) _ before
        ∙ (stats_lines-handshake fresh (r.handshake) _ handshake
            ∙ (stats_lines-others seen (r.between) _ between
                ∙ (stats_lines-tx seen (r.tx) _ tx
                    ∙ (stats_lines-rx sent (r.rx) _ rx
                        ∙ stats_lines-others (stats_of r) (r.behind) later behind)))))

-- A peer's lines first give out the one before it.
stats_lines-flush :
    (cur : PeerStats) (r : Reported) (later : List Bytes)
    → stats_lines cur (peer_report r later)
      ≡ flush_stats cur (stats_lines no_stats (peer_report r later))
stats_lines-flush cur r later =
    stats_lines-key cur (r.key) _ ∙ ap (flush_stats cur) (sym (stats_lines-key no_stats (r.key) _))

flush_stats-key :
    (r : Reported) (rs : List PeerStats)
    → is_nil (r.key) ≡ false
    → flush_stats (stats_of r) rs ≡ stats_of r ∷ rs
flush_stats-key r rs h = rw (h) refl

stats_lines-from :
    (cur : PeerStats) (rs : List Reported)
    → All IsReport rs
    → stats_lines cur (report rs) ≡ flush_stats cur (all_stats rs)
stats_lines-from cur [] h = stats_lines-end cur
stats_lines-from cur (r ∷ rs) h =
    stats_lines-flush cur r (report rs)
    ∙ ap (flush_stats cur) (
        stats_lines-peer r (report rs) (h.0)
        ∙ (stats_lines-from (stats_of r) rs (h.1) ∙ flush_stats-key r (all_stats rs) (h.0.0)))

-- `Stats` gives, for the lines of a device, each of its peers with its key and its numbers, in order. The
-- lines are those of the interface, and for each peer its key, the handshake, and the bytes sent and
-- received, with any other lines in front of the handshake, behind it and at the end; every key is not
-- empty, the numbers have their sizes, and the other lines are none of those it reads.
pub stats_lines-report :
    (device : List Bytes) (rs : List Reported)
    → All IsOther device
    → All IsReport rs
    → stats_lines no_stats (device ++ report rs) ≡ all_stats rs
stats_lines-report device rs d h =
    stats_lines-others no_stats device (report rs) d ∙ stats_lines-from no_stats rs h
