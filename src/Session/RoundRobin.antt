-- ===== src/Session/RoundRobin.antt =====
-- The return path of a session (pkg/wgturnsrv/session.go): `runBackend` deals the backend's packets
-- to the streams in turn.
use wgturn_core.Prelude.{
  ℕ, zero, suc, ◌+◌, ◌-◌, ◌%◌, ◌^◌, ◌≤◌, ◌<◌, ◌≡◌, refl, ap, sym, ◌∙◌, true, false, List, [], ◌∷◌,
  map, none, some, Bytes, length, get_elem?, take, leb, ltb, if◌then◌else◌, arith, Bool-cases, inl,
  inr, get_elem?-some,
}
use native.Mathlib.Nat.{mod-lt, mod-eq_of_lt, mod-add-mod, mod-eq-sub-mod}
use wgturn_core.Session.{
  Session, StreamEntry, Effect, to_conn, BackendRead, received, dispatch, run_backend, int_index,
  is_empty, read_buf_size,
}

-- The packets as the streams `es` get them in turn, from the counter value `c` on.
abbrev pub dealt : List StreamEntry → ℕ → List Bytes → List Effect
dealt es c [] = []
dealt es c (b ∷ bs) = elim (get_elem? es (c % length es)) [
  | some e ↦ to_conn e.conn (take read_buf_size b) ∷ dealt es (c + 1) bs
  | none ↦ dealt es (c + 1) bs
]

is_empty-length : (es : List StreamEntry) → 0 < length es → is_empty es ≡ false
is_empty-length [] h = elim h [ ]
is_empty-length (e ∷ es) h = refl

int_index_small : (counter n : ℕ) → counter < 2 ^ 63 → int_index counter n ≡ some (counter % n)
int_index_small counter n h =
    let test : leb counter (2 ^ 63 - 1) ≡ true = ground arith in rw test refl

-- One packet with a known slot: it goes to that slot's connection, and the counter moves on.
dispatch_at :
    (s : Session) (b : Bytes) (e : StreamEntry)
    → 0 < length s.streams
    → s.rr_counter < 2 ^ 63
    → get_elem? s.streams (s.rr_counter % length s.streams) ≡ some e
    → dispatch s b ≡ some (record s { rr_counter = s.rr_counter + 1 }, to_conn e.conn b ∷ [])
unfolding dispatch
dispatch_at s b e n h at =
    let wrap : (s.rr_counter + 1) % 2 ^ 64 ≡ s.rr_counter + 1 = omega arith in
    rw (is_empty-length s.streams n, int_index_small s.rr_counter (length s.streams) h, dispatch)
      (rw at (rw wrap refl))

-- The reads of a backend that has not failed yet.
abbrev pub all_received : List Bytes → List BackendRead
all_received = map received

-- While the session has a stream and the counter stays below 2 ^ 63, `runBackend` deals the
-- packets, cut to the buffer, to the streams in turn, one packet each. It changes nothing but the
-- counter, which moves on by one for each packet.
pub run_backend-dealt :
    (bs : List Bytes) (s : Session)
    → 0 < length s.streams
    → s.rr_counter + length bs ≤ 2 ^ 63
    → run_backend s (all_received bs)
      ≡ some (record s { rr_counter = s.rr_counter + length bs }, dealt s.streams s.rr_counter bs)
unfolding run_backend
run_backend-dealt [] s n h = ground arith
run_backend-dealt (b ∷ bs) s n h =
    let low : s.rr_counter % length s.streams < length s.streams = grind arith in
    let (e, at) = get_elem?-some s.streams (s.rr_counter % length s.streams) low in
    let ih = run_backend-dealt bs (record s { rr_counter = s.rr_counter + 1 }) n (omega arith) in
    let first = dispatch_at s (take read_buf_size b) e n (omega arith) at in
    ground (arith, first, ih)

dealt-get_elem? :
    (bs : List Bytes) (es : List StreamEntry) (c k : ℕ) (b : Bytes)
    → 0 < length es
    → get_elem? bs k ≡ some b
    → (e : StreamEntry) × (get_elem? es ((c + k) % length es) ≡ some e)
      × (get_elem? (dealt es c bs) k ≡ some (to_conn e.conn (take read_buf_size b)))
dealt-get_elem? [] es c k b n h = cc
dealt-get_elem? (x ∷ bs) es c zero b n h =
    let low : c % length es < length es = grind arith in
    let (e, at) = get_elem?-some es (c % length es) low in
    let zero_more : c + 0 ≡ c = omega arith in (e, rw zero_more at, ground (arith, at))
dealt-get_elem? (x ∷ bs) es c (suc k) b n h =
    let low : c % length es < length es = grind arith in
    let (e', at') = get_elem?-some es (c % length es) low in
    let (e, at, got) = dealt-get_elem? bs es (c + 1) k b n h in
    let shift : c + 1 + k ≡ c + suc k = omega arith in
    (e, rw (← shift) at, ground (arith, at', got))

turn_value :
    (c n j : ℕ) → j < n → (c + j) % n ≡ (if ltb (c % n + j) n then c % n + j else c % n + j - n)
turn_value c n j h =
    let r : c % n < n = mod-lt c (omega arith) in
    elim (Bool-cases (ltb (c % n + j) n)) [
      | inl t ↦ rw (t, ← mod-add-mod c n j) (mod-eq_of_lt (ground arith))
      | inr t ↦
          rw (t, ← mod-add-mod c n j)
            (mod-eq-sub-mod {n = c % n + j} {m = n} (ground arith) ∙ mod-eq_of_lt (ground arith))
    ]

turn_once :
    (c n i : ℕ)
    → i < n
    → (k : ℕ) × (k < n) × ((c + k) % n ≡ i) × ((j : ℕ) → j < n → (c + j) % n ≡ i → j ≡ k)
turn_once c n i h =
    let r : c % n < n = mod-lt c (omega arith) in
    let k : ℕ = if leb (c % n) i then i - c % n else i + n - c % n in
    let low : k < n = ground arith in
    (k, low, ground (arith, turn_value c n k low), λ j g e. ground (arith, turn_value c n j g, r))

-- Among as many packets as the session has streams, each stream gets exactly one: the slot `i` gets
-- the packet at one position `k`, cut to the buffer, and the packet at no other position. The set of
-- streams does not change meanwhile, and the counter stays within 2^63.
pub run_backend_fair :
    (bs : List Bytes) (s : Session) (i : ℕ)
    → i < length s.streams
    → length bs ≡ length s.streams
    → s.rr_counter + length bs ≤ 2 ^ 63
    → (out : List Effect) × (last : Session) × (e : StreamEntry) × (k : ℕ) × (b : Bytes)
      × (run_backend s (all_received bs) ≡ some (last, out))
      × (get_elem? s.streams i ≡ some e)
      × (get_elem? bs k ≡ some b)
      × (get_elem? out k ≡ some (to_conn e.conn (take read_buf_size b)))
      × ((j : ℕ) → j < length bs → (s.rr_counter + j) % length s.streams ≡ i → j ≡ k)
run_backend_fair bs s i low same h =
    let n : 0 < length s.streams = omega arith in
    let (k, short, turn, only) = turn_once s.rr_counter (length s.streams) i low in
    let (b, found) = get_elem?-some bs k (omega arith) in
    let (e, at, got) = dealt-get_elem? bs s.streams s.rr_counter k b n found in
    (
      dealt s.streams s.rr_counter bs,
      _,
      e,
      k,
      b,
      run_backend-dealt bs s n h,
      ap (get_elem? s.streams) (sym turn) ∙ at,
      found,
      got,
      λ j g. only j (omega arith),
    )
