-- ===== src/Creds/Errors.antt =====
-- Authentication errors in internal/creds/cache.go: three in a row drop the credentials of a group.
use wgturn_core.Prelude.{
  ℕ, ◌+◌, ◌-◌, ◌/◌, ◌≤◌, ◌<◌, ◌≡◌, refl, true, false, List, [], ◌∷◌, none, some, Bytes, Result,
  length, if◌then◌else◌, leb, arith, Bool-cases, inl, inr, ◌≢◌, ap, sym, ◌∙◌,
}
use wgturn_core.Creds.{
  Cache, Credentials, Entry, new_entry, group_id, get, auth_error, handle_auth_error, error_window,
}
use wgturn_core.Creds.Heap.{IsWellFormed, seen}
use wgturn_core.Creds.Expiry.{get_expired}
use wgturn_core.Creds.Refinement.{relayed, handle_auth_error-Updates}

-- A burst of authentication errors of one group at the given Unix times, and how many of the
-- calls invalidated the entry.
abbrev pub burst : Cache → ℕ → List ℕ → Cache × ℕ
burst c stream_id [] = (c, 0)
burst c stream_id (t ∷ ts) =
    let (d, invalidated) = handle_auth_error c stream_id t in
    let (last, n) = burst d stream_id ts in (last, (if invalidated then 1 else 0) + n)

-- The same on an entry alone.
abbrev entry_burst : Entry → List ℕ → Entry × ℕ
entry_burst e [] = (e, 0)
entry_burst e (t ∷ ts) =
    let (d, invalidated) = auth_error e t in
    let (last, n) = entry_burst d ts in (last, (if invalidated then 1 else 0) + n)

-- Each time is at most the window after the one before it.
abbrev pub Close : ℕ → List ℕ → Type 0
Close last [] = Unit {0}
Close last (t ∷ ts) = (t - last ≤ error_window) × Close t ts

-- Each time is more than the window after the one before it.
abbrev pub Apart : ℕ → List ℕ → Type 0
Apart last [] = Unit {0}
Apart last (t ∷ ts) = (error_window < t - last) × Apart t ts

-- The third error in a row drops the entry.
third_error :
    (e : Entry) (t : ℕ)
    → e.error_count ≡ 2
    → t - e.last_error_time ≤ error_window
    → auth_error e t ≡ (new_entry, true)
unfolding auth_error
third_error e t k h = ground arith

-- The first two are counted.
early_error :
    (e : Entry) (t : ℕ)
    → e.error_count < 2
    → (e.error_count ≢ 0 → t - e.last_error_time ≤ error_window)
    → auth_error e t ≡ (record e { error_count = e.error_count + 1; last_error_time = t }, false)
unfolding auth_error
early_error e t k h = ground arith

entry_burst-Close :
    (ts : List ℕ) (e : Entry) (last : ℕ)
    → e.error_count < 3
    → (e.error_count ≢ 0 → e.last_error_time ≡ last)
    → Close last ts
    → (entry_burst e ts).1 ≡ (e.error_count + length ts) / 3
entry_burst-Close [] e last k l close = omega arith
entry_burst-Close (t ∷ ts) e last k l close = elim (Bool-cases (leb 2 e.error_count)) [
  | inl h ↦
      let two : e.error_count ≡ 2 = ground arith in
      rw (third_error e t two (ground arith)) (
        omega
          (arith, entry_burst-Close ts new_entry t (omega arith) (λ ne. absurd (ne refl)) close.1))
  | inr h ↦
      let less : e.error_count < 2 = ground arith in
      rw (early_error e t less (λ ne. ground (arith, l ne))) (
        omega (
          arith,
          entry_burst-Close ts (record e { error_count = e.error_count + 1; last_error_time = t }) t
              (omega arith) (λ ne. refl) close.1,
        ))
]

entry_burst-Apart :
    (ts : List ℕ) (e : Entry) (last : ℕ)
    → e.last_error_time ≤ last
    → Apart last ts
    → (entry_burst e ts).1 ≡ 0
unfolding auth_error
entry_burst-Apart [] e last l apart = refl
entry_burst-Apart (t ∷ ts) e last l apart =
    let first : auth_error e t ≡ (record e { error_count = 1; last_error_time = t }, false) =
      ground arith in
    rw first (
      omega (
        arith,
        entry_burst-Apart ts (record e { error_count = 1; last_error_time = t }) t (omega arith)
            apart.1,
      ))

burst-entry_burst :
    (ts : List ℕ) (c : Cache) (stream_id : ℕ)
    → IsWellFormed c
    → (burst c stream_id ts).1 ≡ (entry_burst (seen c (group_id c stream_id)) ts).1
burst-entry_burst [] c stream_id v = refl
burst-entry_burst (t ∷ ts) c stream_id v =
    let (a, u) = handle_auth_error-Updates c stream_id t v in
    let d = (handle_auth_error c stream_id t).0 in
    let same : group_id d stream_id ≡ group_id c stream_id =
      ap (λ (n : ℕ). stream_id / n) u.same_groups in
    let ih = burst-entry_burst ts d stream_id u.well_formed in
    let own : seen d (group_id d stream_id) ≡ (auth_error (seen c (group_id c stream_id)) t).0 =
      rw same u.own in
    rw (a, ih, own) refl

-- Authentication errors of one group that each come within the window after the one before: every
-- third of them drops the group's credentials, starting from an entry with no errors counted.
pub burst-Close :
    (c : Cache) (stream_id t : ℕ) (ts : List ℕ)
    → IsWellFormed c
    → (seen c (group_id c stream_id)).error_count ≡ 0
    → Close t ts
    → (burst c stream_id (t ∷ ts)).1 ≡ (1 + length ts) / 3
burst-Close c stream_id t ts v k close =
    burst-entry_burst (t ∷ ts) c stream_id v
    ∙ omega (
      arith,
      entry_burst-Close (t ∷ ts) (seen c (group_id c stream_id)) t (omega arith)
          (λ ne. absurd (ne k)) (omega arith, close),
    )

-- Errors that each come more than the window after the one before never drop them, however many.
pub burst-Apart :
    (c : Cache) (stream_id : ℕ) (ts : List ℕ)
    → IsWellFormed c
    → Apart (seen c (group_id c stream_id)).last_error_time ts
    → (burst c stream_id ts).1 ≡ 0
burst-Apart c stream_id ts v apart =
    burst-entry_burst ts c stream_id v
    ∙ entry_burst-Apart ts (seen c (group_id c stream_id)) _ (omega arith) apart

auth_error_drops : (e : Entry) (t : ℕ) → (auth_error e t).1 ≡ true → (auth_error e t).0 ≡ new_entry
unfolding auth_error
auth_error_drops e t h = ground arith

-- Once an error has dropped a group's credentials, the next `Get` of a stream of that group asks
-- the provider, whatever the hint and the time.
pub get-handle_auth_error {ℓ} :
    {E : Type ℓ} (c : Cache) (stream_id t : ℕ) (hint : Bytes) (other now later : ℕ)
    (fetch : Bytes → ℕ → Result E Credentials)
    → IsWellFormed c
    → (handle_auth_error c stream_id t).1 ≡ true
    → group_id c other ≡ group_id c stream_id
    → (get (handle_auth_error c stream_id t).0 hint other none now later (some fetch)).1
      ≡ relayed (fetch hint other)
get-handle_auth_error c stream_id t hint other now later fetch v h same =
    let (a, u) = handle_auth_error-Updates c stream_id t v in
    let d = (handle_auth_error c stream_id t).0 in
    let dropped = auth_error_drops (seen c (group_id c stream_id)) t (sym a ∙ h) in
    let group : group_id d other ≡ group_id c stream_id =
      ap (λ (n : ℕ). other / n) u.same_groups ∙ same in
    get_expired d hint other now later fetch u.well_formed
      (rw (group, u.own, dropped) (omega arith))
