-- ===== src/Creds/Orphans.antt =====
-- `InvalidateAll` of internal/creds/cache.go against a `Get` that is waiting for its provider: what
-- that `Get` writes when it returns goes to an entry which no group sees any more.
use wgturn_core.Prelude.{
  ℕ, ◌<◌, ◌≡◌, ◌≢◌, List, [], ◌∷◌, Option, none, some, Bytes, Result, ok, err, length,
  length-append, length-set, get_elem?-set_ne, arith, Bool-cases, if_both, ◌==◌, inl, inr,
  Option-cases,
}
use wgturn_core.Creds.{
  GetError, Cache, Credentials, Entry, new_entry, group_id, is_fresh, lookup, get_entry, deref,
  store, fetched, get_at, get, handle_auth_error, invalidate_all,
}
use wgturn_core.Creds.Heap.{IsWellFormed, seen, get_entry-Gets, lookup-lt}

-- The calls that other streams make meanwhile.
pub data Call {ℓ} (E : Type ℓ) : Type ℓ where
  gets : Bytes → ℕ → Option E → ℕ → ℕ → Option (Bytes → ℕ → Result E Credentials) → Call E
  errors : ℕ → ℕ → Call E
  invalidates : Call E

module _ {ℓ} {E : Type ℓ} where
  abbrev pub apply : Cache → Call E → Cache
  apply c (gets hint stream_id ctx_err now later p) = (get c hint stream_id ctx_err now later p).0
  apply c (errors stream_id now) = (handle_auth_error c stream_id now).0
  apply c invalidates = invalidate_all c

  abbrev pub run : Cache → List (Call E) → Cache
  run c [] = c
  run c (x ∷ xs) = run (apply c x) xs

-- No group of the map leads to `p`.
abbrev Avoids : ℕ → List (ℕ × ℕ) → Type 0
Avoids p [] = Unit {0}
Avoids p ((g, q) ∷ m) = (q ≢ p) × Avoids p m

abbrev Detached : ℕ → Cache → Type 0
Detached p c = (p < length c.heap) × Avoids p c.entries

get_entry-Detached :
    (p : ℕ) (c : Cache) (stream_id : ℕ) → Detached p c → Detached p (get_entry c stream_id).0
unfolding get_entry
get_entry-Detached p c stream_id (low, away) =
    elim (Option-cases (lookup (group_id c stream_id) c.entries)) [
      | inl e ↦
          rw (e, get_entry)
            (omega (arith, length-append c.heap (new_entry ∷ [])), ((λ k. omega arith), away))
      | inr (p', e) ↦ rw (e, get_entry) (low, away)
    ]

lookup-Avoids : (p g q : ℕ) (m : List (ℕ × ℕ)) → Avoids p m → lookup g m ≡ some q → q ≢ p
unfolding lookup
lookup-Avoids p g q [] a e = cc
lookup-Avoids p g q ((h, r) ∷ m) a e = elim (Bool-cases (h == g)) [
  | inl k ↦ ground arith
  | inr k ↦ lookup-Avoids p g q m a.1 (ground arith)
]

store-Detached : (p q : ℕ) (c : Cache) (e : Entry) → Detached p c → Detached p (store c q e)
store-Detached p q c e (low, away) = (omega (arith, length-set c.heap q e), away)

seen-Detached :
    (p : ℕ) (c : Cache) (e : Entry) (g : ℕ) → Detached p c → seen (store c p e) g ≡ seen c g
seen-Detached p c e g (low, away) = elim (Option-cases (lookup g c.entries)) [
  | inl f ↦ ground arith
  | inr (q, f) ↦
      let other = lookup-Avoids p g q c.entries away f in
      ground (arith, get_elem?-set_ne c.heap {i = p} {j = q} e (λ k. other (ground arith)))
]

module _ {ℓ} {E : Type ℓ} where
  fetched-Detached :
      (p q : ℕ) (c : Cache) (hint : Bytes) (later : ℕ) (r : Result E Credentials)
      → Detached p c
      → Detached p (fetched c q hint later r).0
  unfolding fetched
  fetched-Detached p q c hint later (err x) d = d
  fetched-Detached p q c hint later (ok cr) d = store-Detached p q c _ d

  get_at-Detached :
      (p q : ℕ) (c : Cache) (hint : Bytes) (stream_id : ℕ) (ctx_err : Option E) (now later : ℕ)
      (fetch : Bytes → ℕ → Result E Credentials)
      → Detached p c
      → Detached p (get_at c q hint stream_id ctx_err now later fetch).0
  unfolding get_at
  get_at-Detached p q c hint stream_id (some x) now later fetch d =
      if_both {A = Cache × Result (GetError E) Credentials} (λ r. Detached p r.0)
        (is_fresh (deref c q) hint now) _ _ d d
  get_at-Detached p q c hint stream_id none now later fetch d =
      if_both {A = Cache × Result (GetError E) Credentials} (λ r. Detached p r.0)
        (is_fresh (deref c q) hint now) _ _ d
        (fetched-Detached p q c hint later (fetch hint stream_id) d)

  apply-Detached : (p : ℕ) (c : Cache) (x : Call E) → Detached p c → Detached p (apply c x)
  unfolding get handle_auth_error
  apply-Detached p c (gets hint s x now later none) d = d
  apply-Detached p c (gets hint s x now later (some fetch)) d =
      get_at-Detached p _ (get_entry c s).0 hint s x now later fetch (get_entry-Detached p c s d)
  apply-Detached p c (errors s now) d =
      store-Detached p _ (get_entry c s).0 _ (get_entry-Detached p c s d)
  apply-Detached p c invalidates d = (d.0, tt)

  run-Detached : (p : ℕ) (xs : List (Call E)) (c : Cache) → Detached p c → Detached p (run c xs)
  run-Detached p [] c d = d
  run-Detached p (x ∷ xs) c d = run-Detached p xs (apply c x) (apply-Detached p c x d)

  -- A `Get` took its group's entry before `InvalidateAll` emptied the cache. Whatever other calls
  -- follow, and whatever that `Get` writes into the entry in the end, no group sees it.
  pub invalidate_all_orphans :
      (c : Cache) (stream_id : ℕ) (xs : List (Call E)) (e : Entry) (g : ℕ)
      → IsWellFormed c
      → let (d, p) = get_entry c stream_id in
        let later = run (invalidate_all d) xs in seen (store later p e) g ≡ seen later g
  invalidate_all_orphans c stream_id xs e g v =
      let got = get_entry-Gets c stream_id v in
      let d = invalidate_all (get_entry c stream_id).0 in
      seen-Detached _ (run d xs) e g
        (run-Detached _ xs d (lookup-lt _ _ got.well_formed.bounded got.found, tt))
