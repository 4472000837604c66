-- ===== src/Creds/Refinement.antt =====
-- The cache of internal/creds/cache.go as a client sees it: one entry for each group of streams.
-- `Get`, `HandleAuthError` and `InvalidateAll` act on the calling stream's group alone.
use wgturn_core.Prelude.{
  ℕ, ◌≡◌, refl, false, Option, none, some, Bytes, Result, ok, err, ◌==◌, if◌then◌else◌, arith,
  Bool-cases, inl, inr, ap,
}
use wgturn_core.Creds.{
  Cache, Credentials, Entry, new_entry, GetError, context_done, fetch_failed, get_entry, deref,
  store, group_id, is_fresh, fill, fetched, get_at, get, auth_error, handle_auth_error,
  invalidate_all, lookup,
}
use wgturn_core.Creds.Heap.{
  IsWellFormed, seen, Gets, get_entry-Gets, seen-store, store-IsWellFormed,
}

module _ {ℓ} {E : Type ℓ} where
  -- What `Get` does to the entry of its group.
  abbrev pub entry_after : Entry → Bytes → ℕ → Option E → ℕ → Result E Credentials → Entry
  entry_after e hint now ctx_err later (err _) = e
  entry_after e hint now (some _) later (ok cr) = e
  entry_after e hint now none later (ok cr) =
      if is_fresh e hint now then e else fill e hint later cr

  -- What the provider returns, as `Get` passes it on.
  abbrev pub relayed : Result E Credentials → Result (GetError E) Credentials
  relayed (ok cr) = ok cr
  relayed (err x) = err (fetch_failed x)

  -- What it returns.
  abbrev pub answer :
      Entry → Bytes → ℕ → Option E → Result E Credentials → Result (GetError E) Credentials
  answer e hint now ctx_err fetched =
      if is_fresh e hint now
      then ok e.creds
      else elim ctx_err [ some x ↦ err (context_done x) | none ↦ relayed fetched ]

-- The cache `d` differs from `c` in what group `gid` sees, which is now `e`.
pub record Updates (c : Cache) (gid : ℕ) (e : Entry) (d : Cache) : Type 0 where
  pub well_formed : IsWellFormed d
  pub same_groups : d.streams_per_cred ≡ c.streams_per_cred
  pub own : seen d gid ≡ e
  pub others : (g : ℕ) → (gid == g) ≡ false → seen d g ≡ seen c g

store-Updates :
    (c d : Cache) (gid p : ℕ) (e : Entry) → Gets c gid d p → Updates c gid e (store d p e)
store-Updates c d gid p e v = record {
  well_formed = store-IsWellFormed d p e v.well_formed;
  same_groups = v.same_groups;
  own = ground (arith, seen-store d gid p e gid v.well_formed v.found);
  others = λ g ne. ground (arith, seen-store d gid p e g v.well_formed v.found, v.unseen g);
}

keep-Updates : (c d : Cache) (gid p : ℕ) → Gets c gid d p → Updates c gid (seen c gid) d
keep-Updates c d gid p v = record {
  well_formed = v.well_formed;
  same_groups = v.same_groups;
  own = v.unseen gid;
  others = λ g ne. v.unseen g;
}

-- The pointer that `getEntry` returns leads to what the group sees.
deref-seen : (c d : Cache) (gid p : ℕ) → Gets c gid d p → deref d p ≡ seen c gid
deref-seen c d gid p v = ground (arith, v.found, v.unseen gid)

Updates-eq :
    (c : Cache) (gid : ℕ) {e e' : Entry} {d d' : Cache}
    → e ≡ e'
    → d ≡ d'
    → Updates c gid e d
    → Updates c gid e' d'
Updates-eq c gid p q u = rw (← p, ← q) u

module _ {ℓ} {E : Type ℓ} where
  -- The two parts of what a call does: the cache that it leaves, and its answer.
  abbrev pub Does :
      Cache
      → ℕ
      → Entry
      → Result (GetError E) Credentials
      → Cache × Result (GetError E) Credentials
      → Type ℓ
  Does c gid e a (d, r) = (r ≡ a) × Updates c gid e d

  get_at-Does :
      (c d : Cache) (gid p : ℕ) (hint : Bytes) (stream_id : ℕ) (ctx_err : Option E) (now later : ℕ)
      (fetch : Bytes → ℕ → Result E Credentials) (r : Result E Credentials)
      → Gets c gid d p
      → fetch hint stream_id ≡ r
      → (e : Entry) → seen c gid ≡ e
      → deref d p ≡ e
      → Does c gid
          (entry_after e hint now ctx_err later r)
          (answer e hint now ctx_err r)
          (get_at d p hint stream_id ctx_err now later fetch)
  unfolding get_at
  get_at-Does c d gid p hint stream_id ctx_err now later fetch (err x) v f e s q =
      (ground (arith, f, q), Updates-eq c gid s (ground (arith, f, q)) (keep-Updates c d gid p v))
  get_at-Does c d gid p hint stream_id (some x) now later fetch (ok cr) v f e s q =
      (ground (arith, f, q), Updates-eq c gid s (ground (arith, f, q)) (keep-Updates c d gid p v))
  get_at-Does c d gid p hint stream_id none now later fetch (ok cr) v f e s q =
      elim (Bool-cases (is_fresh e hint now)) [
        | inl hit ↦ (
          ground (arith, f, q),
          Updates-eq c gid (ground (arith, s)) (ground (arith, f, q)) (keep-Updates c d gid p v),
        )
        | inr miss ↦ (
          ground (arith, f, q),
          Updates-eq c gid {e = fill (deref d p) hint later cr} (ground (arith, q))
              (ground (arith, f, q)) (store-Updates c d gid p _ v),
        )
      ]

  -- `Get` on a well-formed cache acts on the entry that the stream's group sees as `entry_after`
  -- says, answers as `answer` says, and changes what no other group sees. The cache stays well
  -- formed.
  pub get-Does :
      (c : Cache) (hint : Bytes) (stream_id : ℕ) (ctx_err : Option E) (now later : ℕ)
      (fetch : Bytes → ℕ → Result E Credentials)
      → IsWellFormed c
      → let e = seen c (group_id c stream_id) in
        let r = fetch hint stream_id in
        Does c
          (group_id c stream_id)
          (entry_after e hint now ctx_err later r)
          (answer e hint now ctx_err r)
          (get c hint stream_id ctx_err now later (some fetch))
  unfolding get
  get-Does c hint stream_id ctx_err now later fetch v =
      let g = get_entry-Gets c stream_id v in
      get_at-Does c _ (group_id c stream_id) _ hint stream_id ctx_err now later fetch _ g refl _
        refl (deref-seen c _ _ _ g)

-- `HandleAuthError` on a well-formed cache acts on the entry that the stream's group sees as
-- `auth_error` says, and changes what no other group sees. The cache stays well formed.
pub handle_auth_error-Updates :
    (c : Cache) (stream_id now : ℕ)
    → IsWellFormed c
    → let gid = group_id c stream_id in
      ((handle_auth_error c stream_id now).1 ≡ (auth_error (seen c gid) now).1)
      × Updates c gid (auth_error (seen c gid) now).0 (handle_auth_error c stream_id now).0
unfolding handle_auth_error
handle_auth_error-Updates c stream_id now v =
    let g = get_entry-Gets c stream_id v in
    let same = deref-seen c _ _ _ g in
    (
      ap (λ e. (auth_error e now).1) same,
      Updates-eq c (group_id c stream_id)
          {d = store (get_entry c stream_id).0 (get_entry c stream_id).1
            (auth_error (deref (get_entry c stream_id).0 (get_entry c stream_id).1) now).0}
          (ap (λ e. (auth_error e now).0) same) refl (store-Updates c _ _ _ _ g),
    )

-- `InvalidateAll` makes every group see a new entry.
pub invalidate_all-seen :
    (c : Cache) (g : ℕ)
    → IsWellFormed c
    → IsWellFormed (invalidate_all c) × (seen (invalidate_all c) g ≡ new_entry)
unfolding lookup
invalidate_all-seen c g v = (record { grouped = v.grouped; bounded = tt }, refl)
