-- ===== src/Creds/Expiry.antt =====
-- How long internal/creds/cache.go serves credentials: until a margin before they run out.
use wgturn_core.Prelude.{
  ℕ, ◌+◌, ◌-◌, ◌/◌, ◌≤◌, ◌<◌, ◌≡◌, refl, true, false, Option, none, some, Bytes, equal_refl, Result,
  ok, err, arith, ◌⊎◌, ap, sym, ◌∙◌,
}
use wgturn_core.Creds.{
  Cache, Credentials, Entry, group_id, is_fresh, fill, lifetime_of, margin_of, get,
  default_safety_margin,
}
use wgturn_core.Creds.Heap.{IsWellFormed, seen}
use wgturn_core.Creds.Refinement.{entry_after, relayed, answer, get-Does}

-- The margin is at most a minute and at most half the lifetime, so that credentials which live two
-- minutes or more are dropped a minute early, and shorter ones at half their life.
pub margin_of_lem :
    (n : ℕ)
    → (margin_of n ≤ default_safety_margin)
      × (margin_of n + margin_of n ≤ n)
      × ((margin_of n ≡ default_safety_margin) ⊎ (margin_of n ≡ n / 2))
unfolding margin_of
margin_of_lem n = ground arith

pub lifetime_of_pos : (cr : Credentials) → 0 < lifetime_of cr
unfolding lifetime_of
lifetime_of_pos cr = ground arith

stale : (e : Entry) (hint : Bytes) (now : ℕ) → e.expires ≤ now → is_fresh e hint now ≡ false
stale e hint now h = ground arith

abbrev pub serves_until : ℕ → Credentials → ℕ
serves_until later cr = later + (lifetime_of cr - margin_of (lifetime_of cr))

module _ {ℓ} {E : Type ℓ} where
  entry_after-fill :
      (e : Entry) (hint : Bytes) (now later : ℕ) (ctx_err : Option E) (r : Result E Credentials)
      (cr : Credentials)
      → is_fresh e hint now ≡ false
      → answer e hint now ctx_err r ≡ ok cr
      → entry_after e hint now ctx_err later r ≡ fill e hint later cr
  entry_after-fill e hint now later (some x) r cr miss h = absurd (ground arith)
  entry_after-fill e hint now later none (err x) cr miss h = absurd (ground arith)
  entry_after-fill e hint now later none (ok cr') cr miss h = ground arith

  entry_after_fresh :
      (e : Entry) (hint : Bytes) (now later : ℕ) (ctx_err : Option E) (r : Result E Credentials)
      → is_fresh e hint now ≡ true
      → entry_after e hint now ctx_err later r ≡ e
  entry_after_fresh e hint now later ctx_err (err x) h = refl
  entry_after_fresh e hint now later (some x) (ok cr) h = refl
  entry_after_fresh e hint now later none (ok cr) h = ground arith

  get_fresh :
      (d : Cache) (hint : Bytes) (stream_id now later : ℕ) (ctx_err : Option E)
      (fetch : Bytes → ℕ → Result E Credentials) (e : Entry)
      → IsWellFormed d
      → seen d (group_id d stream_id) ≡ e
      → is_fresh e hint now ≡ true
      → ((get d hint stream_id ctx_err now later (some fetch)).1 ≡ ok e.creds)
        × (seen (get d hint stream_id ctx_err now later (some fetch)).0 (group_id d stream_id) ≡ e)
  get_fresh d hint stream_id now later ctx_err fetch e v s h =
      let (a, u) = get-Does d hint stream_id ctx_err now later fetch v in
      (a ∙ rw s (ground arith), u.own ∙ rw s (entry_after_fresh e hint now later ctx_err _ h))

  -- A `Get` that misses and succeeds fetched at time `later`. Until the credentials' lifetime less
  -- the margin has passed, every `Get` of the same group with the same hint, whatever its provider
  -- and its context say, returns the same credentials and leaves the group's entry as it is.
  pub get_hit :
      (c : Cache) (hint : Bytes) (stream_id : ℕ) (ctx_err : Option E) (now later : ℕ)
      (fetch : Bytes → ℕ → Result E Credentials) (cr : Credentials) (other now' later' : ℕ)
      (ctx_err' : Option E) (fetch' : Bytes → ℕ → Result E Credentials)
      → IsWellFormed c
      → is_fresh (seen c (group_id c stream_id)) hint now ≡ false
      → (get c hint stream_id ctx_err now later (some fetch)).1 ≡ ok cr
      → group_id c other ≡ group_id c stream_id
      → now' < serves_until later cr
      → let d = (get c hint stream_id ctx_err now later (some fetch)).0 in
        ((get d hint other ctx_err' now' later' (some fetch')).1 ≡ ok cr)
        × (seen (get d hint other ctx_err' now' later' (some fetch')).0 (group_id c stream_id)
            ≡ seen d (group_id c stream_id))
  get_hit c hint stream_id ctx_err now later fetch cr other now' later' ctx_err' fetch' v miss h g
        t =
      let (a, u) = get-Does c hint stream_id ctx_err now later fetch v in
      let d = (get c hint stream_id ctx_err now later (some fetch)).0 in
      let e = seen c (group_id c stream_id) in
      let filled = u.own ∙ entry_after-fill e hint now later ctx_err _ cr miss (sym a ∙ h) in
      let same : group_id d other ≡ group_id c stream_id =
        ap (λ (n : ℕ). other / n) u.same_groups ∙ g in
      let kept =
        get_fresh d hint other now' later' ctx_err' fetch' (fill e hint later cr) u.well_formed
          (rw same filled) (ground (arith, equal_refl hint)) in
      (kept.0, rw (← same) (kept.1 ∙ sym (rw same filled)))

  -- From its expiry on an entry is never served: a `Get` at that time or later, with a live
  -- context, answers what the provider answers.
  pub get_expired :
      (c : Cache) (hint : Bytes) (stream_id now later : ℕ)
      (fetch : Bytes → ℕ → Result E Credentials)
      → IsWellFormed c
      → (seen c (group_id c stream_id)).expires ≤ now
      → (get c hint stream_id none now later (some fetch)).1 ≡ relayed (fetch hint stream_id)
  get_expired c hint stream_id now later fetch v h =
      let (a, u) = get-Does c hint stream_id none now later fetch v in
      a ∙ rw (stale (seen c (group_id c stream_id)) hint now h)
