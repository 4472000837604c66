-- ===== src/Hub/Hints.antt =====
-- The hints of internal/proxy/hub.go and the groups of internal/creds/cache.go.
use wgturn_core.Prelude.{
  ℕ, zero, suc, ◌*◌, ◌/◌, ◌%◌, ◌<◌, ◌≡◌, refl, ap, List, [], ◌∷◌, some, Bytes, ok, length,
  get_elem?, get_or, ◌==◌, if◌then◌else◌, arith, false,
}
use native.Mathlib.Nat.{mod-eq_of_lt}
use wgturn_core.Hub.{HubConfig, HubPlan, new_hub, hint_for}
use wgturn_core.Creds.{new_cache, group_id, span}

new_hub_pos :
    (cfg : HubConfig) (h : HubPlan) → new_hub cfg ≡ ok h → (0 < h.per_cred) × (0 < h.n_streams)
unfolding new_hub
new_hub_pos cfg h e = ground arith

new_cache-per_cred : (n : ℕ) → 0 < n → (new_cache (span n)).streams_per_cred ≡ n
unfolding new_cache
new_cache-per_cred zero h = elim h [ ]
new_cache-per_cred (suc n) h = refl

get_elem?-get_or :
    (xs : List Bytes) (i : ℕ) (d : Bytes) → i < length xs → get_elem? xs i ≡ some (get_or xs i d)
get_elem?-get_or [] i d h = elim h [ ]
get_elem?-get_or (x ∷ xs) zero d h = refl
get_elem?-get_or (x ∷ xs) (suc i) d h = get_elem?-get_or xs i d (omega arith)

-- Streams that share an entry of the hub's credentials cache fetch with the same hint, so that they
-- do not take the entry from each other.
pub hint_for-group :
    (cfg : HubConfig) (h : HubPlan) (i j : ℕ)
    → new_hub cfg ≡ ok h
    → group_id (new_cache (span h.per_cred)) i ≡ group_id (new_cache (span h.per_cred)) j
    → hint_for h i ≡ hint_for h j
unfolding hint_for
hint_for-group cfg h i j e g =
    let (pos, _) = new_hub_pos cfg h e in
    let same : i / h.per_cred ≡ j / h.per_cred = rw (new_cache-per_cred h.per_cred pos) at g in
    ap (λ (q : ℕ). if length h.pool == 0 then [] else get_or h.pool (q % length h.pool) []) same

-- Every hint of the pool is used, if the hub has a group of streams for each: the first stream of
-- group `k` fetches with the hint at place `k`.
pub hint_for_all :
    (cfg : HubConfig) (h : HubPlan) (k : ℕ)
    → new_hub cfg ≡ ok h
    → k < length h.pool
    → get_elem? h.pool k ≡ some (hint_for h (k * h.per_cred))
unfolding hint_for
hint_for_all cfg h k e low =
    let (pos, _) = new_hub_pos cfg h e in
    let group : k * h.per_cred / h.per_cred ≡ k = grind arith in
    let some_hints : (length h.pool == 0) ≡ false = ground arith in
    rw (some_hints, group, mod-eq_of_lt low) (get_elem?-get_or h.pool k [] low)
