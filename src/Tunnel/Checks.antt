-- ===== src/Tunnel/Checks.antt =====
-- `Validate`, `withDefaults` and `New` of pkg/wgturn: exactly the sound configurations are accepted,
-- and what is accepted gives a hub whose stream ids fit the byte of the preamble.
use wgturn_core.Prelude.{
  ℕ, suc, zero, ◌≤◌, ◌<◌, ◌≡◌, ◌⊎◌, ◌↔◌, refl, Bool, true, false, not, List, [], ◌∷◌, none, some,
  Bytes, equal_iff, ok, arith, Option-cases, inl, inr, All, ◌%◌,
}
use native.Mathlib.Nat.{mod-eq_of_lt}
use wgturn_core.Hub.{ConfigInt, count, below_zero, HubPlan, new_hub, or_default}
use wgturn_core.Tunnel.HostPort.{split_host_port}
use wgturn_core.Tunnel.{
  Config, Problem, validate, with_defaults, is_peer_type, is_split, is_nil, is_negative, checks,
  first_problem, Tunnel, new, hub_config, resolve_hints, peer_type_proxy_v2, peer_type_proxy_v1,
  peer_type_wireguard, fresh,
}

abbrev pub Splits : Bytes → Type 0
Splits addr = (hp : Bytes × Bytes) × (split_host_port addr ≡ some hp)

-- A sound configuration, said without the code's tests.
pub record IsSound (c : Config) : Type 0 where
  pub peer_splits : Splits c.peer_addr
  pub listen_splits : Splits c.listen_addr
  pub streams_fit : (n : ℕ) × (c.streams ≡ count n) × (n ≤ 255)
  pub per_cred_known : (n : ℕ) × (c.streams_per_cred ≡ count n)
  pub watchdog_known : (n : ℕ) × (c.watchdog_timeout ≡ count n)
  pub provider_set : c.has_provider ≡ true
  pub protector_set : c.has_protector ≡ true
  pub peer_type_known :
      (c.peer_type ≡ [])
      ⊎ ((c.peer_type ≡ peer_type_proxy_v2)
          ⊎ ((c.peer_type ≡ peer_type_proxy_v1) ⊎ (c.peer_type ≡ peer_type_wireguard)))

split_nil : split_host_port [] ≡ none
unfolding split_host_port
split_nil = refl

is_peer_type-known :
    (t : Bytes)
    → is_peer_type t ≡ true
    → (t ≡ []) ⊎ ((t ≡ peer_type_proxy_v2) ⊎ ((t ≡ peer_type_proxy_v1) ⊎ (t ≡ peer_type_wireguard)))
unfolding is_peer_type
is_peer_type-known [] h = inl refl
is_peer_type-known (c ∷ cs) h = ground (
  arith,
  equal_iff (c ∷ cs) peer_type_proxy_v2,
  equal_iff (c ∷ cs) peer_type_proxy_v1,
  equal_iff (c ∷ cs) peer_type_wireguard,
)

is_split-Splits : (addr : Bytes) → is_split addr ≡ true → Splits addr
is_split-Splits addr h = elim (Option-cases (split_host_port addr)) [
  | inl e ↦ absurd (ground arith)
  | inr r ↦ r
]

not_negative : (n : ConfigInt) → is_negative n ≡ false → (k : ℕ) × (n ≡ count k)
not_negative (count n) h = (n, refl)
not_negative below_zero h = cc

first_problem-none :
    (xs : List (Bool × Problem)) → first_problem xs ≡ none → All (λ x. x.0 ≡ false) xs
unfolding first_problem
first_problem-none [] h = tt
first_problem-none ((true, p) ∷ xs) h = absurd (ground arith)
first_problem-none ((false, p) ∷ xs) h = (refl, first_problem-none xs h)

none-first_problem :
    (xs : List (Bool × Problem)) → All (λ x. x.0 ≡ false) xs → first_problem xs ≡ none
unfolding first_problem
none-first_problem [] h = refl
none-first_problem ((b, p) ∷ xs) h = rw (h.0) (none-first_problem xs h.1)

not-false : (b : Bool) → not b ≡ false → b ≡ true
not-false true h = refl
not-false false h = cc

validate-IsSound : (c : Config) → validate c ≡ none → IsSound c
unfolding validate
validate-IsSound c h =
    let all : All (λ x. x.0 ≡ false) (checks c) = first_problem-none (checks c) h in
    let (n, at) = not_negative c.streams all.1.1.1.1.0 in
    record {
      peer_splits = is_split-Splits c.peer_addr (not-false _ all.1.0);
      listen_splits = is_split-Splits c.listen_addr (not-false _ all.1.1.1.0);
      streams_fit = (n, at, ground (arith, all.1.1.1.1.1.0));
      per_cred_known = not_negative c.streams_per_cred all.1.1.1.1.1.1.0;
      watchdog_known = not_negative c.watchdog_timeout all.1.1.1.1.1.1.1.0;
      provider_set = not-false _ all.1.1.1.1.1.1.1.1.0;
      protector_set = not-false _ all.1.1.1.1.1.1.1.1.1.0;
      peer_type_known = is_peer_type-known c.peer_type (not-false _ all.1.1.1.1.1.1.1.1.1.1.0);
    }

Splits-checks : (addr : Bytes) → Splits addr → (is_nil addr ≡ false) × (not (is_split addr) ≡ false)
Splits-checks [] v = absurd (ground (arith, split_nil, v.1))
Splits-checks (c ∷ cs) v = (refl, ground arith)

known-is_peer_type :
    (t : Bytes)
    → (t ≡ []) ⊎ ((t ≡ peer_type_proxy_v2) ⊎ ((t ≡ peer_type_proxy_v1) ⊎ (t ≡ peer_type_wireguard)))
    → is_peer_type t ≡ true
unfolding is_peer_type
known-is_peer_type t (inl e) = rw e refl
known-is_peer_type t (inr (inl e)) = ground (arith, equal_iff t peer_type_proxy_v2)
known-is_peer_type t (inr (inr (inl e))) = ground (arith, equal_iff t peer_type_proxy_v1)
known-is_peer_type t (inr (inr (inr e))) = ground (arith, equal_iff t peer_type_wireguard)

IsSound-validate : (c : Config) → IsSound c → validate c ≡ none
unfolding validate
IsSound-validate c v =
    let (p0, p1) = Splits-checks c.peer_addr v.peer_splits in
    let (l0, l1) = Splits-checks c.listen_addr v.listen_splits in
    let t = known-is_peer_type c.peer_type v.peer_type_known in
    let (n, s, low) = v.streams_fit in
    none-first_problem (checks c) (
      p0,
      (
        p1,
        (
          l0,
          (
            l1,
            (
              rw s refl,
              (
                rw s (ground arith),
                (
                  rw v.per_cred_known.1 refl,
                  (
                    rw v.watchdog_known.1 refl,
                    (rw v.provider_set refl, (rw v.protector_set refl, (rw t refl, tt))),
                  ),
                ),
              ),
            ),
          ),
        ),
      ),
    )

-- `Validate` accepts exactly the sound configurations: both addresses split into host and port,
-- 0 to 255 streams, no negative number, provider and protector set, and a known peer type or none.
pub validate_iff : (c : Config) → (validate c ≡ none) ↔ IsSound c
validate_iff c = (validate-IsSound c, IsSound-validate c)

new_accepts :
    (c : Config) (t : Tunnel)
    → new c ≡ ok t
    → (validate c ≡ none) × (t ≡ record { config = with_defaults c; phase = fresh; hub = none })
unfolding new
new_accepts c t h = elim (Option-cases (validate c)) [
  | inl e ↦ (e, ground arith)
  | inr (p, e) ↦ absurd (ground arith)
]

defaulted :
    (c : Config) (n : ℕ)
    → c.streams ≡ count n
    → n ≤ 255
    → (0 < or_default (with_defaults c).streams 1) × (or_default (with_defaults c).streams 1 ≤ 255)
unfolding with_defaults
defaulted c zero e h = rw e (omega arith)
defaulted c (suc n) e h = ground arith

or_default-pos : (n : ConfigInt) (d : ℕ) → 0 < d → 0 < or_default n d
or_default-pos (count zero) d h = h
or_default-pos (count (suc n)) d h = omega arith
or_default-pos below_zero d h = h

-- A configuration that `New` accepts gives, through `withDefaults` and `NewHub`, a hub with 1 to
-- 255 streams and at least one stream to a credential group: every stream id fits one byte.
pub new-new_hub :
    (c : Config) (t : Tunnel)
    → new c ≡ ok t
    → (plan : HubPlan) × (new_hub (hub_config t.config) ≡ ok plan)
      × (0 < plan.n_streams)
      × (plan.n_streams ≤ 255)
      × (0 < plan.per_cred)
      × ((id : ℕ) → id < plan.n_streams → id % 256 ≡ id)
unfolding new_hub
new-new_hub c t h =
    let (valid, e) = new_accepts c t h in
    let (n, s, low) = (validate-IsSound c valid).streams_fit in
    let (pos, bound) = defaulted c n s low in
    rw e (
      record {
        n_streams = or_default (with_defaults c).streams 1;
        per_cred = or_default (with_defaults c).streams_per_cred 4;
        pool = resolve_hints (with_defaults c);
      },
      refl,
      pos,
      bound,
      or_default-pos (with_defaults c).streams_per_cred 4 (omega arith),
      λ id l. mod-eq_of_lt (omega arith),
    )
