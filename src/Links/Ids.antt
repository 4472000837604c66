-- ===== src/Links/Ids.antt =====
-- pkg/wgturn/provider/vk/parse.go and pkg/wgturn/provider/yandex/parse.go: the ids that are found.
use wgturn_core.Prelude.{
  none-ne-some, ℕ, true, false, ◌||◌, [], ◌∷◌, ◌++◌, none, some, Bytes, codes, contains, has_prefix,
  has_prefix_iff, ◌≡◌, ◌≢◌, ◌⊎◌, refl, sym, ◌∙◌, ap, Bool-cases, Option-cases, inl, inr, arith,
}
use wgturn_core.Tunnel.{is_nil}
use wgturn_core.Conf.Strings.{trim_left, trim_right, trim_space, to_lower}
use wgturn_core.Links.{
  after_first, or_same, ends_id, until, all_call_id, checked_id, call_id, vk_call_id, telemost_tag,
  telemost_call_id,
}

abbrev pub IsCallId : Bytes → Type 0
IsCallId s = (is_nil s ≡ false) × (all_call_id s ≡ true)

true-ne : false ≢ true
true-ne h = cc

tail-all : (c : ℕ) (s : Bytes) → all_call_id (c ∷ s) ≡ true → all_call_id s ≡ true
unfolding all_call_id
tail-all c s h = ground (arith, h)

trim_left-all : (s : Bytes) → all_call_id s ≡ true → trim_left s ≡ s
unfolding all_call_id trim_left
trim_left-all [] h = refl
trim_left-all (c ∷ s) h = ground (arith, h)

trim_right-all : (s : Bytes) → all_call_id s ≡ true → trim_right s ≡ s
unfolding all_call_id trim_right
trim_right-all [] h = refl
trim_right-all (c ∷ []) h = ground (arith, h)
trim_right-all (c ∷ d ∷ s) h = rw (trim_right-all (d ∷ s) (ground (arith, h))) refl

trim_space-all : (s : Bytes) → all_call_id s ≡ true → trim_space s ≡ s
unfolding trim_space
trim_space-all s h = rw (trim_left-all s h) (trim_right-all s h)

until-all : (s : Bytes) → all_call_id s ≡ true → until ends_id s ≡ s
unfolding all_call_id until
until-all [] h = refl
until-all (c ∷ s) h =
    let on : ends_id c ≡ false = ground (arith, h) in
    rw (on) (ap (λ y. c ∷ y) (until-all s (ground (arith, h))))

all_call_id-front : (s t : Bytes) → all_call_id (s ++ t) ≡ true → all_call_id s ≡ true
unfolding all_call_id
all_call_id-front [] t h = refl
all_call_id-front (c ∷ s) t h = ground (arith, h, all_call_id-front s t)

-- A text with a byte that is in no id stands nowhere in an id.
has_prefix-all :
    (s m : Bytes) → all_call_id s ≡ true → all_call_id m ≡ false → has_prefix s m ≡ false
has_prefix-all s m h k = elim (Bool-cases (has_prefix s m)) [
  | inr e ↦ e
  | inl e ↦
      let (rest, shape) = (has_prefix_iff s m).0 e in
      absurd (true-ne (sym k ∙ all_call_id-front m rest (ap all_call_id (sym shape) ∙ h)))
]

after_first-all :
    (m s : Bytes)
    → is_nil m ≡ false
    → all_call_id s ≡ true
    → all_call_id m ≡ false
    → after_first m s ≡ none
unfolding after_first
after_first-all m [] n h k = rw (n) refl
after_first-all m (c ∷ s) n h k =
    rw (has_prefix-all (c ∷ s) m h k) (after_first-all m s n (tail-all c s h) k)

contains-all : (s m : Bytes) → all_call_id s ≡ true → all_call_id m ≡ false → contains s m ≡ false
unfolding contains
contains-all [] m h k = has_prefix-all [] m h k
contains-all (c ∷ s) m h k = rw (has_prefix-all (c ∷ s) m h k) (contains-all s m (tail-all c s h) k)

checked_id-IsCallId : (v : Bytes) {id : Bytes} → checked_id v ≡ some id → IsCallId id
unfolding checked_id
checked_id-IsCallId v {id = id} h = elim (Bool-cases (is_nil v)) [
  | inl e ↦ absurd (none-ne-some (rw (e, checked_id) at h))
  | inr e ↦ elim (Bool-cases (all_call_id v)) [
    | inr f ↦ absurd (none-ne-some (rw (e, f, checked_id) at h))
    | inl f ↦
        let same : v ≡ id = ground (arith, rw (e, f, checked_id) at h) in
        (ap is_nil (sym same) ∙ e, ap all_call_id (sym same) ∙ f)
  ]
]

call_id-IsCallId : (m s : Bytes) {id : Bytes} → call_id m s ≡ some id → IsCallId id
unfolding call_id
call_id-IsCallId m s h =
    elim (Option-cases (after_first m (or_same (after_first (codes "://") s) s))) [
      | inr (t, e) ↦ checked_id-IsCallId (trim_space (until ends_id t)) (rw (e, call_id) at h)
      | inl e ↦ elim (Bool-cases (contains s (codes "/") || contains s (codes "://"))) [
        | inl f ↦ absurd (none-ne-some (rw (e, f, call_id) at h))
        | inr f ↦
            checked_id-IsCallId
              (trim_space (until ends_id (or_same (after_first (codes "://") s) s)))
              (rw (e, f, call_id) at h)
      ]
    ]

checked-own : (id : Bytes) → IsCallId id → checked_id (trim_space (until ends_id id)) ≡ some id
unfolding checked_id
checked-own id v =
    ap (λ y. checked_id (trim_space y)) (until-all id v.1)
    ∙ ap checked_id (trim_space-all id v.1)
    ∙ rw (v.0, v.1) refl

scheme-bad : (all_call_id (codes "://") ≡ false)
unfolding all_call_id
scheme-bad = refl

slash-bad : (all_call_id (codes "/") ≡ false)
unfolding all_call_id
slash-bad = refl

-- An id is found in itself.
call_id-own :
    (m id : Bytes) → is_nil m ≡ false → all_call_id m ≡ false → IsCallId id → call_id m id ≡ some id
unfolding call_id
call_id-own m id n k v =
    let no_scheme = after_first-all (codes "://") id refl v.1 scheme-bad in
    rw
      (
        no_scheme,
        after_first-all m id n v.1 k,
        contains-all id (codes "/") v.1 slash-bad,
        contains-all id (codes "://") v.1 scheme-bad,
        call_id,
      )
      (ap (λ y. checked_id (trim_space (until ends_id (or_same y id)))) no_scheme
        ∙ checked-own id v)

-- No byte of an id becomes one of another kind in lower case.
to_lower-all : (s : Bytes) → all_call_id s ≡ true → all_call_id (to_lower s) ≡ true
unfolding all_call_id to_lower
to_lower-all [] h = refl
to_lower-all (c ∷ s) h = ground (arith, h, to_lower-all s)

own-id : (id : Bytes) → IsCallId id → (vk_call_id id ≡ some id) × (telemost_call_id id ≡ some id)
unfolding vk_call_id telemost_call_id all_call_id
own-id id v =
    let vk = call_id-own (codes "join/") id refl refl v in
    let telemost = call_id-own (codes "/j/") id refl refl v in
    let untagged = has_prefix-all (to_lower id) telemost_tag (to_lower-all id v.1) refl in
    (rw (trim_space-all id v.1, v.0) vk, rw (trim_space-all id v.1, v.0, untagged) telemost)

found-IsCallId :
    (link id : Bytes)
    → (vk_call_id link ≡ some id) ⊎ (telemost_call_id link ≡ some id)
    → IsCallId id
unfolding vk_call_id telemost_call_id
found-IsCallId link id h = elim (Bool-cases (is_nil (trim_space link))) [
  | inl e ↦ elim h [
    | inl k ↦ absurd (none-ne-some (rw (e, vk_call_id) at k))
    | inr k ↦ absurd (none-ne-some (rw (e, telemost_call_id) at k))
  ]
  | inr e ↦ elim h [
    | inl k ↦ call_id-IsCallId (codes "join/") _ (rw (e, vk_call_id) at k)
    | inr k ↦ call_id-IsCallId (codes "/j/") _ (rw (e, telemost_call_id) at k)
  ]
]

-- What either provider takes from a link is an id, not empty and of the bytes of an id, and each of
-- them takes it as it is when it is given as a link.
pub extract_settled :
    (link id : Bytes)
    → (vk_call_id link ≡ some id) ⊎ (telemost_call_id link ≡ some id)
    → IsCallId id × (vk_call_id id ≡ some id) × (telemost_call_id id ≡ some id)
extract_settled link id h =
    let v = found-IsCallId link id h in let (a, b) = own-id id v in (v, a, b)
