-- ===== src/Admin/Allocate/Lowest.antt =====
-- pkg/wgadmin/subnet.go: `AllocateClientIP` returns the lowest free address.
use native.Mathlib.Nat.{add-mul-mod_self_right, mod-eq_of_lt, div-add-mod'}
use wgturn_core.Prelude.{
  none-ne-some, some-inj, ℕ, zero, suc, ◌+◌, ◌-◌, ◌*◌, ◌/◌, ◌%◌, ◌^◌, ◌≤◌, ◌<◌, Bool, true, false,
  not, ◌||◌, List, Option, none, some, Result, ok, err, leb, ltb, ◌==◌, if◌then◌else◌, ◌≡◌, ◌≢◌,
  refl, sym, ◌∙◌, ap, Bool-cases, Option-cases, inl, inr, arith,
}
use wgturn_core.Admin.Allocate.{
  Address, Subnet, bit_len, size, first, in_subnet, next, is_broadcast, is_used, reserve, onward,
  search_free, SubnetError, subnet_exhausted, found_address, network_address, allocate_client_ip,
}

-- An address of the subnet that a client may get: not the first, not the broadcast address, and not
-- among the used ones.
pub record IsFree (s : Subnet) (used : List Address) (a : Address) : Type 0 where
  pub inside : in_subnet s a ≡ true
  pub not_network : first s < a.value
  pub not_broadcast : is_broadcast a s ≡ false
  pub unused : is_used used a ≡ false

-- The test that ends the loop without an address.
abbrev stops : Subnet → Address → Bool
stops s a = not (in_subnet s a) || is_broadcast a s

-- One round.
search_free-round :
    (s : Subnet) (used : List Address) (rounds : ℕ) (a : Address)
    → search_free s used (suc rounds) a ≡ (
        if stops s a
        then none
        else if is_used used a
        then onward (search_free s used rounds) (next a)
        else some a)
unfolding search_free
search_free-round s used rounds a = elim (Bool-cases (in_subnet s a)) [
  | inr e ↦ rw (e) refl
  | inl e ↦ elim (Bool-cases (is_broadcast a s)) [
    | inl e2 ↦ rw (e, e2) refl
    | inr e2 ↦ rw (e, e2) refl
  ]
]

stops-eq-false :
    (s : Subnet) (a : Address)
    → stops s a ≡ false
    → (in_subnet s a ≡ true) × (is_broadcast a s ≡ false)
stops-eq-false s a h = ground arith

-- What a round did: it stopped, it took the address, or it went on.
data Round (s : Subnet) (used : List Address) (rounds : ℕ) (a : Address) (r : Option Address)
    : Type 0 where
  stopped : stops s a ≡ true → r ≡ none → Round s used rounds a r
  took : stops s a ≡ false → is_used used a ≡ false → r ≡ some a → Round s used rounds a r
  ran_out : is_used used a ≡ true → next a ≡ none → r ≡ none → Round s used rounds a r
  went_on :
      (c : Address)
      → is_used used a ≡ true
      → next a ≡ some c
      → r ≡ search_free s used rounds c
      → Round s used rounds a r

search_free-Round :
    (s : Subnet) (used : List Address) (rounds : ℕ) (a : Address)
    → Round s used rounds a (search_free s used (suc rounds) a)
search_free-Round s used rounds a =
    rw (search_free-round s used rounds a) (elim (Bool-cases (stops s a)) [
      | inl e ↦ stopped e (rw (e) refl)
      | inr e ↦ elim (Bool-cases (is_used used a)) [
        | inr e2 ↦ took e e2 (rw (e, e2) refl)
        | inl e2 ↦ elim (Option-cases (next a)) [
          | inl e3 ↦ ran_out e2 e3 (rw (e, e2, e3) refl)
          | inr (c, e3) ↦ went_on c e2 e3 (rw (e, e2, e3) refl)
        ]
      ]
    ])

true-ne-false : true ≢ false
true-ne-false e = cc

some-ne-none : {a : Address} → some a ≢ none
some-ne-none e = cc

not_ltb : (a b : ℕ) → ltb a b ≡ false → b ≤ a
not_ltb a b h = ground arith

address_ext : (a b : Address) → a.is4 ≡ b.is4 → a.value ≡ b.value → a ≡ b
address_ext a b e f = ground arith

next-some :
    (a : Address) {c : Address} → next a ≡ some c → (c.is4 ≡ a.is4) × (c.value ≡ a.value + 1)
unfolding next
next-some a h = ground arith

next-none : (a : Address) → next a ≡ none → 2 ^ bit_len a ≤ a.value + 1
unfolding next
next-none a h = elim (Bool-cases (ltb (a.value + 1) (2 ^ bit_len a))) [
  | inl e ↦ absurd (some-ne-none (rw (e, next) at h))
  | inr e ↦ not_ltb (a.value + 1) (2 ^ bit_len a) e
]

in_subnet-eq-true :
    (s : Subnet) (a : Address)
    → in_subnet s a ≡ true
    → (a.is4 ≡ s.network.is4) × (first s ≤ a.value) × (a.value < first s + size s)
unfolding in_subnet
in_subnet-eq-true s a h = ground arith

in_subnet-eq-false :
    (s : Subnet) (a : Address)
    → in_subnet s a ≡ false
    → a.is4 ≡ s.network.is4
    → first s ≤ a.value
    → first s + size s ≤ a.value
unfolding in_subnet
in_subnet-eq-false s a h e f = ground arith

-- The first address is a multiple of the size.
first-mul : (s : Subnet) → first s ≡ s.network.value / size s * size s
unfolding first
first-mul s = omega (arith, div-add-mod' s.network.value (size s))

-- A number of a block of `n` numbers whose remainder is the greatest is the last of the block.
last_of_block : (q n v : ℕ) → q * n ≤ v → v < q * n + n → v % n ≡ n - 1 → v + 1 ≡ q * n + n
last_of_block q n v low high h =
    let i = v - q * n in
    let e : v ≡ i + q * n = omega arith in
    let r : v % n ≡ i =
      ap (λ x. x % n) e ∙ add-mul-mod_self_right i q n ∙ mod-eq_of_lt (omega arith) in
    omega arith

broadcast_last :
    (s : Subnet) (a : Address)
    → in_subnet s a ≡ true
    → is_broadcast a s ≡ true
    → first s + size s ≡ a.value + 1
unfolding is_broadcast
broadcast_last s a h b =
    let (family, low, high) = in_subnet-eq-true s a h in
    let f = first-mul s in
    let greatest : a.value % size s ≡ size s - 1 = ground arith in
    let last =
      last_of_block (s.network.value / size s) (size s) a.value (omega arith) (omega arith)
        greatest in
    omega arith

lowest :
    (s : Subnet) (used : List Address) (rounds : ℕ) (a : Address) {b : Address}
    → search_free s used rounds a ≡ some b
    → (stops s b ≡ false)
      × (is_used used b ≡ false)
      × (b.is4 ≡ a.is4)
      × (a.value ≤ b.value)
      × ((d : Address)
          → d.is4 ≡ a.is4
          → a.value ≤ d.value
          → d.value < b.value
          → is_used used d ≡ true)
unfolding search_free
lowest s used zero a h = cc
lowest s used (suc rounds) a {b = b} h = elim (search_free-Round s used rounds a) [
  | stopped e r ↦ absurd (none-ne-some (sym r ∙ h))
  | ran_out e e2 r ↦ absurd (none-ne-some (sym r ∙ h))
  | took e e2 r ↦
      let same : a ≡ b = some-inj (sym r ∙ h) in
      rw (sym same) (e, e2, refl, omega arith, λ d f low high. absurd (omega arith))
  | went_on c e e2 r ↦
      let (family, value) = next-some a e2 in
      let (p0, p1, p2, p3, p4) = lowest s used rounds c (sym r ∙ h) in
      (
        p0,
        p1,
        p2 ∙ family,
        omega arith,
        λ d f low high. elim (Bool-cases (d.value == a.value)) [
          | inl same ↦ rw (address_ext d a f (ground arith)) e
          | inr other ↦ p4 d (f ∙ sym family) (ground arith) high
        ],
      )
]

-- An address from `a` on that is free is reached.
reached :
    (s : Subnet) (used : List Address) (rounds : ℕ) (a d : Address)
    → search_free s used rounds a ≡ none
    → first s ≤ a.value
    → first s + size s ≤ a.value + rounds
    → d.is4 ≡ a.is4
    → a.value ≤ d.value
    → d.value < 2 ^ bit_len d
    → ¬ IsFree s used d
unfolding search_free
reached s used zero a d h low fuel family le valid free =
    let (f, dl, dh) = in_subnet-eq-true s d free.inside in omega arith
reached s used (suc rounds) a d h low fuel family le valid free =
    let (f, dl, dh) = in_subnet-eq-true s d free.inside in
    elim (search_free-Round s used rounds a) [
      | stopped e r ↦ elim (Bool-cases (in_subnet s a)) [
        | inr out ↦ let beyond = in_subnet-eq-false s a out (sym family ∙ f) low in omega arith
        | inl inside ↦
            let broadcast : is_broadcast a s ≡ true = ground arith in
            let last = broadcast_last s a inside broadcast in
            let same = address_ext d a family (omega arith) in
            true-ne-false
              (sym broadcast ∙ ap (λ y. is_broadcast y s) (sym same) ∙ free.not_broadcast)
      ]
      | took e e2 r ↦ none-ne-some (sym h ∙ r)
      | ran_out e e2 r ↦
          let end = next-none a e2 in
          let width : 2 ^ bit_len d ≡ 2 ^ bit_len a =
            ap (λ x. 2 ^ (if x then 32 else 128)) family in
          let same = address_ext d a family (omega arith) in
          true-ne-false (sym e ∙ ap (is_used used) (sym same) ∙ free.unused)
      | went_on c e e2 r ↦
          let (cf, cv) = next-some a e2 in
          elim (Bool-cases (d.value == a.value)) [
            | inl same ↦ true-ne-false (
                sym e
                ∙ ap (is_used used) (sym (address_ext d a family (ground arith)))
                ∙ free.unused)
            | inr other ↦
                reached s used rounds c d (sym r ∙ h) (omega arith) (omega arith) (family ∙ sym cf)
                  (ground arith) valid free
          ]
    ]

-- A free address that the family can hold.
abbrev pub Usable : Subnet → List Address → Address → Type 0
Usable s used d = IsFree s used d × (d.value < 2 ^ bit_len d)

-- What a result of the allocation is to say.
abbrev pub Allocates : Subnet → List Address → Result SubnetError Address → Type 0
Allocates s used (ok a) = IsFree s used a × ((d : Address) → Usable s used d → a.value ≤ d.value)
Allocates s used (err e) = (e ≡ subnet_exhausted) × ((d : Address) → ¬ Usable s used d)

-- The address behind the first one, where the loop starts.
start-lt :
    (s : Subnet) (d : Address)
    → d.is4 ≡ s.network.is4
    → d.value < 2 ^ bit_len d
    → next (network_address s) ≡ none
    → d.value ≤ first s
start-lt s d family valid e =
    let end = next-none (network_address s) e in
    let width : 2 ^ bit_len d ≡ 2 ^ bit_len s.network =
      ap (λ x. 2 ^ (if x then 32 else 128)) family in
    omega arith

search-Allocates :
    (s : Subnet) (used : List Address) (c : Address)
    → next (network_address s) ≡ some c
    → Allocates s used (found_address (search_free s used (size s) c))
search-Allocates s used c e =
    let (family, value) = next-some (network_address s) e in
    elim (Option-cases (search_free s used (size s) c)) [
      | inl none_left ↦ rw (none_left) (
        refl,
        λ d usable.
            let (free, valid) = usable in
            let (f, low, high) = in_subnet-eq-true s d free.inside in
            let above = free.not_network in
            reached s used (size s) c d none_left (omega arith) (omega arith) (f ∙ sym family)
              (omega arith) valid free,
      )
      | inr (a, at) ↦
          let (open_, unused, f, le, below) = lowest s used (size s) c at in
          let (inside, narrow) = stops-eq-false s a open_ in
          rw (at) (
            record {
              inside = inside;
              not_network = omega arith;
              not_broadcast = narrow;
              unused = unused;
            },
            λ d usable. elim (Bool-cases (leb a.value d.value)) [
              | inl le_d ↦ ground arith
              | inr gt_d ↦
                  let free = usable.0 in
                  let (df, low, high) = in_subnet-eq-true s d free.inside in
                  let above = free.not_network in
                  absurd (
                    true-ne-false
                      (sym (below d (df ∙ sym family) (omega arith) (ground arith)) ∙ free.unused))
            ],
          )
    ]

-- `AllocateClientIP` on a valid subnet returns the lowest address that is inside, behind the
-- network address, not the broadcast address, and neither the server's nor taken; it reports an
-- exhausted subnet only if there is no such address.
pub allocate_client_ip-Allocates :
    (s : Subnet) (server : Option Address) (taken : List Address)
    → Allocates s (reserve server taken) (allocate_client_ip (some s) server taken)
unfolding allocate_client_ip
allocate_client_ip-Allocates s server taken = elim (Option-cases (next (network_address s))) [
  | inl e ↦ rw (e) (
    refl,
    λ d usable.
        let (free, valid) = usable in
        let (f, low, high) = in_subnet-eq-true s d free.inside in
        let above = free.not_network in let le = start-lt s d f valid e in omega arith,
  )
  | inr (c, e) ↦ rw (e) (search-Allocates s (reserve server taken) c e)
]
