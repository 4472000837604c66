-- ===== src/Creds/Heap.antt =====
-- The map and the heap of internal/creds/cache.go: `getEntry` keeps them well formed, and a write
-- to one group's entry is not seen by another group.
use wgturn_core.Prelude.{
  ℕ, ◌<◌, ◌≤◌, ◌≡◌, ◌≢◌, refl, List, [], ◌∷◌, none, some, length, arith, length-append, length-set,
  get_elem?-set_self, get_elem?-set_ne, ◌==◌, Bool-cases, inl, inr, Option-cases, if◌then◌else◌,
  get_elem?-append, get_elem?-append_length,
}
use wgturn_core.Creds.{
  Cache, Entry, new_entry, lookup, get_entry, deref, store, group_id, alloc_entry,
}

-- Every pointer of the map lies on the heap of length `n`, and no two groups share one.
abbrev pub Bounded : ℕ → List (ℕ × ℕ) → Type 0
Bounded n [] = Unit {0}
Bounded n ((g, p) ∷ m) = (p < n) × Bounded p m

-- Entries are allocated in order, so the newest pair of the map has the greatest pointer.
pub record IsWellFormed (c : Cache) : Type 0 where
  pub grouped : 0 < c.streams_per_cred
  pub bounded : Bounded (length c.heap) c.entries

Bounded-mono : (m : List (ℕ × ℕ)) {n k : ℕ} → n ≤ k → Bounded n m → Bounded k m
Bounded-mono [] h b = tt
Bounded-mono ((g, p) ∷ m) h b = (omega arith, b.1)

pub lookup-lt : (gid : ℕ) (m : List (ℕ × ℕ)) {n p : ℕ} → Bounded n m → lookup gid m ≡ some p → p < n
unfolding lookup
lookup-lt gid [] b e = cc
lookup-lt gid ((g, q) ∷ m) {n} {p} b e = elim (Bool-cases (g == gid)) [
  | inl h ↦ ground arith
  | inr h ↦ let ih = lookup-lt gid m {n = q} {p = p} b.1 (ground arith) in omega arith
]

pub lookup-ne :
    (gid other : ℕ) (m : List (ℕ × ℕ)) (n : ℕ) {p q : ℕ}
    → Bounded n m
    → gid ≢ other
    → lookup gid m ≡ some p
    → lookup other m ≡ some q
    → p ≢ q
unfolding lookup
lookup-ne gid other [] n b ne e f = cc
lookup-ne gid other ((g, r) ∷ m) n {p} {q} b ne e f = elim (Bool-cases (g == gid)) [
  | inl h ↦ elim (Bool-cases (g == other)) [
    | inl k ↦ absurd (ground arith)
    | inr k ↦ let low = lookup-lt other m {n = r} {p = q} b.1 (ground arith) in ground arith
  ]
  | inr h ↦ elim (Bool-cases (g == other)) [
    | inl k ↦ let low = lookup-lt gid m {n = r} {p = p} b.1 (ground arith) in ground arith
    | inr k ↦ lookup-ne gid other m r b.1 ne (ground arith) (ground arith)
  ]
]

-- The entry that a group sees: the one that its pointer leads to, or a new one.
abbrev pub seen : Cache → ℕ → Entry
seen c gid = elim (lookup gid c.entries) [ some p ↦ deref c p | none ↦ new_entry ]

-- `getEntry` returns a pointer of the group's own, and changes nothing that any group sees.
pub record Gets (c : Cache) (gid : ℕ) (d : Cache) (p : ℕ) : Type 0 where
  pub well_formed : IsWellFormed d
  pub same_groups : d.streams_per_cred ≡ c.streams_per_cred
  pub found : lookup gid d.entries ≡ some p
  pub unseen : (g : ℕ) → seen d g ≡ seen c g

alloc-seen :
    (c : Cache) (gid g : ℕ)
    → IsWellFormed c
    → lookup gid c.entries ≡ none
    → seen (alloc_entry c gid).0 g ≡ seen c g
unfolding lookup
alloc-seen c gid g v e = elim (Bool-cases (gid == g)) [
  | inl h ↦ ground (arith, get_elem?-append_length c.heap [] new_entry)
  | inr h ↦ elim (Option-cases (lookup g c.entries)) [
    | inl e' ↦ ground arith
    | inr (p, e') ↦
        let low = lookup-lt g c.entries v.bounded e' in
        ground (arith, get_elem?-append c.heap (new_entry ∷ []) p low)
  ]
]

pub get_entry-Gets :
    (c : Cache) (stream_id : ℕ)
    → IsWellFormed c
    → Gets c (group_id c stream_id) (get_entry c stream_id).0 (get_entry c stream_id).1
unfolding get_entry
get_entry-Gets c stream_id v = elim (Option-cases (lookup (group_id c stream_id) c.entries)) [
  | inl e ↦
      rw (e, get_entry)
        (record {
          well_formed = record {
            grouped = v.grouped;
            bounded = (omega (arith, length-append c.heap (new_entry ∷ [])), v.bounded);
          };
          same_groups = refl;
          found = unfold lookup in ground arith;
          unseen = λ g. alloc-seen c (group_id c stream_id) g v e;
        })
  | inr (p, e) ↦
      rw (e, get_entry)
        (record { well_formed = v; same_groups = refl; found = e; unseen = λ g. refl })
]

-- A write through a group's pointer is seen by that group alone.
pub seen-store :
    (c : Cache) (gid p : ℕ) (e : Entry) (g : ℕ)
    → IsWellFormed c
    → lookup gid c.entries ≡ some p
    → seen (store c p e) g ≡ (if gid == g then e else seen c g)
seen-store c gid p e g v h = elim (Bool-cases (gid == g)) [
  | inl k ↦
      let low = lookup-lt gid c.entries v.bounded h in
      ground (arith, get_elem?-set_self c.heap p e low)
  | inr k ↦ elim (Option-cases (lookup g c.entries)) [
    | inl f ↦ ground arith
    | inr (q, f) ↦
        let apart = lookup-ne gid g c.entries _ v.bounded (ground arith) h f in
        ground (arith, get_elem?-set_ne c.heap {i = p} {j = q} e apart)
  ]
]

pub store-IsWellFormed :
    (c : Cache) (p : ℕ) (e : Entry) → IsWellFormed c → IsWellFormed (store c p e)
store-IsWellFormed c p e v = record {
  grouped = v.grouped;
  bounded = rw (length-set c.heap p e) v.bounded;
}
