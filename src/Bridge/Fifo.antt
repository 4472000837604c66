-- ===== src/Bridge/Fifo.antt =====
-- pkg/wgturnsrv/backend_kernel.go: a channel of the bridge as a queue that loses packets only when it
-- is full.
use wgturn_core.Prelude.{
  ℕ, suc, ◌+◌, ◌≤◌, true, List, [], ◌∷◌, ◌++◌, map, Bytes, length, length-append, take, ltb, ◌≡◌,
  refl, ◌∙◌, ap, Bool-cases, inl, inr, arith, ◌⊎◌,
}
use mathlib.Core.List.{append_assoc, append-nil, map-append}
use wgturn_core.Bridge.{bind_queue_depth, offer}

-- A packet that is put into a queue, or one that comes out of it.
pub data Move : Type 0 where
  put got : Bytes → Move

abbrev pub puts : List Move → List Bytes
puts [] = []
puts (put p ∷ ms) = p ∷ puts ms
puts (got r ∷ ms) = puts ms

abbrev pub gots : List Move → List Bytes
gots [] = []
gots (put p ∷ ms) = gots ms
gots (got r ∷ ms) = r ∷ gots ms

-- The elements of the first list stand in the second one, in this order.
abbrev pub IsSublist : List Bytes → List Bytes → Type 0
IsSublist [] ys = Unit {0}
IsSublist (x ∷ xs) [] = x ∷ xs ≡ []
IsSublist (x ∷ xs) (y ∷ ys) = ((x ≡ y) × IsSublist xs ys) ⊎ IsSublist (x ∷ xs) ys

IsSublist-refl : (xs : List Bytes) → IsSublist xs xs
IsSublist-refl [] = tt
IsSublist-refl (x ∷ xs) = inl (refl, IsSublist-refl xs)

IsSublist-insert :
    (xs front rest : List Bytes) (y : Bytes)
    → IsSublist xs (front ++ rest)
    → IsSublist xs (front ++ (y ∷ rest))
IsSublist-insert [] front rest y h = tt
IsSublist-insert (x ∷ xs) [] rest y h = inr h
IsSublist-insert (x ∷ xs) (a ∷ front) rest y h = elim h [
  | inl (e, k) ↦ inl (e, IsSublist-insert xs front rest y k)
  | inr k ↦ inr (IsSublist-insert (x ∷ xs) front rest y k)
]

-- A queue after some moves, read into buffers of a size.
module _ (size : ℕ) where
  abbrev pub Behaves : List Bytes → List Move → List Bytes → Type 0
  Behaves q [] q' = q ≡ q'
  Behaves q (put p ∷ ms) q' = Behaves (offer p q) ms q'
  Behaves q (got r ∷ ms) q' =
      (p : Bytes) × (rest : List Bytes) × (q ≡ p ∷ rest) × (r ≡ take size p) × Behaves rest ms q'

  -- What came out, and is still in the queue, is what went in, in its order, with packets left out.
  pub Behaves-IsSublist :
      (q : List Bytes) (ms : List Move) (q' : List Bytes)
      → Behaves q ms q'
      → IsSublist (gots ms ++ map (take size) q') (map (take size) (q ++ puts ms))
  unfolding offer
  Behaves-IsSublist q [] q' h = rw (append-nil q, h) (IsSublist-refl (map (take size) q'))
  Behaves-IsSublist q (put p ∷ ms) q' h = elim (Bool-cases (ltb (length q) bind_queue_depth)) [
    | inl e ↦
        rw (← append_assoc q (p ∷ []) (puts ms))
          (Behaves-IsSublist (q ++ (p ∷ [])) ms q' (rw (e, offer) at h))
    | inr e ↦
        let kept = Behaves-IsSublist q ms q' (rw (e, offer) at h) in
        rw (map-append (take size) q (p ∷ puts ms)) (
          IsSublist-insert _ (map (take size) q) (map (take size) (puts ms)) (take size p)
            (rw (map-append (take size) q (puts ms)) at kept))
  ]
  Behaves-IsSublist q (got r ∷ ms) q' h =
      let (p, rest, e, f, k) = h in rw (e) (inl (f, Behaves-IsSublist rest ms q' k))

  -- No packet is left out as long as the queue cannot be full.
  pub Behaves-all :
      (q : List Bytes) (ms : List Move) (q' : List Bytes)
      → length q + length (puts ms) ≤ bind_queue_depth
      → Behaves q ms q'
      → gots ms ++ map (take size) q' ≡ map (take size) (q ++ puts ms)
  unfolding offer
  Behaves-all q [] q' le h = rw (append-nil q, h) refl
  Behaves-all q (put p ∷ ms) q' le h =
      let room : ltb (length q) bind_queue_depth ≡ true = ground arith in
      Behaves-all (q ++ (p ∷ [])) ms q' (omega (arith, length-append q (p ∷ [])))
        (rw (room, offer) at h)
      ∙ ap (map (take size)) (append_assoc q (p ∷ []) (puts ms))
  Behaves-all q (got r ∷ ms) q' le h =
      let (p, rest, e, f, k) = h in
      let long : length q ≡ suc (length rest) = ap length e in
      rw (e, f) (ap (λ y. take size p ∷ y) (Behaves-all rest ms q' (omega arith) k))
