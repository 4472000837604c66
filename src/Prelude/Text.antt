-- ===== src/Prelude/Text.antt =====
-- Go strings and byte slices as lists of bytes, with the functions of `strings` that the program
-- uses. White space and letter case are those of ASCII.
use Prim.Native.Nat.{ℕ}
use Prim.Native.Char.{code}
use Prim.Native.String.{String}
use mathlib.Core.Path.{◌≡◌, refl, ap}
use mathlib.Core.Logic.{◌↔◌, inl, inr}
use mathlib.Core.Bool.{Bool, true, false, ◌&&◌, ◌||◌}
use mathlib.Core.List.{List, [], ◌∷◌, ◌++◌}
use native.Mathlib.Omega.{arith}
use wgturn_core.Prelude.Tests.{◌==◌, Bool-cases}

abbrev pub Bytes : Type 0
Bytes = List ℕ

-- The bytes of an ASCII literal.
abbrev pub codes : String → Bytes
codes String.[] = []
codes (String.◌∷◌ c s) = code c ∷ codes s

-- Equality of strings.
unfoldable pub equal : Bytes → Bytes → Bool
equal [] [] = true
equal [] (y ∷ ys) = false
equal (x ∷ xs) [] = false
equal (x ∷ xs) (y ∷ ys) = x == y && equal xs ys

pub equal_iff : (a b : Bytes) → (equal a b ≡ true) ↔ (a ≡ b)
unfolding equal
equal_iff [] [] = ground arith
equal_iff [] (y ∷ ys) = ground arith
equal_iff (x ∷ xs) [] = ground arith
equal_iff (x ∷ xs) (y ∷ ys) = ground (arith, equal_iff xs ys)

pub equal_refl : (a : Bytes) → equal a a ≡ true
equal_refl a = (equal_iff a a).1 refl

-- `strings.HasPrefix`.
unfoldable pub has_prefix : Bytes → Bytes → Bool
has_prefix s [] = true
has_prefix [] (p ∷ ps) = false
has_prefix (c ∷ cs) (p ∷ ps) = c == p && has_prefix cs ps

-- `strings.Contains`.
unfoldable pub contains : Bytes → Bytes → Bool
unfolding has_prefix
contains [] sub = has_prefix [] sub
contains (c ∷ cs) sub = has_prefix (c ∷ cs) sub || contains cs sub

pub has_prefix_iff : (s p : Bytes) → (has_prefix s p ≡ true) ↔ ((rest : Bytes) × (s ≡ p ++ rest))
unfolding has_prefix
has_prefix_iff s [] = ((λ _. (s, refl)), (λ _. refl))
has_prefix_iff [] (p ∷ ps) = ((λ h. cc), (λ h. absurd (ground (arith, h.1))))
has_prefix_iff (c ∷ cs) (p ∷ ps) = (
  (λ h. let (rest, e) = (has_prefix_iff cs ps).0 (ground arith) in (rest, ground arith)),
  (λ h. let r = (has_prefix_iff cs ps).1 (h.0, ground (arith, h.1)) in ground (arith, r, h.1)),
)

contains_sound :
    (s sub : Bytes)
    → contains s sub ≡ true
    → (before : Bytes) × (after : Bytes) × (s ≡ before ++ (sub ++ after))
unfolding contains
contains_sound [] sub h = let (rest, e) = (has_prefix_iff [] sub).0 h in ([], rest, e)
contains_sound (c ∷ cs) sub h = elim (Bool-cases (has_prefix (c ∷ cs) sub)) [
  | inl e ↦ let (rest, q) = (has_prefix_iff (c ∷ cs) sub).0 e in ([], rest, q)
  | inr e ↦
      let (before, after, q) = contains_sound cs sub (ground arith) in
      (c ∷ before, after, ap (◌∷◌ c) q)
]

contains_complete : (before sub after : Bytes) → contains (before ++ (sub ++ after)) sub ≡ true
unfolding contains
contains_complete [] [] [] = refl
contains_complete [] [] (c ∷ cs) = ground (arith, (has_prefix_iff (c ∷ cs) []).1 (c ∷ cs, refl))
contains_complete [] (x ∷ sub) after =
    ground (arith, (has_prefix_iff ((x ∷ sub) ++ after) (x ∷ sub)).1 (after, refl))
contains_complete (b ∷ before) sub after = ground (arith, contains_complete before sub after)

-- The text holds `sub` at some place.
pub contains_iff :
    (s sub : Bytes)
    → (contains s sub ≡ true)
      ↔ ((before : Bytes) × (after : Bytes) × (s ≡ before ++ (sub ++ after)))
contains_iff s sub = (contains_sound s sub, λ h. rw h.2 (contains_complete h.0 sub h.1))
