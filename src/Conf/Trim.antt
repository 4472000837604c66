-- ===== src/Conf/Trim.antt =====
-- pkg/wgconf/parse.go: laws of `strings.TrimSpace`.
use wgturn_core.Prelude.{
  ℕ, suc, ◌+◌, ◌≤◌, false, [], ◌∷◌, ◌++◌, Bytes, length, ◌≡◌, refl, sym, ◌∙◌, ap, Bool-cases, inl,
  inr, arith,
}
use wgturn_core.Tunnel.{is_nil}
use wgturn_core.Conf.Strings.{is_space, trim_left, keep, trim_right, trim_space}

length-trim_left : (s : Bytes) → length (trim_left s) ≤ length s
unfolding trim_left
length-trim_left [] = omega arith
length-trim_left (c ∷ s) = ground (arith, length-trim_left s)

length-keep : (c : ℕ) (s : Bytes) → length (keep c s) ≤ length s + 1
length-keep c [] = ground arith
length-keep c (d ∷ s) = omega arith

length-trim_right : (s : Bytes) → length (trim_right s) ≤ length s
unfolding trim_right
length-trim_right [] = omega arith
length-trim_right (c ∷ s) = omega (arith, length-trim_right s, length-keep c (trim_right s))

-- A text that is trimmed has nothing to trim on its left.
pub trim_left-trimmed : (s : Bytes) → trim_space s ≡ s → trim_left s ≡ s
unfolding trim_space trim_left
trim_left-trimmed [] e = refl
trim_left-trimmed (c ∷ s) e = elim (Bool-cases (is_space c)) [
  | inl b ↦
      let short = length-trim_right (trim_left s) in
      let shorter = length-trim_left s in
      let same : length (trim_right (trim_left s)) ≡ suc (length s) =
        ap length (rw (b, trim_space, trim_left) at e) in
      absurd (omega (arith, short, shorter, same))
  | inr b ↦ rw (b) refl
]

trim_right-trimmed : (s : Bytes) → trim_space s ≡ s → trim_right s ≡ s
unfolding trim_space
trim_right-trimmed s e = ap trim_right (sym (trim_left-trimmed s e)) ∙ e

-- What stands in front of a trimmed text that is not empty is not trimmed on its right.
pub trim_right-append :
    (front s : Bytes) → is_nil s ≡ false → trim_space s ≡ s → trim_right (front ++ s) ≡ front ++ s
unfolding trim_right
trim_right-append [] s h e = trim_right-trimmed s e
trim_right-append (c ∷ front) [] h e = cc
trim_right-append (c ∷ []) (d ∷ s) h e = rw (trim_right-trimmed (d ∷ s) e) refl
trim_right-append (c ∷ b ∷ front) (d ∷ s) h e = rw (trim_right-append (b ∷ front) (d ∷ s) h e) refl
