-- ===== src/Admin/File/Text.antt =====
-- pkg/wgadmin/wgconf.go: the lines of a file that was printed line by line.
use wgturn_core.Prelude.{
  ℕ, Bool, true, false, not, ◌&&◌, List, [], ◌∷◌, ◌++◌, map, Bytes, All, ◌≡◌, ◌≢◌, refl, ap,
  Bool-cases, inl, inr, arith, ◌==◌,
}
use wgturn_core.Conf.Strings.{ends_in}
use wgturn_core.Admin.File.{onto_first, split_lines, drop_return, scan_lines, print_lines}

-- A line that survives the way to a file and back: no line feed, and no carriage return.
abbrev pub Clean : Bytes → Type 0
Clean = All (λ c. (c ≢ 10) × (c ≢ 13))

abbrev pub NoReturn : Bytes → Type 0
NoReturn = All (λ c. c ≢ 13)

-- The tests for these.
abbrev pub is_clean : Bytes → Bool
is_clean [] = true
is_clean (c ∷ s) = not (c == 10) && (not (c == 13) && is_clean s)

pub is_clean-Clean : (s : Bytes) → is_clean s ≡ true → Clean s
is_clean-Clean [] h = tt
is_clean-Clean (c ∷ s) h =
    (((λ e. ground arith), (λ e. ground arith)), is_clean-Clean s (ground arith))

abbrev pub no_return : Bytes → Bool
no_return [] = true
no_return (c ∷ s) = not (c == 13) && no_return s

pub no_return-NoReturn : (s : Bytes) → no_return s ≡ true → NoReturn s
no_return-NoReturn [] h = tt
no_return-NoReturn (c ∷ s) h = ((λ e. ground arith), no_return-NoReturn s (ground arith))

split_lines-line : (l s : Bytes) → Clean l → split_lines (l ++ (10 ∷ s)) ≡ l ∷ split_lines s
unfolding split_lines
split_lines-line [] s h = refl
split_lines-line (c ∷ l) s h =
    let other : (c == 10) ≡ false = ground (arith, h.0.0) in
    rw (other, split_lines-line l s h.1) refl

ends_in-Clean : (l : Bytes) → Clean l → ends_in 13 l ≡ false
unfolding ends_in
ends_in-Clean [] h = refl
ends_in-Clean (c ∷ []) h = ground (arith, h.0.1)
ends_in-Clean (c ∷ d ∷ l) h = ends_in-Clean (d ∷ l) h.1

-- Clean lines that are printed are scanned as they were.
pub scan_lines-print_lines : (ls : List Bytes) → All Clean ls → scan_lines (print_lines ls) ≡ ls
unfolding scan_lines print_lines
scan_lines-print_lines [] h = refl
scan_lines-print_lines (l ∷ ls) h =
    rw (split_lines-line l (print_lines ls) h.0, ends_in-Clean l h.0)
      (ap (λ y. l ∷ y) (scan_lines-print_lines ls h.1))

onto_first-Clean :
    (c : ℕ) (ls : List Bytes) → (c ≢ 10) × (c ≢ 13) → All Clean ls → All Clean (onto_first c ls)
onto_first-Clean c [] h k = ((h, tt), tt)
onto_first-Clean c (l ∷ ls) h k = ((h, k.0), k.1)

split_lines-Clean : (s : Bytes) → NoReturn s → All Clean (split_lines s)
unfolding split_lines
split_lines-Clean [] h = tt
split_lines-Clean (c ∷ s) h = elim (Bool-cases (c == 10)) [
  | inl e ↦ rw (e) (tt, split_lines-Clean s h.1)
  | inr e ↦
      rw (e)
        (onto_first-Clean c (split_lines s) ((λ f. ground arith), h.0) (split_lines-Clean s h.1))
]

drop_return-Clean : (ls : List Bytes) → All Clean ls → map drop_return ls ≡ ls
drop_return-Clean [] h = refl
drop_return-Clean (l ∷ ls) h = rw (ends_in-Clean l h.0) (ap (λ y. l ∷ y) (drop_return-Clean ls h.1))

-- The lines of a file without carriage returns are clean.
pub scan_lines-Clean : (s : Bytes) → NoReturn s → All Clean (scan_lines s)
unfolding scan_lines
scan_lines-Clean s h =
    rw (drop_return-Clean (split_lines s) (split_lines-Clean s h)) (split_lines-Clean s h)
