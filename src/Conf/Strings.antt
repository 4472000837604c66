-- ===== src/Conf/Strings.antt =====
-- The functions of Go's `strings` and `strconv` that pkg/wgconf/parse.go calls, on ASCII text.
use wgturn_core.Prelude.{
  ℕ, zero, suc, ◌+◌, ◌-◌, ◌*◌, ◌^◌, Bool, true, false, ◌&&◌, ◌||◌, List, [], ◌∷◌, Option, none,
  some, Bytes, leb, ◌==◌, if◌then◌else◌,
}
use wgturn_core.Hub.{ConfigInt, count, below_zero}

-- The white space that `TrimSpace` takes off: tab, line feed, vertical tab, form feed, carriage
-- return and the space.
abbrev pub is_space : ℕ → Bool
is_space c = (leb 9 c && leb c 13) || (c == 32)

unfoldable pub trim_left : Bytes → Bytes
trim_left [] = []
trim_left (c ∷ s) = if is_space c then trim_left s else c ∷ s

-- A byte in front of a text whose end is trimmed.
abbrev pub keep : ℕ → Bytes → Bytes
keep c [] = if is_space c then [] else c ∷ []
keep c (d ∷ s) = c ∷ d ∷ s

unfoldable pub trim_right : Bytes → Bytes
trim_right [] = []
trim_right (c ∷ s) = keep c (trim_right s)

-- `strings.TrimSpace`
unfoldable pub trim_space : Bytes → Bytes
unfolding trim_left trim_right
trim_space s = trim_right (trim_left s)

abbrev pub lower : ℕ → ℕ
lower c = if leb 65 c && leb c 90 then c + 32 else c

-- `strings.ToLower`
unfoldable pub to_lower : Bytes → Bytes
to_lower [] = []
to_lower (c ∷ s) = lower c ∷ to_lower s

-- A byte in front of the first half of a cut.
abbrev pub before : ℕ → Option (Bytes × Bytes) → Option (Bytes × Bytes)
before c none = none
before c (some (s, t)) = some (c ∷ s, t)

-- `strings.IndexByte` with the two slices around the index; `none` is -1.
unfoldable pub cut_byte : ℕ → Bytes → Option (Bytes × Bytes)
cut_byte d [] = none
cut_byte d (c ∷ s) = if c == d then some ([], s) else before c (cut_byte d s)

-- The last byte of a text, for `strings.HasSuffix` with one byte.
unfoldable pub ends_in : ℕ → Bytes → Bool
ends_in d [] = false
ends_in d (c ∷ []) = c == d
ends_in d (c ∷ e ∷ s) = ends_in d (e ∷ s)

-- A text without its last byte.
unfoldable pub init : Bytes → Bytes
init [] = []
init (c ∷ []) = []
init (c ∷ e ∷ s) = c ∷ init (e ∷ s)

-- The value of a text of digits, behind a value; `none` at any other byte.
unfoldable pub digits : ℕ → Bytes → Option ℕ
digits n [] = some n
digits n (c ∷ s) =
    let rest = digits (10 * n + (c - 48)) s in if leb 48 c && leb c 57 then rest else none

-- At least one digit.
unfoldable pub number : Bytes → Option ℕ
unfolding digits
number [] = none
number (c ∷ s) = digits 0 (c ∷ s)

abbrev pub in_range : ℕ → Option ℕ → Option ℕ
in_range bound none = none
in_range bound (some n) = if leb n bound then some n else none

abbrev pub positive : Option ℕ → Option ConfigInt
positive none = none
positive (some n) = some (count n)

abbrev pub negated : Option ℕ → Option ConfigInt
negated none = none
negated (some zero) = some (count 0)
negated (some (suc n)) = some below_zero

-- `strconv.Atoi` on a 64-bit machine: a sign, digits, and the range of `int`.
unfoldable pub atoi : Bytes → Option ConfigInt
unfolding number
atoi [] = none
atoi (c ∷ s) =
    if c == 45
    then negated (in_range (2 ^ 63) (number s))
    else if c == 43
    then positive (in_range (2 ^ 63 - 1) (number s))
    else positive (in_range (2 ^ 63 - 1) (number (c ∷ s)))

-- A field in front of the later ones, if it is not empty.
abbrev pub flush : Bytes → List Bytes → List Bytes
flush [] fs = fs
flush (c ∷ s) fs = (c ∷ s) ∷ fs

-- One byte in front of the field that starts here and the later fields.
abbrev pub extend : Bool → ℕ → Bytes × List Bytes → Bytes × List Bytes
extend true c (w, fs) = ([], flush w fs)
extend false c (w, fs) = (c ∷ w, fs)

unfoldable pub split_at : (ℕ → Bool) → Bytes → Bytes × List Bytes
split_at sep [] = ([], [])
split_at sep (c ∷ s) = extend (sep c) c (split_at sep s)

-- `strings.FieldsFunc`
unfoldable pub fields_func : (ℕ → Bool) → Bytes → List Bytes
unfolding split_at
fields_func sep s = let (w, fs) = split_at sep s in flush w fs
