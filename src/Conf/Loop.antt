-- ===== src/Conf/Loop.antt =====
-- pkg/wgconf/parse.go: the ways in which a round of the loop of `Parse` succeeds.
use wgturn_core.Prelude.{Bool, true, false, Bytes, ok, >>=-ok, ◌≡◌, Bool-cases, arith, inl, inr}
use wgturn_core.Tunnel.{is_nil}
use wgturn_core.Prelude.{equal, has_prefix, [], ◌∷◌}
use wgturn_core.Conf.Strings.{to_lower}
use wgturn_core.Conf.Values.{Library, Settings}
use wgturn_core.Conf.{
  Section, meta_prefix, has_prefix_fold, is_comment, is_header, header_name, parse_meta, enter,
  parse_ini, parse_line,
}

-- A section header is not a line of another kind.
header-kind :
    (t : Bytes)
    → is_header t ≡ true
    → (is_nil t ≡ false) × (has_prefix_fold t meta_prefix ≡ false) × (is_comment t ≡ false)
unfolding is_header is_comment has_prefix_fold has_prefix to_lower equal
header-kind [] h = grind arith
header-kind (c ∷ t) h = grind arith

pub not-header :
    (t : Bytes) (b : Bool) → (is_header t ≡ true → b ≡ false) → b ≡ true → is_header t ≡ false
not-header t b f e = elim (Bool-cases (is_header t)) [ inl h ↦ grind (arith, f h) | inr h ↦ h ]

module _ {Prefix Addr : Type 0} (lib : Library Prefix Addr) where
  pub data LineResult (cur : Section) (t : Bytes) (s : Settings Prefix Addr)
      (r : Section × Settings Prefix Addr) : Type 0 where
    unchanged : is_header t ≡ false → r ≡ (cur, s) → LineResult cur t s r
    by_meta :
        (s' : Settings Prefix Addr)
        → is_header t ≡ false
        → parse_meta lib t s ≡ ok s'
        → r ≡ (cur, s')
        → LineResult cur t s r
    by_header : is_header t ≡ true → r ≡ enter (header_name t) s → LineResult cur t s r
    by_pair :
        (s' : Settings Prefix Addr)
        → is_header t ≡ false
        → parse_ini lib cur t s ≡ ok s'
        → r ≡ (cur, s')
        → LineResult cur t s r

  pub parse_line-cases :
      (cur : Section) (t : Bytes) (s : Settings Prefix Addr) {r : Section × Settings Prefix Addr}
      → parse_line lib cur t s ≡ ok r
      → LineResult cur t s r
  unfolding parse_line
  parse_line-cases cur t s h = elim (Bool-cases (is_nil t)) [
    | inl e ↦ unchanged (not-header t _ (λ k. (header-kind t k).0) e) (grind (arith, e))
    | inr e ↦ elim (Bool-cases (has_prefix_fold t meta_prefix)) [
      | inl e2 ↦
          let (s1, e3, e4) = >>=-ok (parse_meta lib t s) _ (rw (e, e2, parse_line) at h) in
          by_meta s1 (not-header t _ (λ k. (header-kind t k).1) e2) e3 (grind (arith, e4))
      | inr e2 ↦ elim (Bool-cases (is_comment t)) [
        | inl e3 ↦
            unchanged (not-header t _ (λ k. (header-kind t k).2) e3) (grind (arith, e, e2, e3))
        | inr e3 ↦ elim (Bool-cases (is_header t)) [
          | inl e4 ↦ by_header e4 (grind (arith, e, e2, e3, e4))
          | inr e4 ↦
              let (s1, e5, e6) =
                >>=-ok (parse_ini lib cur t s) _ (rw (e, e2, e3, e4, parse_line) at h) in
              by_pair s1 e4 e5 (grind (arith, e6))
        ]
      ]
    ]
  ]
