-- ===== src/Vk/Form.antt =====
-- pkg/wgturn/provider/vk/captcha.go: the fields that a solution adds to the form of the retry. A form is
-- the list of its fields (`url.Values` with one value for a key).
use wgturn_core.Prelude.{
  Bool, true, false, List, [], ◌∷◌, Bytes, codes, equal, equal_iff, equal_refl, Result, ok, err,
  not, subst, if◌then◌else◌, ◌≡◌, ◌⊎◌, inl, inr, refl, ◌∙◌, Bool-cases, ok-inj, err-ne-ok,
}
use wgturn_core.Tunnel.{is_nil}
use wgturn_core.Kernel.{is_positive}
use wgturn_core.Vk.{CaptchaChallenge, Solution, print_int}

pub data ApplyError : Type 0 where
  empty_sid : ApplyError
  empty_solution : ApplyError

-- `url.Values.Get`
unfoldable pub get_field : Bytes → List (Bytes × Bytes) → Bytes
get_field k [] = []
get_field k ((n, v) ∷ rest) = if equal k n then v else get_field k rest

-- `url.Values.Set`
unfoldable pub set_field : Bytes → Bytes → List (Bytes × Bytes) → List (Bytes × Bytes)
set_field k v [] = (k, v) ∷ []
set_field k v ((n, w) ∷ rest) =
    let later = set_field k v rest in if equal k n then (n, v) ∷ rest else (n, w) ∷ later

-- A field that is set under a condition.
abbrev set_if : Bool → Bytes → Bytes → List (Bytes × Bytes) → List (Bytes × Bytes)
set_if true k v form = set_field k v form
set_if false k v form = form

-- The answer of the slider.
unfoldable pub token_fields : CaptchaChallenge → Bytes → List (Bytes × Bytes) → List (Bytes × Bytes)
unfolding set_field
token_fields ch token form =
    let form = set_field (codes "captcha_key") [] form in
    let form = set_field (codes "is_sound_captcha") (codes "0") form in
    let form = set_field (codes "success_token") token form in
    let form = set_if (not (is_nil (ch.ts))) (codes "captcha_ts") (ch.ts) form in
    set_if (is_positive (ch.attempt)) (codes "captcha_attempt") (print_int (ch.attempt)) form

-- The answer to the picture.
unfoldable pub key_fields : Bytes → List (Bytes × Bytes) → List (Bytes × Bytes)
unfolding set_field
key_fields key form =
    let form = set_field (codes "success_token") [] form in
    let form = set_field (codes "is_sound_captcha") [] form in
    set_field (codes "captcha_key") key form

-- `applySolution`
unfoldable pub apply_solution :
    List (Bytes × Bytes) → CaptchaChallenge → Solution → Result ApplyError (List (Bytes × Bytes))
unfolding token_fields key_fields
apply_solution form ch sol =
    if is_nil (ch.sid)
    then err empty_sid
    else let form = set_field (codes "captcha_sid") (ch.sid) form in
      if not (is_nil (sol.success_token))
      then ok (token_fields ch (sol.success_token) form)
      else if not (is_nil (sol.key))
      then ok (key_fields (sol.key) form)
      else err empty_solution

get_field-set_same :
    (k v : Bytes) (form : List (Bytes × Bytes)) → get_field k (set_field k v form) ≡ v
unfolding get_field set_field
get_field-set_same k v [] = rw (equal_refl k) refl
get_field-set_same k v ((n, w) ∷ rest) = elim (Bool-cases (equal k n)) [
  | inl e ↦ rw (e, e) refl
  | inr e ↦ rw (e, e) (get_field-set_same k v rest)
]

get_field-set_other :
    (k n v : Bytes) (form : List (Bytes × Bytes))
    → equal k n ≡ false
    → get_field k (set_field n v form) ≡ get_field k form
unfolding get_field set_field
get_field-set_other k n v [] h = rw (h) refl
get_field-set_other k n v ((m, w) ∷ rest) h = elim (Bool-cases (equal n m)) [
  | inl e ↦
      let same : n ≡ m = (equal_iff n m).0 e in
      let off : equal k m ≡ false = subst (λ y. equal k y ≡ false) same h in rw (e, off) refl
  | inr e ↦ elim (Bool-cases (equal k m)) [
    | inl q ↦ rw (e, q) refl
    | inr q ↦ rw (e, q) (get_field-set_other k n v rest h)
  ]
]

get_field-set_if :
    (k n v : Bytes) (test : Bool) (form : List (Bytes × Bytes))
    → equal k n ≡ false
    → get_field k (set_if test n v form) ≡ get_field k form
get_field-set_if k n v true form h = get_field-set_other k n v form h
get_field-set_if k n v false form h = refl

-- What the form holds behind the slider's answer.
token_fields-get :
    (ch : CaptchaChallenge) (token : Bytes) (form : List (Bytes × Bytes))
    → (get_field (codes "success_token") (token_fields ch token form) ≡ token)
      × (get_field (codes "captcha_key") (token_fields ch token form) ≡ [])
      × (get_field (codes "captcha_sid") (token_fields ch token form)
          ≡ get_field (codes "captcha_sid") form)
unfolding token_fields equal
token_fields-get ch token form =
    let key = set_field (codes "captcha_key") [] form in
    let sound = set_field (codes "is_sound_captcha") (codes "0") key in
    let full = set_field (codes "success_token") token sound in
    let stamp = set_if (not (is_nil (ch.ts))) (codes "captcha_ts") (ch.ts) full in
    let outer : (k : Bytes)
        → equal k (codes "captcha_ts") ≡ false
        → equal k (codes "captcha_attempt") ≡ false
        → get_field k (token_fields ch token form) ≡ get_field k full =
      λ k off off'.
        get_field-set_if k (codes "captcha_attempt") (print_int (ch.attempt))
          (is_positive (ch.attempt)) stamp off'
        ∙ get_field-set_if k (codes "captcha_ts") (ch.ts) (not (is_nil (ch.ts))) full off in
    (
      outer (codes "success_token") refl refl
          ∙ get_field-set_same (codes "success_token") token sound,
      outer (codes "captcha_key") refl refl
          ∙ (get_field-set_other (codes "captcha_key") (codes "success_token") token sound refl
              ∙ (get_field-set_other (codes "captcha_key") (codes "is_sound_captcha") (codes "0")
                    key refl
                  ∙ get_field-set_same (codes "captcha_key") [] form)),
      outer (codes "captcha_sid") refl refl
          ∙ (get_field-set_other (codes "captcha_sid") (codes "success_token") token sound refl
              ∙ (get_field-set_other (codes "captcha_sid") (codes "is_sound_captcha") (codes "0")
                    key refl
                  ∙ get_field-set_other (codes "captcha_sid") (codes "captcha_key") [] form refl)),
    )

-- What the form holds behind the answer to the picture.
key_fields-get :
    (key : Bytes) (form : List (Bytes × Bytes))
    → (get_field (codes "captcha_key") (key_fields key form) ≡ key)
      × (get_field (codes "success_token") (key_fields key form) ≡ [])
      × (get_field (codes "captcha_sid") (key_fields key form)
          ≡ get_field (codes "captcha_sid") form)
unfolding key_fields equal
key_fields-get key form =
    let token = set_field (codes "success_token") [] form in
    let sound = set_field (codes "is_sound_captcha") [] token in
    (
      get_field-set_same (codes "captcha_key") key sound,
      get_field-set_other (codes "success_token") (codes "captcha_key") key sound refl
          ∙ (get_field-set_other (codes "success_token") (codes "is_sound_captcha") [] token refl
              ∙ get_field-set_same (codes "success_token") [] form),
      get_field-set_other (codes "captcha_sid") (codes "captcha_key") key sound refl
          ∙ (get_field-set_other (codes "captcha_sid") (codes "is_sound_captcha") [] token refl
              ∙ get_field-set_other (codes "captcha_sid") (codes "success_token") [] form refl),
    )

abbrev pub HoldsAnswer : CaptchaChallenge → Solution → List (Bytes × Bytes) → Type 0
HoldsAnswer ch sol form =
    (get_field (codes "captcha_sid") form ≡ ch.sid)
    × (((is_nil (sol.success_token) ≡ false)
          × (get_field (codes "success_token") form ≡ sol.success_token)
          × (get_field (codes "captcha_key") form ≡ []))
        ⊎ ((is_nil (sol.success_token) ≡ true)
            × (is_nil (sol.key) ≡ false)
            × (get_field (codes "captcha_key") form ≡ sol.key)
            × (get_field (codes "success_token") form ≡ [])))

-- The retry's form holds the id of the challenge and one answer: the token, if the solver gave one, with
-- an empty key, and else the key, with an empty token.
pub apply_solution-HoldsAnswer :
    (form after : List (Bytes × Bytes)) (ch : CaptchaChallenge) (sol : Solution)
    → apply_solution form ch sol ≡ ok after
    → HoldsAnswer ch sol after
unfolding apply_solution
apply_solution-HoldsAnswer form after ch sol e =
    let with_sid = set_field (codes "captcha_sid") (ch.sid) form in
    let here = get_field-set_same (codes "captcha_sid") (ch.sid) form in
    elim (Bool-cases (is_nil (ch.sid))) [
      | inl s ↦ absurd (err-ne-ok empty_sid after (rw (s) at e))
      | inr s ↦ elim (Bool-cases (is_nil (sol.success_token))) [
        | inr t ↦
            let same : token_fields ch (sol.success_token) with_sid ≡ after =
              ok-inj (rw (s, t) at e) in
            let (token, key, sid) = token_fields-get ch (sol.success_token) with_sid in
            subst (HoldsAnswer ch sol) same (sid ∙ here, inl (t, token, key))
        | inl t ↦ elim (Bool-cases (is_nil (sol.key))) [
          | inl k ↦ absurd (err-ne-ok empty_solution after (rw (s, t, k) at e))
          | inr k ↦
              let same : key_fields (sol.key) with_sid ≡ after = ok-inj (rw (s, t, k) at e) in
              let (key, token, sid) = key_fields-get (sol.key) with_sid in
              subst (HoldsAnswer ch sol) same (sid ∙ here, inr (t, k, key, token))
        ]
      ]
    ]
