-- ===== src/Vk/Detected.antt =====
-- pkg/wgturn/provider/vk/errors.go and captcha.go: the tests that lead to a challenge.
use wgturn_core.Prelude.{
  Bool, true, false, ◌||◌, Option, none, some, Bytes, codes, equal, ◌≡◌, ◌≢◌, ◌↔◌, inl, inr, refl,
  sym, ap, ◌∙◌, if◌then◌else◌, Bool-cases, arith,
}
use wgturn_core.Json.{
  Json, null, boolean, number, text, array, object, Fields, at_key, text_or_empty, is_number,
  int_or_zero,
}
use wgturn_core.Share.{pos, negsuc}
use wgturn_core.Vk.{
  CaptchaChallenge, PostError, captcha_challenge, captcha_required, auth_failure, api_error,
  is_blank, extract_captcha, captcha_needed_msg, asks_captcha, challenge_of, flow_challenge,
  is_fourteen, text_error, object_error, ok_error, detect_vk_error, error_at, top_error,
  is_auth_code, challenge_or_required,
}

-- An answer that asks for a captcha with something to solve, and its challenge: an error that is one of
-- two texts, with the id and the picture beside it, or an error object of code 14 or of the message.
pub data Detects (resp : Fields) (ch : CaptchaChallenge) : Type 0 where
  in_text :
      (e : Bytes)
      → at_key (codes "error") resp ≡ some (text e)
      → (equal e (codes "need_captcha") || equal e (codes "captcha_required")) ≡ true
      → is_blank (flow_challenge resp) ≡ false
      → flow_challenge resp ≡ ch
      → Detects resp ch
  in_object :
      (e : Fields)
      → at_key (codes "error") resp ≡ some (object e)
      → asks_captcha e ≡ true
      → is_blank (challenge_of e) ≡ false
      → challenge_of e ≡ ch
      → Detects resp ch

is_number-fourteen : (v : Option Json) → is_number 14 v ≡ true → is_fourteen (int_or_zero v) ≡ true
is_number-fourteen (some (number (pos m) whole)) h = ground (arith, h)
is_number-fourteen (some (number (negsuc m) whole)) h = cc
is_number-fourteen none h = cc
is_number-fourteen (some null) h = cc
is_number-fourteen (some (boolean b)) h = cc
is_number-fourteen (some (text s)) h = cc
is_number-fourteen (some (array vs)) h = cc
is_number-fourteen (some (object fs)) h = cc

or_true : (a : Bool) → (a || true) ≡ true
or_true true = refl
or_true false = refl

-- The test of `extractCaptcha` never stops an error that `detectVKError` sends it.
extract_captcha-asks :
    (e : Fields)
    → asks_captcha e ≡ true
    → extract_captcha e ≡ (if is_blank (challenge_of e) then none else some (challenge_of e))
unfolding extract_captcha
extract_captcha-asks e h = elim (Bool-cases (is_number 14 (at_key (codes "error_code") e))) [
  | inl a ↦ rw (is_number-fourteen (at_key (codes "error_code") e) a) refl
  | inr a ↦
      let m : equal (text_or_empty (at_key (codes "error_msg") e)) captcha_needed_msg ≡ true =
        rw (a) at h in
      rw (m, or_true (is_fourteen (int_or_zero (at_key (codes "error_code") e)))) refl
]

challenge-inj : {a b : CaptchaChallenge} → captcha_challenge a ≡ captcha_challenge b → a ≡ b
challenge-inj h = cc

error-inj : {a b : PostError} → some a ≡ some b → a ≡ b
error-inj h = cc

no-error : {e : PostError} → none ≢ some e
no-error h = cc

required-ne : {ch : CaptchaChallenge} → captcha_required ≢ captcha_challenge ch
required-ne h = cc

api-ne : {ch : CaptchaChallenge} → api_error ≢ captcha_challenge ch
api-ne h = cc

auth-ne : {ch : CaptchaChallenge} → auth_failure ≢ captcha_challenge ch
auth-ne h = cc

text_error_sound :
    (resp : Fields) (e : Bytes) (ch : CaptchaChallenge)
    → at_key (codes "error") resp ≡ some (text e)
    → text_error e resp ≡ captcha_challenge ch
    → Detects resp ch
unfolding text_error
text_error_sound resp e ch at h =
    elim (Bool-cases (equal e (codes "need_captcha") || equal e (codes "captcha_required"))) [
      | inr a ↦ absurd (api-ne (rw (a) at h))
      | inl a ↦ elim (Bool-cases (is_blank (flow_challenge resp))) [
        | inl b ↦ absurd (required-ne (rw (a, b) at h))
        | inr b ↦ in_text e at a b (challenge-inj (rw (a, b) at h))
      ]
    ]

object_error-asks :
    (e : Fields)
    → asks_captcha e ≡ true
    → object_error e
      ≡ challenge_or_required (if is_blank (challenge_of e) then none else some (challenge_of e))
unfolding object_error
object_error-asks e h = rw (h) (ap challenge_or_required (extract_captcha-asks e h))

object_error_sound :
    (resp e : Fields) (ch : CaptchaChallenge)
    → at_key (codes "error") resp ≡ some (object e)
    → object_error e ≡ captcha_challenge ch
    → Detects resp ch
unfolding object_error
object_error_sound resp e ch at h = elim (Bool-cases (asks_captcha e)) [
  | inl a ↦
      let seen = sym (object_error-asks e a) ∙ h in
      elim (Bool-cases (is_blank (challenge_of e))) [
        | inl b ↦ absurd (required-ne (rw (b) at seen))
        | inr b ↦ in_object e at a b (challenge-inj (rw (b) at seen))
      ]
  | inr a ↦ elim (Bool-cases (is_auth_code (at_key (codes "error_code") e))) [
    | inl b ↦ absurd (auth-ne (rw (a, b) at h))
    | inr b ↦ absurd (api-ne (rw (a, b) at h))
  ]
]

top_error-ne :
    (code : Option Json) (resp : Fields) (ch : CaptchaChallenge)
    → top_error code resp ≢ some (captcha_challenge ch)
top_error-ne none resp ch h = no-error h
top_error-ne (some code) resp ch h = elim (Bool-cases (asks_captcha resp)) [
  | inl a ↦ required-ne (error-inj (rw (a) at h))
  | inr a ↦ api-ne (error-inj (rw (a) at h))
]

ok_error-ne : (resp : Fields) (ch : CaptchaChallenge) → ok_error resp ≢ some (captcha_challenge ch)
unfolding ok_error
ok_error-ne resp ch h = top_error-ne (at_key (codes "error_code") resp) resp ch h

error_at_sound :
    (v : Option Json) (resp : Fields) (ch : CaptchaChallenge)
    → at_key (codes "error") resp ≡ v
    → error_at v resp ≡ some (captcha_challenge ch)
    → Detects resp ch
error_at_sound (some (text e)) resp ch at h = text_error_sound resp e ch at (error-inj h)
error_at_sound (some (object e)) resp ch at h = object_error_sound resp e ch at (error-inj h)
error_at_sound none resp ch at h = absurd (ok_error-ne resp ch h)
error_at_sound (some null) resp ch at h = absurd (ok_error-ne resp ch h)
error_at_sound (some (boolean b)) resp ch at h = absurd (ok_error-ne resp ch h)
error_at_sound (some (number z whole)) resp ch at h = absurd (ok_error-ne resp ch h)
error_at_sound (some (array vs)) resp ch at h = absurd (ok_error-ne resp ch h)

Detects-complete :
    (resp : Fields) (ch : CaptchaChallenge)
    → Detects resp ch
    → error_at (at_key (codes "error") resp) resp ≡ some (captcha_challenge ch)
unfolding text_error
Detects-complete resp ch (in_text e at a b same) =
    rw (at, a, b) (ap (λ c. some (captcha_challenge c)) same)
Detects-complete resp ch (in_object e at a b same) =
    let seen = object_error-asks e a in
    rw (at) (ap some (seen ∙ rw (b) (ap captcha_challenge same)))

-- The responses that are taken for challenges, by the tests of the code.
pub detect_vk_error-Detects :
    (resp : Fields) (ch : CaptchaChallenge)
    → (detect_vk_error resp ≡ some (captcha_challenge ch)) ↔ Detects resp ch
unfolding detect_vk_error
detect_vk_error-Detects resp ch =
    (error_at_sound (at_key (codes "error") resp) resp ch refl, Detects-complete resp ch)
