-- ===== src/Vk/Challenges.antt =====
-- pkg/wgturn/provider/vk/errors.go and captcha.go: which responses are challenges, and what those hold.
use wgturn_core.Prelude.{true, [], some, Bytes, codes, ◌≡◌, ◌≢◌, ◌⊎◌}
use wgturn_core.Json.{Json, number, text, object, Fields, at_key}
use wgturn_core.Share.{pos}
use wgturn_core.Vk.{CaptchaChallenge}
use wgturn_core.Vk.Described.{TextAt, AttemptAt, StampAt}

-- There is an id or a picture.
abbrev pub IsSolvable : CaptchaChallenge → Type 0
IsSolvable ch = (ch.sid ≢ []) ⊎ (ch.img_url ≢ [])

-- An error object of code 14, or of the message of a captcha.
abbrev pub AsksCaptcha : Fields → Type 0
AsksCaptcha e =
    (at_key (codes "error_code") e ≡ some (number (pos 14) true))
    ⊎ (at_key (codes "error_msg") e ≡ some (text (codes "Captcha needed")))

-- The challenge of an error object has its five fields.
pub record HoldsFields (e : Fields) (ch : CaptchaChallenge) : Type 0 where
  pub sid_of : TextAt (at_key (codes "captcha_sid") e) (ch.sid)
  pub img_of : TextAt (at_key (codes "captcha_img") e) (ch.img_url)
  pub redirect_of : TextAt (at_key (codes "redirect_uri") e) (ch.redirect_uri)
  pub attempt_at : AttemptAt (at_key (codes "captcha_attempt") e) (ch.attempt)
  pub stamp_at : StampAt (at_key (codes "captcha_ts") e) (ch.ts)

-- The challenge of an error that is a text has the id and the picture beside it.
pub record HoldsPicture (resp : Fields) (ch : CaptchaChallenge) : Type 0 where
  pub sid_beside : TextAt (at_key (codes "captcha_sid") resp) (ch.sid)
  pub img_beside : TextAt (at_key (codes "captcha_img") resp) (ch.img_url)
  pub no_redirect : ch.redirect_uri ≡ []
  pub no_count : ch.attempt ≡ pos 0
  pub no_time : ch.ts ≡ []

-- A response and the challenge it holds, in the field `error`: one of two texts, or an error object.
pub data Challenges (resp : Fields) (ch : CaptchaChallenge) : Type 0 where
  beside_text :
      (e : Bytes)
      → at_key (codes "error") resp ≡ some (text e)
      → (e ≡ codes "need_captcha") ⊎ (e ≡ codes "captcha_required")
      → HoldsPicture resp ch
      → IsSolvable ch
      → Challenges resp ch
  within_object :
      (e : Fields)
      → at_key (codes "error") resp ≡ some (object e)
      → AsksCaptcha e
      → HoldsFields e ch
      → IsSolvable ch
      → Challenges resp ch
