-- ===== src/Vk.antt =====
-- pkg/wgturn/provider/vk/errors.go and captcha.go: the error envelopes of VK and OK, the captcha
-- challenges they hold, and the form of the retry. A number in `captcha_attempt` or `captcha_ts` is one
-- that an `int64` holds. The texts of the errors are not kept, their kinds are.
mod Form
mod Flow
mod Effort
mod Read
mod Chain
mod Described
mod Detected
mod Challenges
mod Solvers
mod Tests
use wgturn_core.Prelude.{
  ℕ, Bool, true, false, not, ◌&&◌, ◌||◌, List, [], ◌∷◌, ◌++◌, Option, none, some, Bytes, codes,
  equal, drop, Result, ok, err, ◌>>=◌, has_prefix, leb, ltb, ◌==◌, if◌then◌else◌, ◌≡◌, ◌≢◌, ◌^◌,
  ◌+◌,
}
use wgturn_core.Json.{
  Json, null, number, text, object, Fields, at_key, text_or_empty, is_number, int_or_zero,
}
use wgturn_core.Share.{ℤ, pos, negsuc}
use wgturn_core.Tunnel.{is_nil}
use wgturn_core.Kernel.{print_number, is_positive}
use wgturn_core.Links.{until}
use wgturn_core.Conf.Strings

-- `CaptchaChallenge`
pub record CaptchaChallenge : Type 0 where
  pub sid : Bytes
  pub img_url : Bytes
  pub redirect_uri : Bytes
  pub attempt : ℤ
  pub ts : Bytes

-- `Solution`
pub record Solution : Type 0 where
  pub key : Bytes
  pub success_token : Bytes

-- The errors of one request. `captcha_challenge` is a `captchaErrWrapper`; it and `captcha_required` are
-- `wgturn.ErrCaptchaRequired`, and `auth_failure` is `wgturn.ErrAuthFailure`.
pub data PostError : Type 0 where
  no_response : PostError
  http_status : ℕ → PostError
  bad_json : PostError
  captcha_challenge : CaptchaChallenge → PostError
  captcha_required : PostError
  auth_failure : PostError
  api_error : PostError

abbrev pub captcha_needed_msg : Bytes
captcha_needed_msg = codes "Captcha needed"

-- A blank of `fmt.Sscanf` that is no new line.
abbrev is_scan_blank : ℕ → Bool
is_scan_blank c = (c == 9) || ((c == 11) || ((c == 12) || ((c == 13) || (c == 32))))

unfoldable pub skip_blanks : Bytes → Bytes
skip_blanks [] = []
skip_blanks (c ∷ s) = if is_scan_blank c then skip_blanks s else c ∷ s

abbrev without_plus : Bytes → Bytes
without_plus [] = []
without_plus (c ∷ s) = if c == 43 then s else c ∷ s

abbrev is_no_digit : ℕ → Bool
is_no_digit c = not (leb 48 c && leb c 57)

-- `fmt.Sscanf(v, "%d", &n)` with `n > 0`, or the attempt that was there.
unfoldable pub scanned_attempt : Bytes → ℤ
unfolding skip_blanks
scanned_attempt v = elim (Strings.number (until is_no_digit (without_plus (skip_blanks v)))) [
  | none ↦ pos 1
  | some n ↦ if ltb 0 n && ltb n (2 ^ 63) then pos n else pos 1
]

abbrev pub attempt_of : Option Json → ℤ
attempt_of (some (number z whole)) = z
attempt_of (some (text v)) = scanned_attempt v
attempt_of _ = pos 1

-- `fmt.Sprintf("%d", n)`
abbrev pub print_int : ℤ → Bytes
print_int (pos n) = print_number n
print_int (negsuc n) = 45 ∷ print_number (n + 1)

abbrev pub ts_of : Option Json → Bytes
ts_of (some (text v)) = v
ts_of (some (number z whole)) = print_int z
ts_of _ = []

abbrev pub is_fourteen : ℤ → Bool
is_fourteen (pos n) = n == 14
is_fourteen (negsuc n) = false

unfoldable pub challenge_of : Fields → CaptchaChallenge
unfolding at_key scanned_attempt
challenge_of e = record {
  sid = text_or_empty (at_key (codes "captcha_sid") e);
  img_url = text_or_empty (at_key (codes "captcha_img") e);
  redirect_uri = text_or_empty (at_key (codes "redirect_uri") e);
  attempt = attempt_of (at_key (codes "captcha_attempt") e);
  ts = ts_of (at_key (codes "captcha_ts") e);
}

-- There is nothing that a solver can work on.
abbrev pub is_blank : CaptchaChallenge → Bool
is_blank ch = is_nil (ch.sid) && is_nil (ch.img_url)

-- `extractCaptcha`
unfoldable pub extract_captcha : Fields → Option CaptchaChallenge
unfolding at_key challenge_of
extract_captcha e =
    if is_fourteen (int_or_zero (at_key (codes "error_code") e))
      || equal (text_or_empty (at_key (codes "error_msg") e)) captcha_needed_msg
    then if is_blank (challenge_of e) then none else some (challenge_of e)
    else none

-- `code == 14 || msg == captchaNeededMsg`
abbrev pub asks_captcha : Fields → Bool
asks_captcha e =
    is_number 14 (at_key (codes "error_code") e)
    || equal (text_or_empty (at_key (codes "error_msg") e)) captcha_needed_msg

abbrev pub challenge_or_required : Option CaptchaChallenge → PostError
challenge_or_required (some ch) = captcha_challenge ch
challenge_or_required none = captcha_required

abbrev pub is_auth_code : Option Json → Bool
is_auth_code code = is_number 5 code || (is_number 15 code || is_number 17 code)

-- The answer to an error that is a text: `need_captcha` and `captcha_required` have their fields beside.
abbrev pub flow_challenge : Fields → CaptchaChallenge
flow_challenge resp = record {
  sid = text_or_empty (at_key (codes "captcha_sid") resp);
  img_url = text_or_empty (at_key (codes "captcha_img") resp);
  redirect_uri = [];
  attempt = pos 0;
  ts = [];
}

unfoldable pub text_error : Bytes → Fields → PostError
text_error e resp =
    if equal e (codes "need_captcha") || equal e (codes "captcha_required")
    then if is_blank (flow_challenge resp)
      then captcha_required
      else captcha_challenge (flow_challenge resp)
    else api_error

unfoldable pub object_error : Fields → PostError
unfolding extract_captcha
object_error e =
    if asks_captcha e
    then challenge_or_required (extract_captcha e)
    else if is_auth_code (at_key (codes "error_code") e)
    then auth_failure
    else api_error

abbrev pub top_error : Option Json → Fields → Option PostError
top_error none resp = none
top_error (some code) resp = if asks_captcha resp then some captcha_required else some api_error

-- The shape of OK: the code stands at the top.
unfoldable pub ok_error : Fields → Option PostError
unfolding at_key
ok_error resp = top_error (at_key (codes "error_code") resp) resp

abbrev pub error_at : Option Json → Fields → Option PostError
error_at (some (text e)) resp = some (text_error e resp)
error_at (some (object e)) resp = some (object_error e)
error_at _ resp = ok_error resp

-- `detectVKError`; an error that is neither a text nor an object counts as none.
unfoldable pub detect_vk_error : Fields → Option PostError
detect_vk_error resp = error_at (at_key (codes "error") resp) resp
