-- ===== src/Vk/Described.antt =====
-- pkg/wgturn/provider/vk/captcha.go: how `extractCaptcha` reads the fields of a challenge, described.
use wgturn_core.Prelude.{Bool, [], Option, none, some, Bytes, ◌≡◌, ◌≢◌, refl, sym, ◌∙◌}
use wgturn_core.Json.{Json, null, boolean, number, text, array, object, text_or_empty}
use wgturn_core.Share.{ℤ, pos}
use wgturn_core.Vk.{scanned_attempt, attempt_of, ts_of, print_int}

-- The text of a field; a field that is no text, or is not there, counts as the empty text.
pub data TextAt (v : Option Json) (s : Bytes) : Type 0 where
  is_text : v ≡ some (text s) → TextAt v s
  no_text : ((t : Bytes) → v ≢ some (text t)) → s ≡ [] → TextAt v s

-- The number of the attempt: a number, or what is scanned from a text, and else 1.
pub data AttemptAt (v : Option Json) (z : ℤ) : Type 0 where
  is_attempt : (whole : Bool) → v ≡ some (number z whole) → AttemptAt v z
  scanned : (t : Bytes) → v ≡ some (text t) → z ≡ scanned_attempt t → AttemptAt v z
  no_attempt :
      ((t : Bytes) → v ≢ some (text t))
      → ((n : ℤ) (whole : Bool) → v ≢ some (number n whole))
      → z ≡ pos 1
      → AttemptAt v z

-- The time stamp: a text, or a number in decimal, and else empty.
pub data StampAt (v : Option Json) (s : Bytes) : Type 0 where
  is_stamp : v ≡ some (text s) → StampAt v s
  printed : (n : ℤ) (whole : Bool) → v ≡ some (number n whole) → s ≡ print_int n → StampAt v s
  no_stamp :
      ((t : Bytes) → v ≢ some (text t))
      → ((n : ℤ) (whole : Bool) → v ≢ some (number n whole))
      → s ≡ []
      → StampAt v s

-- What the code reads from a field is what is described.
pub TextAt-read : (v : Option Json) → TextAt v (text_or_empty v)
TextAt-read (some (text s)) = is_text refl
TextAt-read none = no_text (λ t h. cc) refl
TextAt-read (some null) = no_text (λ t h. cc) refl
TextAt-read (some (boolean b)) = no_text (λ t h. cc) refl
TextAt-read (some (number z whole)) = no_text (λ t h. cc) refl
TextAt-read (some (array vs)) = no_text (λ t h. cc) refl
TextAt-read (some (object fs)) = no_text (λ t h. cc) refl

pub AttemptAt-read : (v : Option Json) → AttemptAt v (attempt_of v)
AttemptAt-read (some (text s)) = scanned s refl refl
AttemptAt-read (some (number z whole)) = is_attempt whole refl
AttemptAt-read none = no_attempt (λ t h. cc) (λ n w h. cc) refl
AttemptAt-read (some null) = no_attempt (λ t h. cc) (λ n w h. cc) refl
AttemptAt-read (some (boolean b)) = no_attempt (λ t h. cc) (λ n w h. cc) refl
AttemptAt-read (some (array vs)) = no_attempt (λ t h. cc) (λ n w h. cc) refl
AttemptAt-read (some (object fs)) = no_attempt (λ t h. cc) (λ n w h. cc) refl

pub StampAt-read : (v : Option Json) → StampAt v (ts_of v)
StampAt-read (some (text s)) = is_stamp refl
StampAt-read (some (number z whole)) = printed z whole refl refl
StampAt-read none = no_stamp (λ t h. cc) (λ n w h. cc) refl
StampAt-read (some null) = no_stamp (λ t h. cc) (λ n w h. cc) refl
StampAt-read (some (boolean b)) = no_stamp (λ t h. cc) (λ n w h. cc) refl
StampAt-read (some (array vs)) = no_stamp (λ t h. cc) (λ n w h. cc) refl
StampAt-read (some (object fs)) = no_stamp (λ t h. cc) (λ n w h. cc) refl

-- A field that is neither a text nor a number is read as if it were not there.
text_or_empty-none : (v : Option Json) → ((t : Bytes) → v ≢ some (text t)) → text_or_empty v ≡ []
text_or_empty-none (some (text s)) h = absurd (h s refl)
text_or_empty-none none h = refl
text_or_empty-none (some null) h = refl
text_or_empty-none (some (boolean b)) h = refl
text_or_empty-none (some (number z whole)) h = refl
text_or_empty-none (some (array vs)) h = refl
text_or_empty-none (some (object fs)) h = refl

attempt_of-none :
    (v : Option Json)
    → ((t : Bytes) → v ≢ some (text t))
    → ((n : ℤ) (whole : Bool) → v ≢ some (number n whole))
    → attempt_of v ≡ pos 1
attempt_of-none (some (text s)) h g = absurd (h s refl)
attempt_of-none (some (number z whole)) h g = absurd (g z whole refl)
attempt_of-none none h g = refl
attempt_of-none (some null) h g = refl
attempt_of-none (some (boolean b)) h g = refl
attempt_of-none (some (array vs)) h g = refl
attempt_of-none (some (object fs)) h g = refl

ts_of-none :
    (v : Option Json)
    → ((t : Bytes) → v ≢ some (text t))
    → ((n : ℤ) (whole : Bool) → v ≢ some (number n whole))
    → ts_of v ≡ []
ts_of-none (some (text s)) h g = absurd (h s refl)
ts_of-none (some (number z whole)) h g = absurd (g z whole refl)
ts_of-none none h g = refl
ts_of-none (some null) h g = refl
ts_of-none (some (boolean b)) h g = refl
ts_of-none (some (array vs)) h g = refl
ts_of-none (some (object fs)) h g = refl

pub TextAt-same : (v : Option Json) (s : Bytes) → TextAt v s → text_or_empty v ≡ s
TextAt-same v s (is_text e) = rw (e) refl
TextAt-same v s (no_text h e) = text_or_empty-none v h ∙ sym e

pub AttemptAt-same : (v : Option Json) (z : ℤ) → AttemptAt v z → attempt_of v ≡ z
AttemptAt-same v z (is_attempt whole e) = rw (e) refl
AttemptAt-same v z (scanned t e f) = rw (e) (sym f)
AttemptAt-same v z (no_attempt h g e) = attempt_of-none v h g ∙ sym e

pub StampAt-same : (v : Option Json) (s : Bytes) → StampAt v s → ts_of v ≡ s
StampAt-same v s (is_stamp e) = rw (e) refl
StampAt-same v s (printed n whole e f) = rw (e) (sym f)
StampAt-same v s (no_stamp h g e) = ts_of-none v h g ∙ sym e
