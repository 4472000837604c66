-- ===== src/Vk/Flow/Requests.antt =====
-- pkg/wgturn/provider/vk/api.go: requests and answers, the paths into a response, and the steps that know
-- nothing of the server.
use wgturn_core.Prelude.{
  ℕ, ◌||◌, List, [], ◌∷◌, Option, none, some, Bytes, codes, Result, ok, err, leb, ◌==◌,
  if◌then◌else◌,
}
use Prim.Native.String.{String}
use wgturn_core.Json.{Json, text, array, object, Items, Fields, at_key, first_item, as_map}
use wgturn_core.Creds.{Credentials, span}
use wgturn_core.Links.{vk_turn_url}
use wgturn_core.Vk.{
  CaptchaChallenge, Solution, PostError, no_response, http_status, bad_json, captcha_challenge,
  auth_failure, detect_vk_error,
}
use wgturn_core.Vk.Form.{ApplyError, apply_solution}

pub record Request : Type 0 where
  pub url : Bytes
  pub form : List (Bytes × Bytes)

-- What `http.Client.Do` and the read of the body give: nothing, or a status and the decoded body.
pub data HttpAnswer : Type 0 where
  failed : HttpAnswer
  answered : ℕ → Option Json → HttpAnswer

-- `post` behind the request: what it makes of the answer.
unfoldable pub read_answer : HttpAnswer → Result PostError Fields
read_answer failed = err no_response
read_answer (answered status body) =
    if status == 401 || status == 403
    then err auth_failure
    else if leb 400 status
    then err (http_status status)
    else elim (as_map body) [
      | none ↦ err bad_json
      | some out ↦ elim (detect_vk_error out) [ none ↦ ok out | some e ↦ err e ]
    ]

-- `dig`
unfoldable pub dig : List Bytes → Json → Option Json
unfolding at_key
dig [] cur = some cur
dig (k ∷ ks) (object m) = elim (at_key k m) [ none ↦ none | some v ↦ dig ks v ]
dig (k ∷ ks) _ = none

abbrev as_text : Option Json → Option Bytes
as_text (some (text s)) = some s
as_text _ = none

abbrev as_array : Option Json → Option Items
as_array (some (array vs)) = some vs
as_array _ = none

-- `digString`
abbrev pub dig_string : List Bytes → Fields → Option Bytes
dig_string ks resp = as_text (dig ks (object resp))

-- `digSlice`
abbrev pub dig_slice : List Bytes → Fields → Option Items
dig_slice ks resp = as_array (dig ks (object resp))

-- `apiHosts`
pub record ApiHosts : Type 0 where
  pub login : Bytes
  pub api : Bytes
  pub ok_host : Bytes

-- `apiClient`, with the server behind its HTTP client, its solver, and the random guest name and device.
pub record ApiClient (E : Type 0) : Type 0 where
  pub app_id : Bytes
  pub client_sec : Bytes
  pub hosts : ApiHosts
  pub guest_name : Bytes
  pub device_id : Bytes
  pub answer : List Request → Request → HttpAnswer
  pub captcha : Option (List CaptchaChallenge → CaptchaChallenge → Result E Solution)

pub data FetchError (E : Type 0) : Type 0 where
  at_step : ℕ → PostError → FetchError E
  missing_field : ℕ → FetchError E
  no_solver : FetchError E
  solver_failed : E → FetchError E
  apply_failed : ApplyError → FetchError E
  empty_urls : FetchError E
  url_not_text : FetchError E
  bad_url : FetchError E
  bad_link : FetchError E

-- What was sent and what was asked of the solver, the newest first.
pub record Wire : Type 0 where
  pub posted : List Request
  pub asked : List CaptchaChallenge

abbrev pub FlowSteps : Type 0 → Type 0 → Type 0
FlowSteps E A = Wire → Wire × Result (FetchError E) A

module _ {E A B : Type 0} where
  abbrev pub after :
      Wire × Result (FetchError E) A → (A → FlowSteps E B) → Wire × Result (FetchError E) B
  after (w, err e) k = (w, err e)
  after (w, ok a) k = k a w

  infixr 5 ◌>=>◌
  -- One step behind the other; an error ends the flow.
  unfoldable pub ◌>=>◌ : FlowSteps E A → (A → FlowSteps E B) → FlowSteps E B
  (s >=> k) w = after (s w) k

-- A value that must be there.
unfoldable pub need_value : {E A : Type 0} → FetchError E → Option A → FlowSteps E A
need_value e none w = (w, err e)
need_value e (some a) w = (w, ok a)

abbrev pub at_nth : {E : Type 0} → ℕ → Result PostError Fields → Result (FetchError E) Fields
at_nth n (err e) = err (at_step n e)
at_nth n (ok out) = ok out

abbrev pub sent : Wire → Request → Wire
sent w req = record { posted = req ∷ (w.posted); asked = w.asked }

abbrev pub host_api : Bytes
host_api = codes "https://api.vk.ru"

abbrev pub api_version : Bytes
api_version = codes "5.275"

abbrev pub host_user_base : Bytes
host_user_base = codes "https://vk.com"

-- The fields that both requests to OK have.
abbrev pub ok_fields : List (Bytes × Bytes)
ok_fields =
    (codes "format", codes "JSON") ∷ (codes "application_key", codes "CGMMEJLGDIHBABABA") ∷ []

-- A challenge goes on, any other result of the request ends the loop.
abbrev pub on_challenge :
    {E : Type 0}
    → Wire × Result (FetchError E) Fields
    → (CaptchaChallenge → FlowSteps E Fields)
    → Wire × Result (FetchError E) Fields
on_challenge (w, ok out) k = (w, ok out)
on_challenge (w, err (at_step n (captcha_challenge ch))) k = k ch w
on_challenge (w, err e) k = (w, err e)

-- The solution goes into the form.
abbrev pub applied :
    {E : Type 0}
    → Wire
    → Result ApplyError (List (Bytes × Bytes))
    → Wire × Result (FetchError E) (List (Bytes × Bytes))
applied w (err e) = (w, err (apply_failed e))
applied w (ok form) = (w, ok form)

abbrev pub solved :
    {E : Type 0}
    → Wire
    → List (Bytes × Bytes)
    → CaptchaChallenge
    → Result E Solution
    → Wire × Result (FetchError E) (List (Bytes × Bytes))
solved w form ch (err e) = (w, err (solver_failed e))
solved w form ch (ok sol) = applied w (apply_solution form ch sol)

abbrev pub ask :
    {E : Type 0}
    → Option (List CaptchaChallenge → CaptchaChallenge → Result E Solution)
    → List (Bytes × Bytes)
    → CaptchaChallenge
    → FlowSteps E (List (Bytes × Bytes))
ask none form ch w = (w, err no_solver)
ask (some solve) form ch w =
    solved (record { posted = w.posted; asked = ch ∷ (w.asked) }) form ch (solve (w.asked) ch)

abbrev pub turn_server : String → List Bytes
turn_server name = codes "turn_server" ∷ codes name ∷ []

abbrev pub url_text : Json → Option Bytes
url_text v = as_text (some v)

-- The credentials in the last response.
unfoldable pub turn_credentials : {E : Type 0} → Fields → FlowSteps E Credentials
turn_credentials resp =
    need_value (missing_field 5) (dig_string (turn_server "username") resp) >=> (λ user.
      need_value (missing_field 5) (dig_string (turn_server "credential") resp) >=> (λ pass.
        need_value (missing_field 5) (dig_slice (turn_server "urls") resp) >=> (λ urls.
          need_value empty_urls (first_item urls) >=> (λ first.
            need_value url_not_text (url_text first) >=> (λ raw.
              need_value bad_url (vk_turn_url raw) >=> (λ addr w. (
                w,
                ok record {
                  username = user;
                  password = pass;
                  server_addr = addr;
                  expires_in = span 0;
                },
              )))))))

abbrev pub nothing_sent : Wire
nothing_sent = record { posted = []; asked = [] }
