-- ===== src/Vk/Flow.antt =====
-- pkg/wgturn/provider/vk/api.go and provider.go: the five requests of the call handshake, with the
-- captcha loop at the third, and `Fetch`. The server and the solver are parameters, functions of all that
-- was sent to them before; a cancelled context is a request without a response. The headers and the log
-- are left out.
mod Requests
unfoldable pub use Requests.*
use wgturn_core.Prelude.{
  ℕ, zero, suc, ◌||◌, List, [], ◌∷◌, ◌++◌, Option, none, some, Bytes, codes, equal, Result, ok, err,
  leb, ◌==◌, if◌then◌else◌,
}
use Prim.Native.String.{String}
use wgturn_core.Json.{Json, text, array, object, Items, Fields, at_key, first_item, as_map}
use wgturn_core.Creds.{Credentials, span}
use wgturn_core.Links.{vk_call_id, vk_turn_url}
use wgturn_core.Vk.{
  CaptchaChallenge, Solution, PostError, no_response, http_status, bad_json, captcha_challenge,
  auth_failure, detect_vk_error,
}
use wgturn_core.Vk.Form.{ApplyError, apply_solution}

module _ {E : Type 0} (client : ApiClient E) where
  -- `post`
  unfoldable pub post : ℕ → Request → FlowSteps E Fields
  post n req w = (sent w req, at_nth n (read_answer (client.answer (w.posted) req)))

  -- A request whose errors do not count.
  unfoldable pub post_ignored : Request → FlowSteps E (Unit {0})
  post_ignored req w = (sent w req, ok tt)

  abbrev token_request : Request
  token_request = record {
    url = client.hosts.login ++ codes "/?act=get_anonym_token";
    form =
        (codes "client_id", client.app_id)
        ∷ (codes "token_type", codes "messages")
        ∷ (codes "client_secret", client.client_sec)
        ∷ (codes "version", codes "1")
        ∷ (codes "app_id", client.app_id)
        ∷ [];
  }

  abbrev method_url : Bytes → Bytes
  method_url method =
      client.hosts.api
      ++ (codes "/method/"
          ++ (method ++ (codes "?v=" ++ (api_version ++ (codes "&client_id=" ++ client.app_id)))))

  abbrev preview_link : Bytes → Bytes
  preview_link call_id =
      if equal (client.hosts.api) host_api
      then codes "https://vk.ru/call/join/" ++ call_id
      else host_user_base ++ (codes "/call/join/" ++ call_id)

  abbrev preview_request : Bytes → Bytes → Request
  preview_request call_id token1 = record {
    url = method_url (codes "calls.getCallPreview");
    form =
        (codes "vk_join_link", preview_link call_id)
        ∷ (codes "fields", codes "photo_200")
        ∷ (codes "access_token", token1)
        ∷ [];
  }

  abbrev step3_url : Bytes
  step3_url = method_url (codes "calls.getAnonymousToken")

  abbrev step3_form : Bytes → Bytes → List (Bytes × Bytes)
  step3_form call_id token1 =
      (codes "vk_join_link", host_user_base ++ (codes "/call/join/" ++ call_id))
      ∷ (codes "name", client.guest_name)
      ∷ (codes "access_token", token1)
      ∷ []

  abbrev pub step3_request : List (Bytes × Bytes) → Request
  step3_request form = record { url = step3_url; form = form }

  -- The solver's answer to a challenge, put into the form of the retry.
  unfoldable pub solve_challenge :
      List (Bytes × Bytes) → CaptchaChallenge → FlowSteps E (List (Bytes × Bytes))
  solve_challenge form ch w = ask (client.captcha) form ch w

  -- The third step: requests with at most `n` retries left, and the error of the last request.
  unfoldable pub step3_loop : ℕ → FetchError E → List (Bytes × Bytes) → FlowSteps E Fields
  step3_loop zero last form w = (w, err last)
  step3_loop (suc n) last form w = on_challenge (post 3 (step3_request form) w) (λ ch.
      solve_challenge form ch >=> (λ form'. step3_loop n (at_step 3 (captcha_challenge ch)) form'))

  abbrev pub max_captcha_attempts : ℕ
  max_captcha_attempts = 3

  abbrev session_data : Bytes
  session_data =
      codes "{\"version\":2,\"device_id\":\""
      ++ (client.device_id ++ codes "\",\"client_version\":1.1,\"client_type\":\"SDK_JS\"}")

  abbrev pub login_request : Request
  login_request = record {
    url = client.hosts.ok_host ++ codes "/fb.do";
    form =
        (codes "session_data", session_data)
        ∷ (codes "method", codes "auth.anonymLogin")
        ∷ ok_fields;
  }

  abbrev pub join_request : Bytes → Bytes → Bytes → Request
  join_request call_id token2 session_key = record {
    url = client.hosts.ok_host ++ codes "/fb.do";
    form =
        (codes "joinLink", call_id)
        ∷ (codes "isVideo", codes "false")
        ∷ (codes "protocolVersion", codes "5")
        ∷ (codes "capabilities", codes "2F7F")
        ∷ (codes "anonymToken", token2)
        ∷ (codes "method", codes "vchat.joinConversationByLink")
        ∷ (codes "session_key", session_key)
        ∷ ok_fields;
  }

  -- The last two steps, behind the token of the call.
  unfoldable pub join_call : Bytes → Bytes → FlowSteps E Credentials
  join_call call_id token2 = post 4 login_request >=> (λ resp.
      need_value (missing_field 4) (dig_string (codes "session_key" ∷ []) resp)
      >=> (λ session_key. post 5 (join_request call_id token2 session_key) >=> turn_credentials))

  -- `fetchTurn`
  unfoldable pub fetch_turn : Bytes → FlowSteps E Credentials
  fetch_turn call_id = post 1 token_request >=> (λ resp.
      need_value (missing_field 1) (dig_string (codes "data" ∷ codes "access_token" ∷ []) resp)
      >=> (λ token1. post_ignored (preview_request call_id token1) >=> (λ _.
          step3_loop max_captcha_attempts (missing_field 3) (step3_form call_id token1) >=> (λ resp.
            need_value (missing_field 3) (dig_string (codes "response" ∷ codes "token" ∷ []) resp)
            >=> (λ token2. join_call call_id token2)))))

  abbrev pub fetch_call : Option Bytes → Wire × Result (FetchError E) Credentials
  fetch_call none = (nothing_sent, err bad_link)
  fetch_call (some call_id) = fetch_turn call_id nothing_sent

  -- `Fetch`
  unfoldable pub vk_fetch : Bytes → Wire × Result (FetchError E) Credentials
  vk_fetch hint = fetch_call (vk_call_id hint)
