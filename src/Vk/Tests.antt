-- ===== src/Vk/Tests.antt =====
-- Runs of the VK handshake.
use wgturn_core.Prelude.{
  ◌≤◌, min, has_prefix, contains, ℕ, true, false, List, [], ◌∷◌, Option, none, some, Bytes, codes,
  equal, Result, ok, err, length, ◌≡◌, refl, get_elem?,
}
use wgturn_core.Vk.Solvers.{Turn, chain_solve, chain_solve-first, joined, solver_error}
use Prim.Native.String.{String}
use wgturn_core.Share.{pos}
use wgturn_core.Creds.{Credentials, span}
use wgturn_core.Links.{
  after_first, all_call_id, bare_url, call_id, checked_id, drop_scheme, until, vk_turn_url,
  vk_call_id,
}
use wgturn_core.Tunnel.HostPort.{cut_first, cut_last, has_byte, split_host_port}
use wgturn_core.Conf.Strings
use wgturn_core.Conf.Strings.{trim_space, trim_left, trim_right}
use wgturn_core.Kernel.{decimal}
use wgturn_core.Json.{
  at_key, Json, number, text, array, object, no_item, item, Fields, no_field, field,
}
use wgturn_core.Vk.{
  CaptchaChallenge, Solution, detect_vk_error, captcha_challenge, scanned_attempt, ok_error,
  object_error, text_error, challenge_of, extract_captcha, skip_blanks,
}
use wgturn_core.Vk.Form.{
  empty_sid, apply_solution, get_field, HoldsAnswer, key_fields, token_fields, set_field,
}
use wgturn_core.Vk.Flow.{
  ApiClient, HttpAnswer, failed, answered, Wire, vk_fetch, at_step, fetch_turn, ◌>=>◌, post,
  read_answer, need_value, dig, post_ignored, step3_loop, solve_challenge, join_call,
  turn_credentials,
}
use wgturn_core.Vk.Effort.{vk_fetch-Costs}
use wgturn_core.Vk.Form.{apply_solution-HoldsAnswer}
use wgturn_core.Vk.Challenges.{Challenges}

abbrev entry : String → Json → Fields
entry name v = field (codes name) v no_field

abbrev captcha_error : Fields
captcha_error = entry "error" (
    object (
      field (codes "error_code") (number (pos 14) true) (
        field (codes "captcha_sid") (text (codes "s1"))
          (field (codes "captcha_attempt") (text (codes " 2")) no_field))))

abbrev turn_fields : Fields
turn_fields = entry "turn_server" (
    object (
      field (codes "username") (text (codes "u")) (
        field (codes "credential") (text (codes "p"))
          (entry "urls" (array (item (text (codes "turn:t.ru:19?x")) no_item))))))

-- What the server answers to its first, second, ... request; the third one is a challenge.
abbrev script : List Fields
script =
    entry "data" (object (entry "access_token" (text (codes "t1"))))
    ∷ entry "error" (text (codes "no preview"))
    ∷ captcha_error
    ∷ entry "response" (object (entry "token" (text (codes "t2"))))
    ∷ entry "session_key" (text (codes "k"))
    ∷ turn_fields
    ∷ []

abbrev scripted : Option Fields → HttpAnswer
scripted none = failed
scripted (some fields) = answered 200 (some (object fields))

abbrev typed_key : List CaptchaChallenge → CaptchaChallenge → Result ℕ Solution
typed_key earlier ch = ok (record { key = codes "abc"; success_token = [] })

abbrev test_client : ApiClient ℕ
test_client = record {
  app_id = codes "1";
  client_sec = codes "c";
  hosts = record { login = codes "l"; api = codes "a"; ok_host = codes "o" };
  guest_name = codes "Anna";
  device_id = codes "d";
  answer = λ earlier req. scripted (get_elem? script (length earlier));
  captcha = some typed_key;
}

abbrev test_link : Bytes
test_link = codes "https://vk.com/call/join/Ab1"

abbrev got_creds : Credentials
got_creds = record {
  username = codes "u";
  password = codes "p";
  server_addr = codes "t.ru:19";
  expires_in = span 0;
}

-- The requests of the run.
abbrev exchanged : Wire
exchanged = (vk_fetch test_client test_link).0

vk_fetch-Costs_example :
    (length ((vk_fetch test_client test_link).0.posted) ≤ 7)
    × (length ((vk_fetch test_client test_link).0.asked) ≤ 3)
vk_fetch-Costs_example = vk_fetch-Costs test_client test_link

abbrev challenge : CaptchaChallenge
challenge = record { sid = codes "s1"; img_url = []; redirect_uri = []; attempt = pos 2; ts = [] }

captcha_seen : detect_vk_error captcha_error ≡ some (captcha_challenge challenge)
unfolding vk_fetch vk_call_id trim_space has_prefix fetch_turn ◌>=>◌ post read_answer
    detect_vk_error at_key equal ok_error need_value dig post_ignored step3_loop object_error
    solve_challenge Strings.digits Strings.number trim_left trim_right decimal after_first
    all_call_id bare_url call_id checked_id drop_scheme until vk_turn_url contains cut_first
    cut_last has_byte split_host_port join_call turn_credentials apply_solution key_fields set_field
    token_fields challenge_of extract_captcha scanned_attempt skip_blanks text_error
captcha_seen = refl

-- A text after a token.
abbrev token_form : List (Bytes × Bytes)
token_form =
    (codes "captcha_key", [])
    ∷ (codes "is_sound_captcha", codes "0")
    ∷ (codes "success_token", codes "tok")
    ∷ (codes "captcha_attempt", codes "2")
    ∷ []

abbrev typed : Solution
typed = record { key = codes "abc"; success_token = [] }

-- The attempt of the token stays.
abbrev retried : List (Bytes × Bytes)
retried =
    (codes "captcha_key", codes "abc")
    ∷ (codes "is_sound_captcha", [])
    ∷ (codes "success_token", [])
    ∷ (codes "captcha_attempt", codes "2")
    ∷ (codes "captcha_sid", codes "s1")
    ∷ []

apply_solution-HoldsAnswer_example : HoldsAnswer challenge typed retried
unfolding vk_fetch vk_call_id trim_space has_prefix fetch_turn ◌>=>◌ post read_answer
    detect_vk_error at_key equal ok_error need_value dig post_ignored step3_loop object_error
    solve_challenge Strings.digits Strings.number trim_left trim_right decimal after_first
    all_call_id bare_url call_id checked_id drop_scheme until vk_turn_url contains cut_first
    cut_last has_byte split_host_port join_call turn_credentials apply_solution key_fields set_field
    token_fields challenge_of extract_captcha scanned_attempt skip_blanks text_error
apply_solution-HoldsAnswer_example =
    apply_solution-HoldsAnswer token_form retried challenge typed refl

abbrev key_turn : Turn ℕ
key_turn = record { solver = typed_key []; done = false }

abbrev failing_turn : Turn ℕ
failing_turn = record { solver = λ ch. err 7; done = false }

chain_solve-first_example :
    ((sol : Solution) (rest : List (Turn ℕ))
      → typed_key [] challenge ≡ ok sol
      → chain_solve challenge (failing_turn ∷ key_turn ∷ rest) ≡ ok sol)
    × ((e : ℕ)
        → typed_key [] challenge ≡ err e
        → chain_solve challenge (failing_turn ∷ key_turn ∷ [])
          ≡ err (joined (solver_error 0 7 ∷ solver_error 1 e ∷ [])))
chain_solve-first_example =
    chain_solve-first challenge ((failing_turn, 7) ∷ []) key_turn ((refl, refl), tt) refl

-- A server whose third step is a challenge whenever it is asked.
abbrev stubborn : ApiClient ℕ
stubborn = record test_client {
  answer = λ earlier req. scripted (get_elem? script (min 2 (length earlier)));
}

-- Three challenges are solved, and the answer to the third one is in none of the five requests.
third_answer_unsent :
    (length ((vk_fetch stubborn test_link).0.asked) ≡ 3)
    × (length ((vk_fetch stubborn test_link).0.posted) ≡ 5)
    × ((vk_fetch stubborn test_link).1 ≡ err (at_step 3 (captcha_challenge challenge)))
unfolding vk_fetch vk_call_id trim_space has_prefix fetch_turn ◌>=>◌ post read_answer
    detect_vk_error at_key equal ok_error need_value dig post_ignored step3_loop object_error
    solve_challenge Strings.digits Strings.number trim_left trim_right decimal after_first
    all_call_id bare_url call_id checked_id drop_scheme until vk_turn_url contains cut_first
    cut_last has_byte split_host_port join_call turn_credentials apply_solution key_fields set_field
    token_fields challenge_of extract_captcha scanned_attempt skip_blanks text_error
third_answer_unsent = (refl, refl, refl)

-- The attempt that the token was sent with is still on the form of the text.
retried_stale : get_field (codes "captcha_attempt") retried ≡ codes "2"
unfolding get_field equal
retried_stale = refl

-- A challenge with a picture and no id: it is shown to the solver, and no answer can be sent.
abbrev picture_only : Fields
picture_only =
    field (codes "error") (text (codes "need_captcha"))
      (field (codes "captcha_img") (text (codes "i")) no_field)

abbrev picture_challenge : CaptchaChallenge
picture_challenge = record {
  sid = [];
  img_url = codes "i";
  redirect_uri = [];
  attempt = pos 0;
  ts = [];
}

picture_unanswered :
    (detect_vk_error picture_only ≡ some (captcha_challenge picture_challenge))
    × (apply_solution token_form picture_challenge typed ≡ err empty_sid)
unfolding detect_vk_error text_error apply_solution at_key equal
picture_unanswered = (refl, refl)
