-- ===== src/Vk/Chain.antt =====
-- pkg/wgturn/provider/vk/api.go and provider.go: what a fetch that succeeds was built from.
use wgturn_core.Prelude.{◌++◌, List, [], ◌∷◌, some, Bytes, codes, ok, ◌≡◌}
use wgturn_core.Json.{Fields}
use wgturn_core.Creds.{Credentials}
use wgturn_core.Vk.Form.{get_field}
use wgturn_core.Vk.Flow.{ApiClient, Wire, Request, read_answer, dig_string}
use wgturn_core.Vk.Read.{Read}

-- The requests and answers at the end of a fetch that gave credentials: the request of a token of the call,
-- a login whose answer has the key of the session, the join of the call with that token and key, and the
-- answer to the join, which the credentials are read from.
pub record Joined {E : Type 0} (client : ApiClient E) (call_id : Bytes) (w : Wire)
    (creds : Credentials) : Type 0 where
  pub earlier : List Request
  pub ask_token : Request
  pub login : Request
  pub join : Request
  pub requests : w.posted ≡ join ∷ login ∷ ask_token ∷ earlier
  pub token_url :
      ask_token.url
      ≡ client.hosts.api
        ++ (codes "/method/calls.getAnonymousToken?v=5.275&client_id=" ++ client.app_id)
  pub token_answer : Fields
  pub token : Bytes
  pub token_given : read_answer (client.answer earlier ask_token) ≡ ok token_answer
  pub token_of : dig_string (codes "response" ∷ codes "token" ∷ []) token_answer ≡ some token
  pub login_url : login.url ≡ client.hosts.ok_host ++ codes "/fb.do"
  pub login_method : get_field (codes "method") (login.form) ≡ codes "auth.anonymLogin"
  pub login_answer : Fields
  pub session_key : Bytes
  pub logged_in : read_answer (client.answer (ask_token ∷ earlier) login) ≡ ok login_answer
  pub key_of : dig_string (codes "session_key" ∷ []) login_answer ≡ some session_key
  pub join_url : join.url ≡ client.hosts.ok_host ++ codes "/fb.do"
  pub join_method : get_field (codes "method") (join.form) ≡ codes "vchat.joinConversationByLink"
  pub join_link : get_field (codes "joinLink") (join.form) ≡ call_id
  pub join_token : get_field (codes "anonymToken") (join.form) ≡ token
  pub join_key : get_field (codes "session_key") (join.form) ≡ session_key
  pub joined : Fields
  pub join_answer : read_answer (client.answer (login ∷ ask_token ∷ earlier) join) ≡ ok joined
  pub credentials : Read joined creds
