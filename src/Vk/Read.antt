-- ===== src/Vk/Read.antt =====
-- pkg/wgturn/provider/vk/api.go: steps that succeeded, and the credentials that a response holds.
use wgturn_core.Prelude.{
  none-ne-some, some-inj, ℕ, Option, none, some, Bytes, Result, ok, err, ◌≡◌, ◌≢◌, refl, sym, ap,
  ◌∙◌, Bool-cases, Option-cases, Result-cases, inl, inr, ok-inj, err-ne-ok,
}
use wgturn_core.Json.{Json, null, boolean, number, text, array, object, Items, Fields, first_item}
use wgturn_core.Creds.{Credentials}
use wgturn_core.Tunnel.{is_nil}
use wgturn_core.Tunnel.HostPort.{split_host_port}
use wgturn_core.Links.{vk_turn_url, bare_url, vk_schemes}
use wgturn_core.Conf.Strings.{trim_space}
use wgturn_core.Vk.Flow.{
  ApiClient, FetchError, at_step, Wire, FlowSteps, sent, at_nth, after, ◌>=>◌, need_value, post,
  Request, read_answer, dig_string, dig_slice, url_text, turn_server, turn_credentials,
}

module _ {E : Type 0} where
  pub failed-ne :
      {A : Type 0} {w w' : Wire} {e : FetchError E} {a : A}
      → ◌≢◌ {A = Wire × Result (FetchError E) A} (w, err e) (w', ok a)
  failed-ne h = cc

  after-ok :
      {A B : Type 0} (r : Wire × Result (FetchError E) A) (k : A → FlowSteps E B) {w' : Wire}
      {b : B}
      → after r k ≡ (w', ok b)
      → (w1 : Wire) × (a : A) × (r ≡ (w1, ok a)) × (k a w1 ≡ (w', ok b))
  after-ok (w, err e) k h = absurd (failed-ne h)
  after-ok (w, ok a) k h = (w, a, refl, h)

  -- A chain that succeeded: both its steps did.
  pub >=>-ok :
      {A B : Type 0} (s : FlowSteps E A) (k : A → FlowSteps E B) (w : Wire) {w' : Wire} {b : B}
      → (s >=> k) w ≡ (w', ok b)
      → (w1 : Wire) × (a : A) × (s w ≡ (w1, ok a)) × (k a w1 ≡ (w', ok b))
  unfolding ◌>=>◌
  >=>-ok s k w h = after-ok (s w) k h

  pub need_value-ok :
      {A : Type 0} (e : FetchError E) (o : Option A) (w : Wire) {w' : Wire} {a : A}
      → need_value e o w ≡ (w', ok a)
      → (o ≡ some a) × (w ≡ w')
  unfolding need_value
  need_value-ok e none w h = absurd (failed-ne h)
  need_value-ok e (some b) w h = (cc, cc)

-- The address that a URL of a TURN server gives is a host and a port.
vk_turn_url-splits :
    (raw addr : Bytes)
    → vk_turn_url raw ≡ some addr
    → (host : Bytes) × (port : Bytes) × (split_host_port addr ≡ some (host, port))
unfolding vk_turn_url
vk_turn_url-splits raw addr h = elim (Bool-cases (is_nil (trim_space raw))) [
  | inl e ↦ absurd (none-ne-some (rw (e) at h))
  | inr e ↦ elim (Option-cases (split_host_port (bare_url vk_schemes (trim_space raw)))) [
    | inl f ↦ absurd (none-ne-some (rw (e, f) at h))
    | inr ((host, port), f) ↦
        let same : bare_url vk_schemes (trim_space raw) ≡ addr = some-inj (rw (e, f) at h) in
        (host, port, ap split_host_port (sym same) ∙ f)
  ]
]

url_text-text : (v : Json) (raw : Bytes) → url_text v ≡ some raw → v ≡ text raw
url_text-text (text s) raw h = ap text (some-inj h)
url_text-text null raw h = absurd (none-ne-some h)
url_text-text (boolean b) raw h = absurd (none-ne-some h)
url_text-text (number z whole) raw h = absurd (none-ne-some h)
url_text-text (array vs) raw h = absurd (none-ne-some h)
url_text-text (object fs) raw h = absurd (none-ne-some h)

-- What credentials and the response that they come from have in common.
pub record Read (resp : Fields) (creds : Credentials) : Type 0 where
  pub user : dig_string (turn_server "username") resp ≡ some (creds.username)
  pub pass : dig_string (turn_server "credential") resp ≡ some (creds.password)
  pub urls : Items
  pub raw : Bytes
  pub listed : dig_slice (turn_server "urls") resp ≡ some urls
  pub first : first_item urls ≡ some (text raw)
  pub address : vk_turn_url raw ≡ some (creds.server_addr)
  pub host : Bytes
  pub port : Bytes
  pub splits : split_host_port (creds.server_addr) ≡ some (host, port)

module _ {E : Type 0} where
  pub turn_credentials-Read :
      (resp : Fields) (w w' : Wire) (creds : Credentials)
      → turn_credentials {E = E} resp w ≡ (w', ok creds)
      → Read resp creds × (w ≡ w')
  unfolding turn_credentials
  turn_credentials-Read resp w w' creds h =
      let (w1, user, h1, k1) = >=>-ok _ _ w h in
      let (w2, pass, h2, k2) = >=>-ok _ _ w1 k1 in
      let (w3, urls, h3, k3) = >=>-ok _ _ w2 k2 in
      let (w4, first, h4, k4) = >=>-ok _ _ w3 k3 in
      let (w5, raw, h5, k5) = >=>-ok _ _ w4 k4 in
      let (w6, addr, h6, k6) = >=>-ok _ _ w5 k5 in
      let same = ok-inj (ap (λ p. p.1) k6) in
      let (u, e1) = need_value-ok _ _ w h1 in
      let (p, e2) = need_value-ok _ _ w1 h2 in
      let (at_urls, e3) = need_value-ok _ _ w2 h3 in
      let (at_first, e4) = need_value-ok _ _ w3 h4 in
      let (at_raw, e5) = need_value-ok _ _ w4 h5 in
      let (url, e6) = need_value-ok _ _ w5 h6 in
      let (host, port, splits) = vk_turn_url-splits raw addr url in
      (
        record {
          user = u ∙ ap (λ c. some (c.username)) same;
          pass = p ∙ ap (λ c. some (c.password)) same;
          urls = urls;
          raw = raw;
          listed = at_urls;
          first = at_first ∙ ap some (url_text-text first raw at_raw);
          address = url ∙ ap (λ c. some (c.server_addr)) same;
          host = host;
          port = port;
          splits = ap (λ c. split_host_port (c.server_addr)) (sym same) ∙ splits;
        },
        e1 ∙ (e2 ∙ (e3 ∙ (e4 ∙ (e5 ∙ (e6 ∙ ap (λ p. p.0) k6))))),
      )

  pub post-ok :
      (client : ApiClient E) (n : ℕ) (req : Request) (w : Wire) {w' : Wire} {resp : Fields}
      → post client n req w ≡ (w', ok resp)
      → (sent w req ≡ w') × (read_answer (client.answer (w.posted) req) ≡ ok resp)
  unfolding post
  post-ok client n req w {resp = resp} h =
      elim (Result-cases (read_answer (client.answer (w.posted) req))) [
        | inl (e, f) ↦
            absurd (err-ne-ok (at_step n e) resp (ap (at_nth n) (sym f) ∙ ap (λ p. p.1) h))
        | inr (a, f) ↦
            (ap (λ p. p.0) h, f ∙ ap ok (ok-inj (ap (at_nth n) (sym f) ∙ ap (λ p. p.1) h)))
      ]
