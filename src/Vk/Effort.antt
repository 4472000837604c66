-- ===== src/Vk/Effort.antt =====
-- pkg/wgturn/provider/vk/api.go: how often a fetch asks the server and the solver.
use wgturn_core.Prelude.{
  ℕ, zero, suc, ◌+◌, ◌≤◌, List, Option, none, some, Bytes, Result, ok, err, length, arith,
}
use wgturn_core.Json.{Fields}
use wgturn_core.Links.{vk_call_id}
use wgturn_core.Vk.{CaptchaChallenge, Solution, captcha_challenge}
use wgturn_core.Vk.Form.{ApplyError, apply_solution}
use wgturn_core.Vk.Flow.{
  ApiClient, FetchError, at_step, Wire, FlowSteps, after, ◌>=>◌, need_value, post, post_ignored,
  on_challenge, solve_challenge, step3_loop, turn_credentials, join_call, fetch_turn, vk_fetch,
  fetch_call, applied, solved, ask, Request, step3_request, nothing_sent,
}

-- From one state of the wire to another one: at most `p` requests and `q` challenges more.
abbrev pub Costs : ℕ → ℕ → Wire → Wire → Type 0
Costs p q w w' =
    (length (w'.posted) ≤ p + length (w.posted)) × (length (w'.asked) ≤ q + length (w.asked))

-- The steps cost at most this, whatever was sent before.
record Within {E A : Type 0} (p q : ℕ) (s : FlowSteps E A) : Type 0 where
  costs : (w : Wire) → Costs p q w ((s w).0)

after-Costs :
    {E A B : Type 0} (p q m n : ℕ) (w : Wire) (r : Wire × Result (FetchError E) A)
    (k : A → FlowSteps E B)
    → Costs p q w (r.0)
    → ((a : A) → Within m n (k a))
    → Costs (p + m) (q + n) w ((after r k).0)
after-Costs p q m n w (w1, err e) k h g = (omega (arith, h.0), omega (arith, h.1))
after-Costs p q m n w (w1, ok a) k h g =
    (omega (arith, h.0, ((g a).costs w1).0), omega (arith, h.1, ((g a).costs w1).1))

>=>-Within :
    {E A B : Type 0} (p q m n : ℕ) (s : FlowSteps E A) (k : A → FlowSteps E B)
    → Within p q s
    → ((a : A) → Within m n (k a))
    → Within (p + m) (q + n) (s >=> k)
unfolding ◌>=>◌
>=>-Within p q m n s k h g = record { costs = λ w. after-Costs p q m n w (s w) k (h.costs w) g }

need_value-Within : {E A : Type 0} (e : FetchError E) (o : Option A) → Within 0 0 (need_value e o)
unfolding need_value
need_value-Within e none = record { costs = λ w. (omega arith, omega arith) }
need_value-Within e (some a) = record { costs = λ w. (omega arith, omega arith) }

-- A solver is asked once.
solved-Costs :
    {E : Type 0} (w w' : Wire) (form : List (Bytes × Bytes)) (ch : CaptchaChallenge)
    (r : Result E Solution)
    → Costs 0 1 w w'
    → Costs 0 1 w ((solved w' form ch r).0)
solved-Costs w w' form ch (err e) h = h
solved-Costs {E = E} w w' form ch (ok sol) h = go (apply_solution form ch sol)
  where
    go : (r : Result ApplyError (List (Bytes × Bytes))) → Costs 0 1 w ((applied {E = E} w' r).0)
    go (err e) = h
    go (ok form') = h

ask-Costs :
    {E : Type 0} (captcha : Option (List CaptchaChallenge → CaptchaChallenge → Result E Solution))
    (form : List (Bytes × Bytes)) (ch : CaptchaChallenge) (w : Wire)
    → Costs 0 1 w ((ask captcha form ch w).0)
ask-Costs none form ch w = (omega arith, omega arith)
ask-Costs (some solve) form ch w =
    solved-Costs w _ form ch (solve (w.asked) ch) (omega arith, omega arith)

done-Within : {E A : Type 0} (a : A) → Within {E = E} 0 0 (λ w. (w, ok a))
done-Within a = record { costs = λ w. (omega arith, omega arith) }

turn_credentials-Within : {E : Type 0} (resp : Fields) → Within 0 0 (turn_credentials {E = E} resp)
unfolding turn_credentials
turn_credentials-Within resp = >=>-Within 0 0 0 0 _ _ (need_value-Within _ _) (λ user.
    >=>-Within 0 0 0 0 _ _ (need_value-Within _ _) (λ pass.
      >=>-Within 0 0 0 0 _ _ (need_value-Within _ _) (λ urls.
        >=>-Within 0 0 0 0 _ _ (need_value-Within _ _) (λ first.
          >=>-Within 0 0 0 0 _ _ (need_value-Within _ _)
            (λ raw. >=>-Within 0 0 0 0 _ _ (need_value-Within _ _) (λ addr. done-Within _))))))

module _ {E : Type 0} (client : ApiClient E) where
  post-Costs : (n : ℕ) (req : Request) (w : Wire) → Costs 1 0 w ((post client n req w).0)
  unfolding post
  post-Costs n req w = (omega arith, omega arith)

  post-Within : (n : ℕ) (req : Request) → Within 1 0 (post client n req)
  post-Within n req = record { costs = post-Costs n req }

  post_ignored-Within : (req : Request) → Within 1 0 (post_ignored client req)
  unfolding post_ignored
  post_ignored-Within req = record { costs = λ w. (omega arith, omega arith) }

  solve_challenge-Within :
      (form : List (Bytes × Bytes)) (ch : CaptchaChallenge)
      → Within 0 1 (solve_challenge client form ch)
  unfolding solve_challenge
  solve_challenge-Within form ch = record { costs = ask-Costs (client.captcha) form ch }

  on_challenge-Costs :
      (p q : ℕ) (w : Wire) (r : Wire × Result (FetchError E) Fields)
      (k : CaptchaChallenge → FlowSteps E Fields)
      → Costs 1 0 w (r.0)
      → ((ch : CaptchaChallenge) → Within p q (k ch))
      → Costs (1 + p) q w ((on_challenge r k).0)
  on_challenge-Costs p q w (w1, ok out) k h g = (omega (arith, h.0), omega (arith, h.1))
  on_challenge-Costs p q w (w1, err (at_step n (captcha_challenge ch))) k h g =
      (omega (arith, h.0, ((g ch).costs w1).0), omega (arith, h.1, ((g ch).costs w1).1))
  on_challenge-Costs p q w (w1, err _) k h g = (omega (arith, h.0), omega (arith, h.1))

  step3_loop-Within :
      (n : ℕ) (last : FetchError E) (form : List (Bytes × Bytes))
      → Within n n (step3_loop client n last form)
  unfolding step3_loop
  step3_loop-Within zero last form = record { costs = λ w. (omega arith, omega arith) }
  step3_loop-Within (suc n) last form =
      let next : CaptchaChallenge → FlowSteps E Fields = λ ch.
        solve_challenge client form ch
        >=> (λ form'. step3_loop client n (at_step 3 (captcha_challenge ch)) form') in
      let retry : (ch : CaptchaChallenge) → Within (0 + n) (1 + n) (next ch) = λ ch.
        >=>-Within 0 1 n n _ _ (solve_challenge-Within form ch)
          (λ form'. step3_loop-Within n (at_step 3 (captcha_challenge ch)) form') in
      record {
        costs = λ w.
            let first = post-Costs 3 (step3_request client form) w in
            let h =
              on_challenge-Costs (0 + n) (1 + n) w (post client 3 (step3_request client form) w)
                next first retry in
            (omega (arith, h.0), omega (arith, h.1));
      }

  join_call-Within : (call_id token2 : Bytes) → Within 2 0 (join_call client call_id token2)
  unfolding join_call
  join_call-Within call_id token2 = >=>-Within 1 0 1 0 _ _ (post-Within 4 _) (λ resp.
      >=>-Within 0 0 1 0 _ _ (need_value-Within _ _)
        (λ key. >=>-Within 1 0 0 0 _ _ (post-Within 5 _) turn_credentials-Within))

  fetch_turn-Within : (call_id : Bytes) → Within 7 3 (fetch_turn client call_id)
  unfolding fetch_turn
  fetch_turn-Within call_id = >=>-Within 1 0 6 3 _ _ (post-Within 1 _) (λ resp.
      >=>-Within 0 0 6 3 _ _ (need_value-Within _ _) (λ token1.
        >=>-Within 1 0 5 3 _ _ (post_ignored-Within _) (λ _.
          >=>-Within 3 3 2 0 _ _ (step3_loop-Within 3 _ _) (λ resp.
            >=>-Within 0 0 2 0 _ _ (need_value-Within _ _)
              (λ token2. join_call-Within call_id token2)))))

  fetch_call-Costs :
      (call : Option Bytes)
      → (length ((fetch_call client call).0.posted) ≤ 7)
        × (length ((fetch_call client call).0.asked) ≤ 3)
  fetch_call-Costs none = (omega arith, omega arith)
  fetch_call-Costs (some call_id) = (fetch_turn-Within call_id).costs nothing_sent

-- Whatever the server and the solver answer, a fetch ends after at most seven requests and at most three
-- challenges.
pub vk_fetch-Costs :
    {E : Type 0} (client : ApiClient E) (hint : Bytes)
    → (length ((vk_fetch client hint).0.posted) ≤ 7) × (length ((vk_fetch client hint).0.asked) ≤ 3)
unfolding vk_fetch
vk_fetch-Costs client hint = fetch_call-Costs client (vk_call_id hint)
