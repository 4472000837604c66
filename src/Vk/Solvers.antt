-- ===== src/Vk/Solvers.antt =====
-- pkg/wgturn/provider/vk/captchasolve/chain.go: captcha solvers that are tried in turn. A solver is a
-- function of the challenge; the context is asked before each of them. The callbacks are left out.
use mathlib.Core.List.{append_assoc, append-nil}
use wgturn_core.Prelude.{
  ℕ, suc, ◌+◌, Bool, true, false, List, [], ◌∷◌, ◌++◌, Result, ok, err, length, ◌≡◌, refl, sym, ap,
  ◌∙◌, arith, All,
}
use wgturn_core.Vk.{CaptchaChallenge, Solution}

-- The parts of a joined error: the error of a solver, with its place, or that of the context.
pub data Failure (E : Type 0) : Type 0 where
  solver_error : ℕ → E → Failure E
  ctx_error : Failure E

pub data ChainError (E : Type 0) : Type 0 where
  no_solvers : ChainError E
  joined : List (Failure E) → ChainError E

-- A solver, and whether the context is done when its turn comes.
pub record Turn (E : Type 0) : Type 0 where
  pub solver : CaptchaChallenge → Result E Solution
  pub done : Bool

module _ {E : Type 0} where
  -- A solver that fails adds its error, and the rest of the loop goes on with the failures.
  abbrev pub turn_result :
      ℕ
      → Bool
      → Result E Solution
      → List (Failure E)
      → (List (Failure E) → Result (ChainError E) Solution)
      → Result (ChainError E) Solution
  turn_result i true r failures later = err (joined (failures ++ (ctx_error ∷ [])))
  turn_result i false (ok sol) failures later = ok sol
  turn_result i false (err e) failures later = later (failures ++ (solver_error i e ∷ []))

  -- The loop of `ChainSolver.Solve`.
  unfoldable pub chain_loop :
      ℕ → CaptchaChallenge → List (Turn E) → List (Failure E) → Result (ChainError E) Solution
  chain_loop i ch [] failures = err (joined failures)
  chain_loop i ch (t ∷ ts) failures =
      turn_result i (t.done) (t.solver ch) failures (chain_loop (i + 1) ch ts)

  -- `ChainSolver.Solve`
  unfoldable pub chain_solve : CaptchaChallenge → List (Turn E) → Result (ChainError E) Solution
  unfolding chain_loop
  chain_solve ch [] = err no_solvers
  chain_solve ch (t ∷ ts) = chain_loop 0 ch (t ∷ ts) []

  -- A turn that is taken and fails.
  abbrev pub Fails : CaptchaChallenge → Turn E × E → Type 0
  Fails ch (t, e) = (t.done ≡ false) × (t.solver ch ≡ err e)

  abbrev pub turns : List (Turn E × E) → List (Turn E)
  turns [] = []
  turns ((t, e) ∷ rest) = t ∷ turns rest

  -- The errors of the solvers, each with its place.
  abbrev pub failures_from : ℕ → List (Turn E × E) → List (Failure E)
  failures_from i [] = []
  failures_from i ((t, e) ∷ rest) = solver_error i e ∷ failures_from (i + 1) rest

  -- Solvers that fail are passed over, and their errors are kept.
  chain_loop-turns :
      (i : ℕ) (failures : List (Failure E)) (ch : CaptchaChallenge) (front : List (Turn E × E))
      (ts : List (Turn E))
      → All (Fails ch) front
      → chain_loop i ch (turns front ++ ts) failures
        ≡ chain_loop (i + length front) ch ts (failures ++ failures_from i front)
  unfolding chain_loop
  chain_loop-turns i failures ch [] ts h =
      let same : i ≡ i + 0 = omega arith in
      ap (λ j. chain_loop j ch ts failures) same
      ∙ ap (chain_loop (i + 0) ch ts) (sym (append-nil failures))
  chain_loop-turns i failures ch ((t, e) ∷ front) ts h =
      let (ready, fails) = h.0 in
      let later = chain_loop (i + 1) ch (turns front ++ ts) in
      let place : (i + 1) + length front ≡ i + suc (length front) = omega arith in
      let rest = failures_from (i + 1) front in
      ap (λ d. turn_result i d (t.solver ch) failures later) ready
      ∙ (ap (λ r. turn_result i false r failures later) fails
          ∙ (chain_loop-turns (i + 1) (failures ++ (solver_error i e ∷ [])) ch front ts (h.1)
              ∙ (ap (λ j. chain_loop j ch ts ((failures ++ (solver_error i e ∷ [])) ++ rest)) place
                  ∙ ap (chain_loop (i + suc (length front)) ch ts)
                      (append_assoc failures (solver_error i e ∷ []) rest))))

  -- At least one turn: the chain is its loop.
  chain_solve-loop :
      (ch : CaptchaChallenge) (t : Turn E) (ts : List (Turn E))
      → chain_solve ch (t ∷ ts) ≡ chain_loop 0 ch (t ∷ ts) []
  unfolding chain_solve
  chain_solve-loop ch t ts = refl

  chain_solve-front :
      (ch : CaptchaChallenge) (front : List (Turn E × E)) (t : Turn E) (ts : List (Turn E))
      → chain_solve ch (turns front ++ (t ∷ ts)) ≡ chain_loop 0 ch (turns front ++ (t ∷ ts)) []
  chain_solve-front ch [] t ts = chain_solve-loop ch t ts
  chain_solve-front ch ((u, e) ∷ front) t ts = chain_solve-loop ch u (turns front ++ (t ∷ ts))

  -- While the context is live, the chain gives the answer of its first solver that has one, and the
  -- solvers behind that one do not matter; where every one of at least one solver fails, it gives all their
  -- errors in order.
  pub chain_solve-first :
      (ch : CaptchaChallenge) (front : List (Turn E × E)) (t : Turn E)
      → All (Fails ch) front
      → t.done ≡ false
      → ((sol : Solution) (rest : List (Turn E))
          → t.solver ch ≡ ok sol
          → chain_solve ch (turns front ++ (t ∷ rest)) ≡ ok sol)
        × ((e : E)
            → t.solver ch ≡ err e
            → chain_solve ch (turns front ++ (t ∷ []))
              ≡ err (joined (failures_from 0 front ++ (solver_error (length front) e ∷ []))))
  unfolding chain_loop
  chain_solve-first ch front t h live =
      let at : List (Turn E) → Bool → Result E Solution → Result (ChainError E) Solution =
        λ rest done r.
          turn_result (length front) done r (failures_from 0 front)
            (chain_loop (length front + 1) ch rest) in
      let reach : (rest : List (Turn E))
          → chain_solve ch (turns front ++ (t ∷ rest)) ≡ at rest false (t.solver ch) =
        λ rest.
          chain_solve-front ch front t rest
          ∙ (chain_loop-turns 0 [] ch front (t ∷ rest) h
              ∙ (ap (λ j. chain_loop j ch (t ∷ rest) (failures_from 0 front)) (omega arith)
                  ∙ ap (λ d. at rest d (t.solver ch)) live)) in
      (
        (λ sol rest e. reach rest ∙ ap (λ r. at rest false r) e),
        (λ e f. reach [] ∙ ap (λ r. at [] false r) f),
      )
