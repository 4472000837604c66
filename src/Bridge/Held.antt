-- ===== src/Bridge/Held.antt =====
-- pkg/wgturnsrv/backend_kernel.go: the connections that hold the backend.
use wgturn_core.Prelude.{
  ℕ, zero, suc, ◌+◌, subst, Bool, true, false, List, [], ◌∷◌, ◌++◌, some, length, length-append,
  get_or, set, ◌≡◌, get_elem?-set_ne, sym, ◌∙◌, ap, inl, inr, get_elem?-push, get_elem?-set_cases,
  get_elem?-append_length, length-set,
}
use wgturn_core.Bridge.Control.{IsOpen, some-inj}

-- A flag stays where it is when one is put behind it.
get_elem?-append-some :
    (flags : List Bool) (x : Bool) (c : ℕ) → IsOpen flags c → IsOpen (flags ++ (x ∷ [])) c
get_elem?-append-some [] x c h = cc
get_elem?-append-some (y ∷ flags) x zero h = h
get_elem?-append-some (y ∷ flags) x (suc c) h = get_elem?-append-some flags x c h

-- Every open connection is one that is not released, and both lists are of the connections.
pub record IsHeld (conns released : List Bool) : Type 0 where
  pub as_long : length conns ≡ length released
  pub live_held : (c : ℕ) → IsOpen conns c → IsOpen released c

pub push-IsHeld :
    (conns released : List Bool)
    → IsHeld conns released
    → IsHeld (conns ++ (false ∷ [])) (released ++ (false ∷ []))
push-IsHeld conns released v = record {
  as_long =
      length-append conns (false ∷ [])
      ∙ (ap (λ n. n + 1) (v.as_long) ∙ sym (length-append released (false ∷ [])));
  live_held = λ c at. elim (get_elem?-push conns false c at) [
    | inl old ↦ get_elem?-append-some released false c (v.live_held c old)
    | inr (e, f) ↦
        subst (λ i. IsOpen (released ++ (false ∷ [])) i) (sym (v.as_long) ∙ sym e)
          (get_elem?-append_length released [] false)
  ];
}

pub get_or-IsOpen : (flags : List Bool) (i : ℕ) → get_or flags i true ≡ false → IsOpen flags i
get_or-IsOpen [] i h = cc
get_or-IsOpen (x ∷ flags) zero h = ap (λ y. some y) h
get_or-IsOpen (x ∷ flags) (suc i) h = get_or-IsOpen flags i h

-- Closing a connection leaves it unreleased.
pub marked-IsHeld :
    (conns released : List Bool) (c : ℕ)
    → IsHeld conns released
    → IsHeld (set conns c true) released
marked-IsHeld conns released c v = record {
  as_long = length-set conns c true ∙ v.as_long;
  live_held = λ d at. elim (get_elem?-set_cases conns c d true at) [
    | inl (e, f) ↦ cc
    | inr (e, f) ↦ v.live_held d f
  ];
}

IsOpen-get_or : (flags : List Bool) (i : ℕ) → IsOpen flags i → get_or flags i true ≡ false
IsOpen-get_or [] i h = cc
IsOpen-get_or (x ∷ flags) zero h = some-inj h
IsOpen-get_or (x ∷ flags) (suc i) h = IsOpen-get_or flags i h

-- A connection that is closed is released, and the open ones stay as they are.
pub released-IsHeld :
    (conns released : List Bool) (c : ℕ)
    → get_or conns c true ≡ true
    → IsHeld conns released
    → IsHeld conns (set released c true)
released-IsHeld conns released c shut v = record {
  as_long = v.as_long ∙ sym (length-set released c true);
  live_held = λ d at.
      get_elem?-set_ne released true (λ e. cc (shut, IsOpen-get_or conns d at, e))
      ∙ v.live_held d at;
}
