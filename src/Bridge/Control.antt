-- ===== src/Bridge/Control.antt =====
-- pkg/wgturnsrv/backend_kernel.go: the flags of connections and generations, and what sets them.
use wgturn_core.Prelude.{
  ℕ, Bool, true, false, List, [], ◌∷◌, ◌++◌, Option, none, some, length, get_elem?, set, ◌≡◌, ◌≢◌,
  refl, sym, ◌∙◌, ap, inl, inr, arith, get_elem?-push, get_elem?-set_cases, get_elem?-append_length,
  length-set,
}
use wgturn_core.Bridge.{end_gen}

-- An element of a list of flags.
abbrev pub IsOpen : List Bool → ℕ → Type 0
IsOpen flags i = get_elem? flags i ≡ some false

-- The backend is taken exactly if a connection is not released, and there is at most one; the generation
-- that the bind holds is the only one that is open.
pub record IsControlled (gens : List Bool) (open_gen : Option ℕ) (released : List Bool)
    (opened : Bool) : Type 0 where
  pub has_conn : opened ≡ true → (c : ℕ) × IsOpen released c
  pub conn_opened : (c : ℕ) → IsOpen released c → opened ≡ true
  pub conns_apart : (c d : ℕ) → IsOpen released c → IsOpen released d → c ≡ d
  pub gen_open : (g : ℕ) → open_gen ≡ some g → IsOpen gens g
  pub gen_held : (g : ℕ) → IsOpen gens g → open_gen ≡ some g

pub some-inj {ℓ} : {A : Type ℓ} {a b : A} → some a ≡ some b → a ≡ b
some-inj h = cc

pub none-ne {ℓ} : {A : Type ℓ} {a : A} → none ≢ some a
none-ne h = cc

pub true-ne : false ≢ true
true-ne h = cc

length-end_gen : (held : Option ℕ) (gens : List Bool) → length (end_gen held gens) ≡ length gens
length-end_gen none gens = refl
length-end_gen (some g) gens = length-set gens g true

-- No flag is open after the one that is held is set.
pub end_gen-all :
    (gens : List Bool) (held : Option ℕ) (g : ℕ)
    → ((h : ℕ) → IsOpen gens h → held ≡ some h)
    → ¬ IsOpen (end_gen held gens) g
end_gen-all gens none g only at = cc (only g at)
end_gen-all gens (some h) g only at = elim (get_elem?-set_cases gens h g true at) [
  | inl (e, f) ↦ cc
  | inr (e, f) ↦ absurd (e (ground (arith, only g f)))
]

pub opened-IsControlled :
    {gens : List Bool} {held : Option ℕ} {conns : List Bool}
    → IsControlled gens held conns false
    → IsControlled gens held (conns ++ (false ∷ [])) true
opened-IsControlled {conns = conns} v = record {
  has_conn = λ e. (length conns, get_elem?-append_length conns [] false);
  conn_opened = λ c at. refl;
  conns_apart = λ c d at at'. elim (get_elem?-push conns false c at) [
    | inl old ↦ absurd (true-ne (v.conn_opened c old))
    | inr (e, f) ↦ elim (get_elem?-push conns false d at') [
      | inl old ↦ absurd (true-ne (v.conn_opened d old))
      | inr (e', f') ↦ e ∙ sym e'
    ]
  ];
  gen_open = v.gen_open;
  gen_held = v.gen_held;
}

-- Every connection is released once the one that was not is.
closed-none :
    {gens : List Bool} {held : Option ℕ} {conns : List Bool} {opened : Bool}
    → IsControlled gens held conns opened
    → (c : ℕ) → IsOpen conns c
    → (d : ℕ) → ¬ IsOpen (set conns c true) d
closed-none {conns = conns} v c live d at = elim (get_elem?-set_cases conns c d true at) [
  | inl (e, f) ↦ cc
  | inr (e, f) ↦ e (v.conns_apart c d live f)
]

pub closed-IsControlled :
    {gens : List Bool} {held : Option ℕ} {conns : List Bool} {opened : Bool} (c : ℕ)
    → IsOpen conns c
    → IsControlled gens held conns opened
    → IsControlled gens held (set conns c true) false
closed-IsControlled {conns = conns} c live v = record {
  has_conn = λ e. cc;
  conn_opened = λ d at. absurd (closed-none v c live d at);
  conns_apart = λ d d' at at'. absurd (closed-none v c live d at);
  gen_open = v.gen_open;
  gen_held = v.gen_held;
}

pub armed-IsControlled :
    {gens : List Bool} {held : Option ℕ} {conns : List Bool} {opened : Bool}
    → IsControlled gens held conns opened
    → IsControlled (end_gen held gens ++ (false ∷ [])) (some (length gens)) conns opened
armed-IsControlled {gens = gens} {held = held} v = record {
  has_conn = v.has_conn;
  conn_opened = v.conn_opened;
  conns_apart = v.conns_apart;
  gen_open = λ g e.
      let same : length gens ≡ g = some-inj e in
      rw (← same, ← length-end_gen held gens)
        (get_elem?-append_length (end_gen held gens) [] false);
  gen_held = λ g at. elim (get_elem?-push (end_gen held gens) false g at) [
    | inl old ↦ absurd (end_gen-all gens held g v.gen_held old)
    | inr (e, f) ↦ ap (λ y. some y) (sym (length-end_gen held gens) ∙ sym e)
  ];
}

pub disarmed-IsControlled :
    {gens : List Bool} {held : Option ℕ} {conns : List Bool} {opened : Bool}
    → IsControlled gens held conns opened
    → IsControlled (end_gen held gens) none conns opened
disarmed-IsControlled {gens = gens} {held = held} v = record {
  has_conn = v.has_conn;
  conn_opened = v.conn_opened;
  conns_apart = v.conns_apart;
  gen_open = λ g e. cc;
  gen_held = λ g at. absurd (end_gen-all gens held g v.gen_held at);
}
