-- ===== src/Yandex/Walk.antt =====
-- pkg/wgturn/provider/yandex/ws.go: what the search finds.
use wgturn_core.Prelude.{
  none-ne-some, List, [], ◌∷◌, Option, none, some, Bytes, equal, ◌≡◌, ◌⊎◌, inl, inr, refl, sym,
  Bool-cases, subst,
}
use wgturn_core.Json.{
  Json, null, boolean, number, text, array, object, Items, no_item, item, Fields, no_field, field,
}
use wgturn_core.Yandex.{
  TurnServer, or_else, try_ice_fields, try_ice_entry, try_items, found_at, found_at_keys,
  first_found, ice_keys, walk_for_turn, walk_items, walk_fields,
}

pub data IsItem : Json → Items → Type 0 where
  item_here : (v : Json) (rest : Items) → IsItem v (item v rest)
  item_later : (v w : Json) (rest : Items) → IsItem v rest → IsItem v (item w rest)

pub data IsField : Json → Fields → Type 0 where
  field_here : (v : Json) (name : Bytes) (rest : Fields) → IsField v (field name v rest)
  field_later :
      (v w : Json) (name : Bytes) (rest : Fields) → IsField v rest → IsField v (field name w rest)

-- Somewhere in the value stands an object that gives a TURN server.
pub data Inside : Json → TurnServer → Type 0 where
  entry : (m : Fields) (t : TurnServer) → try_ice_fields m ≡ some t → Inside (object m) t
  in_array :
      (vs : Items) (v : Json) (t : TurnServer) → IsItem v vs → Inside v t → Inside (array vs) t
  in_object :
      (m : Fields) (v : Json) (t : TurnServer) → IsField v m → Inside v t → Inside (object m) t

-- A choice that gives a value took it from one side.
or_else-some :
    (a b : Option TurnServer) {t : TurnServer} → or_else a b ≡ some t → (a ≡ some t) ⊎ (b ≡ some t)
or_else-some none b h = inr h
or_else-some (some s) b h = inl h

or_else-left :
    (a b : Option TurnServer) {t : TurnServer}
    → a ≡ some t
    → (s : TurnServer) × (or_else a b ≡ some s)
or_else-left none b h = absurd (none-ne-some h)
or_else-left (some s) b h = (s, refl)

or_else-right :
    (a b : Option TurnServer)
    → ((s : TurnServer) × (b ≡ some s))
    → (s : TurnServer) × (or_else a b ≡ some s)
or_else-right none b h = h
or_else-right (some s) b h = (s, refl)

try_ice_entry-Inside : (v : Json) (t : TurnServer) → try_ice_entry v ≡ some t → Inside v t
try_ice_entry-Inside (object m) t h = entry m t h
try_ice_entry-Inside null t h = absurd (none-ne-some h)
try_ice_entry-Inside (boolean b) t h = absurd (none-ne-some h)
try_ice_entry-Inside (number z whole) t h = absurd (none-ne-some h)
try_ice_entry-Inside (text s) t h = absurd (none-ne-some h)
try_ice_entry-Inside (array vs) t h = absurd (none-ne-some h)

try_items-Inside :
    (vs : Items) (t : TurnServer) → try_items vs ≡ some t → (v : Json) × IsItem v vs × Inside v t
unfolding try_items
try_items-Inside no_item t h = absurd (none-ne-some h)
try_items-Inside (item v rest) t h = elim (or_else-some (try_ice_entry v) (try_items rest) h) [
  | inl e ↦ (v, item_here v rest, try_ice_entry-Inside v t e)
  | inr e ↦ let (w, at, inside) = try_items-Inside rest t e in (w, item_later w v rest at, inside)
]

-- A result that is in the list of results.
pub data IsResult : TurnServer → List (Bytes × Option TurnServer) → Type 0 where
  result_here :
      (t : TurnServer) (name : Bytes) (rest : List (Bytes × Option TurnServer))
      → IsResult t ((name, some t) ∷ rest)
  result_later :
      (t : TurnServer) (name : Bytes) (r : Option TurnServer)
      (rest : List (Bytes × Option TurnServer))
      → IsResult t rest
      → IsResult t ((name, r) ∷ rest)

IsResult-at :
    (t : TurnServer) (name : Bytes) (r : Option TurnServer)
    (rest : List (Bytes × Option TurnServer))
    → r ≡ some t
    → IsResult t ((name, r) ∷ rest)
IsResult-at t name r rest h =
    subst (λ o. IsResult t ((name, o) ∷ rest)) (sym h) (result_here t name rest)

IsResult-cases :
    (t : TurnServer) (name : Bytes) (r : Option TurnServer)
    (rest : List (Bytes × Option TurnServer))
    → IsResult t ((name, r) ∷ rest)
    → (r ≡ some t) ⊎ IsResult t rest
IsResult-cases t name (some _) rest (result_here _ _ _) = inl refl
IsResult-cases t name r rest (result_later _ _ _ _ h) = inr h

found_at-IsResult :
    (k : Bytes) (rs : List (Bytes × Option TurnServer)) (t : TurnServer)
    → found_at k rs ≡ some t
    → IsResult t rs
unfolding found_at
found_at-IsResult k [] t h = absurd (none-ne-some h)
found_at-IsResult k ((name, r) ∷ rest) t h = elim (Bool-cases (equal k name)) [
  | inl e ↦ IsResult-at t name r rest (rw (e) at h)
  | inr e ↦ result_later t name r rest (found_at-IsResult k rest t (rw (e) at h))
]

found_at_keys-IsResult :
    (ks : List Bytes) (rs : List (Bytes × Option TurnServer)) (t : TurnServer)
    → found_at_keys ks rs ≡ some t
    → IsResult t rs
unfolding found_at_keys
found_at_keys-IsResult [] rs t h = absurd (none-ne-some h)
found_at_keys-IsResult (k ∷ ks) rs t h =
    elim (or_else-some (found_at k rs) (found_at_keys ks rs) h) [
      | inl e ↦ found_at-IsResult k rs t e
      | inr e ↦ found_at_keys-IsResult ks rs t e
    ]

first_found-IsResult :
    (rs : List (Bytes × Option TurnServer)) (t : TurnServer)
    → first_found rs ≡ some t
    → IsResult t rs
unfolding first_found
first_found-IsResult [] t h = absurd (none-ne-some h)
first_found-IsResult ((name, r) ∷ rest) t h = elim (or_else-some r (first_found rest) h) [
  | inl e ↦ IsResult-at t name r rest e
  | inr e ↦ result_later t name r rest (first_found-IsResult rest t e)
]

mutual
  unfolding walk_for_turn

  walk_sound : (v : Json) (t : TurnServer) → walk_for_turn v ≡ some t → Inside v t
  walk_sound null t h = absurd (none-ne-some h)
  walk_sound (boolean b) t h = absurd (none-ne-some h)
  walk_sound (number z whole) t h = absurd (none-ne-some h)
  walk_sound (text s) t h = absurd (none-ne-some h)
  walk_sound (array vs) t h = elim (or_else-some (try_items vs) (walk_items vs) h) [
    | inl e ↦ let (v, at, inside) = try_items-Inside vs t e in in_array vs v t at inside
    | inr e ↦ let (v, at, inside) = walk_items_sound vs t e in in_array vs v t at inside
  ]
  walk_sound (object m) t h =
      let children : IsResult t (walk_fields m) → Inside (object m) t =
        λ r. let (v, at, inside) = walk_fields_sound m t r in in_object m v t at inside in
      elim (or_else-some (found_at_keys ice_keys (walk_fields m)) _ h) [
        | inl e ↦ children (found_at_keys-IsResult ice_keys (walk_fields m) t e)
        | inr e ↦ elim (or_else-some (try_ice_fields m) (first_found (walk_fields m)) e) [
          | inl f ↦ entry m t f
          | inr f ↦ children (first_found-IsResult (walk_fields m) t f)
        ]
      ]

  walk_items_sound :
      (vs : Items) (t : TurnServer) → walk_items vs ≡ some t → (v : Json) × IsItem v vs × Inside v t
  walk_items_sound no_item t h = absurd (none-ne-some h)
  walk_items_sound (item v rest) t h = elim (or_else-some (walk_for_turn v) (walk_items rest) h) [
    | inl e ↦ (v, item_here v rest, walk_sound v t e)
    | inr e ↦ let (w, at, inside) = walk_items_sound rest t e in (w, item_later w v rest at, inside)
  ]

  walk_fields_sound :
      (m : Fields) (t : TurnServer)
      → IsResult t (walk_fields m)
      → (v : Json) × IsField v m × Inside v t
  walk_fields_sound no_field t r = elim r [ ]
  walk_fields_sound (field name v rest) t r =
      elim (IsResult-cases t name (walk_for_turn v) (walk_fields rest) r) [
        | inl e ↦ (v, field_here v name rest, walk_sound v t e)
        | inr later ↦
            let (w, at, inside) = walk_fields_sound rest t later in
            (w, field_later w v name rest at, inside)
      ]

-- A result in the list is enough for the last loop over an object.
first_found_complete :
    (m : Fields) (v : Json) (t : TurnServer)
    → IsField v m
    → walk_for_turn v ≡ some t
    → (s : TurnServer) × (first_found (walk_fields m) ≡ some s)
unfolding first_found walk_for_turn
first_found_complete no_field v t at h = elim at [ ]
first_found_complete (field name v rest) _ t (field_here _ _ _) h =
    or_else-left (walk_for_turn v) (first_found (walk_fields rest)) h
first_found_complete (field name w rest) v t (field_later _ _ _ _ at) h =
    or_else-right (walk_for_turn w) (first_found (walk_fields rest))
      (first_found_complete rest v t at h)

walk_items_complete :
    (vs : Items) (v : Json) (t : TurnServer)
    → IsItem v vs
    → walk_for_turn v ≡ some t
    → (s : TurnServer) × (walk_items vs ≡ some s)
unfolding walk_for_turn
walk_items_complete no_item v t at h = elim at [ ]
walk_items_complete (item v rest) _ t (item_here _ _) h =
    or_else-left (walk_for_turn v) (walk_items rest) h
walk_items_complete (item w rest) v t (item_later _ _ _ at) h =
    or_else-right (walk_for_turn w) (walk_items rest) (walk_items_complete rest v t at h)

walk_complete :
    (v : Json) (t : TurnServer) → Inside v t → (s : TurnServer) × (walk_for_turn v ≡ some s)
unfolding walk_for_turn
walk_complete null t x = elim x [ ]
walk_complete (boolean b) t x = elim x [ ]
walk_complete (number z whole) t x = elim x [ ]
walk_complete (text s) t x = elim x [ ]
walk_complete (object m) t (entry _ _ h) =
    or_else-right (found_at_keys ice_keys (walk_fields m))
      (or_else (try_ice_fields m) (first_found (walk_fields m)))
      (or_else-left (try_ice_fields m) (first_found (walk_fields m)) h)
walk_complete (array vs) t (in_array _ v _ at inside) =
    let (s, found) = walk_complete v t inside in
    or_else-right (try_items vs) (walk_items vs) (walk_items_complete vs v s at found)
walk_complete (object m) t (in_object _ v _ at inside) =
    let (s, found) = walk_complete v t inside in
    or_else-right (found_at_keys ice_keys (walk_fields m))
      (or_else (try_ice_fields m) (first_found (walk_fields m)))
      (or_else-right (try_ice_fields m) (first_found (walk_fields m))
        (first_found_complete m v s at found))

-- What the search returns stands in the value as an entry of its own, and where there is an entry the
-- search returns one.
pub walk_for_turn-Inside :
    (v : Json)
    → ((t : TurnServer) → walk_for_turn v ≡ some t → Inside v t)
      × ((t : TurnServer) → Inside v t → (s : TurnServer) × (walk_for_turn v ≡ some s))
walk_for_turn-Inside v = (walk_sound v, walk_complete v)
