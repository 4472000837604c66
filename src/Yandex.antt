-- ===== src/Yandex.antt =====
-- pkg/wgturn/provider/yandex/ws.go and api.go: the search for a TURN server in the JSON that Telemost
-- sends. Go visits the fields of an object in any order; here it is the order of the list.
mod Walk
mod Flow
mod Address
mod Frames
mod Acks
mod Tests
use wgturn_core.Prelude.{
  ℕ, Bool, true, false, not, ◌&&◌, ◌||◌, List, [], ◌∷◌, Option, none, some, Bytes, codes, equal,
  has_prefix, if◌then◌else◌,
}
use wgturn_core.Json.{
  Json, null, boolean, number, text, array, object, Items, no_item, item, Fields, no_field, field,
  at_key, text_or_empty,
}
use wgturn_core.Tunnel.{is_nil}
use wgturn_core.Links.{telemost_turn_url}
use wgturn_core.Conf.Strings.{trim_space, to_lower}

-- The user name, the password and the address that a search returns.
pub record TurnServer : Type 0 where
  pub user : Bytes
  pub pass : Bytes
  pub addr : Bytes

-- `isTurnURL`
unfoldable pub is_turn_url : Bytes → Bool
is_turn_url s =
    has_prefix (to_lower (trim_space s)) (codes "turn:")
    || has_prefix (to_lower (trim_space s)) (codes "turns:")

-- The address in a URL that is for a TURN server.
unfoldable pub turn_addr : Bytes → Option Bytes
turn_addr raw = if is_turn_url raw then telemost_turn_url raw else none

abbrev pub with_addr : Bytes → Bytes → Option Bytes → Option TurnServer
with_addr user pass none = none
with_addr user pass (some addr) = some (record { user = user; pass = pass; addr = addr })

abbrev pub or_else {ℓ} : {A : Type ℓ} → Option A → Option A → Option A
or_else none later = later
or_else (some a) later = some a

abbrev pub item_addr : Json → Option Bytes
item_addr (text s) = turn_addr s
item_addr _ = none

unfoldable pub first_addr : Items → Option Bytes
first_addr no_item = none
first_addr (item v rest) = or_else (item_addr v) (first_addr rest)

-- The address in `urls`, a text or an array of texts.
abbrev pub urls_addr : Option Json → Option Bytes
urls_addr (some (text s)) = turn_addr s
urls_addr (some (array vs)) = first_addr vs
urls_addr _ = none

-- `urls`, and `url` where there is none.
abbrev pub urls_of : Fields → Option Json
urls_of m = or_else (at_key (codes "urls") m) (at_key (codes "url") m)

-- `tryICEEntry` of an object.
unfoldable pub try_ice_fields : Fields → Option TurnServer
try_ice_fields m =
    let user = text_or_empty (at_key (codes "username") m) in
    let pass = text_or_empty (at_key (codes "credential") m) in
    if is_nil user || is_nil pass then none else with_addr user pass (urls_addr (urls_of m))

-- `tryICEEntry`
abbrev pub try_ice_entry : Json → Option TurnServer
try_ice_entry (object m) = try_ice_fields m
try_ice_entry _ = none

-- The first loop over an array: its entries.
unfoldable pub try_items : Items → Option TurnServer
try_items no_item = none
try_items (item v rest) = or_else (try_ice_entry v) (try_items rest)

-- What was found below a key.
unfoldable pub found_at : Bytes → List (Bytes × Option TurnServer) → Option TurnServer
found_at k [] = none
found_at k ((name, result) ∷ rest) = if equal k name then result else found_at k rest

-- The first result in the order of some keys.
unfoldable pub found_at_keys : List Bytes → List (Bytes × Option TurnServer) → Option TurnServer
found_at_keys [] results = none
found_at_keys (k ∷ ks) results = or_else (found_at k results) (found_at_keys ks results)

unfoldable pub first_found : List (Bytes × Option TurnServer) → Option TurnServer
first_found [] = none
first_found ((name, result) ∷ rest) = or_else result (first_found rest)

abbrev pub ice_keys : List Bytes
ice_keys = codes "iceServers" ∷ codes "ice_servers" ∷ codes "iceServer" ∷ codes "ice_server" ∷ []

-- `walkForTurn`: the keys of servers first, then the object itself, then each of its fields.
unfoldable mutual
  pub walk_for_turn : Json → Option TurnServer
  walk_for_turn null = none
  walk_for_turn (boolean b) = none
  walk_for_turn (number z whole) = none
  walk_for_turn (text s) = none
  walk_for_turn (array vs) = or_else (try_items vs) (walk_items vs)
  walk_for_turn (object m) =
      or_else (found_at_keys ice_keys (walk_fields m))
        (or_else (try_ice_fields m) (first_found (walk_fields m)))

  pub walk_items : Items → Option TurnServer
  walk_items no_item = none
  walk_items (item v rest) = or_else (walk_for_turn v) (walk_items rest)

  pub walk_fields : Fields → List (Bytes × Option TurnServer)
  walk_fields no_field = []
  walk_fields (field name v rest) = (name, walk_for_turn v) ∷ walk_fields rest
