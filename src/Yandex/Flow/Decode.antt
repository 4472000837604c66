-- ===== src/Yandex/Flow/Decode.antt =====
-- pkg/wgturn/provider/yandex/api.go: what the first answer is decoded into, and the servers in it.
use Prim.Native.String.{String}
use wgturn_core.Prelude.{List, [], ◌∷◌, Option, none, some, Bytes, codes}
use wgturn_core.Json.{
  Json, null, text, array, object, Items, no_item, item, no_field, object, Fields, at_key,
}
use wgturn_core.Yandex.{TurnServer, or_else, with_addr, turn_addr}

-- An element of an array that is decoded into `[]string`.
abbrev pub as_element : Json → Option Bytes
as_element (text s) = some s
as_element null = some []
as_element _ = none

abbrev pub cons_both {ℓ} : {A : Type ℓ} → Option A → Option (List A) → Option (List A)
cons_both (some a) (some rest) = some (a ∷ rest)
cons_both _ _ = none

unfoldable pub elements : Items → Option (List Bytes)
elements no_item = some []
elements (item v rest) = cons_both (as_element v) (elements rest)

-- `jsonStringOrSlice.UnmarshalJSON`
unfoldable pub url_list : Json → Option (List Bytes)
unfolding elements
url_list (text s) = some (s ∷ [])
url_list (array vs) = elements vs
url_list null = some []
url_list _ = none

-- `iceServer`
pub record IceServer : Type 0 where
  pub urls : List Bytes
  pub username : Bytes
  pub credential : Bytes

-- `conferenceResponse`, the fields that are read. `inner_servers` are those of its client configuration.
pub record Conference : Type 0 where
  pub peer_id : Bytes
  pub room_id : Bytes
  pub credentials : Bytes
  pub media_server_url : Bytes
  pub service_name : Bytes
  pub inner_servers : List IceServer
  pub ice_servers : List IceServer

infixl 5 ◌>>=◌
-- A decoder behind another one; the first value of a wrong type spoils the whole.
abbrev ◌>>=◌ {ℓ κ} : {A : Type ℓ} {B : Type κ} → Option A → (A → Option B) → Option B
none >>= next = none
some a >>= next = next a

-- A field that is decoded into a `string`; `none` is a value of another type.
abbrev pub text_value : Option Json → Option Bytes
text_value none = some []
text_value (some null) = some []
text_value (some (text s)) = some s
text_value _ = none

abbrev pub text_at : String → Fields → Option Bytes
text_at k m = text_value (at_key (codes k) m)

abbrev pub urls_value : Option Json → Option (List Bytes)
urls_value none = some []
urls_value (some v) = url_list v

-- The object that a value is decoded from as a struct; nothing and `null` leave it as it is.
abbrev pub struct_value : Option Json → Option Fields
struct_value none = some no_field
struct_value (some null) = some no_field
struct_value (some (object m)) = some m
struct_value _ = none

-- An element of `[]iceServer`.
unfoldable pub decode_server : Fields → Option IceServer
unfolding url_list at_key
decode_server m = do
  urls ← urls_value (at_key (codes "urls") m)
  username ← text_at "username" m
  credential ← text_at "credential" m
  some (record { urls = urls; username = username; credential = credential })

unfoldable pub decode_servers : Items → Option (List IceServer)
unfolding decode_server
decode_servers no_item = some []
decode_servers (item v rest) = do
  m ← struct_value (some v)
  srv ← decode_server m
  later ← decode_servers rest
  some (srv ∷ later)

abbrev pub servers_value : Option Json → Option (List IceServer)
servers_value none = some []
servers_value (some null) = some []
servers_value (some (array vs)) = decode_servers vs
servers_value _ = none

-- The fields that are decoded and not read must be texts too.
unfoldable pub unread_fields : Fields → Option Bytes
unread_fields m = do
  _ ← text_at "session_id" m
  _ ← text_at "peer_session_id" m
  _ ← text_at "uri" m
  _ ← text_at "media_platform" m
  _ ← text_at "ws_uri" m
  text_at "connection_type" m

-- `json.Unmarshal` into a `conferenceResponse`.
unfoldable pub decode_conference : Json → Option Conference
unfolding decode_servers
decode_conference v = do
  m ← struct_value (some v)
  inner ← struct_value (at_key (codes "client_configuration") m)
  peer_id ← text_at "peer_id" m
  room_id ← text_at "room_id" m
  token ← text_at "credentials" m
  _ ← unread_fields m
  media ← text_at "media_server_url" inner
  service ← text_at "service_name" inner
  inner_list ← servers_value (at_key (codes "ice_servers") inner)
  outer_list ← servers_value (at_key (codes "ice_servers") m)
  some (record {
    peer_id = peer_id;
    room_id = room_id;
    credentials = token;
    media_server_url = media;
    service_name = service;
    inner_servers = inner_list;
    ice_servers = outer_list;
  })

-- The URLs of one server.
unfoldable pub first_url : List Bytes → Option Bytes
first_url [] = none
first_url (raw ∷ rest) = or_else (turn_addr raw) (first_url rest)

unfoldable pub pool_server : List IceServer → Option TurnServer
unfolding first_url
pool_server [] = none
pool_server (srv ∷ rest) =
    or_else (with_addr (srv.username) (srv.credential) (first_url (srv.urls))) (pool_server rest)

-- `turnFromConference`
unfoldable pub turn_from_conference : Conference → Option TurnServer
unfolding pool_server
turn_from_conference c = or_else (pool_server (c.ice_servers)) (pool_server (c.inner_servers))
