-- ===== src/Json.antt =====
-- The values that `encoding/json` decodes a response into, as both credential providers read them
-- (`map[string]any`): pkg/wgturn/provider/vk/errors.go and pkg/wgturn/provider/yandex/ws.go. An object is
-- the list of its fields, with each key once. A number is kept as far as the code reads it: the integer
-- that its conversion to `int64` gives, and whether the number was that integer.
use wgturn_core.Prelude.{
  ℕ, Bool, false, ◌&&◌, [], Option, none, some, Bytes, equal, ◌==◌, if◌then◌else◌,
}
use wgturn_core.Share.{ℤ, pos}

mutual
  pub data Json : Type 0 where
    null : Json
    boolean : Bool → Json
    number : ℤ → Bool → Json
    text : Bytes → Json
    array : Items → Json
    object : Fields → Json

  pub data Items : Type 0 where
    no_item : Items
    item : Json → Items → Items

  pub data Fields : Type 0 where
    no_field : Fields
    field : Bytes → Json → Fields → Fields

-- `m[k]` with its second result.
unfoldable pub at_key : Bytes → Fields → Option Json
at_key k no_field = none
at_key k (field name value rest) = if equal k name then some value else at_key k rest

-- The text at a key, or "" where there is none: `s, _ := m[k].(string)`.
abbrev pub text_or_empty : Option Json → Bytes
text_or_empty (some (text s)) = s
text_or_empty _ = []

-- `m[k] == n` for a number that is not zero.
abbrev pub is_number : ℕ → Option Json → Bool
is_number n (some (number (pos m) whole)) = whole && m == n
is_number n _ = false

-- `int(m[k])`, and 0 where there is no number.
abbrev pub int_or_zero : Option Json → ℤ
int_or_zero (some (number z whole)) = z
int_or_zero _ = pos 0

abbrev pub first_item : Items → Option Json
first_item no_item = none
first_item (item v rest) = some v

-- `json.Unmarshal` into a map: `null` gives the nil map, and no other value than an object is accepted.
abbrev pub as_map : Option Json → Option Fields
as_map (some (object fields)) = some fields
as_map (some null) = some no_field
as_map _ = none
