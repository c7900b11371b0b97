-- ===== src/Json.antt =====
-- JSON values as `encoding/json` decodes them into `any` and `map[string]any`. The codec itself is an
-- interface: `decode` is json.Unmarshal into a map, `encode` is json.Marshal of one.
use prompt_graft.Base.{Bool, Option, none, some, ◌≡◌, if◌then◌else◌, Bytes, ◌==◌, ==_iff, arith}

mutual
  pub data Json : Type 0 where
    null : Json
    boolean : Bool → Json
    number : Bytes → Json
    string : Bytes → Json
    array : Items → Json
    object : Fields → Json

  pub data Items : Type 0 where
    nil : Items
    cons : Json → Items → Items

  pub data Fields : Type 0 where
    end : Fields
    field : Bytes → Json → Fields → Fields

-- m[k] of a Go map, and m[k] = v
unfoldable pub get_field : Fields → Bytes → Option Json
unfolding ◌==◌
get_field end k = none
get_field (field j v fs) k = if j == k then some v else get_field fs k

unfoldable pub set_field : Fields → Bytes → Json → Fields
unfolding ◌==◌
set_field end k v = field k v end
set_field (field j w fs) k v =
    let rest = set_field fs k v in if j == k then field j v fs else field j w rest

pub get_field-set_field :
    (fs : Fields) (k : Bytes) (v : Json) (j : Bytes)
    → get_field (set_field fs k v) j ≡ (if k == j then some v else get_field fs j)
unfolding get_field set_field
get_field-set_field end k v j = ground arith
get_field-set_field (field i w fs) k v j =
    ground (arith, get_field-set_field fs k v j, ==_iff i k, ==_iff i j, ==_iff k j)

-- A type assertion, x.(string), x.(map[string]any), x.([]any), of a map's entry
abbrev pub as_string : Option Json → Option Bytes
as_string (some (string s)) = some s
as_string _ = none

abbrev pub as_object : Option Json → Option Fields
as_object (some (object fs)) = some fs
as_object _ = none

abbrev pub as_array : Option Json → Option Items
as_array (some (array xs)) = some xs
as_array _ = none

-- A document that is decoded into a map: an object, or `null`, which leaves the map nil.
pub data Payload : Type 0 where
  nil_map : Payload
  map_of : Fields → Payload

abbrev pub fields_of : Payload → Fields
fields_of nil_map = end
fields_of (map_of fs) = fs

pub record Codec : Type 0 where
  pub decode : Bytes → Option Payload
  pub encode : Fields → Bytes
