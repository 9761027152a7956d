-- ===== src/Base/Json.antt =====
-- JSON values, as `JSON.parse` gives them. A number is kept as its text.
use Prim.Native.String.{String}
use mathlib.Core.Bool.{Bool}
use mathlib.Core.Option.{Option, none, some}
use package.text.Mathlib.Text.{◌==◌}
use mathlib.Core.Path.{◌≡◌, refl}
use native.Mathlib.Omega.{arith}
use package.text.Mathlib.TextEquality.{eq_iff}
use geoplane.Base.Tests.{if◌then◌else◌}

mutual
  pub data Json : Type 0 where
    null_value : Json
    flag : Bool → Json
    number : String → Json
    text : String → Json
    array : Items → Json
    object : Fields → Json

  pub data Items : Type 0 where
    no_items : Items
    item : Json → Items → Items

  pub data Fields : Type 0 where
    no_fields : Fields
    field : (key : String) → Json → Fields → Fields

-- `o[key]`, `none` for undefined
unfoldable pub get_field : String → Fields → Option Json
get_field key no_fields = none
get_field key (field k v rest) = if k == key then some v else get_field key rest

-- `{ ...fields, [key]: value }`: an old key keeps its place
unfoldable pub set_field : String → Json → Fields → Fields
set_field key v no_fields = field key v no_fields
set_field key v (field k w rest) =
    if k == key then field k v rest else field k w (set_field key v rest)

-- `value.key` for any value that is not null or undefined
abbrev pub property : String → Json → Option Json
property key (object fields) = get_field key fields
property key _ = none

-- `typeof value === "string"`
abbrev pub as_text : Option Json → Option String
as_text (some (text t)) = some t
as_text _ = none

abbrev pub nullable_text : Option String → Json
nullable_text none = null_value
nullable_text (some t) = text t

-- A read after a write sees the new value at its key and the old ones elsewhere.
pub get_field-set_field :
    (key k : String) (v : Json) (fields : Fields)
    → get_field k (set_field key v fields) ≡ (if key == k then some v else get_field k fields)
unfolding get_field set_field
get_field-set_field key k v no_fields = refl
get_field-set_field key k v (field j w rest) =
    ground (arith, eq_iff key k, eq_iff j key, eq_iff j k, get_field-set_field key k v rest)
