-- ===== src/Commands/Input.antt =====
-- runtime/commands/geo-command-input.ts and the request helpers of runtime-context.ts: reading the
-- fields of a request's body.
use geoplane.Base.{ℕ, String, ◌==◌, Option, none, some, List, [], ◌∷◌, if◌then◌else◌}
use geoplane.Base.Text.{trim, is_blank}
use geoplane.Base.Json.{
  Json, Items, no_items, item, Fields, null_value, number, text, array, get_field,
}
use geoplane.Tenancy.Entities.{
  PlatformRole, platform_super_admin, agency_owner, agency_operator, client_owner,
}

-- the test on one value: a text that is not blank, trimmed
abbrev pub present_text : Option Json → Option String
present_text (some (text t)) = if is_blank t then none else some (trim t)
present_text _ = none

unfoldable pub read_string : Fields → (key : String) → Option String
read_string body key = present_text (get_field key body)

unfoldable pub read_string_field : Fields → (key : String) → Option String
read_string_field body key = present_text (get_field key body)

-- `integer_of` reads the text of a number, where it is a whole one
unfoldable pub read_integer : (integer_of : String → Option ℕ) → Fields → (key : String) → Option ℕ
read_integer integer_of body key = elim (get_field key body) [
  | some (number n) ↦ integer_of n
  | _ ↦ none
]

abbrev push : String → Option (List String) → Option (List String)
push s none = none
push s (some out) = some (s ∷ out)

abbrev pub trimmed_items : Items → Option (List String)
trimmed_items no_items = some []
trimmed_items (item value rest) =
    let tail = trimmed_items rest in
    elim (present_text (some value)) [ none ↦ none | some t ↦ push t tail ]

abbrev pub as_string_array : Option Json → Option (List String)
as_string_array (some (array items)) = trimmed_items items
as_string_array _ = none

unfoldable pub read_string_array : Fields → (key : String) → Option (List String)
read_string_array body key = as_string_array (get_field key body)

unfoldable pub read_optional_string_array : Fields → (key : String) → Option (List String)
unfolding read_string_array
read_optional_string_array body key = elim (get_field key body) [
  | none ↦ some []
  | some null_value ↦ some []
  | _ ↦ read_string_array body key
]

abbrev usable : Option String → Option String
usable none = none
usable (some t) = if is_blank t then none else some (trim t)

-- the header of the request first, then the body
unfoldable pub read_idempotency_key : (header : Option String) → Fields → Option String
read_idempotency_key header body = elim (usable header) [
  | some key ↦ some key
  | none ↦ present_text (get_field "idempotencyKey" body)
]

unfoldable pub as_platform_role : Option Json → Option PlatformRole
as_platform_role (some (text t)) =
    if t == "PLATFORM_SUPER_ADMIN"
    then some platform_super_admin
    else if t == "AGENCY_OWNER"
    then some agency_owner
    else if t == "AGENCY_OPERATOR"
    then some agency_operator
    else if t == "CLIENT_OWNER"
    then some client_owner
    else none
as_platform_role _ = none
