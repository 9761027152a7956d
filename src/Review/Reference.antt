-- ===== src/Review/Reference.antt =====
-- runtime/geo/review-reference.ts: the code that stands for a validation id, its payload and a
-- signature with a dot between. The module's variables are the state; the reader of .env.local is
-- that of the session keys, which the source repeats.
pub mod Decoding
use Prim.Native.String.{◌++◌ as join}
use geoplane.Base.{
  String, Bool, true, false, not, Option, none, some, List, [], ◌∷◌, Result, ok, err, if◌then◌else◌,
}
use geoplane.Base.Text.{trim, is_blank, is_empty_text}
use geoplane.Base.Split.{split_on}
use geoplane.Base.Codec.{Codec}
use geoplane.Auth.Keys.{Environment, is_production, read_var_from_env_file}
use geoplane.Auth.Signing.{constant_time_equals}

abbrev pub dedicated_key_env_var : String
dedicated_key_env_var = "REVIEW_REFERENCE_KEY_CURRENT"

abbrev pub shared_key_env_var : String
shared_key_env_var = "SESSION_SIGNING_KEY_CURRENT"

abbrev pub insecure_review_key : String
insecure_review_key = "geoplane-INSECURE-dev-review-reference-key-DO-NOT-USE-IN-PRODUCTION"

pub record ReviewKeyState : Type 0 where
  pub cached_key : Option String
  pub warned_about_insecure_key : Bool

-- The error that `loadKey` throws.
pub data ReviewKeyError : Type 0 where
  review_key_required_in_production : ReviewKeyError

abbrev pub ReviewKeyed : Type 0 → Type 0
ReviewKeyed A = ReviewKeyState → Result ReviewKeyError A × ReviewKeyState

abbrev then_with :
    {A B : Type 0}
    → Result ReviewKeyError A × ReviewKeyState
    → (A → B)
    → Result ReviewKeyError B × ReviewKeyState
then_with (ok a, st) f = (ok (f a), st)
then_with (err e, st) f = (err e, st)

abbrev from_env : Environment → (name : String) → Option String
from_env env name = elim (env.process_env name) [
  | none ↦ none
  | some value ↦ if is_blank value then none else some (trim value)
]

abbrev or_else : Option String → Option String → Option String
or_else (some key) other = some key
or_else none other = other

unfoldable pub resolve_review_key : Environment → Option String
resolve_review_key env = or_else (from_env env dedicated_key_env_var) (
    or_else (from_env env shared_key_env_var) (
      or_else (read_var_from_env_file env dedicated_key_env_var)
        (read_var_from_env_file env shared_key_env_var)))

unfoldable pub load_key : Environment → ReviewKeyed String
load_key env st = elim st.cached_key [
  | some key ↦ (ok key, st)
  | none ↦ elim (resolve_review_key env) [
    | some key ↦ (ok key, record st { cached_key = some key })
    | none ↦ if is_production env then (err review_key_required_in_production, st) else (
      ok insecure_review_key,
      record st { cached_key = some insecure_review_key; warned_about_insecure_key = true },
    )
  ]
]

module _ (codec : Codec) where
  -- `sign` with the key at hand
  unfoldable pub review_signature : (payload key : String) → String
  review_signature payload key = codec.hmac_sha256 key payload

  unfoldable pub review_code : (validation_id key : String) → String
  review_code validation_id key =
      let payload = codec.base64url validation_id in
      join payload (join "." (review_signature payload key))

  unfoldable pub encode_review_reference_code :
      Environment → (validation_id : String) → ReviewKeyed String
  encode_review_reference_code env validation_id st =
      then_with (load_key env st) (review_code validation_id)

  -- what is done once the key is loaded
  unfoldable pub check_code : (payload signature key : String) → Option String
  check_code payload signature key =
      if not (constant_time_equals signature (review_signature payload key))
      then none
      else let validation_id = codec.from_base64url payload in
        if is_empty_text validation_id then none else some validation_id

  unfoldable pub decode_parts : Environment → List String → ReviewKeyed (Option String)
  decode_parts env (payload ∷ signature ∷ []) st =
      if is_empty_text payload
      then (ok none, st)
      else then_with (load_key env st) (check_code payload signature)
  decode_parts env _ st = (ok none, st)

  -- A missing code is the empty text.
  unfoldable pub decode_review_reference_code :
      Environment → (code : String) → ReviewKeyed (Option String)
  decode_review_reference_code env code st =
      if is_empty_text code then (ok none, st) else decode_parts env (split_on "." code) st
