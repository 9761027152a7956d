-- ===== src/Examples/Boundary.antt =====
-- The theorems on a provider's answer and on review codes at concrete inputs.
use geoplane.Base.{
  ℕ, String, false, Option, none, some, [], ◌∷◌, ok, ◌≡◌, ◌↔◌, refl, ◌==◌, if◌then◌else◌,
}
use geoplane.Base.Text.{is_blank}
use geoplane.Base.Json.{Json, object, field, text, number, no_fields}
use geoplane.Base.Host.{Host}
use geoplane.Provider.Contract.{ProviderArticleContent, validate_provider_content}
use geoplane.Provider.Contract.Firewall.{Clean}
use geoplane.Provider.Contract.RoundTrip.{
  LowersKeys, content_json, validate_provider_content-content_json,
}
use geoplane.Provider.Request.Guard.{Answer, validate_provider_generate_request-Answer}
use geoplane.Review.Reference.{
  ReviewKeyState, resolve_review_key, load_key, decode_review_reference_code,
}
use geoplane.Review.Reference.Decoding.{CodeOf, decode_review_reference_code_iff}
use geoplane.Examples.Data.{marks}
use geoplane.Examples.Auth.{reader, toy}

abbrev lowering : Host
lowering = record marks { to_lower_case = λ s. if s == "schemaVersion" then "schemaversion" else s }

lowering-LowersKeys : LowersKeys lowering
lowering-LowersKeys = record {
  schema_version = refl;
  title = refl;
  summary = refl;
  sections = refl;
  heading = refl;
  body = refl;
}

abbrev answer : ProviderArticleContent
answer = record {
  title = "How it works";
  summary = "";
  sections = record { heading = "Start"; body = "It was approved." } ∷ [];
}

validate_provider_content-content_json_example :
    (validate_provider_content lowering (some (content_json answer)) ≡ ok answer) ↔ Clean answer
validate_provider_content-content_json_example =
    validate_provider_content-content_json lowering lowering-LowersKeys answer

abbrev no_key : ReviewKeyState
no_key = record { cached_key = none; warned_about_insecure_key = false }

abbrev after : ReviewKeyState
after = (load_key reader no_key).1

loads : load_key reader no_key ≡ (ok "key-2", after)
unfolding load_key resolve_review_key is_blank
loads = refl

decode_review_reference_code_iff_example :
    ((decode_review_reference_code toy reader "payload.signed-by-key-2" no_key).0
      ≡ ok (some "json"))
    ↔ CodeOf toy "key-2" "payload.signed-by-key-2" "json"
decode_review_reference_code_iff_example =
    decode_review_reference_code_iff toy reader "key-2" no_key after "json"
      "payload.signed-by-key-2" loads

abbrev request : Json
request = object (field "projectId" (text "p1") (field "maxTokens" (number "0") no_fields))

abbrev no_number : String → Option ℕ
no_number _ = none

validate_provider_generate_request-Answer_example : Answer no_number (some request)
validate_provider_generate_request-Answer_example =
    validate_provider_generate_request-Answer no_number (some request)
