-- ===== src/Provider/Request.antt =====
-- runtime/provider/provider-port.ts, feature-flag.ts and identity.ts: the guards before a call.
-- `integer_of` reads the text of a number, where it is a whole one and not negative.
pub mod Guard
use geoplane.Base.{
  ℕ, zero, String, Bool, true, false, not, Option, none, some, List, [], ◌∷◌, Result, ok, err,
  throw_if, includes, is_none, if◌then◌else◌,
}
use geoplane.Base.Text.{trim, is_blank}
use geoplane.Base.Host.{Host}
use geoplane.Base.Json.{Json, Fields, number, text, object, get_field}
use geoplane.Auth.Keys.{Environment}
use geoplane.Provider.Contract.{ProviderErrorCode, provider_unavailable}

pub record ProviderGenerateArticleContentRequest : Type 0 where
  pub project_id : String
  pub article_brief_id : String
  pub model : String
  pub max_tokens : ℕ
  pub timeout_ms : ℕ
  pub request_id : String
  pub idempotency_key : String

abbrev pub required_provider_request_fields : List String
required_provider_request_fields =
    "projectId" ∷ "articleBriefId" ∷ "model" ∷ "maxTokens" ∷ "timeoutMs" ∷ "requestId"
    ∷ "idempotencyKey" ∷ []

-- `isNonEmptyString`, with the text
unfoldable pub non_empty_string : Option Json → Option String
non_empty_string (some (text t)) = if is_blank t then none else some t
non_empty_string _ = none

abbrev positive : Option ℕ → Option ℕ
positive (some zero) = none
positive o = o

-- `isPositiveInteger`, with the number
unfoldable pub positive_integer : (integer_of : String → Option ℕ) → Option Json → Option ℕ
positive_integer integer_of (some (number n)) = positive (integer_of n)
positive_integer integer_of _ = none

abbrev pub note_missing : {A : Type 0} → Option A → (name : String) → List String → List String
note_missing none name names = name ∷ names
note_missing (some a) name names = names

-- what the seven tests find, before they are looked at together
pub record RequestFields : Type 0 where
  pub project_id : Option String
  pub article_brief_id : Option String
  pub model : Option String
  pub max_tokens : Option ℕ
  pub timeout_ms : Option ℕ
  pub request_id : Option String
  pub idempotency_key : Option String

unfoldable pub invalid_fields : RequestFields → List String
invalid_fields fs = note_missing fs.project_id "projectId" (
    note_missing fs.article_brief_id "articleBriefId" (
      note_missing fs.model "model" (
        note_missing fs.max_tokens "maxTokens" (
          note_missing fs.timeout_ms "timeoutMs" (
            note_missing fs.request_id "requestId"
              (note_missing fs.idempotency_key "idempotencyKey" []))))))

-- the casts to the fields' types, which stand where each test has passed
abbrev pub request_of : RequestFields → Option ProviderGenerateArticleContentRequest
request_of fs = elim fs.project_id [
  | none ↦ none
  | some project_id ↦ elim fs.article_brief_id [
    | none ↦ none
    | some article_brief_id ↦ elim fs.model [
      | none ↦ none
      | some model ↦ elim fs.max_tokens [
        | none ↦ none
        | some max_tokens ↦ elim fs.timeout_ms [
          | none ↦ none
          | some timeout_ms ↦ elim fs.request_id [
            | none ↦ none
            | some request_id ↦ elim fs.idempotency_key [
              | none ↦ none
              | some idempotency_key ↦ some (record {
                project_id = project_id;
                article_brief_id = article_brief_id;
                model = model;
                max_tokens = max_tokens;
                timeout_ms = timeout_ms;
                request_id = request_id;
                idempotency_key = idempotency_key;
              })
            ]
          ]
        ]
      ]
    ]
  ]
]

module _ (integer_of : String → Option ℕ) where
  unfoldable pub read_fields : Fields → RequestFields
  read_fields obj = record {
    project_id = non_empty_string (get_field "projectId" obj);
    article_brief_id = non_empty_string (get_field "articleBriefId" obj);
    model = non_empty_string (get_field "model" obj);
    max_tokens = positive_integer integer_of (get_field "maxTokens" obj);
    timeout_ms = positive_integer integer_of (get_field "timeoutMs" obj);
    request_id = non_empty_string (get_field "requestId" obj);
    idempotency_key = non_empty_string (get_field "idempotencyKey" obj);
  }

  unfoldable pub check_fields :
      RequestFields → Result (List String) ProviderGenerateArticleContentRequest
  check_fields fs = elim (request_of fs) [ none ↦ err (invalid_fields fs) | some r ↦ ok r ]

  -- The error carries the names of the fields; its code is always PROVIDER_CONTRACT_INVALID.
  unfoldable pub validate_provider_generate_request :
      (raw : Option Json) → Result (List String) ProviderGenerateArticleContentRequest
  validate_provider_generate_request (some (object obj)) = check_fields (read_fields obj)
  validate_provider_generate_request _ = err required_provider_request_fields

abbrev pub provider_runtime_enabled_env_var : String
provider_runtime_enabled_env_var = "PROVIDER_RUNTIME_ENABLED"

abbrev pub truthy_values : List String
truthy_values = "true" ∷ "1" ∷ []

unfoldable pub is_provider_runtime_enabled : Host → Environment → Bool
is_provider_runtime_enabled host env = elim (env.process_env provider_runtime_enabled_env_var) [
  | none ↦ false
  | some raw ↦ includes truthy_values (host.to_lower_case (trim raw))
]

unfoldable pub assert_real_provider_call_allowed :
    Host → Environment → Result ProviderErrorCode (Unit {0})
assert_real_provider_call_allowed host env =
    throw_if (not (is_provider_runtime_enabled host env)) provider_unavailable

pub data ProviderGatewayVendor : Type 0 where
  deepseek_direct aliyun_maas custom_openai_compatible unknown_legacy : ProviderGatewayVendor

pub data ProviderModelVendor : Type 0 where
  deepseek openai other : ProviderModelVendor

-- The protocol has one value and is left out.
pub record ProviderIdentity : Type 0 where
  pub gateway_vendor : ProviderGatewayVendor
  pub model_vendor : ProviderModelVendor

-- The error that `assertRuntimeProviderIdentity` throws.
pub data IdentityError : Type 0 where
  reserved_gateway_vendor : IdentityError

abbrev is_unknown_legacy : ProviderGatewayVendor → Bool
is_unknown_legacy unknown_legacy = true
is_unknown_legacy _ = false

unfoldable pub assert_runtime_provider_identity :
    ProviderIdentity → Result IdentityError ProviderIdentity
assert_runtime_provider_identity identity =
    if is_unknown_legacy identity.gateway_vendor then err reserved_gateway_vendor else ok identity
