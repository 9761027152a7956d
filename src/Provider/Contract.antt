-- ===== src/Provider/Contract.antt =====
-- runtime/provider/contract-validation.ts: what a provider's answer must be before it is content.
-- The content's records and the error codes are those of provider-port.ts and errors.ts.
pub mod Firewall
pub mod RoundTrip
use geoplane.Base.{
  ℕ, suc, String, Bool, true, false, not, ◌&&◌, ◌||◌, ◌==◌, Option, none, some, List, [], ◌∷◌,
  Result, ok, err, ◌>>=◌, ◌>>◌, throw_if, any, includes, is_none, ltb, if◌then◌else◌,
}
use geoplane.Base.Text.{trim, is_blank}
use geoplane.Base.Split.{includes_text}
use geoplane.Base.Host.{Host}
use geoplane.Base.Json.{
  Json, Items, Fields, null_value, flag, number, text, array, object, no_items, item, no_fields,
  field, get_field,
}

pub data ProviderErrorCode : Type 0 where
  provider_timeout provider_rate_limit provider_auth_failed provider_contract_invalid
        provider_empty_response provider_token_limit provider_unavailable :
      ProviderErrorCode

pub record ProviderArticleContentSection : Type 0 where
  pub heading : String
  pub body : String

pub record ProviderArticleContent : Type 0 where
  pub title : String
  pub summary : String
  pub sections : List ProviderArticleContentSection

abbrev pub ProviderResult : Type 0
ProviderResult = Result ProviderErrorCode ProviderArticleContent

abbrev pub provider_article_content : String
provider_article_content = "ProviderArticleContentV1"

abbrev pub governance_key_fragments : List String
governance_key_fragments =
    "gate" ∷ "approv" ∷ "reviewer" ∷ "humanreview" ∷ "authorizing" ∷ "status" ∷ "publish"
    ∷ "publication" ∷ "channel" ∷ "selectedby" ∷ "selectedat" ∷ "distributionplan" ∷ "sealed"
    ∷ "evidencehash" ∷ "eventhash" ∷ "decisionhash" ∷ "contenthash" ∷ "payloadhash" ∷ "envelopeid"
    ∷ "evidenceid" ∷ "validation" ∷ []

abbrev pub governance_value_literals : List String
governance_value_literals =
    "APPROVED" ∷ "CHANGES_REQUESTED" ∷ "REJECTED" ∷ "PENDING_VALIDATION" ∷ "VALIDATED" ∷ "PASSED"
    ∷ "FAILED" ∷ "SEALED" ∷ "PACKAGED" ∷ "CHANNELS_SELECTED" ∷ "PARTIALLY_PUBLISHED" ∷ "PUBLISHED"
    ∷ "PLATFORM_WIDE_GATE" ∷ "INDUSTRY_VERTICAL_GATE" ∷ "PLATFORM_GATE" ∷ "VERTICAL_GATE"
    ∷ "ESCALATED_FOR_HUMAN_REVIEW" ∷ "NEEDS_HUMAN_REVIEW" ∷ []

abbrev pub allowed_content_keys : List String
allowed_content_keys = "schemaVersion" ∷ "title" ∷ "summary" ∷ "sections" ∷ []

abbrev pub allowed_section_keys : List String
allowed_section_keys = "heading" ∷ "body" ∷ []

unfoldable pub is_governance_value : String → Bool
is_governance_value value = includes governance_value_literals (trim value)

-- every key is in the list
unfoldable pub keys_allowed : List String → Fields → Bool
keys_allowed allowed no_fields = true
keys_allowed allowed (field key value rest) = includes allowed key && keys_allowed allowed rest

abbrev pub max_depth : ℕ
max_depth = 20

module _ (host : Host) where
  unfoldable pub is_governance_key : String → Bool
  is_governance_key key =
      any (λ fragment. includes_text fragment (host.to_lower_case key)) governance_key_fragments

  unfoldable mutual
    pub contains_governance : Json → (depth : ℕ) → Bool
    contains_governance null_value depth = false
    contains_governance (flag b) depth = false
    contains_governance (number n) depth = false
    contains_governance (text t) depth = not (ltb max_depth depth) && is_governance_value t
    contains_governance (array items) depth =
        let inside = items_contain items (suc depth) in not (ltb max_depth depth) && inside
    contains_governance (object fields) depth =
        let inside = fields_contain fields (suc depth) in not (ltb max_depth depth) && inside

    pub items_contain : Items → (depth : ℕ) → Bool
    items_contain no_items depth = false
    items_contain (item value rest) depth =
        contains_governance value depth || items_contain rest depth

    pub fields_contain : Fields → (depth : ℕ) → Bool
    fields_contain no_fields depth = false
    fields_contain (field key value rest) depth =
        is_governance_key key || contains_governance value depth || fields_contain rest depth

-- `typeof value === "string"`, else the contract is broken
abbrev pub need_text : Option Json → Result ProviderErrorCode String
need_text (some (text t)) = ok t
need_text _ = err provider_contract_invalid

abbrev pub need_items : Option Json → Result ProviderErrorCode Items
need_items (some (array items)) = ok items
need_items _ = err provider_contract_invalid

abbrev pub need_object : Json → Result ProviderErrorCode Fields
need_object (object fields) = ok fields
need_object _ = err provider_contract_invalid

unfoldable pub normalize_section : Json → Result ProviderErrorCode ProviderArticleContentSection
normalize_section raw_section = do
  section ← need_object raw_section
  throw_if (not (keys_allowed allowed_section_keys section)) provider_contract_invalid
  heading ← need_text (get_field "heading" section)
  body ← need_text (get_field "body" section)
  ok (record { heading = heading; body = body })

unfoldable pub normalize_sections :
    Items → Result ProviderErrorCode (List ProviderArticleContentSection)
unfolding normalize_section
normalize_sections no_items = ok []
normalize_sections (item raw_section rest) = do
  section ← normalize_section raw_section
  sections ← normalize_sections rest
  ok (section ∷ sections)

abbrev pub is_visible : ProviderArticleContentSection → Bool
is_visible section = not (is_blank section.heading) || not (is_blank section.body)

-- no section, or nothing but blank text
unfoldable pub check_emptiness :
    (title summary : String) → List ProviderArticleContentSection → ProviderResult
check_emptiness title summary [] = err provider_empty_response
check_emptiness title summary (first ∷ sections) =
    if not (not (is_blank title) || any is_visible (first ∷ sections))
    then err provider_empty_response
    else ok (record { title = title; summary = summary; sections = first ∷ sections })

unfoldable pub check_shape : Fields → ProviderResult
check_shape fields = do
  throw_if (not (keys_allowed allowed_content_keys fields)) provider_contract_invalid
  version ← need_text (get_field "schemaVersion" fields)
  throw_if (not (version == provider_article_content)) provider_contract_invalid
  title ← need_text (get_field "title" fields)
  summary ← need_text (get_field "summary" fields)
  items ← need_items (get_field "sections" fields)
  sections ← normalize_sections items
  check_emptiness title summary sections

unfoldable pub check_object : Host → Fields → ProviderResult
check_object host no_fields = err provider_empty_response
check_object host fields =
    if contains_governance host (object fields) 0
    then err provider_contract_invalid
    else check_shape fields

-- `none` is undefined
unfoldable pub validate_provider_content : Host → (raw : Option Json) → ProviderResult
validate_provider_content host none = err provider_empty_response
validate_provider_content host (some null_value) = err provider_empty_response
validate_provider_content host (some (text t)) =
    if is_blank t then err provider_empty_response else err provider_contract_invalid
validate_provider_content host (some (object fields)) = check_object host fields
validate_provider_content host (some _) = err provider_contract_invalid
