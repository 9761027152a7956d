-- ===== src/Provider/Request/Guard.antt =====
-- What a request that passes the guard holds, and what a refusal names.
use geoplane.Base.{
  ℕ, String, false, Option, none, some, List, [], ◌∷◌, ok, err, ◌≡◌, ◌≢◌, refl, ◌<◌, arith,
  Option-cases, inl, inr, All, Memᴰ,
}
use geoplane.Base.Text.{is_blank}
use geoplane.Base.Json.{get_field, Json, Fields, object, number, text, null_value, flag, array}
use geoplane.Provider.Request.{
  RequestFields, ProviderGenerateArticleContentRequest, required_provider_request_fields,
  note_missing, invalid_fields, request_of, check_fields, non_empty_string, positive_integer,
  read_fields, validate_provider_generate_request,
}

names_lem : (fs : RequestFields) → request_of fs ≡ none → invalid_fields fs ≢ []
unfolding invalid_fields
names_lem fs h e = ground arith

-- The field of this name is a text that is not blank.
pub HoldsText : Fields → (name t : String) → Type 0
HoldsText obj name t = (get_field name obj ≡ some (text t)) × (is_blank t ≡ false)

text_sound :
    (o : Option Json) (t : String)
    → non_empty_string o ≡ some t
    → (o ≡ some (text t)) × (is_blank t ≡ false)
unfolding non_empty_string
text_sound (some (text s)) t h = ground arith
text_sound none t h = absurd (ground arith)
text_sound (some null_value) t h = absurd (ground arith)
text_sound (some (flag b)) t h = absurd (ground arith)
text_sound (some (number n)) t h = absurd (ground arith)
text_sound (some (array items)) t h = absurd (ground arith)
text_sound (some (object fs)) t h = absurd (ground arith)

text_missing :
    (obj : Fields) (name : String)
    → non_empty_string (get_field name obj) ≡ none
    → (t : String) → ¬ HoldsText obj name t
unfolding non_empty_string HoldsText
text_missing obj name h t (e, present) = absurd (ground (arith, e, present))

abbrev text_fields : List String
text_fields = "projectId" ∷ "articleBriefId" ∷ "model" ∷ "requestId" ∷ "idempotencyKey" ∷ []

abbrev number_fields : List String
number_fields = "maxTokens" ∷ "timeoutMs" ∷ []

module _ (integer_of : String → Option ℕ) where
  -- The field of this name is a whole number above zero.
  pub HoldsCount : Fields → (name : String) (n : ℕ) → Type 0
  HoldsCount obj name n =
      (lit : String) × (get_field name obj ≡ some (number lit))
      × (integer_of lit ≡ some n)
      × (0 < n)

  number_sound :
      (o : Option Json) (n : ℕ)
      → positive_integer integer_of o ≡ some n
      → (lit : String) × (o ≡ some (number lit)) × (integer_of lit ≡ some n) × (0 < n)
  unfolding positive_integer
  number_sound (some (number m)) n h = (m, refl, ground arith, ground arith)
  number_sound none n h = absurd (ground arith)
  number_sound (some null_value) n h = absurd (ground arith)
  number_sound (some (flag b)) n h = absurd (ground arith)
  number_sound (some (text s)) n h = absurd (ground arith)
  number_sound (some (array items)) n h = absurd (ground arith)
  number_sound (some (object fs)) n h = absurd (ground arith)

  number_missing :
      (obj : Fields) (name : String)
      → positive_integer integer_of (get_field name obj) ≡ none
      → (n : ℕ) → ¬ HoldsCount obj name n
  unfolding positive_integer HoldsCount
  number_missing obj name h n (lit, e, whole, above) = absurd (ground (arith, e, whole, above))

  -- A request whose four ids and model are texts of the object that are not blank and whose two
  -- numbers are numbers of the object above zero.
  pub record Usable (obj : Fields) (r : ProviderGenerateArticleContentRequest) : Type 0 where
    pub project_id : HoldsText obj "projectId" r.project_id
    pub article_brief_id : HoldsText obj "articleBriefId" r.article_brief_id
    pub model : HoldsText obj "model" r.model
    pub max_tokens : HoldsCount obj "maxTokens" r.max_tokens
    pub timeout_ms : HoldsCount obj "timeoutMs" r.timeout_ms
    pub request_id : HoldsText obj "requestId" r.request_id
    pub idempotency_key : HoldsText obj "idempotencyKey" r.idempotency_key

  -- A field that the object does not hold as it must.
  pub data IsFaulty (obj : Fields) (name : String) : Type 0 where
    no_text : Memᴰ name text_fields → ((t : String) → ¬ HoldsText obj name t) → IsFaulty obj name
    no_count : Memᴰ name number_fields → ((n : ℕ) → ¬ HoldsCount obj name n) → IsFaulty obj name

  fields-Usable :
      (obj : Fields) (r : ProviderGenerateArticleContentRequest)
      → request_of (read_fields integer_of obj) ≡ some r
      → Usable obj r
  unfolding read_fields HoldsText HoldsCount
  fields-Usable obj r h = record {
    project_id = text_sound (get_field "projectId" obj) r.project_id (ground arith);
    article_brief_id =
        text_sound (get_field "articleBriefId" obj) r.article_brief_id (ground arith);
    model = text_sound (get_field "model" obj) r.model (ground arith);
    max_tokens = number_sound (get_field "maxTokens" obj) r.max_tokens (ground arith);
    timeout_ms = number_sound (get_field "timeoutMs" obj) r.timeout_ms (ground arith);
    request_id = text_sound (get_field "requestId" obj) r.request_id (ground arith);
    idempotency_key = text_sound (get_field "idempotencyKey" obj) r.idempotency_key (ground arith);
  }

  note_missing-All :
      {A : Type 0} (P : String → Type 0) (o : Option A) (name : String) (names : List String)
      → (o ≡ none → P name)
      → All P names
      → All P (note_missing o name names)
  note_missing-All P none name names h rest = (h refl, rest)
  note_missing-All P (some a) name names h rest = rest

  text_field :
      (obj : Fields) (name : String) (names : List String)
      → Memᴰ name text_fields
      → All (IsFaulty obj) names
      → All (IsFaulty obj) (note_missing (non_empty_string (get_field name obj)) name names)
  text_field obj name names m =
      note_missing-All (IsFaulty obj) _ name names λ h. no_text m (text_missing obj name h)

  number_field :
      (obj : Fields) (name : String) (names : List String)
      → Memᴰ name number_fields
      → All (IsFaulty obj) names
      → All
          (IsFaulty obj)
          (note_missing (positive_integer integer_of (get_field name obj)) name names)
  number_field obj name names m =
      note_missing-All (IsFaulty obj) _ name names λ h. no_count m (number_missing obj name h)

  fields-IsFaulty :
      (obj : Fields) → All (IsFaulty obj) (invalid_fields (read_fields integer_of obj))
  unfolding invalid_fields read_fields
  fields-IsFaulty obj = text_field obj "projectId" _ (Memᴰ.head refl) (
      text_field obj "articleBriefId" _ (search (Memᴰ.head, Memᴰ.tail)) (
        text_field obj "model" _ (search (Memᴰ.head, Memᴰ.tail)) (
          number_field obj "maxTokens" _ (Memᴰ.head refl) (
            number_field obj "timeoutMs" _ (search (Memᴰ.head, Memᴰ.tail)) (
              text_field obj "requestId" _ (search (Memᴰ.head, Memᴰ.tail))
                (text_field obj "idempotencyKey" [] (search (Memᴰ.head, Memᴰ.tail)) tt))))))

  -- What the guard answers of a value.
  pub data Answer (raw : Option Json) : Type 0 where
    passed :
        (obj : Fields) (r : ProviderGenerateArticleContentRequest)
        → raw ≡ some (object obj)
        → validate_provider_generate_request integer_of raw ≡ ok r
        → Usable obj r
        → Answer raw
    refused :
        (obj : Fields) (names : List String)
        → raw ≡ some (object obj)
        → validate_provider_generate_request integer_of raw ≡ err names
        → names ≢ []
        → All (IsFaulty obj) names
        → Answer raw
    no_object :
        ((obj : Fields) → raw ≢ some (object obj))
        → validate_provider_generate_request integer_of raw ≡ err required_provider_request_fields
        → Answer raw

  -- The guard of a request passes an object with the request that it holds, the ids and the model
  -- not blank and the two numbers above zero; or it refuses an object and names some fields, each
  -- of which the object does not hold in this way; or it refuses a value that is no object and
  -- names all fields.
  pub validate_provider_generate_request-Answer : (raw : Option Json) → Answer raw
  unfolding validate_provider_generate_request check_fields
  validate_provider_generate_request-Answer (some (object obj)) =
      let fs = read_fields integer_of obj in
      elim (Option-cases (request_of fs)) [
        | inl lost ↦
            refused obj (invalid_fields fs) refl (ground arith) (names_lem fs lost)
              (fields-IsFaulty obj)
        | inr (r, found) ↦ passed obj r refl (ground arith) (fields-Usable obj r found)
      ]
  validate_provider_generate_request-Answer none = no_object (λ obj e. ground arith) refl
  validate_provider_generate_request-Answer (some null_value) =
      no_object (λ obj e. ground arith) refl
  validate_provider_generate_request-Answer (some (flag b)) = no_object (λ obj e. ground arith) refl
  validate_provider_generate_request-Answer (some (number m)) =
      no_object (λ obj e. ground arith) refl
  validate_provider_generate_request-Answer (some (text t)) = no_object (λ obj e. ground arith) refl
  validate_provider_generate_request-Answer (some (array items)) =
      no_object (λ obj e. ground arith) refl
