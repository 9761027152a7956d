-- ===== src/Provider/Contract/Firewall.antt =====
-- What passes the firewall.
use geoplane.Base.{
  ℕ, String, Bool, true, false, not, ◌||◌, Option, none, some, List, [], ◌∷◌, ok, ◌≡◌, ◌≢◌, refl,
  sym, ap, ◌∙◌, arith, inl, inr, any, All, Result-cases,
}
use geoplane.Base.Text.{is_blank}
use geoplane.Base.Host.{Host}
use geoplane.Base.Json.{
  Json, Items, Fields, null_value, flag, number, text, array, object, no_items, item, no_fields,
  field, get_field,
}
use geoplane.Provider.Contract.{
  ProviderArticleContent, ProviderArticleContentSection, is_governance_value, contains_governance,
  items_contain, fields_contain, need_text, need_items, normalize_section, normalize_sections,
  is_visible, check_emptiness, check_shape, check_object, validate_provider_content,
}

abbrev CleanText : String → Type 0
CleanText t = is_governance_value t ≡ false

abbrev pub CleanSection : ProviderArticleContentSection → Type 0
CleanSection section = CleanText section.heading × CleanText section.body

-- Content without a verdict in any of its texts, with a section and with a visible text.
abbrev pub Clean : ProviderArticleContent → Type 0
Clean content =
    CleanText content.title
    × CleanText content.summary
    × All CleanSection content.sections
    × (content.sections ≢ [])
    × ((not (is_blank content.title) || any is_visible content.sections) ≡ true)

need_text_lem : (o : Option Json) (t : String) → need_text o ≡ ok t → o ≡ some (text t)
need_text_lem (some (text s)) t e = ground arith
need_text_lem none t e = absurd (ground arith)
need_text_lem (some null_value) t e = absurd (ground arith)
need_text_lem (some (flag b)) t e = absurd (ground arith)
need_text_lem (some (number n)) t e = absurd (ground arith)
need_text_lem (some (array items)) t e = absurd (ground arith)
need_text_lem (some (object fs)) t e = absurd (ground arith)

need_items_lem :
    (o : Option Json) (items : Items) → need_items o ≡ ok items → o ≡ some (array items)
need_items_lem (some (array xs)) items e = ground arith
need_items_lem none items e = absurd (ground arith)
need_items_lem (some null_value) items e = absurd (ground arith)
need_items_lem (some (flag b)) items e = absurd (ground arith)
need_items_lem (some (number n)) items e = absurd (ground arith)
need_items_lem (some (text t)) items e = absurd (ground arith)
need_items_lem (some (object fs)) items e = absurd (ground arith)

emptiness_lem :
    (title summary : String) (sections : List ProviderArticleContentSection)
    (content : ProviderArticleContent)
    → check_emptiness title summary sections ≡ ok content
    → (content.title ≡ title) × (content.summary ≡ summary) × (content.sections ≡ sections)
unfolding check_emptiness
emptiness_lem title summary [] content e = absurd (ground arith)
emptiness_lem title summary (s ∷ ss) content e = (ground arith, ground arith, ground arith)

emptiness_visible :
    (title summary : String) (sections : List ProviderArticleContentSection)
    (content : ProviderArticleContent)
    → check_emptiness title summary sections ≡ ok content
    → (sections ≢ []) × ((not (is_blank title) || any is_visible sections) ≡ true)
unfolding check_emptiness
emptiness_visible title summary [] content e = absurd (ground arith)
emptiness_visible title summary (s ∷ ss) content e = (λ nil. cc nil, ground arith)

section_texts :
    (fs : Fields) (section : ProviderArticleContentSection)
    → normalize_section (object fs) ≡ ok section
    → (need_text (get_field "heading" fs) ≡ ok section.heading)
      × (need_text (get_field "body" fs) ≡ ok section.body)
unfolding normalize_section
section_texts fs section e = elim (Result-cases (need_text (get_field "heading" fs))) [
  | inr (x, bad) ↦ absurd (ground arith)
  | inl (heading, h) ↦ elim (Result-cases (need_text (get_field "body" fs))) [
    | inr (x, bad) ↦ absurd (ground arith)
    | inl (body, b) ↦ (ground arith, ground arith)
  ]
]

abbrev is_object : Json → Bool
is_object (object fs) = true
is_object _ = false

section_object :
    (value : Json) (section : ProviderArticleContentSection)
    → is_object value ≡ false
    → normalize_section value ≢ ok section
unfolding normalize_section
section_object (object fs) section h e = ground arith
section_object null_value section h e = ground arith
section_object (flag b) section h e = ground arith
section_object (number n) section h e = ground arith
section_object (text t) section h e = ground arith
section_object (array items) section h e = ground arith

module _ (host : Host) where
  field_clean :
      (depth : ℕ) (key : String) (fields : Fields) (value : Json)
      → fields_contain host fields depth ≡ false
      → get_field key fields ≡ some value
      → contains_governance host value depth ≡ false
  unfolding contains_governance get_field
  field_clean depth key no_fields value h e = absurd (ground arith)
  field_clean depth key (field k v rest) value h e =
      ground (arith, field_clean depth key rest value)

  section_clean :
      (value : Json) (section : ProviderArticleContentSection)
      → contains_governance host value 2 ≡ false
      → normalize_section value ≡ ok section
      → CleanSection section
  unfolding contains_governance
  section_clean (object fs) section h e =
      let inside : fields_contain host fs 3 ≡ false = ground arith in
      let (heading, body) = section_texts fs section e in
      (
        field_clean 3 "heading" fs (text section.heading) inside
            (need_text_lem (get_field "heading" fs) section.heading heading),
        field_clean 3 "body" fs (text section.body) inside
            (need_text_lem (get_field "body" fs) section.body body),
      )
  section_clean null_value section h e = absurd (section_object null_value section refl e)
  section_clean (flag b) section h e = absurd (section_object (flag b) section refl e)
  section_clean (number n) section h e = absurd (section_object (number n) section refl e)
  section_clean (text t) section h e = absurd (section_object (text t) section refl e)
  section_clean (array items) section h e = absurd (section_object (array items) section refl e)

  sections_clean :
      (items : Items) (sections : List ProviderArticleContentSection)
      → items_contain host items 2 ≡ false
      → normalize_sections items ≡ ok sections
      → All CleanSection sections
  unfolding contains_governance normalize_sections
  sections_clean no_items [] h e = tt
  sections_clean no_items (s ∷ ss) h e = absurd (ground arith)
  sections_clean (item value rest) [] h e = absurd (ground arith)
  sections_clean (item value rest) (s ∷ ss) h e = (
    section_clean value s (ground arith) (ground arith),
    sections_clean rest ss (ground arith) (ground arith),
  )

  shape_texts :
      (fs : Fields) (content : ProviderArticleContent)
      → check_shape fs ≡ ok content
      → (items : Items) × ((need_text (get_field "title" fs) ≡ ok content.title)
          × (need_text (get_field "summary" fs) ≡ ok content.summary)
          × (get_field "sections" fs ≡ some (array items))
          × (normalize_sections items ≡ ok content.sections)
          × (check_emptiness content.title content.summary content.sections ≡ ok content))
  unfolding check_shape
  shape_texts fs content e = elim (Result-cases (need_text (get_field "title" fs))) [
    | inr (x, bad) ↦ absurd (ground arith)
    | inl (title, t) ↦ elim (Result-cases (need_text (get_field "summary" fs))) [
      | inr (x, bad) ↦ absurd (ground arith)
      | inl (summary, s) ↦ elim (Result-cases (need_items (get_field "sections" fs))) [
        | inr (x, bad) ↦ absurd (ground arith)
        | inl (items, n) ↦ elim (Result-cases (normalize_sections items)) [
          | inr (x, bad) ↦ absurd (ground arith)
          | inl (sections, m) ↦
              let last : check_emptiness title summary sections ≡ ok content = ground arith in
              let (a, b, c) = emptiness_lem title summary sections content last in
              (
                items,
                (
                  t ∙ ap ok (sym a),
                  s ∙ ap ok (sym b),
                  need_items_lem (get_field "sections" fs) items n,
                  m ∙ ap ok (sym c),
                  cc (a, b, c, last),
                ),
              )
        ]
      ]
    ]
  ]

  object_lem :
      (fs : Fields) (content : ProviderArticleContent)
      → check_object host fs ≡ ok content
      → (fields_contain host fs 1 ≡ false) × (check_shape fs ≡ ok content)
  unfolding check_object contains_governance
  object_lem no_fields content e = absurd (ground arith)
  object_lem (field k v rest) content e = (ground arith, ground arith)

  shape-Clean :
      (fs : Fields) (content : ProviderArticleContent)
      → check_object host fs ≡ ok content
      → Clean content
  unfolding contains_governance
  shape-Clean fs content e =
      let (inside, shape) = object_lem fs content e in
      let (items, (title, summary, sections, normal, full)) = shape_texts fs content shape in
      let (some_section, visible) =
        emptiness_visible content.title content.summary content.sections content full in
      (
        field_clean 1 "title" fs (text content.title) inside
            (need_text_lem (get_field "title" fs) content.title title),
        field_clean 1 "summary" fs (text content.summary) inside
            (need_text_lem (get_field "summary" fs) content.summary summary),
        sections_clean items content.sections
            (field_clean 1 "sections" fs (array items) inside sections) normal,
        some_section,
        visible,
      )

  -- Content that is accepted from a provider holds no gate, approval or publication verdict as its
  -- title, its summary or a heading or body of a section, whatever the rest of the answer held; it
  -- has a section, and a title, heading or body that is not blank.
  pub validate_provider_content-Clean :
      (raw : Option Json) (content : ProviderArticleContent)
      → validate_provider_content host raw ≡ ok content
      → Clean content
  unfolding validate_provider_content
  validate_provider_content-Clean none content e = absurd (ground arith)
  validate_provider_content-Clean (some (object fs)) content e = shape-Clean fs content e
  validate_provider_content-Clean (some null_value) content e = absurd (ground arith)
  validate_provider_content-Clean (some (flag b)) content e = absurd (ground arith)
  validate_provider_content-Clean (some (number n)) content e = absurd (ground arith)
  validate_provider_content-Clean (some (text t)) content e = absurd (ground arith)
  validate_provider_content-Clean (some (array items)) content e = absurd (ground arith)
