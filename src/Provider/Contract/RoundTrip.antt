-- ===== src/Provider/Contract/RoundTrip.antt =====
-- Content that is written as JSON and validated again.
use geoplane.Base.{
  String, true, false, not, ◌||◌, some, List, [], ◌∷◌, ok, ◌≡◌, ◌≢◌, ◌↔◌, refl, any, All,
}
use geoplane.Base.Text.{is_blank, trim}
use geoplane.Base.Split.{includes_text}
use geoplane.Base.Host.{Host}
use geoplane.Base.Json.{
  Json, Items, text, array, object, no_items, item, no_fields, field, get_field,
}
use geoplane.Provider.Contract.{
  ProviderArticleContent, ProviderArticleContentSection, provider_article_content,
  governance_key_fragments, is_governance_value, is_governance_key, contains_governance,
  items_contain, normalize_section, normalize_sections, is_visible, check_emptiness, check_shape,
  check_object, validate_provider_content, keys_allowed,
}
use geoplane.Provider.Contract.Firewall.{Clean, CleanSection, validate_provider_content-Clean}

abbrev pub section_json : ProviderArticleContentSection → Json
section_json section =
    object (field "heading" (text section.heading) (field "body" (text section.body) no_fields))

abbrev pub section_items : List ProviderArticleContentSection → Items
section_items [] = no_items
section_items (section ∷ sections) = item (section_json section) (section_items sections)

abbrev pub content_json : ProviderArticleContent → Json
content_json content = object (
    field "schemaVersion" (text provider_article_content) (
      field "title" (text content.title) (
        field "summary" (text content.summary)
          (field "sections" (array (section_items content.sections)) no_fields))))

-- What the case table does to the keys of content.
pub record LowersKeys (host : Host) : Type 0 where
  pub schema_version : host.to_lower_case "schemaVersion" ≡ "schemaversion"
  pub title : host.to_lower_case "title" ≡ "title"
  pub summary : host.to_lower_case "summary" ≡ "summary"
  pub sections : host.to_lower_case "sections" ≡ "sections"
  pub heading : host.to_lower_case "heading" ≡ "heading"
  pub body : host.to_lower_case "body" ≡ "body"

key_lem :
    (host : Host) (key lowered : String)
    → host.to_lower_case key ≡ lowered
    → any (λ fragment. includes_text fragment lowered) governance_key_fragments ≡ false
    → is_governance_key host key ≡ false
unfolding is_governance_key
key_lem host key lowered e h = rw e h

emptiness_lem :
    (title summary : String) (sections : List ProviderArticleContentSection)
    → sections ≢ []
    → (not (is_blank title) || any is_visible sections) ≡ true
    → check_emptiness title summary sections
      ≡ ok (record { title = title; summary = summary; sections = sections })
unfolding check_emptiness
emptiness_lem title summary [] some_section visible = absurd (some_section refl)
emptiness_lem title summary (s ∷ ss) some_section visible = rw visible refl

module _ (host : Host) (lowers : LowersKeys host) where
  section_key : is_governance_key host "heading" ≡ false
  unfolding includes_text
  section_key = key_lem host "heading" "heading" lowers.heading refl

  body_key : is_governance_key host "body" ≡ false
  unfolding includes_text
  body_key = key_lem host "body" "body" lowers.body refl

  version_key : is_governance_key host "schemaVersion" ≡ false
  unfolding includes_text
  version_key = key_lem host "schemaVersion" "schemaversion" lowers.schema_version refl

  title_key : is_governance_key host "title" ≡ false
  unfolding includes_text
  title_key = key_lem host "title" "title" lowers.title refl

  summary_key : is_governance_key host "summary" ≡ false
  unfolding includes_text
  summary_key = key_lem host "summary" "summary" lowers.summary refl

  sections_key : is_governance_key host "sections" ≡ false
  unfolding includes_text
  sections_key = key_lem host "sections" "sections" lowers.sections refl

  items_clean :
      (sections : List ProviderArticleContentSection)
      → All CleanSection sections
      → items_contain host (section_items sections) 2 ≡ false
  unfolding contains_governance
  items_clean [] h = refl
  items_clean (s ∷ ss) h = rw (section_key, body_key, h.0.0, h.0.1, items_clean ss h.1) refl

  sections_lem :
      (sections : List ProviderArticleContentSection)
      → normalize_sections (section_items sections) ≡ ok sections
  unfolding normalize_sections normalize_section keys_allowed get_field
  sections_lem [] = refl
  sections_lem (s ∷ ss) = rw (sections_lem ss) refl

  literal : is_governance_value provider_article_content ≡ false
  unfolding is_governance_value trim
  literal = refl

  accepted :
      (content : ProviderArticleContent)
      → Clean content
      → validate_provider_content host (some (content_json content)) ≡ ok content
  unfolding validate_provider_content check_object check_shape contains_governance keys_allowed
      get_field
  accepted content (title, summary, sections, some_section, visible) =
      rw
        (
          version_key,
          title_key,
          summary_key,
          sections_key,
          literal,
          title,
          summary,
          items_clean content.sections sections,
          sections_lem content.sections,
        )
        (emptiness_lem content.title content.summary content.sections some_section visible)

  -- With a case table that lowers the keys of content, content that is written as JSON is accepted
  -- as it was exactly if none of its texts is a verdict, it has a section and a title, heading or
  -- body that is not blank.
  pub validate_provider_content-content_json :
      (content : ProviderArticleContent)
      → (validate_provider_content host (some (content_json content)) ≡ ok content) ↔ Clean content
  validate_provider_content-content_json content =
      (validate_provider_content-Clean host (some (content_json content)) content, accepted content)
