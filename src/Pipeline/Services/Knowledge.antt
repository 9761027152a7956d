-- ===== src/Pipeline/Services/Knowledge.antt =====
-- services/keyword-question-service.ts
use geoplane.Base.{
  ℕ, String, true, ◌&&◌, ◌==◌, Option, none, some, List, any, find, map, is_empty, is_none, get_or,
  repeats,
}
use geoplane.Base.Dict.{get}
use geoplane.Content.Knowledge.{
  KnowledgePackage, PackageStatus, IndustryProfile, GeoValidationGateLevel, KeywordQuestionEntry,
  KeywordQuestionMap,
}
use geoplane.Tenancy.Entities.{AuthorizationContext}
use geoplane.Pipeline.Action.{
  Runtime, Action, ◌>>=◌, ◌>>◌, assert_access, now, next_id, persist, reads, throw_when, pure,
  id_exists, keyword_without_questions, profile_exists, no_service_principal,
}
use geoplane.Pipeline.Tables

pub record CreateKnowledgePackageInput : Type 0 where
  pub client_organization_id : String
  pub project_id : String
  pub version : ℕ
  pub title : String
  pub source_description : String

pub record CreateIndustryProfileInput : Type 0 where
  pub client_organization_id : String
  pub project_id : String
  pub vertical_slug : String
  pub vertical_label : String
  pub validation_gate_level : GeoValidationGateLevel
  pub rule_set_version : ℕ

pub record CreateKeywordQuestionMapInput : Type 0 where
  pub knowledge_package : KnowledgePackage
  pub industry_profile_id : String
  pub entries : List KeywordQuestionEntry

-- `KnowledgePackageBridge.add` refuses to write when it was made without the id of a user.
unfoldable pub refuse_package : Runtime → Action (Unit {0})
refuse_package rt = throw_when (get_or rt.created_by_user_id "" == "") no_service_principal

-- What `PgIndustryProfileRepository.add` refuses besides an id in use: a second profile of a
-- project.
unfoldable pub refuse_profile :
    (client_organization_id project_id profile_id : String) → Action (Unit {0})
refuse_profile client_organization_id project_id profile_id = do
  profiles ← reads (λ s. s.industry_profiles)
  throw_when
      (is_none (get profile_id profiles)
        && any
            (λ entry.
              entry.1.client_organization_id == client_organization_id
              && entry.1.project_id == project_id)
            profiles)
      (profile_exists project_id)

-- the test of `PgKeywordQuestionMapRepository.add`, given the first entry without a question
unfoldable pub refuse_entry : Option KeywordQuestionEntry → Action (Unit {0})
refuse_entry none = pure tt
refuse_entry (some entry) = throw_when true (keyword_without_questions entry.keyword)

-- What `PgKeywordQuestionMapRepository.add` refuses besides an id in use: a keyword without a
-- question, and, by the constraint uq_kqm_keyword_per_map, a keyword that stands twice.
unfoldable pub refuse_entries : List KeywordQuestionEntry → (map_id : String) → Action (Unit {0})
unfolding refuse_entry
refuse_entries entries map_id = do
  refuse_entry (find (λ entry. is_empty entry.questions) entries)
  throw_when (repeats (map (λ entry. entry.keyword) entries)) (id_exists map_id)

module _ (rt : Runtime) (actor : AuthorizationContext) where
  unfoldable pub create_knowledge_package : CreateKnowledgePackageInput → Action KnowledgePackage
  create_knowledge_package input = do
    assert_access actor input.client_organization_id
    created_at ← now rt
    id ← next_id rt
    refuse_package rt
    persist Tables.knowledge_packages actor input.client_organization_id input.project_id
        "knowledge_package.created" "KnowledgePackage" id created_at
        (record {
          id = id;
          client_organization_id = input.client_organization_id;
          project_id = input.project_id;
          version = input.version;
          title = input.title;
          source_description = input.source_description;
          created_at = created_at;
          status = PackageStatus.draft;
        })

  unfoldable pub create_industry_profile : CreateIndustryProfileInput → Action IndustryProfile
  create_industry_profile input = do
    assert_access actor input.client_organization_id
    timestamp ← now rt
    id ← next_id rt
    refuse_profile input.client_organization_id input.project_id id
    persist Tables.industry_profiles actor input.client_organization_id input.project_id
        "industry_profile.created" "IndustryProfile" id timestamp
        (record {
          id = id;
          client_organization_id = input.client_organization_id;
          project_id = input.project_id;
          vertical_slug = input.vertical_slug;
          vertical_label = input.vertical_label;
          validation_gate_level = input.validation_gate_level;
          rule_set_version = input.rule_set_version;
          created_at = timestamp;
          updated_at = timestamp;
        })

  unfoldable pub create_keyword_question_map :
      CreateKeywordQuestionMapInput → Action KeywordQuestionMap
  create_keyword_question_map input = do
    let source = input.knowledge_package
    assert_access actor source.client_organization_id
    created_at ← now rt
    id ← next_id rt
    refuse_entries input.entries id
    persist Tables.keyword_question_maps actor source.client_organization_id source.project_id
        "keyword_question_map.created" "KeywordQuestionMap" id created_at
        (record {
          id = id;
          client_organization_id = source.client_organization_id;
          project_id = source.project_id;
          knowledge_package_id = source.id;
          knowledge_package_version = source.version;
          industry_profile_id = input.industry_profile_id;
          entries = input.entries;
          created_at = created_at;
        })
