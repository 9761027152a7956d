-- ===== src/Pipeline/Services/Articles.antt =====
-- services/article-brief-service.ts and article-pipeline-service.ts
pub mod Versions
use geoplane.Base.{ℕ, suc, String, ◌==◌, ltb, leb, some, List, [], ◌∷◌, map, filter, if◌then◌else◌}
use geoplane.Base.Dict.{Dict, values}
use geoplane.Content.Opportunities.{OpportunityFamily}
use geoplane.Content.Drafts.{
  RiskLevel, ArticleBrief, ProviderArticleContent, ArticleDraft, compile_article_draft,
}
use geoplane.Tenancy.Entities.{AuthorizationContext}
use geoplane.Pipeline.Action.{
  Runtime, Action, Failure, ◌>>=◌, ◌>>◌, pure, throw_when, lift, reads, assert_access, now, next_id,
  persist, different_tenants, keyword_not_in_map, blank_reviewer, blank_selector, blank_approver,
  decision_missing, decision_of_other_tenant, decision_not_approved, decision_for_other_opportunity,
  gate_of_other_draft, compile_failed, publication_failed,
}
use geoplane.Pipeline.Tables

pub record CreateArticleBriefInput : Type 0 where
  pub family : OpportunityFamily
  pub working_title : String
  pub outline : List String
  pub target_keywords : List String
  pub risk_level : RiskLevel

-- `ORDER BY version`, an insertion sort
unfoldable pub insert_draft : ArticleDraft → List ArticleDraft → List ArticleDraft
insert_draft d [] = d ∷ []
insert_draft d (e ∷ ds) =
    let rest = insert_draft d ds in if leb d.version e.version then d ∷ e ∷ ds else e ∷ rest

unfoldable pub sort_drafts : List ArticleDraft → List ArticleDraft
unfolding insert_draft
sort_drafts [] = []
sort_drafts (d ∷ ds) = insert_draft d (sort_drafts ds)

-- The query orders drafts of one version by their ids; the constraint
-- uq_article_draft_brief_version keeps a brief from having two, and here they would stay in the
-- order of insertion.
unfoldable pub list_by_article_brief : String → Dict ArticleDraft → List ArticleDraft
unfolding values sort_drafts
list_by_article_brief brief_id drafts =
    sort_drafts (filter (λ d. d.article_brief_id == brief_id) (values drafts))

-- `existing.reduce((max, draft) => (draft.version > max ? draft.version : max), max)`
unfoldable pub highest : ℕ → List ArticleDraft → ℕ
highest max [] = max
highest max (d ∷ ds) = highest (if ltb max d.version then d.version else max) ds

module _ (rt : Runtime) (actor : AuthorizationContext) where
  unfoldable pub create_brief : CreateArticleBriefInput → Action ArticleBrief
  create_brief input = do
    let family = input.family
    assert_access actor family.client_organization_id
    created_at ← now rt
    id ← next_id rt
    persist Tables.briefs actor family.client_organization_id family.project_id
        "article_brief.created" "ArticleBrief" id created_at
        (record {
          id = id;
          client_organization_id = family.client_organization_id;
          project_id = family.project_id;
          opportunity_family_id = family.id;
          planning_context = some (record {
            opportunity_family_id = family.id;
            authorizing_human_review_decision_ids =
                map (λ m. m.authorizing_human_review_decision_id) family.members;
            target_keywords = input.target_keywords;
            risk_level = input.risk_level;
          });
          working_title = input.working_title;
          outline = input.outline;
          created_at = created_at;
        })

  unfoldable pub ingest_provider_article_content :
      ArticleBrief → (provider_response_envelope_id : String) → Action ProviderArticleContent
  ingest_provider_article_content brief provider_response_envelope_id = do
    assert_access actor brief.client_organization_id
    received_at ← now rt
    id ← next_id rt
    persist Tables.provider_contents actor brief.client_organization_id brief.project_id
        "provider_article_content.ingested" "ProviderArticleContent" id received_at
        (record {
          id = id;
          client_organization_id = brief.client_organization_id;
          project_id = brief.project_id;
          article_brief_id = brief.id;
          provider_response_envelope_id = provider_response_envelope_id;
          received_at = received_at;
        })

  unfoldable pub compile_draft : ArticleBrief → List ProviderArticleContent → Action ArticleDraft
  compile_draft brief contents = do
    assert_access actor brief.client_organization_id
    existing ← reads (λ s. list_by_article_brief brief.id s.drafts)
    compiled_at ← now rt
    id ← next_id rt
    draft ← lift compile_failed (
        compile_article_draft brief contents
          (record { id = id; version = suc (highest 0 existing); compiled_at = compiled_at }))
    persist Tables.drafts actor draft.client_organization_id draft.project_id
        "article_draft.compiled" "ArticleDraft" draft.id compiled_at draft
