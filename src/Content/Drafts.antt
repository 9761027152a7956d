-- ===== src/Content/Drafts.antt =====
-- contracts/geo-business/entities.ts: briefs, provider contents and the draft compiler. The
-- planning context is an option, since the code checks at run time that it is there; so are the
-- arrays lists, whose emptiness it checks.
pub mod Compile
use geoplane.Base.{
  ℕ, suc, String, Bool, not, ◌==◌, Option, none, some, List, [], ◌∷◌, map, Result, ok, err, ◌>>◌,
  throw_if, is_empty, is_none, find,
}

pub data RiskLevel : Type 0 where
  standard escalated_for_human_review : RiskLevel

pub record ArticleBriefPlanningContext : Type 0 where
  pub opportunity_family_id : String
  pub authorizing_human_review_decision_ids : List String
  pub target_keywords : List String
  pub risk_level : RiskLevel

pub record ArticleBrief : Type 0 where
  pub id : String
  pub client_organization_id : String
  pub project_id : String
  pub opportunity_family_id : String
  pub planning_context : Option ArticleBriefPlanningContext
  pub working_title : String
  pub outline : List String
  pub created_at : String

pub record ProviderArticleContent : Type 0 where
  pub id : String
  pub client_organization_id : String
  pub project_id : String
  pub article_brief_id : String
  pub provider_response_envelope_id : String
  pub received_at : String

pub record ArticleDraftSection : Type 0 where
  pub heading : String
  pub order : ℕ

pub data DraftStatus : Type 0 where
  draft : DraftStatus
  sealed : (sealed_at : String) → DraftStatus

pub record ArticleDraft : Type 0 where
  pub id : String
  pub client_organization_id : String
  pub project_id : String
  pub article_brief_id : String
  pub source_provider_article_content_ids : List String
  pub version : ℕ
  pub title : String
  pub sections : List ArticleDraftSection
  pub compiled_at : String
  pub status : DraftStatus

pub record ArticleDraftCompilationIdentity : Type 0 where
  pub id : String
  pub version : ℕ
  pub compiled_at : String

pub data CompileError : Type 0 where
  planning_context_missing no_provider_contents : CompileError
  content_of_other_brief :
      (content_id references_brief_id compiled_brief_id : String) → CompileError

-- `outline.map((heading, order) => ...)` from a position on
unfoldable pub sections_from : ℕ → List String → List ArticleDraftSection
sections_from order [] = []
sections_from order (heading ∷ rest) =
    record { heading = heading; order = order } ∷ sections_from (suc order) rest

unfoldable pub mismatched :
    ArticleBrief → List ProviderArticleContent → Option ProviderArticleContent
mismatched brief = find (λ content. not (content.article_brief_id == brief.id))

unfoldable pub compiled :
    ArticleBrief → List ProviderArticleContent → ArticleDraftCompilationIdentity → ArticleDraft
unfolding sections_from
compiled brief contents identity = record {
  id = identity.id;
  client_organization_id = brief.client_organization_id;
  project_id = brief.project_id;
  article_brief_id = brief.id;
  source_provider_article_content_ids = map (λ content. content.id) contents;
  version = identity.version;
  title = brief.working_title;
  sections = sections_from 0 brief.outline;
  compiled_at = identity.compiled_at;
  status = DraftStatus.draft;
}

unfoldable pub compile_article_draft :
    ArticleBrief
    → List ProviderArticleContent
    → ArticleDraftCompilationIdentity
    → Result CompileError ArticleDraft
unfolding mismatched compiled
compile_article_draft brief contents identity = do
  throw_if (is_none brief.planning_context) planning_context_missing
  throw_if (is_empty contents) no_provider_contents
  elim (mismatched brief contents) [
    | some content ↦ err (content_of_other_brief content.id content.article_brief_id brief.id)
    | none ↦ ok (compiled brief contents identity)
  ]
