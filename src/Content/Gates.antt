-- ===== src/Content/Gates.antt =====
-- contracts/geo-business/entities.ts: the outcome of a gate, the quality gate and the approval of
-- an article. A failure reason is a constructor in place of its text.
pub mod Verdict
use geoplane.Base.{
  ℕ, String, Bool, true, false, not, ◌==◌, Option, none, some, List, [], ◌∷◌, ◌++◌, ◌≡◌, any,
  is_empty, if◌then◌else◌,
}
use geoplane.Base.Text.{is_blank}
use geoplane.Content.Knowledge.{GeoValidationGateLevel}
use geoplane.Content.Drafts.{ArticleBriefPlanningContext, ArticleBrief, ArticleDraft}

-- `status`, with the reasons that a failed gate carries.
pub data Outcome (R : Type 0) : Type 0 where
  passed : Outcome R
  failed : (failure_reasons : List R) → Outcome R

pub data QualityFailure : Type 0 where
  zero_sections blank_heading context_missing no_target_keywords : QualityFailure
  no_decision_ids no_content_ids : QualityFailure
  brief_mismatch : (draft_brief_id brief_id : String) → QualityFailure

pub record QualityGate : Type 0 where
  pub id : String
  pub client_organization_id : String
  pub project_id : String
  pub article_draft_id : String
  pub outcome : Outcome QualityFailure
  pub evaluated_at : String

pub data PlatformFailure : Type 0 where
  no_source_contents blank_title : PlatformFailure

pub record PlatformGate : Type 0 where
  pub id : String
  pub client_organization_id : String
  pub project_id : String
  pub article_draft_id : String
  pub industry_profile_id : String
  pub gate_level_applied : GeoValidationGateLevel
  pub outcome : Outcome PlatformFailure
  pub evaluated_at : String

pub data VerticalFailure : Type 0 where
  no_sections : VerticalFailure

pub record VerticalGate : Type 0 where
  pub id : String
  pub client_organization_id : String
  pub project_id : String
  pub article_draft_id : String
  pub industry_profile_id : String
  pub gate_level_applied : GeoValidationGateLevel
  pub outcome : Outcome VerticalFailure
  pub evaluated_at : String

-- The three fields that are pinned to the literal "PASSED" have one value and are left out.
pub record ArticleApproval : Type 0 where
  pub id : String
  pub client_organization_id : String
  pub project_id : String
  pub article_draft_id : String
  pub approver_id : String
  pub approved_at : String
  pub quality_gate_id : String
  pub platform_gate_id : String
  pub vertical_gate_id : String

pub record QualityGateEvaluationIdentity : Type 0 where
  pub id : String
  pub evaluated_at : String

-- `if (test) failureReasons.push(reason)`
abbrev pub reason_if : {R : Type 0} → Bool → R → List R
reason_if true r = r ∷ []
reason_if false r = []

section_reasons : ArticleDraft → List QualityFailure
section_reasons draft =
    if is_empty draft.sections
    then zero_sections ∷ []
    else reason_if (any (λ section. is_blank section.heading) draft.sections) blank_heading

context_reasons : Option ArticleBriefPlanningContext → List QualityFailure
context_reasons none = context_missing ∷ []
context_reasons (some context) =
    reason_if (is_empty context.target_keywords) no_target_keywords
    ++ reason_if (is_empty context.authorizing_human_review_decision_ids) no_decision_ids

quality_reasons : ArticleDraft → ArticleBrief → List QualityFailure
unfolding section_reasons context_reasons
quality_reasons draft brief =
    section_reasons draft
    ++ (context_reasons brief.planning_context
        ++ (reason_if (is_empty draft.source_provider_article_content_ids) no_content_ids
            ++ reason_if (not (draft.article_brief_id == brief.id))
                (brief_mismatch draft.article_brief_id brief.id)))

-- PASSED where no reason was pushed
abbrev pub outcome_of : {R : Type 0} → List R → Outcome R
outcome_of [] = passed
outcome_of (r ∷ rs) = failed (r ∷ rs)

unfoldable pub evaluate_quality_gate :
    ArticleDraft → ArticleBrief → QualityGateEvaluationIdentity → QualityGate
unfolding quality_reasons
evaluate_quality_gate draft brief identity = record {
  id = identity.id;
  client_organization_id = draft.client_organization_id;
  project_id = draft.project_id;
  article_draft_id = draft.id;
  outcome = outcome_of (quality_reasons draft brief);
  evaluated_at = identity.evaluated_at;
}
