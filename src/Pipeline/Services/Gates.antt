-- ===== src/Pipeline/Services/Gates.antt =====
-- services/quality-gate-service.ts
pub mod Approvals
use geoplane.Base.{String, Bool, not, ◌==◌, ◌≡◌, List, [], ◌∷◌, ◌++◌, is_empty, if◌then◌else◌}
use geoplane.Base.Text.{is_blank}
use geoplane.Content.Knowledge.{IndustryProfile}
use geoplane.Content.Drafts.{ArticleBrief, ArticleDraft}
use geoplane.Content.Gates.{
  Outcome, passed, failed, QualityGate, PlatformGate, PlatformFailure, no_source_contents,
  blank_title, VerticalGate, VerticalFailure, no_sections, ArticleApproval, reason_if, outcome_of,
  evaluate_quality_gate,
}
use geoplane.Tenancy.Entities.{AuthorizationContext}
use geoplane.Pipeline.Action.{
  Runtime, Action, Failure, ◌>>=◌, ◌>>◌, pure, throw_when, lift, reads, assert_access, now, next_id,
  persist, different_tenants, keyword_not_in_map, blank_reviewer, blank_selector, blank_approver,
  decision_missing, decision_of_other_tenant, decision_not_approved, decision_for_other_opportunity,
  gate_of_other_draft, compile_failed, publication_failed,
}
use geoplane.Pipeline.Tables

-- The gates that the compiler lets into an approval: those with status PASSED.
pub record PassedQualityGate : Type 0 where
  pub gate : QualityGate
  pub has_passed : gate.outcome ≡ passed

pub record PassedPlatformGate : Type 0 where
  pub gate : PlatformGate
  pub has_passed : gate.outcome ≡ passed

pub record PassedVerticalGate : Type 0 where
  pub gate : VerticalGate
  pub has_passed : gate.outcome ≡ passed

-- the audit action of a gate, as `quality_gate.` before the status in lower case
abbrev gate_action : {R : Type 0} → (on_pass on_fail : String) → Outcome R → String
gate_action on_pass on_fail passed = on_pass
gate_action on_pass on_fail (failed reasons) = on_fail

platform_reasons : ArticleDraft → List PlatformFailure
platform_reasons draft =
    reason_if (is_empty draft.source_provider_article_content_ids) no_source_contents
    ++ reason_if (is_blank draft.title) blank_title

vertical_reasons : ArticleDraft → List VerticalFailure
vertical_reasons draft = reason_if (is_empty draft.sections) no_sections

-- the loop of `approveArticle` over the gates, by their ids and drafts
unfoldable pub check_gates : ArticleDraft → List (String × String) → Action (Unit {0})
check_gates draft [] = pure tt
check_gates draft ((gate_id, gate_draft_id) ∷ gates) = do
  throw_when (not (gate_draft_id == draft.id)) (gate_of_other_draft gate_id gate_draft_id draft.id)
  check_gates draft gates

module _ (rt : Runtime) (actor : AuthorizationContext) where
  unfoldable pub evaluate_quality : ArticleDraft → ArticleBrief → Action QualityGate
  evaluate_quality draft brief = do
    assert_access actor draft.client_organization_id
    id ← next_id rt
    evaluated_at ← now rt
    let gate = evaluate_quality_gate draft brief (record { id = id; evaluated_at = evaluated_at })
    persist Tables.quality_gates actor gate.client_organization_id gate.project_id
        (gate_action "quality_gate.passed" "quality_gate.failed" gate.outcome) "QualityGate" gate.id
        gate.evaluated_at gate

  unfoldable pub evaluate_platform_gate : ArticleDraft → IndustryProfile → Action PlatformGate
  unfolding platform_reasons
  evaluate_platform_gate draft profile = do
    assert_access actor draft.client_organization_id
    id ← next_id rt
    evaluated_at ← now rt
    let outcome = outcome_of (platform_reasons draft)
    persist Tables.platform_gates actor draft.client_organization_id draft.project_id
        (gate_action "platform_gate.passed" "platform_gate.failed" outcome) "PlatformGate" id
        evaluated_at
        (record {
          id = id;
          client_organization_id = draft.client_organization_id;
          project_id = draft.project_id;
          article_draft_id = draft.id;
          industry_profile_id = profile.id;
          gate_level_applied = profile.validation_gate_level;
          outcome = outcome;
          evaluated_at = evaluated_at;
        })

  unfoldable pub evaluate_vertical_gate : ArticleDraft → IndustryProfile → Action VerticalGate
  unfolding vertical_reasons
  evaluate_vertical_gate draft profile = do
    assert_access actor draft.client_organization_id
    id ← next_id rt
    evaluated_at ← now rt
    let outcome = outcome_of (vertical_reasons draft)
    persist Tables.vertical_gates actor draft.client_organization_id draft.project_id
        (gate_action "vertical_gate.passed" "vertical_gate.failed" outcome) "VerticalGate" id
        evaluated_at
        (record {
          id = id;
          client_organization_id = draft.client_organization_id;
          project_id = draft.project_id;
          article_draft_id = draft.id;
          industry_profile_id = profile.id;
          gate_level_applied = profile.validation_gate_level;
          outcome = outcome;
          evaluated_at = evaluated_at;
        })

  unfoldable pub approve_article :
      ArticleDraft
      → (approver_id : String) → PassedQualityGate
      → PassedPlatformGate
      → PassedVerticalGate
      → Action ArticleApproval
  approve_article draft approver_id quality platform vertical = do
    assert_access actor draft.client_organization_id
    throw_when (is_blank approver_id) blank_approver
    check_gates draft (
        (quality.gate.id, quality.gate.article_draft_id)
        ∷ (platform.gate.id, platform.gate.article_draft_id)
        ∷ (vertical.gate.id, vertical.gate.article_draft_id)
        ∷ [])
    approved_at ← now rt
    id ← next_id rt
    persist Tables.approvals actor draft.client_organization_id draft.project_id "article.approved"
        "ArticleApproval" id approved_at
        (record {
          id = id;
          client_organization_id = draft.client_organization_id;
          project_id = draft.project_id;
          article_draft_id = draft.id;
          approver_id = approver_id;
          approved_at = approved_at;
          quality_gate_id = quality.gate.id;
          platform_gate_id = platform.gate.id;
          vertical_gate_id = vertical.gate.id;
        })
