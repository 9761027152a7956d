-- ===== src/Pipeline/Services/Opportunities.antt =====
-- services/opportunity-service.ts, validation-service.ts, human-review-service.ts and
-- opportunity-family-service.ts
pub mod Families
use geoplane.Base.{
  ℕ, String, Bool, true, false, not, ◌&&◌, ◌||◌, ◌==◌, Option, none, some, List, [], ◌∷◌, any, map,
  is_empty, repeats, if◌then◌else◌,
}
use geoplane.Base.Dict.{get}
use geoplane.Base.Text.{is_blank}
use geoplane.Content.Knowledge.{KnowledgePackage, IndustryProfile, KeywordQuestionMap}
use geoplane.Content.Opportunities.{
  Opportunity, OpportunityValidation, OpportunityValidationStatus, HumanReviewDecision,
  HumanReviewStatus, approved, changes_requested, rejected, OpportunityFamily,
  OpportunityFamilyMember,
}
use geoplane.Tenancy.Entities.{AuthorizationContext}
use geoplane.Pipeline.Action.{
  Runtime, Action, Failure, ◌>>=◌, ◌>>◌, pure, throw_when, lift, reads, assert_access, now, next_id,
  persist, different_tenants, id_exists, family_without_members, keyword_not_in_map, blank_reviewer,
  blank_selector, blank_approver, decision_missing, decision_of_other_tenant, decision_not_approved,
  decision_for_other_opportunity, gate_of_other_draft, compile_failed, publication_failed,
}
use geoplane.Pipeline.Tables

pub record CreateOpportunityInput : Type 0 where
  pub keyword_question_map : KeywordQuestionMap
  pub keyword : String
  pub knowledge_package : KnowledgePackage

pub record ValidateOpportunityInput : Type 0 where
  pub opportunity : Opportunity
  pub industry_profile : IndustryProfile
  pub status : OpportunityValidationStatus
  pub reason_note : String

pub record CreateOpportunityFamilyInput : Type 0 where
  pub client_organization_id : String
  pub project_id : String
  pub members : List OpportunityFamilyMember

abbrev pub is_approved : HumanReviewStatus → Bool
is_approved approved = true
is_approved _ = false

-- one round of the loop over the members, given the decision that was found
unfoldable pub check_decision :
    CreateOpportunityFamilyInput
    → OpportunityFamilyMember
    → Option HumanReviewDecision
    → Action (Unit {0})
check_decision input member none =
    throw_when true (decision_missing member.authorizing_human_review_decision_id)
check_decision input member (some decision) = do
  throw_when
      (not (decision.client_organization_id == input.client_organization_id)
        || not (decision.project_id == input.project_id))
      (decision_of_other_tenant decision.id)
  throw_when (not (is_approved decision.status)) (decision_not_approved decision.id decision.status)
  throw_when (not (decision.opportunity_id == member.opportunity_id))
      (decision_for_other_opportunity decision.id decision.opportunity_id member.opportunity_id)

unfoldable pub check_members :
    CreateOpportunityFamilyInput → List OpportunityFamilyMember → Action (Unit {0})
unfolding check_decision
check_members input [] = pure tt
check_members input (member ∷ members) = do
  decision ← reads (λ s. get member.authorizing_human_review_decision_id s.reviews)
  check_decision input member decision
  check_members input members

-- What `PgOpportunityFamilyRepository.add` refuses besides an id in use: a family without a member,
-- and, by the constraint uq_ofm_opportunity, one that has an opportunity twice.
unfoldable pub refuse_family :
    List OpportunityFamilyMember → (family_id : String) → Action (Unit {0})
refuse_family members family_id = do
  throw_when (is_empty members) family_without_members
  throw_when (repeats (map (λ member. member.opportunity_id) members)) (id_exists family_id)

module _ (rt : Runtime) (actor : AuthorizationContext) where
  unfoldable pub create_opportunity : CreateOpportunityInput → Action Opportunity
  create_opportunity input = do
    let map = input.keyword_question_map
    let source = input.knowledge_package
    assert_access actor source.client_organization_id
    throw_when (not (any (λ entry. entry.keyword == input.keyword) map.entries))
        (keyword_not_in_map input.keyword map.id)
    throw_when
        (not (map.client_organization_id == source.client_organization_id)
          || not (map.project_id == source.project_id))
        different_tenants
    created_at ← now rt
    id ← next_id rt
    persist Tables.opportunities actor source.client_organization_id source.project_id
        "opportunity.created" "Opportunity" id created_at
        (record {
          id = id;
          client_organization_id = source.client_organization_id;
          project_id = source.project_id;
          keyword_question_map_id = map.id;
          keyword = input.keyword;
          grounding_knowledge_package_id = source.id;
          grounding_knowledge_package_version = source.version;
          created_at = created_at;
        })

  unfoldable pub validate_opportunity : ValidateOpportunityInput → Action OpportunityValidation
  validate_opportunity input = do
    let opportunity = input.opportunity
    let profile = input.industry_profile
    assert_access actor opportunity.client_organization_id
    throw_when
        (not (opportunity.client_organization_id == profile.client_organization_id)
          || not (opportunity.project_id == profile.project_id))
        different_tenants
    validated_at ← now rt
    id ← next_id rt
    persist Tables.validations actor opportunity.client_organization_id opportunity.project_id
        "opportunity.validated" "OpportunityValidation" id validated_at
        (record {
          id = id;
          client_organization_id = opportunity.client_organization_id;
          project_id = opportunity.project_id;
          opportunity_id = opportunity.id;
          status = input.status;
          industry_profile_id = profile.id;
          gate_level_applied = profile.validation_gate_level;
          reason_note = input.reason_note;
          validated_at = validated_at;
        })

  -- the common body of the three methods of the human review
  unfoldable pub decide :
      (action : String)
      → HumanReviewStatus
      → OpportunityValidation
      → String
      → Action HumanReviewDecision
  decide action status validation reviewer_id = do
    assert_access actor validation.client_organization_id
    throw_when (is_blank reviewer_id) blank_reviewer
    decided_at ← now rt
    id ← next_id rt
    persist Tables.reviews actor validation.client_organization_id validation.project_id action
        "HumanReviewDecision" id decided_at
        (record {
          id = id;
          client_organization_id = validation.client_organization_id;
          project_id = validation.project_id;
          opportunity_id = validation.opportunity_id;
          opportunity_validation_id = validation.id;
          status = status;
          reviewer_id = reviewer_id;
          decided_at = decided_at;
        })

  unfoldable pub confirm :
      OpportunityValidation → (reviewer_id : String) → Action HumanReviewDecision
  unfolding decide
  confirm validation reviewer_id = decide "human_review.confirmed" approved validation reviewer_id

  unfoldable pub request_changes :
      OpportunityValidation → (reviewer_id note : String) → Action HumanReviewDecision
  unfolding decide
  request_changes validation reviewer_id note =
      decide "human_review.changes_requested" (changes_requested note) validation reviewer_id

  unfoldable pub reject :
      OpportunityValidation → (reviewer_id note : String) → Action HumanReviewDecision
  unfolding decide
  reject validation reviewer_id note =
      decide "human_review.rejected" (rejected note) validation reviewer_id

  unfoldable pub create_family : CreateOpportunityFamilyInput → Action OpportunityFamily
  create_family input = do
    assert_access actor input.client_organization_id
    check_members input input.members
    created_at ← now rt
    id ← next_id rt
    refuse_family input.members id
    persist Tables.families actor input.client_organization_id input.project_id
        "opportunity_family.created" "OpportunityFamily" id created_at
        (record {
          id = id;
          client_organization_id = input.client_organization_id;
          project_id = input.project_id;
          members = input.members;
          created_at = created_at;
        })
