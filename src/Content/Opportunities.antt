-- ===== src/Content/Opportunities.antt =====
-- contracts/geo-business/entities.ts: opportunities, their validation, the human review and the
-- families of approved opportunities.
use geoplane.Base.{ℕ, String, List}
use geoplane.Content.Knowledge.{GeoValidationGateLevel}

pub record Opportunity : Type 0 where
  pub id : String
  pub client_organization_id : String
  pub project_id : String
  pub keyword_question_map_id : String
  pub keyword : String
  pub grounding_knowledge_package_id : String
  pub grounding_knowledge_package_version : ℕ
  pub created_at : String

pub data OpportunityValidationStatus : Type 0 where
  pending_validation validated rejected : OpportunityValidationStatus

pub record OpportunityValidation : Type 0 where
  pub id : String
  pub client_organization_id : String
  pub project_id : String
  pub opportunity_id : String
  pub status : OpportunityValidationStatus
  pub industry_profile_id : String
  pub gate_level_applied : GeoValidationGateLevel
  pub reason_note : String
  pub validated_at : String

-- `status` with the note that two of its variants carry.
pub data HumanReviewStatus : Type 0 where
  approved : HumanReviewStatus
  changes_requested : (requested_changes_note : String) → HumanReviewStatus
  rejected : (rejection_reason_note : String) → HumanReviewStatus

pub record HumanReviewDecision : Type 0 where
  pub id : String
  pub client_organization_id : String
  pub project_id : String
  pub opportunity_id : String
  pub opportunity_validation_id : String
  pub status : HumanReviewStatus
  pub reviewer_id : String
  pub decided_at : String

-- The field that is pinned to the literal "APPROVED" has one value and is left out.
pub record OpportunityFamilyMember : Type 0 where
  pub opportunity_id : String
  pub authorizing_human_review_decision_id : String

pub record OpportunityFamily : Type 0 where
  pub id : String
  pub client_organization_id : String
  pub project_id : String
  pub members : List OpportunityFamilyMember
  pub created_at : String
