-- ===== src/Content/Knowledge.antt =====
-- contracts/geo-business/entities.ts, the first steps of the chain: knowledge packages, industry
-- profiles and keyword maps.
use geoplane.Base.{ℕ, String, List}

-- `sealedAt` is there only on a sealed package.
pub data PackageStatus : Type 0 where
  draft : PackageStatus
  sealed : (sealed_at : String) → PackageStatus

pub record KnowledgePackage : Type 0 where
  pub id : String
  pub client_organization_id : String
  pub project_id : String
  pub version : ℕ
  pub title : String
  pub source_description : String
  pub created_at : String
  pub status : PackageStatus

pub data GeoValidationGateLevel : Type 0 where
  platform_wide_gate industry_vertical_gate : GeoValidationGateLevel

pub record IndustryProfile : Type 0 where
  pub id : String
  pub client_organization_id : String
  pub project_id : String
  pub vertical_slug : String
  pub vertical_label : String
  pub validation_gate_level : GeoValidationGateLevel
  pub rule_set_version : ℕ
  pub created_at : String
  pub updated_at : String

pub record KeywordQuestionEntry : Type 0 where
  pub keyword : String
  pub questions : List String

pub record KeywordQuestionMap : Type 0 where
  pub id : String
  pub client_organization_id : String
  pub project_id : String
  pub knowledge_package_id : String
  pub knowledge_package_version : ℕ
  pub industry_profile_id : String
  pub entries : List KeywordQuestionEntry
  pub created_at : String
