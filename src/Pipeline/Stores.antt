-- ===== src/Pipeline/Stores.antt =====
-- runtime/geo/ports.ts: what the repositories and the audit sink hold. A repository is the list of
-- its records by id, in the order of insertion.
use geoplane.Base.{String, List, []}
use geoplane.Base.Dict.{Dict}
use geoplane.Content.Knowledge.{KnowledgePackage, IndustryProfile, KeywordQuestionMap}
use geoplane.Content.Opportunities.{
  Opportunity, OpportunityValidation, HumanReviewDecision, OpportunityFamily,
}
use geoplane.Content.Drafts.{ArticleBrief, ProviderArticleContent, ArticleDraft}
use geoplane.Content.Gates.{QualityGate, PlatformGate, VerticalGate, ArticleApproval}
use geoplane.Content.Publication.{
  PublishPackage, ChannelNeutralContentPackage, DistributionPlan, PublicationReceipt,
}

pub record AuditIntent : Type 0 where
  pub actor_user_id : String
  pub actor_organization_id : String
  pub client_organization_id : String
  pub project_id : String
  pub action : String
  pub target_type : String
  pub target_id : String
  pub occurred_at : String

pub record Stores : Type 0 where
  pub knowledge_packages : Dict KnowledgePackage
  pub industry_profiles : Dict IndustryProfile
  pub keyword_question_maps : Dict KeywordQuestionMap
  pub opportunities : Dict Opportunity
  pub validations : Dict OpportunityValidation
  pub reviews : Dict HumanReviewDecision
  pub families : Dict OpportunityFamily
  pub briefs : Dict ArticleBrief
  pub provider_contents : Dict ProviderArticleContent
  pub drafts : Dict ArticleDraft
  pub quality_gates : Dict QualityGate
  pub platform_gates : Dict PlatformGate
  pub vertical_gates : Dict VerticalGate
  pub approvals : Dict ArticleApproval
  pub publish_packages : Dict PublishPackage
  pub channel_neutral_packages : Dict ChannelNeutralContentPackage
  pub plans : Dict DistributionPlan
  pub deliveries : Dict PublicationReceipt
  pub audit : List AuditIntent

unfoldable pub empty : Stores
empty = record {
  knowledge_packages = [];
  industry_profiles = [];
  keyword_question_maps = [];
  opportunities = [];
  validations = [];
  reviews = [];
  families = [];
  briefs = [];
  provider_contents = [];
  drafts = [];
  quality_gates = [];
  platform_gates = [];
  vertical_gates = [];
  approvals = [];
  publish_packages = [];
  channel_neutral_packages = [];
  plans = [];
  deliveries = [];
  audit = [];
}
