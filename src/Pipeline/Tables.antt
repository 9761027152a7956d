-- ===== src/Pipeline/Tables.antt =====
-- runtime/geo/ports.ts: the eighteen repositories, each as a way to read and to write its records.
use geoplane.Base.Dict.{Dict}
use geoplane.Content.Knowledge.{KnowledgePackage, IndustryProfile, KeywordQuestionMap}
use geoplane.Content.Opportunities.{
  Opportunity, OpportunityValidation, HumanReviewDecision, OpportunityFamily,
}
use geoplane.Content.Drafts.{ArticleBrief, ProviderArticleContent, ArticleDraft}
use geoplane.Content.Gates.{QualityGate, PlatformGate, VerticalGate, ArticleApproval}
use geoplane.Content.Publication.{
  PublishPackage, ChannelNeutralContentPackage, DistributionPlan, PublicationReceipt,
}
use geoplane.Pipeline.Stores.{Stores}

-- Access to one repository.
pub record Table (A : Type 0) : Type 0 where
  pub read : Stores → Dict A
  pub write : Dict A → Stores → Stores

abbrev pub knowledge_packages : Table KnowledgePackage
knowledge_packages = record {
  read = λ s. s.knowledge_packages;
  write = λ d s. record s { knowledge_packages = d };
}

abbrev pub industry_profiles : Table IndustryProfile
industry_profiles = record {
  read = λ s. s.industry_profiles;
  write = λ d s. record s { industry_profiles = d };
}

abbrev pub keyword_question_maps : Table KeywordQuestionMap
keyword_question_maps = record {
  read = λ s. s.keyword_question_maps;
  write = λ d s. record s { keyword_question_maps = d };
}

abbrev pub opportunities : Table Opportunity
opportunities = record {
  read = λ s. s.opportunities;
  write = λ d s. record s { opportunities = d };
}

abbrev pub validations : Table OpportunityValidation
validations = record { read = λ s. s.validations; write = λ d s. record s { validations = d } }

abbrev pub reviews : Table HumanReviewDecision
reviews = record { read = λ s. s.reviews; write = λ d s. record s { reviews = d } }

abbrev pub families : Table OpportunityFamily
families = record { read = λ s. s.families; write = λ d s. record s { families = d } }

abbrev pub briefs : Table ArticleBrief
briefs = record { read = λ s. s.briefs; write = λ d s. record s { briefs = d } }

abbrev pub provider_contents : Table ProviderArticleContent
provider_contents = record {
  read = λ s. s.provider_contents;
  write = λ d s. record s { provider_contents = d };
}

abbrev pub drafts : Table ArticleDraft
drafts = record { read = λ s. s.drafts; write = λ d s. record s { drafts = d } }

abbrev pub quality_gates : Table QualityGate
quality_gates = record {
  read = λ s. s.quality_gates;
  write = λ d s. record s { quality_gates = d };
}

abbrev pub platform_gates : Table PlatformGate
platform_gates = record {
  read = λ s. s.platform_gates;
  write = λ d s. record s { platform_gates = d };
}

abbrev pub vertical_gates : Table VerticalGate
vertical_gates = record {
  read = λ s. s.vertical_gates;
  write = λ d s. record s { vertical_gates = d };
}

abbrev pub approvals : Table ArticleApproval
approvals = record { read = λ s. s.approvals; write = λ d s. record s { approvals = d } }

abbrev pub publish_packages : Table PublishPackage
publish_packages = record {
  read = λ s. s.publish_packages;
  write = λ d s. record s { publish_packages = d };
}

abbrev pub channel_neutral_packages : Table ChannelNeutralContentPackage
channel_neutral_packages = record {
  read = λ s. s.channel_neutral_packages;
  write = λ d s. record s { channel_neutral_packages = d };
}

abbrev pub plans : Table DistributionPlan
plans = record { read = λ s. s.plans; write = λ d s. record s { plans = d } }

abbrev pub deliveries : Table PublicationReceipt
deliveries = record { read = λ s. s.deliveries; write = λ d s. record s { deliveries = d } }
