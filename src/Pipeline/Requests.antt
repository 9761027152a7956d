-- ===== src/Pipeline/Requests.antt =====
-- The state-changing operations of runtime/geo/services as one type of requests, so that a
-- statement can range over all of them.
pub mod Denied
pub mod Outcomes
pub mod Quiet
pub mod Accounted
pub mod History
use geoplane.Base.{String, List}
use geoplane.Content.Knowledge.{IndustryProfile}
use geoplane.Content.Opportunities.{OpportunityValidation}
use geoplane.Content.Drafts.{ArticleBrief, ProviderArticleContent, ArticleDraft}
use geoplane.Content.Gates.{ArticleApproval}
use geoplane.Content.Publication.{PublishPackage, ChannelNeutralContentBlock, DistributionPlan}
use geoplane.Tenancy.Entities.{AuthorizationContext}
use geoplane.Pipeline.Action.{Runtime, Action, ◌>>◌, pure}
use geoplane.Pipeline.Services.Knowledge.{
  CreateKnowledgePackageInput, CreateIndustryProfileInput, CreateKeywordQuestionMapInput,
  create_knowledge_package, create_industry_profile, create_keyword_question_map,
}
use geoplane.Pipeline.Services.Opportunities.{
  CreateOpportunityInput, ValidateOpportunityInput, CreateOpportunityFamilyInput,
  create_opportunity, validate_opportunity, confirm, request_changes, reject, create_family,
}
use geoplane.Pipeline.Services.Articles.{
  CreateArticleBriefInput, create_brief, ingest_provider_article_content, compile_draft,
}
use geoplane.Pipeline.Services.Gates.{
  PassedQualityGate, PassedPlatformGate, PassedVerticalGate, evaluate_quality,
  evaluate_platform_gate, evaluate_vertical_gate, approve_article,
}
use geoplane.Pipeline.Services.Delivery.{
  CreateDistributionPlanInput, create_publish_package, create_channel_neutral_package,
  create_distribution_plan, record_publication_receipt,
}

pub data Request : Type 0 where
  knowledge_package_request : CreateKnowledgePackageInput → Request
  industry_profile_request : CreateIndustryProfileInput → Request
  keyword_question_map_request : CreateKeywordQuestionMapInput → Request
  opportunity_request : CreateOpportunityInput → Request
  validation_request : ValidateOpportunityInput → Request
  confirm_request : OpportunityValidation → (reviewer_id : String) → Request
  changes_request : OpportunityValidation → (reviewer_id note : String) → Request
  reject_request : OpportunityValidation → (reviewer_id note : String) → Request
  family_request : CreateOpportunityFamilyInput → Request
  brief_request : CreateArticleBriefInput → Request
  ingest_request : ArticleBrief → (envelope_id : String) → Request
  compile_request : ArticleBrief → List ProviderArticleContent → Request
  quality_request : ArticleDraft → ArticleBrief → Request
  platform_request : ArticleDraft → IndustryProfile → Request
  vertical_request : ArticleDraft → IndustryProfile → Request
  approval_request :
      ArticleDraft
      → (approver_id : String) → PassedQualityGate
      → PassedPlatformGate
      → PassedVerticalGate
      → Request
  publish_package_request : ArticleApproval → ArticleDraft → Request
  channel_neutral_request : PublishPackage → List ChannelNeutralContentBlock → Request
  plan_request : CreateDistributionPlanInput → Request
  receipt_request : DistributionPlan → (channel_id published_by_actor_id : String) → Request

-- The client organization that a request is about, as the service takes it from its input.
unfoldable pub tenant : Request → String
tenant (knowledge_package_request input) = input.client_organization_id
tenant (industry_profile_request input) = input.client_organization_id
tenant (keyword_question_map_request input) = input.knowledge_package.client_organization_id
tenant (opportunity_request input) = input.knowledge_package.client_organization_id
tenant (validation_request input) = input.opportunity.client_organization_id
tenant (confirm_request validation reviewer_id) = validation.client_organization_id
tenant (changes_request validation reviewer_id note) = validation.client_organization_id
tenant (reject_request validation reviewer_id note) = validation.client_organization_id
tenant (family_request input) = input.client_organization_id
tenant (brief_request input) = input.family.client_organization_id
tenant (ingest_request brief envelope_id) = brief.client_organization_id
tenant (compile_request brief contents) = brief.client_organization_id
tenant (quality_request draft brief) = draft.client_organization_id
tenant (platform_request draft profile) = draft.client_organization_id
tenant (vertical_request draft profile) = draft.client_organization_id
tenant (approval_request draft approver_id quality platform vertical) = draft.client_organization_id
tenant (publish_package_request approval draft) = approval.client_organization_id
tenant (channel_neutral_request source blocks) = source.client_organization_id
tenant (plan_request input) = input.channel_neutral_package.client_organization_id
tenant (receipt_request plan channel_id actor_id) = plan.client_organization_id

-- The method that serves a request, with its returned record dropped.
unfoldable pub run : Runtime → AuthorizationContext → Request → Action (Unit {0})
run rt actor (knowledge_package_request input) = create_knowledge_package rt actor input >> pure tt
run rt actor (industry_profile_request input) = create_industry_profile rt actor input >> pure tt
run rt actor (keyword_question_map_request input) =
    create_keyword_question_map rt actor input >> pure tt
run rt actor (opportunity_request input) = create_opportunity rt actor input >> pure tt
run rt actor (validation_request input) = validate_opportunity rt actor input >> pure tt
run rt actor (confirm_request validation reviewer_id) =
    confirm rt actor validation reviewer_id >> pure tt
run rt actor (changes_request validation reviewer_id note) =
    request_changes rt actor validation reviewer_id note >> pure tt
run rt actor (reject_request validation reviewer_id note) =
    reject rt actor validation reviewer_id note >> pure tt
run rt actor (family_request input) = create_family rt actor input >> pure tt
run rt actor (brief_request input) = create_brief rt actor input >> pure tt
run rt actor (ingest_request brief envelope_id) =
    ingest_provider_article_content rt actor brief envelope_id >> pure tt
run rt actor (compile_request brief contents) = compile_draft rt actor brief contents >> pure tt
run rt actor (quality_request draft brief) = evaluate_quality rt actor draft brief >> pure tt
run rt actor (platform_request draft profile) =
    evaluate_platform_gate rt actor draft profile >> pure tt
run rt actor (vertical_request draft profile) =
    evaluate_vertical_gate rt actor draft profile >> pure tt
run rt actor (approval_request draft approver_id quality platform vertical) =
    approve_article rt actor draft approver_id quality platform vertical >> pure tt
run rt actor (publish_package_request approval draft) =
    create_publish_package rt actor approval draft >> pure tt
run rt actor (channel_neutral_request source blocks) =
    create_channel_neutral_package rt actor source blocks >> pure tt
run rt actor (plan_request input) = create_distribution_plan rt actor input >> pure tt
run rt actor (receipt_request plan channel_id actor_id) =
    record_publication_receipt rt actor plan channel_id actor_id >> pure tt
