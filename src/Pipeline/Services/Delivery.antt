-- ===== src/Pipeline/Services/Delivery.antt =====
-- services/publish-package-service.ts, distribution-plan-service.ts and delivery-service.ts
pub mod Tracking
use geoplane.Base.{String, Bool, not, ◌==◌, Option, some, List, filter, if◌then◌else◌}
use geoplane.Base.Dict.{values}
use geoplane.Base.Text.{is_blank}
use geoplane.Content.Drafts.{ArticleDraft}
use geoplane.Content.Gates.{ArticleApproval}
use geoplane.Content.Publication.{
  ChannelNeutralContentBlock, ChannelNeutralContentPackage, DistributionPlan, PublicationReceipt,
  PublicationStatus, PublishPackage, build_publish_package, create_channel_neutral_content_package,
  add_target_channel, create_publication_receipt, derive_publication_status,
}
use geoplane.Tenancy.Entities.{AuthorizationContext}
use geoplane.Pipeline.Action.{
  Runtime, Action, Failure, ◌>>=◌, ◌>>◌, pure, throw_when, lift, reads, assert_access, now, next_id,
  persist, different_tenants, keyword_not_in_map, blank_reviewer, blank_selector, blank_approver,
  decision_missing, decision_of_other_tenant, decision_not_approved, decision_for_other_opportunity,
  gate_of_other_draft, compile_failed, publication_failed,
}
use geoplane.Pipeline.Stores.{Stores}
use geoplane.Pipeline.Tables

pub record CreateDistributionPlanInput : Type 0 where
  pub channel_neutral_package : ChannelNeutralContentPackage
  pub channel_ids : List String
  pub selected_by_actor_id : String

unfoldable pub select_target_channel :
    ChannelNeutralContentPackage → String → ChannelNeutralContentPackage
select_target_channel pkg channel_id = add_target_channel pkg channel_id

unfoldable pub list_by_plan : String → Stores → List PublicationReceipt
unfolding values
list_by_plan plan_id s = filter (λ r. r.distribution_plan_id == plan_id) (values s.deliveries)

module _ (rt : Runtime) (actor : AuthorizationContext) where
  unfoldable pub create_publish_package : ArticleApproval → ArticleDraft → Action PublishPackage
  create_publish_package approval draft = do
    assert_access actor approval.client_organization_id
    id ← next_id rt
    built_at ← now rt
    pkg ←
        lift publication_failed
          (build_publish_package (some approval) draft (record { id = id; built_at = built_at }))
    persist Tables.publish_packages actor pkg.client_organization_id pkg.project_id
        "publish_package.created" "PublishPackage" pkg.id pkg.built_at pkg

  unfoldable pub create_channel_neutral_package :
      PublishPackage → List ChannelNeutralContentBlock → Action ChannelNeutralContentPackage
  create_channel_neutral_package source blocks = do
    assert_access actor source.client_organization_id
    id ← next_id rt
    created_at ← now rt
    let pkg =
        create_channel_neutral_content_package source blocks
          (record { id = id; created_at = created_at })
    persist Tables.channel_neutral_packages actor pkg.client_organization_id pkg.project_id
        "channel_neutral_content_package.created" "ChannelNeutralContentPackage" pkg.id
        pkg.created_at pkg

  unfoldable pub create_distribution_plan : CreateDistributionPlanInput → Action DistributionPlan
  create_distribution_plan input = do
    let source = input.channel_neutral_package
    assert_access actor source.client_organization_id
    throw_when (is_blank input.selected_by_actor_id) blank_selector
    selected_at ← now rt
    id ← next_id rt
    persist Tables.plans actor source.client_organization_id source.project_id
        "distribution_plan.created" "DistributionPlan" id selected_at
        (record {
          id = id;
          client_organization_id = source.client_organization_id;
          project_id = source.project_id;
          channel_neutral_content_package_id = source.id;
          channel_ids = input.channel_ids;
          selected_by_actor_id = input.selected_by_actor_id;
          selected_at = selected_at;
        })

  unfoldable pub record_publication_receipt :
      DistributionPlan → (channel_id published_by_actor_id : String) → Action PublicationReceipt
  record_publication_receipt plan channel_id published_by_actor_id = do
    assert_access actor plan.client_organization_id
    id ← next_id rt
    published_at ← now rt
    receipt ← lift publication_failed (
        create_publication_receipt rt.host plan channel_id published_by_actor_id
          (record { id = id; published_at = published_at }))
    persist Tables.deliveries actor receipt.client_organization_id receipt.project_id
        "publication_receipt.recorded" "PublicationReceipt" receipt.id receipt.published_at receipt

  unfoldable pub publication_status : DistributionPlan → Action PublicationStatus
  publication_status plan = do
    assert_access actor plan.client_organization_id
    receipts ← reads (list_by_plan plan.id)
    pure (derive_publication_status (some plan) receipts)
