-- ===== src/Content/Publication.antt =====
-- contracts/geo-business/entities.ts, the distribution layer: publish packages, channels, plans,
-- receipts and the derived status. `toLowerCase` comes from the host.
pub mod Channels
pub mod Status
pub mod Receipts
use geoplane.Base.{
  ℕ, String, Bool, true, false, not, ◌==◌, Option, none, some, List, [], ◌∷◌, ◌++◌, map, Result, ok,
  err, ◌>>◌, throw_if, filter, all, includes, is_empty, if◌then◌else◌,
}
use geoplane.Base.Text.{trim}
use geoplane.Base.Host.{Host}
use geoplane.Content.Drafts.{ArticleDraft}
use geoplane.Content.Gates.{ArticleApproval}

pub data BlockKind : Type 0 where
  heading paragraph list image_reference : BlockKind

pub record ChannelNeutralContentBlock : Type 0 where
  pub kind : BlockKind
  pub text : String
  pub order : ℕ

pub record ChannelNeutralContentPackage : Type 0 where
  pub id : String
  pub client_organization_id : String
  pub project_id : String
  pub publish_package_id : String
  pub blocks : List ChannelNeutralContentBlock
  pub target_channel_ids : List String
  pub created_at : String

pub record DistributionPlan : Type 0 where
  pub id : String
  pub client_organization_id : String
  pub project_id : String
  pub channel_neutral_content_package_id : String
  pub channel_ids : List String
  pub selected_by_actor_id : String
  pub selected_at : String

pub record PublicationReceipt : Type 0 where
  pub id : String
  pub client_organization_id : String
  pub project_id : String
  pub distribution_plan_id : String
  pub channel_id : String
  pub published_by_actor_id : String
  pub published_at : String

pub data PublicationStatus : Type 0 where
  packaged channels_selected partially_published published : PublicationStatus

-- the channels of the receipts for a plan; the code holds them as a set
unfoldable pub published_channel_ids : DistributionPlan → List PublicationReceipt → List String
published_channel_ids plan receipts =
    map (λ r. r.channel_id) (filter (λ r. r.distribution_plan_id == plan.id) receipts)

unfoldable pub derive_publication_status :
    Option DistributionPlan → List PublicationReceipt → PublicationStatus
derive_publication_status none receipts = packaged
derive_publication_status (some plan) receipts =
    let done = published_channel_ids plan receipts in
    if is_empty done
    then channels_selected
    else if all (includes done) plan.channel_ids
    then published
    else partially_published

pub record PublishPackage : Type 0 where
  pub id : String
  pub client_organization_id : String
  pub project_id : String
  pub article_approval_id : String
  pub article_draft_id : String
  pub title : String
  pub built_at : String

pub record PublishPackageIdentity : Type 0 where
  pub id : String
  pub built_at : String

pub record ChannelNeutralContentPackageIdentity : Type 0 where
  pub id : String
  pub created_at : String

pub record PublicationReceiptIdentity : Type 0 where
  pub id : String
  pub published_at : String

pub data PublicationError : Type 0 where
  approval_missing : PublicationError
  approval_of_other_draft : (approval_id references_draft_id draft_id : String) → PublicationError
  channel_not_selected : (channel_id plan_id : String) → PublicationError
  automatic_actor : (actor_id : String) → PublicationError

unfoldable pub publish_package_of :
    ArticleApproval → ArticleDraft → PublishPackageIdentity → PublishPackage
publish_package_of approval draft identity = record {
  id = identity.id;
  client_organization_id = approval.client_organization_id;
  project_id = approval.project_id;
  article_approval_id = approval.id;
  article_draft_id = draft.id;
  title = draft.title;
  built_at = identity.built_at;
}

unfoldable pub build_publish_package :
    Option ArticleApproval
    → ArticleDraft
    → PublishPackageIdentity
    → Result PublicationError PublishPackage
unfolding publish_package_of
build_publish_package none draft identity = err approval_missing
build_publish_package (some approval) draft identity = do
  throw_if (not (approval.article_draft_id == draft.id))
      (approval_of_other_draft approval.id approval.article_draft_id draft.id)
  ok (publish_package_of approval draft identity)

unfoldable pub create_channel_neutral_content_package :
    PublishPackage
    → List ChannelNeutralContentBlock
    → ChannelNeutralContentPackageIdentity
    → ChannelNeutralContentPackage
create_channel_neutral_content_package pkg blocks identity = record {
  id = identity.id;
  client_organization_id = pkg.client_organization_id;
  project_id = pkg.project_id;
  publish_package_id = pkg.id;
  blocks = blocks;
  target_channel_ids = [];
  created_at = identity.created_at;
}

unfoldable pub add_target_channel :
    ChannelNeutralContentPackage → String → ChannelNeutralContentPackage
add_target_channel pkg channel_id =
    if includes pkg.target_channel_ids channel_id
    then pkg
    else record pkg { target_channel_ids = pkg.target_channel_ids ++ channel_id ∷ [] }

abbrev pub forbidden_automatic_actor_ids : List String
forbidden_automatic_actor_ids = "system" ∷ "auto" ∷ "automated" ∷ "automatic" ∷ "" ∷ []

unfoldable pub normalized_actor_id : Host → String → String
normalized_actor_id host actor_id = host.to_lower_case (trim actor_id)

-- `FORBIDDEN_AUTOMATIC_ACTOR_IDS.has(normalizedActorId)`
unfoldable pub is_automatic : Host → String → Bool
unfolding normalized_actor_id
is_automatic host actor_id =
    includes forbidden_automatic_actor_ids (normalized_actor_id host actor_id)

unfoldable pub receipt_of :
    DistributionPlan
    → (channel_id published_by_actor_id : String) → PublicationReceiptIdentity
    → PublicationReceipt
receipt_of plan channel_id published_by_actor_id identity = record {
  id = identity.id;
  client_organization_id = plan.client_organization_id;
  project_id = plan.project_id;
  distribution_plan_id = plan.id;
  channel_id = channel_id;
  published_by_actor_id = published_by_actor_id;
  published_at = identity.published_at;
}

unfoldable pub create_publication_receipt :
    Host
    → DistributionPlan
    → (channel_id published_by_actor_id : String) → PublicationReceiptIdentity
    → Result PublicationError PublicationReceipt
unfolding receipt_of
create_publication_receipt host plan channel_id published_by_actor_id identity = do
  throw_if (not (includes plan.channel_ids channel_id)) (channel_not_selected channel_id plan.id)
  throw_if (is_automatic host published_by_actor_id) (automatic_actor published_by_actor_id)
  ok (receipt_of plan channel_id published_by_actor_id identity)
