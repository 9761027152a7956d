-- ===== src/Content/Publication/Receipts.antt =====
-- Publication needs an approval, a chosen channel and an actor who is not automatic.
use geoplane.Base.{
  String, true, false, sym, ◌≡◌, refl, ◌≢◌, ◌↔◌, inl, inr, Option, none, some, List, [], Memᴰ, ok,
  arith, eq_iff, includes_iff, Bool-cases,
}
use geoplane.Base.Host.{Host}
use geoplane.Base.Text.{trim}
use geoplane.Content.Drafts.{ArticleDraft}
use geoplane.Content.Gates.{ArticleApproval}
use geoplane.Content.Publication.{
  DistributionPlan, PublicationReceipt, PublicationReceiptIdentity, PublishPackage,
  PublishPackageIdentity, published, is_automatic, publish_package_of, receipt_of,
  normalized_actor_id, forbidden_automatic_actor_ids, create_publication_receipt,
  build_publish_package, derive_publication_status,
}
use geoplane.Content.Publication.Status.{published_iff}

-- A package is built exactly from an approval of the very draft, and then it names the approval
-- and the draft and carries the draft's title.
pub build_publish_package_iff :
    (approval : Option ArticleApproval) (draft : ArticleDraft) (identity : PublishPackageIdentity)
    (pkg : PublishPackage)
    → (build_publish_package approval draft identity ≡ ok pkg) ↔ (
        (a : ArticleApproval) × (approval ≡ some a)
        × (a.article_draft_id ≡ draft.id)
        × (pkg ≡ publish_package_of a draft identity))
unfolding build_publish_package
build_publish_package_iff none draft identity pkg = ((λ h. cc), λ h. cc (h.1))
build_publish_package_iff (some a) draft identity pkg = (
  (λ h. (
    a,
    refl,
    ground (arith, eq_iff a.article_draft_id draft.id),
    ground (arith, eq_iff a.article_draft_id draft.id),
  )),
  λ h. ground (arith, eq_iff a.article_draft_id draft.id, h.1, h.2, h.3),
)

-- None of the words that stand for no person.
pub IsPersonal : (name : String) → Type 0
IsPersonal name =
    (name ≢ "") × (name ≢ "system") × (name ≢ "auto") × (name ≢ "automated") × (name ≢ "automatic")

module _ (host : Host) where
  automatic-IsPersonal :
      (actor_id : String)
      → is_automatic host actor_id ≡ true
      → ¬ IsPersonal (host.to_lower_case (trim actor_id))
  unfolding is_automatic normalized_actor_id IsPersonal
  automatic-IsPersonal actor_id h p =
      let name = host.to_lower_case (trim actor_id) in
      elim ((includes_iff forbidden_automatic_actor_ids name).0 h) [
        | Memᴰ.head e ↦ p.1 e
        | Memᴰ.tail (Memᴰ.head e) ↦ p.2 e
        | Memᴰ.tail (Memᴰ.tail (Memᴰ.head e)) ↦ p.3 e
        | Memᴰ.tail (Memᴰ.tail (Memᴰ.tail (Memᴰ.head e))) ↦ p.4 e
        | Memᴰ.tail (Memᴰ.tail (Memᴰ.tail (Memᴰ.tail (Memᴰ.head e)))) ↦ p.0 e
        | Memᴰ.tail (Memᴰ.tail (Memᴰ.tail (Memᴰ.tail (Memᴰ.tail m)))) ↦ elim m [ ]
      ]

  plain-IsPersonal :
      (actor_id : String)
      → is_automatic host actor_id ≡ false
      → IsPersonal (host.to_lower_case (trim actor_id))
  unfolding is_automatic normalized_actor_id IsPersonal
  plain-IsPersonal actor_id h =
      let name = host.to_lower_case (trim actor_id) in
      (
        λ e. absurd (ground (arith, (eq_iff "" name).1 (sym e))),
        λ e. absurd (ground (arith, (eq_iff "system" name).1 (sym e))),
        λ e. absurd (ground (arith, (eq_iff "auto" name).1 (sym e))),
        λ e. absurd (ground (arith, (eq_iff "automated" name).1 (sym e))),
        λ e. absurd (ground (arith, (eq_iff "automatic" name).1 (sym e))),
      )

  -- A receipt is made exactly for a channel of the plan and an actor whose id, trimmed and in lower
  -- case, is neither empty nor one of "system", "auto", "automated" and "automatic". It is of the
  -- plan, its client organization and project, the channel and the actor.
  pub create_publication_receipt_iff :
      (plan : DistributionPlan) (channel_id actor_id : String)
      (identity : PublicationReceiptIdentity) (receipt : PublicationReceipt)
      → (create_publication_receipt host plan channel_id actor_id identity ≡ ok receipt) ↔ (
          Memᴰ channel_id plan.channel_ids
          × IsPersonal (host.to_lower_case (trim actor_id))
          × (receipt ≡ record {
            id = identity.id;
            client_organization_id = plan.client_organization_id;
            project_id = plan.project_id;
            distribution_plan_id = plan.id;
            channel_id = channel_id;
            published_by_actor_id = actor_id;
            published_at = identity.published_at;
          }))
  unfolding create_publication_receipt receipt_of
  create_publication_receipt_iff plan channel_id actor_id identity receipt =
      let chosen = includes_iff plan.channel_ids channel_id in
      (
        (λ h. (chosen.0 (ground arith), plain-IsPersonal actor_id (ground arith), ground arith)),
        λ h. elim (Bool-cases (is_automatic host actor_id)) [
          | inl bad ↦ absurd (automatic-IsPersonal actor_id bad h.1)
          | inr good ↦ ground (arith, chosen.1 h.0, good, h.2)
        ],
      )

  pub receipt_fields :
      (plan : DistributionPlan) (channel_id actor_id : String)
      (identity : PublicationReceiptIdentity) {receipt : PublicationReceipt}
      → create_publication_receipt host plan channel_id actor_id identity ≡ ok receipt
      → (receipt.distribution_plan_id ≡ plan.id)
        × (receipt.channel_id ≡ channel_id)
        × (receipt.published_by_actor_id ≡ actor_id)
        × (receipt.client_organization_id ≡ plan.client_organization_id)
        × (receipt.project_id ≡ plan.project_id)
  unfolding create_publication_receipt
  receipt_fields plan channel_id actor_id identity h = ground arith

  -- A receipt that the plan's constructor made for this channel is among the receipts.
  pub record IsPublished (plan : DistributionPlan) (receipts : List PublicationReceipt)
      (channel_id : String) : Type 0 where
    pub actor_id : String
    pub identity : PublicationReceiptIdentity
    pub receipt : PublicationReceipt
    pub made : create_publication_receipt host plan channel_id actor_id identity ≡ ok receipt
    pub recorded : Memᴰ receipt receipts

  -- When a receipt has been made and recorded for each channel of a plan, its status is PUBLISHED.
  pub all_published :
      (plan : DistributionPlan) (receipts : List PublicationReceipt)
      → plan.channel_ids ≢ []
      → ((c : String) → Memᴰ c plan.channel_ids → IsPublished plan receipts c)
      → derive_publication_status (some plan) receipts ≡ published
  all_published plan receipts some_channel done =
      (published_iff plan receipts some_channel).1 λ c m.
        let p = done c m in
        let f = receipt_fields plan c p.actor_id p.identity p.made in
        record { receipt = p.receipt; recorded = p.recorded; for_plan = f.0; on_channel = f.1 }
