-- ===== src/Pipeline/Services/Delivery/Tracking.antt =====
-- What a recorded receipt does to the status of its plan.
use geoplane.Base.{
  ◌≤◌, String, true, ◌≡◌, refl, ◌==◌, List, [], ◌∷◌, ◌++◌, ok, arith, filter, Memᴰ, includes,
  eq_iff, some,
}
use geoplane.Base.Dict.{Dict, values}
use geoplane.Tenancy.Entities.{AuthorizationContext}
use geoplane.Content.Publication.{
  DistributionPlan, PublicationReceipt, published_channel_ids, derive_publication_status,
  create_publication_receipt,
}
use geoplane.Content.Publication.Status.{published_channel_ids_iff, rank, status_monotone}
use geoplane.Content.Publication.Receipts.{receipt_fields}
use geoplane.Pipeline.Stores.{Stores}
use geoplane.Pipeline.Tables
use geoplane.Pipeline.Action.{Runtime, World, ◌>>◌, publication_failed}
use geoplane.Pipeline.Ensures.{
  Ensures, check_then, Ensures-ok, Checks-now, Checks-next_id, Checks-lift, Checks-assert_access,
  persist-Ensures, persisted,
}
use geoplane.Pipeline.Services.Delivery.{list_by_plan, record_publication_receipt}

-- Reading a plan's receipts after one more has been written.
listed_last :
    (plan_id id : String) (receipt : PublicationReceipt) (d : Dict PublicationReceipt)
    → receipt.distribution_plan_id ≡ plan_id
    → filter (λ r. r.distribution_plan_id == plan_id) (values (d ++ (id, receipt) ∷ []))
      ≡ filter (λ r. r.distribution_plan_id == plan_id) (values d) ++ receipt ∷ []
unfolding values
listed_last plan_id id receipt [] e = ground (arith, eq_iff receipt.distribution_plan_id plan_id)
listed_last plan_id id receipt ((j, r) ∷ d) e = ground (arith, listed_last plan_id id receipt d e)

last_mem : {A : Type 0} (xs : List A) (x : A) → Memᴰ x (xs ++ x ∷ [])
last_mem [] x = Memᴰ.head refl
last_mem (y ∷ xs) x = Memᴰ.tail (last_mem xs x)

-- The receipt is the plan's, for the channel, and the last that is listed.
record IsListedLast (plan : DistributionPlan) (channel_id : String) (s s' : Stores)
    (receipt : PublicationReceipt) : Type 0 where
  for_plan : receipt.distribution_plan_id ≡ plan.id
  on_channel : receipt.channel_id ≡ channel_id
  listed : list_by_plan plan.id s' ≡ list_by_plan plan.id s ++ receipt ∷ []

module _ (rt : Runtime) (actor : AuthorizationContext) where
  listed_receipt :
      (plan : DistributionPlan) (channel_id actor_id id at : String) (s : Stores)
      (receipt : PublicationReceipt)
      → create_publication_receipt rt.host plan channel_id actor_id
          (record { id = id; published_at = at })
        ≡ ok receipt
      → IsListedLast plan channel_id s
          (persisted Tables.deliveries actor receipt.client_organization_id receipt.project_id
            "publication_receipt.recorded" "PublicationReceipt" receipt.id receipt.published_at
            receipt s)
          receipt
  unfolding persisted list_by_plan
  listed_receipt plan channel_id actor_id id at s receipt h =
      let fields = receipt_fields rt.host plan channel_id actor_id _ h in
      record {
        for_plan = fields.0;
        on_channel = fields.1;
        listed = listed_last plan.id receipt.id receipt s.deliveries fields.0;
      }

  record_publication_receipt-Ensures :
      (plan : DistributionPlan) (channel_id actor_id : String) (s : Stores)
      → Ensures s
          (λ receipt s'. IsListedLast plan channel_id s s' receipt)
          (record_publication_receipt rt actor plan channel_id actor_id)
  unfolding record_publication_receipt ◌>>◌
  record_publication_receipt-Ensures plan channel_id actor_id s =
      check_then (Checks-assert_access s actor _) λ _ _. check_then (Checks-next_id rt s) λ id _.
        check_then (Checks-now rt s) λ at _.
          check_then (Checks-lift s publication_failed _) λ receipt h.
            persist-Ensures _ _ _ _ _ _ _ _ _
              λ new. listed_receipt plan channel_id actor_id id at s receipt h

  -- When a receipt is recorded for a channel of a plan, the channel is among those that the plan's
  -- listed receipts publish, and the status that is derived from them does not go back.
  pub receipt_counted :
      (plan : DistributionPlan) (channel_id actor_id : String) (w w' : World)
      {receipt : PublicationReceipt}
      → record_publication_receipt rt actor plan channel_id actor_id w ≡ (ok receipt, w')
      → (includes (published_channel_ids plan (list_by_plan plan.id w'.stores)) channel_id ≡ true)
        × (rank (derive_publication_status (some plan) (list_by_plan plan.id w.stores))
            ≤ rank (derive_publication_status (some plan) (list_by_plan plan.id w'.stores)))
  receipt_counted plan channel_id actor_id w w' {receipt} h =
      let before = list_by_plan plan.id w.stores in
      let last =
        Ensures-ok (record_publication_receipt-Ensures plan channel_id actor_id w.stores) refl h in
      rw (last.listed) (
        (published_channel_ids_iff plan (before ++ receipt ∷ []) channel_id).1 (record {
          receipt = receipt;
          recorded = last_mem before receipt;
          for_plan = last.for_plan;
          on_channel = last.on_channel;
        }),
        status_monotone (some plan) before (receipt ∷ []),
      )
