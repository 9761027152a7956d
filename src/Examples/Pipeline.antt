-- ===== src/Examples/Pipeline.antt =====
-- The theorems on runtime/geo/services at concrete inputs.
use geoplane.Base.{◌≤◌, true, ◌≡◌, refl, ◌↔◌, none, some, [], ◌∷◌, ok, err, All, includes}
use geoplane.Base.Dict.{get, values}
use geoplane.Base.Text.{trim, trim_start, trim_end, is_space}
use geoplane.Tenancy.Authorization.{
  role_can_access, can_access_client_organization, assert_can_access_client_organization, denied,
}
use geoplane.Content.Knowledge.{GeoValidationGateLevel}
use geoplane.Content.Opportunities.{HumanReviewDecision, approved, OpportunityFamily}
use geoplane.Content.Drafts.{ArticleBrief, compile_article_draft, mismatched, compiled}
use geoplane.Content.Gates.{passed, ArticleApproval}
use geoplane.Content.Publication.{
  published_channel_ids, derive_publication_status, create_publication_receipt, receipt_of,
  is_automatic, normalized_actor_id,
}
use geoplane.Content.Publication.Status.{rank}
use geoplane.Pipeline.Stores
use geoplane.Pipeline.Action.{
  World, access_denied, resume, ◌>>=◌, ◌>>◌, pure, throw_when, lift, reads, assert_access, add,
  emit_audit, now, next_id, persist,
}
use geoplane.Pipeline.Services.Articles.{
  compile_draft, highest, list_by_article_brief, sort_drafts, insert_draft,
}
use geoplane.Pipeline.Services.Articles.Versions.{IsNewest, compile_draft-IsNewest}
use geoplane.Pipeline.Services.Opportunities.{CreateOpportunityFamilyInput, create_family}
use geoplane.Pipeline.Services.Opportunities.Families.{IsAuthorized, IsFamily, create_family_iff}
use geoplane.Pipeline.Services.Gates.{
  PassedQualityGate, PassedPlatformGate, PassedVerticalGate, approve_article,
}
use geoplane.Pipeline.Services.Gates.Approvals.{IsApprovable, approve_article_iff}
use geoplane.Pipeline.Services.Delivery.{list_by_plan, record_publication_receipt}
use geoplane.Pipeline.Services.Delivery.Tracking.{receipt_counted}
use geoplane.Pipeline.Requests.{tenant, run, ingest_request, compile_request}
use geoplane.Pipeline.Requests.Denied.{run-denied}
use geoplane.Pipeline.Requests.Outcomes.{Outcome}
use geoplane.Pipeline.Requests.History.{serve, IsLater, serve-IsLater}
use geoplane.Pipeline.Requests.Accounted.{run-Outcome}
use geoplane.Examples.Data.{
  tally, owner, operator, brief, content, article, plan, receipt, runtime, start,
}

abbrev foreign : ArticleBrief
foreign = record brief { client_organization_id = "other" }

run-denied_example :
    run runtime owner (ingest_request foreign "e1") start
    ≡ (err (access_denied (denied owner "other")), start)
unfolding tenant can_access_client_organization role_can_access
run-denied_example = run-denied runtime owner (ingest_request foreign "e1") start refl

run-Outcome_example :
    Outcome operator
      (tenant (compile_request brief (content ∷ [])))
      start.stores
      (run runtime operator (compile_request brief (content ∷ [])) start)
run-Outcome_example = run-Outcome runtime operator (compile_request brief (content ∷ [])) start

abbrev decision : HumanReviewDecision
decision = record {
  id = "r1";
  client_organization_id = "acme";
  project_id = "p1";
  opportunity_id = "o1";
  opportunity_validation_id = "v1";
  status = approved;
  reviewer_id = "ann";
  decided_at = "t";
}

abbrev reviewed : World
reviewed = record start { stores = record Stores.empty { reviews = ("r1", decision) ∷ [] } }

abbrev family_input : CreateOpportunityFamilyInput
family_input = record {
  client_organization_id = "acme";
  project_id = "p1";
  members = record { opportunity_id = "o1"; authorizing_human_review_decision_id = "r1" } ∷ [];
}

create_family_iff_example :
    ((family : OpportunityFamily) × (w' : World) × (create_family runtime owner family_input
          reviewed
        ≡ (ok family, w')))
    ↔ ((can_access_client_organization owner "acme" ≡ true)
        × All (IsAuthorized reviewed.stores.reviews family_input) family_input.members
        × IsFamily family_input.members
        × (get (tally 1) reviewed.stores.families ≡ none))
create_family_iff_example = create_family_iff runtime owner family_input reviewed

abbrev quality : PassedQualityGate
quality = record {
  gate = record {
    id = "g1";
    client_organization_id = "acme";
    project_id = "p1";
    article_draft_id = "d1";
    outcome = passed;
    evaluated_at = "t";
  };
  has_passed = refl;
}

abbrev platform : PassedPlatformGate
platform = record {
  gate = record {
    id = "g2";
    client_organization_id = "acme";
    project_id = "p1";
    article_draft_id = "d1";
    industry_profile_id = "i1";
    gate_level_applied = GeoValidationGateLevel.platform_wide_gate;
    outcome = passed;
    evaluated_at = "t";
  };
  has_passed = refl;
}

abbrev vertical : PassedVerticalGate
vertical = record {
  gate = record {
    id = "g3";
    client_organization_id = "acme";
    project_id = "p1";
    article_draft_id = "d1";
    industry_profile_id = "i1";
    gate_level_applied = GeoValidationGateLevel.platform_wide_gate;
    outcome = passed;
    evaluated_at = "t";
  };
  has_passed = refl;
}

approve_article_iff_example :
    ((approval : ArticleApproval) × (w' : World) × (approve_article runtime owner article "ann"
          quality platform vertical start
        ≡ (ok approval, w')))
    ↔ IsApprovable runtime owner article "ann" quality platform vertical start
approve_article_iff_example =
    approve_article_iff runtime owner article "ann" quality platform vertical start

-- A world with a draft of the brief.
abbrev drafted : World
drafted = record start { stores = record Stores.empty { drafts = ("d1", article) ∷ [] } }

abbrev after_compile : World
after_compile = (compile_draft runtime owner brief (content ∷ []) drafted).1

compile_draft-IsNewest_example :
    IsNewest brief drafted.stores after_compile.stores
      (compiled brief (content ∷ []) (record { id = tally 1; version = 2; compiled_at = tally 0 }))
unfolding compile_draft highest list_by_article_brief sort_drafts insert_draft get values
    compile_article_draft mismatched resume ◌>>=◌ ◌>>◌ pure throw_when lift reads assert_access add
    emit_audit now next_id persist tally can_access_client_organization role_can_access
    assert_can_access_client_organization
compile_draft-IsNewest_example =
    compile_draft-IsNewest runtime owner brief (content ∷ []) drafted after_compile refl

abbrev after_receipt : World
after_receipt = (record_publication_receipt runtime owner plan "site" "ann" start).1

receipt_counted_example :
    (includes (published_channel_ids plan (list_by_plan plan.id after_receipt.stores)) "site"
      ≡ true)
    × (rank (derive_publication_status (some plan) (list_by_plan plan.id start.stores))
        ≤ rank (derive_publication_status (some plan) (list_by_plan plan.id after_receipt.stores)))
unfolding record_publication_receipt create_publication_receipt receipt_of is_automatic
    normalized_actor_id trim trim_start trim_end is_space get values resume ◌>>=◌ ◌>>◌ pure
    throw_when lift reads assert_access add emit_audit now next_id persist tally
    can_access_client_organization role_can_access assert_can_access_client_organization
    Stores.empty
receipt_counted_example =
    receipt_counted runtime owner plan "site" "ann" start after_receipt
      {receipt = record (receipt "site") { id = tally 1; published_at = tally 0 }} refl

serve-IsLater_example :
    IsLater start.stores
      (serve runtime
        ((owner, ingest_request foreign "e1")
          ∷ (operator, compile_request brief (content ∷ []))
          ∷ [])
        start).stores
serve-IsLater_example =
    serve-IsLater runtime
      ((owner, ingest_request foreign "e1") ∷ (operator, compile_request brief (content ∷ [])) ∷ [])
      start
