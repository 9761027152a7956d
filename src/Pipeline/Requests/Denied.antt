-- ===== src/Pipeline/Requests/Denied.antt =====
-- What a request of an actor outside the tenant does.
use geoplane.Base.{String, false, arith, ◌≡◌, err}
use geoplane.Tenancy.Entities.{AuthorizationContext}
use geoplane.Tenancy.Authorization.{
  can_access_client_organization, assert_can_access_client_organization, denied,
}
use geoplane.Pipeline.Action.{
  Runtime, World, Action, access_denied, resume, ◌>>=◌, ◌>>◌, assert_access, lift,
}
use geoplane.Pipeline.Services.Knowledge.{
  create_knowledge_package, create_industry_profile, create_keyword_question_map,
}
use geoplane.Pipeline.Services.Opportunities.{
  create_opportunity, validate_opportunity, confirm, request_changes, reject, create_family, decide,
}
use geoplane.Pipeline.Services.Articles.{
  create_brief, ingest_provider_article_content, compile_draft,
}
use geoplane.Pipeline.Services.Gates.{
  evaluate_quality, evaluate_platform_gate, evaluate_vertical_gate, approve_article,
}
use geoplane.Pipeline.Services.Delivery.{
  create_publish_package, create_channel_neutral_package, create_distribution_plan,
  record_publication_receipt,
}
use geoplane.Pipeline.Requests.{
  Request, tenant, run, knowledge_package_request, industry_profile_request,
  keyword_question_map_request, opportunity_request, validation_request, confirm_request,
  changes_request, reject_request, family_request, brief_request, ingest_request, compile_request,
  quality_request, platform_request, vertical_request, approval_request, publish_package_request,
  channel_neutral_request, plan_request, receipt_request,
}

-- The check at the start of a method ends it.
guarded :
    {A B : Type 0} (actor : AuthorizationContext) (target : String) (body : Unit {0} → Action A)
    (finish : A → Action B) (w : World)
    → can_access_client_organization actor target ≡ false
    → ((assert_access actor target >>= body) >>= finish) w
      ≡ (err (access_denied (denied actor target)), w)
unfolding ◌>>=◌ resume assert_access lift assert_can_access_client_organization
guarded actor target body finish w h = ground arith

-- Whatever a service method is asked to do by an actor without access to the client organization,
-- it throws the authorization error for that actor and organization, and nothing else has changed:
-- no record, no audit intent, no id or clock reading is taken.
pub run-denied :
    (rt : Runtime) (actor : AuthorizationContext) (request : Request) (w : World)
    → can_access_client_organization actor (tenant request) ≡ false
    → run rt actor request w ≡ (err (access_denied (denied actor (tenant request))), w)
unfolding run tenant ◌>>◌ create_knowledge_package create_industry_profile
    create_keyword_question_map create_opportunity validate_opportunity confirm request_changes
    reject decide create_family create_brief ingest_provider_article_content compile_draft
    evaluate_quality evaluate_platform_gate evaluate_vertical_gate approve_article
    create_publish_package create_channel_neutral_package create_distribution_plan
    record_publication_receipt
run-denied rt actor (knowledge_package_request input) w h = guarded actor _ _ _ w h
run-denied rt actor (industry_profile_request input) w h = guarded actor _ _ _ w h
run-denied rt actor (keyword_question_map_request input) w h = guarded actor _ _ _ w h
run-denied rt actor (opportunity_request input) w h = guarded actor _ _ _ w h
run-denied rt actor (validation_request input) w h = guarded actor _ _ _ w h
run-denied rt actor (confirm_request v r) w h = guarded actor _ _ _ w h
run-denied rt actor (changes_request v r n) w h = guarded actor _ _ _ w h
run-denied rt actor (reject_request v r n) w h = guarded actor _ _ _ w h
run-denied rt actor (family_request input) w h = guarded actor _ _ _ w h
run-denied rt actor (brief_request input) w h = guarded actor _ _ _ w h
run-denied rt actor (ingest_request brief e) w h = guarded actor _ _ _ w h
run-denied rt actor (compile_request brief contents) w h = guarded actor _ _ _ w h
run-denied rt actor (quality_request draft brief) w h = guarded actor _ _ _ w h
run-denied rt actor (platform_request draft profile) w h = guarded actor _ _ _ w h
run-denied rt actor (vertical_request draft profile) w h = guarded actor _ _ _ w h
run-denied rt actor (approval_request draft a q p v) w h = guarded actor _ _ _ w h
run-denied rt actor (publish_package_request a draft) w h = guarded actor _ _ _ w h
run-denied rt actor (channel_neutral_request source blocks) w h = guarded actor _ _ _ w h
run-denied rt actor (plan_request input) w h = guarded actor _ _ _ w h
run-denied rt actor (receipt_request plan c a) w h = guarded actor _ _ _ w h
