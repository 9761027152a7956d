-- ===== src/Pipeline/Requests/Accounted.antt =====
-- What a request that is served leaves behind.
use geoplane.Base.{String, Bool, ◌≡◌, refl, List, ok, arith, some}
use geoplane.Tenancy.Entities.{AuthorizationContext}
use geoplane.Content.Opportunities.{HumanReviewStatus, OpportunityValidation}
use geoplane.Content.Drafts.{
  ArticleDraft, ArticleBrief, ProviderArticleContent, ArticleDraftCompilationIdentity, compiled,
  compile_article_draft,
}
use geoplane.Content.Drafts.Compile.{only_compiled}
use geoplane.Content.Publication.Receipts.{receipt_fields}
use geoplane.Content.Gates.{evaluate_quality_gate, ArticleApproval}
use geoplane.Content.Publication.{
  PublishPackage, PublishPackageIdentity, publish_package_of, DistributionPlan,
  create_channel_neutral_content_package, build_publish_package,
}
use geoplane.Pipeline.Kinds.{Kind, Entry, table, table-IsLawful}
use geoplane.Pipeline.Action.{
  Failure, compile_failed, publication_failed, Runtime, World, Action, ◌>>=◌, ◌>>◌, assert_access,
  throw_when, now, next_id,
}
use geoplane.Pipeline.Services.Opportunities.{CreateOpportunityFamilyInput}
use geoplane.Pipeline.Services.Gates.{PassedQualityGate, PassedPlatformGate, PassedVerticalGate}
use geoplane.Pipeline.Requests.Quiet.{
  check_members-Quiet, check_gates-Quiet, refuse_package-Quiet, refuse_profile-Quiet,
  refuse_entries-Quiet, refuse_family-Quiet,
}
use geoplane.Pipeline.Requests.Outcomes.{
  Outcome, Accounted, after-Quiet, after_lift, finished, persist-Accounted, now-Quiet,
  next_id-Quiet, reads-Quiet, throw_when-Quiet, assert_access-Quiet,
}
use geoplane.Pipeline.Services.Knowledge.{
  create_knowledge_package, create_industry_profile, create_keyword_question_map,
}
use geoplane.Pipeline.Services.Opportunities.{
  create_opportunity, validate_opportunity, confirm, request_changes, reject, create_family, decide,
}
use geoplane.Pipeline.Services.Articles.{
  create_brief, ingest_provider_article_content, compile_draft,
}
use geoplane.Pipeline.Services.Gates.{
  evaluate_quality, evaluate_platform_gate, evaluate_vertical_gate, approve_article,
}
use geoplane.Pipeline.Services.Delivery.{
  create_publish_package, create_channel_neutral_package, create_distribution_plan,
  record_publication_receipt,
}
use geoplane.Pipeline.Requests.{
  Request, tenant, run, knowledge_package_request, industry_profile_request,
  keyword_question_map_request, opportunity_request, validation_request, confirm_request,
  changes_request, reject_request, family_request, brief_request, ingest_request, compile_request,
  quality_request, platform_request, vertical_request, approval_request, publish_package_request,
  channel_neutral_request, plan_request, receipt_request,
}

compiled_client :
    (brief : ArticleBrief) (contents : List ProviderArticleContent)
    (identity : ArticleDraftCompilationIdentity) (draft : ArticleDraft)
    → compile_article_draft brief contents identity ≡ ok draft
    → draft.client_organization_id ≡ brief.client_organization_id
unfolding compiled
compiled_client brief contents identity draft h =
    rw (← only_compiled brief contents identity draft h) refl

package_client :
    (approval : ArticleApproval) (draft : ArticleDraft) (identity : PublishPackageIdentity)
    (pkg : PublishPackage)
    → build_publish_package (some approval) draft identity ≡ ok pkg
    → pkg.client_organization_id ≡ approval.client_organization_id
unfolding build_publish_package publish_package_of
package_client approval draft identity pkg h = ground arith

module _ (rt : Runtime) (actor : AuthorizationContext) where
  -- a method first checks the actor
  checked :
      {A : Type 0} (target : String) (k : Unit {0} → Action A)
      → Accounted actor target (k tt)
      → Accounted actor target (assert_access actor target >>= k)
  checked target k h = after-Quiet actor target (assert_access-Quiet actor target) λ _. h

  -- then it may refuse its input
  tested :
      {A : Type 0} (target : String) (b : Bool) (e : Failure) (k : Unit {0} → Action A)
      → Accounted actor target (k tt)
      → Accounted actor target (throw_when b e >>= k)
  tested target b e k h = after-Quiet actor target (throw_when-Quiet b e) λ _. h

  -- then it reads the clock and takes an id, in one order or the other
  clock_then_id :
      {A : Type 0} (target : String) {k : String → String → Action A}
      → ((at id : String) → Accounted actor target (k at id))
      → Accounted actor target (now rt >>= λ at. next_id rt >>= λ id. k at id)
  clock_then_id target h =
      after-Quiet actor target (now-Quiet rt)
        λ at. after-Quiet actor target (next_id-Quiet rt) λ id. h at id

  id_then_clock :
      {A : Type 0} (target : String) {k : String → String → Action A}
      → ((id at : String) → Accounted actor target (k id at))
      → Accounted actor target (next_id rt >>= λ id. now rt >>= λ at. k id at)
  id_then_clock target h =
      after-Quiet actor target (next_id-Quiet rt)
        λ id. after-Quiet actor target (now-Quiet rt) λ at. h id at

  decide-Accounted :
      (action : String) (status : HumanReviewStatus) (validation : OpportunityValidation)
      (reviewer_id : String)
      → Accounted actor validation.client_organization_id
          (decide rt actor action status validation reviewer_id)
  unfolding decide table Entry ◌>>◌
  decide-Accounted action status validation reviewer_id = checked _ _ (
      tested _ _ _ _ (
        clock_then_id _ λ at id. persist-Accounted _ _ _ _ _ _ _ _ _ (table-IsLawful Kind.reviews)))

  create_family-Accounted :
      (input : CreateOpportunityFamilyInput)
      → Accounted actor input.client_organization_id (create_family rt actor input)
  unfolding create_family table Entry ◌>>◌
  create_family-Accounted input = checked _ _ (
      after-Quiet actor _ (check_members-Quiet input input.members) λ _. clock_then_id _ λ at id.
        after-Quiet actor _ (refuse_family-Quiet input.members id)
          λ _. persist-Accounted _ _ _ _ _ _ _ _ _ (table-IsLawful Kind.families))

  compile_draft-Accounted :
      (brief : ArticleBrief) (contents : List ProviderArticleContent)
      → Accounted actor brief.client_organization_id (compile_draft rt actor brief contents)
  unfolding compile_draft table Entry ◌>>◌
  compile_draft-Accounted brief contents = checked _ _ (
      after-Quiet actor _ (reads-Quiet _) λ existing. clock_then_id _ λ at id.
        after_lift actor _ compile_failed _ λ draft h.
          rw (← compiled_client brief contents _ draft h)
            (persist-Accounted _ _ _ _ _ _ _ _ _ (table-IsLawful Kind.drafts)))

  approve_article-Accounted :
      (draft : ArticleDraft) (approver_id : String) (quality : PassedQualityGate)
      (platform : PassedPlatformGate) (vertical : PassedVerticalGate)
      → Accounted actor draft.client_organization_id
          (approve_article rt actor draft approver_id quality platform vertical)
  unfolding approve_article table Entry ◌>>◌
  approve_article-Accounted draft approver_id quality platform vertical = checked _ _ (
      tested _ _ _ _ (
        after-Quiet actor _ (check_gates-Quiet draft _) λ _.
          clock_then_id _
            λ at id. persist-Accounted _ _ _ _ _ _ _ _ _ (table-IsLawful Kind.approvals)))

  create_publish_package-Accounted :
      (approval : ArticleApproval) (draft : ArticleDraft)
      → Accounted actor approval.client_organization_id
          (create_publish_package rt actor approval draft)
  unfolding create_publish_package table Entry ◌>>◌
  create_publish_package-Accounted approval draft = checked _ _ (
      id_then_clock _ λ id at. after_lift actor _ publication_failed _ λ pkg h.
        rw (← package_client approval draft _ pkg h)
          (persist-Accounted _ _ _ _ _ _ _ _ _ (table-IsLawful Kind.publish_packages)))

  record_publication_receipt-Accounted :
      (plan : DistributionPlan) (channel_id actor_id : String)
      → Accounted actor plan.client_organization_id
          (record_publication_receipt rt actor plan channel_id actor_id)
  unfolding record_publication_receipt table Entry ◌>>◌
  record_publication_receipt-Accounted plan channel_id actor_id = checked _ _ (
      id_then_clock _ λ id at. after_lift actor _ publication_failed _ λ receipt h.
        rw (← (receipt_fields rt.host plan channel_id actor_id _ h).3)
          (persist-Accounted _ _ _ _ _ _ _ _ _ (table-IsLawful Kind.deliveries)))

run-Accounted :
    (rt : Runtime) (actor : AuthorizationContext) (request : Request)
    → Accounted actor (tenant request) (run rt actor request)
unfolding run tenant table Entry ◌>>◌ create_knowledge_package create_industry_profile
    create_keyword_question_map create_opportunity validate_opportunity confirm request_changes
    reject create_brief ingest_provider_article_content evaluate_quality evaluate_quality_gate
    evaluate_platform_gate evaluate_vertical_gate create_channel_neutral_package
    create_channel_neutral_content_package create_distribution_plan
run-Accounted rt actor (knowledge_package_request input) = finished actor _ tt (
    checked rt actor _ _ (
      clock_then_id rt actor _ λ at id.
        after-Quiet actor _ (refuse_package-Quiet rt)
          λ _. persist-Accounted _ _ _ _ _ _ _ _ _ (table-IsLawful Kind.knowledge_packages)))
run-Accounted rt actor (industry_profile_request input) = finished actor _ tt (
    checked rt actor _ _ (
      clock_then_id rt actor _ λ at id.
        after-Quiet actor _ (refuse_profile-Quiet _ _ id)
          λ _. persist-Accounted _ _ _ _ _ _ _ _ _ (table-IsLawful Kind.industry_profiles)))
run-Accounted rt actor (keyword_question_map_request input) = finished actor _ tt (
    checked rt actor _ _ (
      clock_then_id rt actor _ λ at id.
        after-Quiet actor _ (refuse_entries-Quiet _ id)
          λ _. persist-Accounted _ _ _ _ _ _ _ _ _ (table-IsLawful Kind.keyword_question_maps)))
run-Accounted rt actor (opportunity_request input) = finished actor _ tt (
    checked rt actor _ _ (
      tested rt actor _ _ _ _ (
        tested rt actor _ _ _ _ (
          clock_then_id rt actor _
            λ at id. persist-Accounted _ _ _ _ _ _ _ _ _ (table-IsLawful Kind.opportunities)))))
run-Accounted rt actor (validation_request input) = finished actor _ tt (
    checked rt actor _ _ (
      tested rt actor _ _ _ _ (
        clock_then_id rt actor _
          λ at id. persist-Accounted _ _ _ _ _ _ _ _ _ (table-IsLawful Kind.validations))))
run-Accounted rt actor (confirm_request v r) =
    finished actor _ tt (decide-Accounted rt actor _ _ v r)
run-Accounted rt actor (changes_request v r n) =
    finished actor _ tt (decide-Accounted rt actor _ _ v r)
run-Accounted rt actor (reject_request v r n) =
    finished actor _ tt (decide-Accounted rt actor _ _ v r)
run-Accounted rt actor (family_request input) =
    finished actor _ tt (create_family-Accounted rt actor input)
run-Accounted rt actor (brief_request input) = finished actor _ tt (
    checked rt actor _ _ (
      clock_then_id rt actor _
        λ at id. persist-Accounted _ _ _ _ _ _ _ _ _ (table-IsLawful Kind.briefs)))
run-Accounted rt actor (ingest_request brief e) = finished actor _ tt (
    checked rt actor _ _ (
      clock_then_id rt actor _
        λ at id. persist-Accounted _ _ _ _ _ _ _ _ _ (table-IsLawful Kind.provider_contents)))
run-Accounted rt actor (compile_request brief contents) =
    finished actor _ tt (compile_draft-Accounted rt actor brief contents)
run-Accounted rt actor (quality_request draft brief) = finished actor _ tt (
    checked rt actor _ _ (
      id_then_clock rt actor _
        λ id at. persist-Accounted _ _ _ _ _ _ _ _ _ (table-IsLawful Kind.quality_gates)))
run-Accounted rt actor (platform_request draft profile) = finished actor _ tt (
    checked rt actor _ _ (
      id_then_clock rt actor _
        λ id at. persist-Accounted _ _ _ _ _ _ _ _ _ (table-IsLawful Kind.platform_gates)))
run-Accounted rt actor (vertical_request draft profile) = finished actor _ tt (
    checked rt actor _ _ (
      id_then_clock rt actor _
        λ id at. persist-Accounted _ _ _ _ _ _ _ _ _ (table-IsLawful Kind.vertical_gates)))
run-Accounted rt actor (approval_request draft a q p v) =
    finished actor _ tt (approve_article-Accounted rt actor draft a q p v)
run-Accounted rt actor (publish_package_request a draft) =
    finished actor _ tt (create_publish_package-Accounted rt actor a draft)
run-Accounted rt actor (channel_neutral_request source blocks) = finished actor _ tt (
    checked rt actor _ _ (
      id_then_clock rt actor _ λ id at.
        persist-Accounted _ _ _ _ _ _ _ _ _ (table-IsLawful Kind.channel_neutral_packages)))
run-Accounted rt actor (plan_request input) = finished actor _ tt (
    checked rt actor _ _ (
      tested rt actor _ _ _ _ (
        clock_then_id rt actor _
          λ at id. persist-Accounted _ _ _ _ _ _ _ _ _ (table-IsLawful Kind.plans))))
run-Accounted rt actor (receipt_request plan c a) =
    finished actor _ tt (record_publication_receipt-Accounted rt actor plan c a)

-- With an audit port that does not fail, every method is all or nothing on the stores, and leaves a
-- trail: when it throws, no record and no audit intent has been written; when it returns, it has
-- appended exactly one audit intent, with the actor's user and organization and for the client
-- organization of the request, and every record that was stored under an id is still stored under
-- it.
pub run-Outcome :
    (rt : Runtime) (actor : AuthorizationContext) (request : Request) (w : World)
    → Outcome actor (tenant request) w.stores (run rt actor request w)
run-Outcome rt actor request w = (run-Accounted rt actor request).outcome w
