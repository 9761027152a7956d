-- ===== src/Pipeline/Kinds.antt =====
-- The eighteen repositories by kind, and what a write to one of them does to all.
use geoplane.Base.{String, ◌≡◌, refl, List, [], ◌∷◌, ◌++◌, some, arith, Bool-cases, inl, inr, ◌==◌}
use geoplane.Base.Dict.{Dict, get}
use geoplane.Content.Knowledge.{KnowledgePackage, IndustryProfile, KeywordQuestionMap}
use geoplane.Content.Opportunities.{
  Opportunity, OpportunityValidation, HumanReviewDecision, OpportunityFamily,
}
use geoplane.Content.Drafts.{ArticleBrief, ProviderArticleContent, ArticleDraft}
use geoplane.Content.Gates.{QualityGate, PlatformGate, VerticalGate, ArticleApproval}
use geoplane.Content.Publication.{
  PublishPackage, ChannelNeutralContentPackage, DistributionPlan, PublicationReceipt,
}
use geoplane.Pipeline.Stores.{AuditIntent, Stores}
use geoplane.Pipeline.Tables
use geoplane.Pipeline.Tables.{Table}

pub data Kind : Type 0 where
  knowledge_packages industry_profiles keyword_question_maps opportunities validations reviews
        families briefs provider_contents :
      Kind
  drafts quality_gates platform_gates vertical_gates approvals publish_packages
        channel_neutral_packages plans deliveries :
      Kind

unfoldable pub Entry : Kind → Type 0
Entry Kind.knowledge_packages = KnowledgePackage
Entry Kind.industry_profiles = IndustryProfile
Entry Kind.keyword_question_maps = KeywordQuestionMap
Entry Kind.opportunities = Opportunity
Entry Kind.validations = OpportunityValidation
Entry Kind.reviews = HumanReviewDecision
Entry Kind.families = OpportunityFamily
Entry Kind.briefs = ArticleBrief
Entry Kind.provider_contents = ProviderArticleContent
Entry Kind.drafts = ArticleDraft
Entry Kind.quality_gates = QualityGate
Entry Kind.platform_gates = PlatformGate
Entry Kind.vertical_gates = VerticalGate
Entry Kind.approvals = ArticleApproval
Entry Kind.publish_packages = PublishPackage
Entry Kind.channel_neutral_packages = ChannelNeutralContentPackage
Entry Kind.plans = DistributionPlan
Entry Kind.deliveries = PublicationReceipt

unfoldable pub table : (k : Kind) → Table (Entry k)
unfolding Entry
table Kind.knowledge_packages = Tables.knowledge_packages
table Kind.industry_profiles = Tables.industry_profiles
table Kind.keyword_question_maps = Tables.keyword_question_maps
table Kind.opportunities = Tables.opportunities
table Kind.validations = Tables.validations
table Kind.reviews = Tables.reviews
table Kind.families = Tables.families
table Kind.briefs = Tables.briefs
table Kind.provider_contents = Tables.provider_contents
table Kind.drafts = Tables.drafts
table Kind.quality_gates = Tables.quality_gates
table Kind.platform_gates = Tables.platform_gates
table Kind.vertical_gates = Tables.vertical_gates
table Kind.approvals = Tables.approvals
table Kind.publish_packages = Tables.publish_packages
table Kind.channel_neutral_packages = Tables.channel_neutral_packages
table Kind.plans = Tables.plans
table Kind.deliveries = Tables.deliveries

pub table_audit :
    (k : Kind) (d : Dict (Entry k)) (s : Stores) → ((table k).write d s).audit ≡ s.audit
unfolding table
table_audit Kind.knowledge_packages d s = refl
table_audit Kind.industry_profiles d s = refl
table_audit Kind.keyword_question_maps d s = refl
table_audit Kind.opportunities d s = refl
table_audit Kind.validations d s = refl
table_audit Kind.reviews d s = refl
table_audit Kind.families d s = refl
table_audit Kind.briefs d s = refl
table_audit Kind.provider_contents d s = refl
table_audit Kind.drafts d s = refl
table_audit Kind.quality_gates d s = refl
table_audit Kind.platform_gates d s = refl
table_audit Kind.vertical_gates d s = refl
table_audit Kind.approvals d s = refl
table_audit Kind.publish_packages d s = refl
table_audit Kind.channel_neutral_packages d s = refl
table_audit Kind.plans d s = refl
table_audit Kind.deliveries d s = refl

-- Nothing but the audit trail has changed.
pub read_audited :
    (k : Kind) (s : Stores) (trail : List AuditIntent)
    → (table k).read (record s { audit = trail }) ≡ (table k).read s
unfolding table
read_audited Kind.knowledge_packages s trail = refl
read_audited Kind.industry_profiles s trail = refl
read_audited Kind.keyword_question_maps s trail = refl
read_audited Kind.opportunities s trail = refl
read_audited Kind.validations s trail = refl
read_audited Kind.reviews s trail = refl
read_audited Kind.families s trail = refl
read_audited Kind.briefs s trail = refl
read_audited Kind.provider_contents s trail = refl
read_audited Kind.drafts s trail = refl
read_audited Kind.quality_gates s trail = refl
read_audited Kind.platform_gates s trail = refl
read_audited Kind.vertical_gates s trail = refl
read_audited Kind.approvals s trail = refl
read_audited Kind.publish_packages s trail = refl
read_audited Kind.channel_neutral_packages s trail = refl
read_audited Kind.plans s trail = refl
read_audited Kind.deliveries s trail = refl

-- What is stored under an id stays stored under it, unchanged.
pub record Grows (s s' : Stores) : Type 0 where
  pub kept :
      (k : Kind) (id : String) (x : Entry k)
      → get id ((table k).read s) ≡ some x
      → get id ((table k).read s') ≡ some x

pub get-append :
    {A : Type 0} (d e : Dict A) (id : String) (x : A) → get id d ≡ some x → get id (d ++ e) ≡ some x
unfolding get
get-append [] e id x h = absurd (ground arith)
get-append ((j, v) ∷ d) e id x h = elim (Bool-cases (j == id)) [
  | inl same ↦ ground arith
  | inr other ↦ ground (arith, get-append d e id x)
]

-- The other repositories are as before.
written :
    (k j : Kind) (e : Entry k) (i : String) (s : Stores) (id : String) (x : Entry j)
    → get id ((table j).read s) ≡ some x
    → get id ((table j).read ((table k).write ((table k).read s ++ (i, e) ∷ []) s)) ≡ some x
unfolding table Entry
written Kind.knowledge_packages Kind.knowledge_packages e i s id x h =
    get-append s.knowledge_packages ((i, e) ∷ []) id x h
written Kind.knowledge_packages _ e i s id x h = h
written Kind.industry_profiles Kind.industry_profiles e i s id x h =
    get-append s.industry_profiles ((i, e) ∷ []) id x h
written Kind.industry_profiles _ e i s id x h = h
written Kind.keyword_question_maps Kind.keyword_question_maps e i s id x h =
    get-append s.keyword_question_maps ((i, e) ∷ []) id x h
written Kind.keyword_question_maps _ e i s id x h = h
written Kind.opportunities Kind.opportunities e i s id x h =
    get-append s.opportunities ((i, e) ∷ []) id x h
written Kind.opportunities _ e i s id x h = h
written Kind.validations Kind.validations e i s id x h =
    get-append s.validations ((i, e) ∷ []) id x h
written Kind.validations _ e i s id x h = h
written Kind.reviews Kind.reviews e i s id x h = get-append s.reviews ((i, e) ∷ []) id x h
written Kind.reviews _ e i s id x h = h
written Kind.families Kind.families e i s id x h = get-append s.families ((i, e) ∷ []) id x h
written Kind.families _ e i s id x h = h
written Kind.briefs Kind.briefs e i s id x h = get-append s.briefs ((i, e) ∷ []) id x h
written Kind.briefs _ e i s id x h = h
written Kind.provider_contents Kind.provider_contents e i s id x h =
    get-append s.provider_contents ((i, e) ∷ []) id x h
written Kind.provider_contents _ e i s id x h = h
written Kind.drafts Kind.drafts e i s id x h = get-append s.drafts ((i, e) ∷ []) id x h
written Kind.drafts _ e i s id x h = h
written Kind.quality_gates Kind.quality_gates e i s id x h =
    get-append s.quality_gates ((i, e) ∷ []) id x h
written Kind.quality_gates _ e i s id x h = h
written Kind.platform_gates Kind.platform_gates e i s id x h =
    get-append s.platform_gates ((i, e) ∷ []) id x h
written Kind.platform_gates _ e i s id x h = h
written Kind.vertical_gates Kind.vertical_gates e i s id x h =
    get-append s.vertical_gates ((i, e) ∷ []) id x h
written Kind.vertical_gates _ e i s id x h = h
written Kind.approvals Kind.approvals e i s id x h = get-append s.approvals ((i, e) ∷ []) id x h
written Kind.approvals _ e i s id x h = h
written Kind.publish_packages Kind.publish_packages e i s id x h =
    get-append s.publish_packages ((i, e) ∷ []) id x h
written Kind.publish_packages _ e i s id x h = h
written Kind.channel_neutral_packages Kind.channel_neutral_packages e i s id x h =
    get-append s.channel_neutral_packages ((i, e) ∷ []) id x h
written Kind.channel_neutral_packages _ e i s id x h = h
written Kind.plans Kind.plans e i s id x h = get-append s.plans ((i, e) ∷ []) id x h
written Kind.plans _ e i s id x h = h
written Kind.deliveries Kind.deliveries e i s id x h = get-append s.deliveries ((i, e) ∷ []) id x h
written Kind.deliveries _ e i s id x h = h

pub write-Grows :
    (k : Kind) (e : Entry k) (i : String) (s : Stores) (trail : List AuditIntent)
    → Grows s (record ((table k).write ((table k).read s ++ (i, e) ∷ []) s) { audit = trail })
write-Grows k e i s trail = record {
  kept = λ j id x h.
      let s' = (table k).write ((table k).read s ++ (i, e) ∷ []) s in
      rw (read_audited j s' trail) (written k j e i s id x h);
}

-- A table whose writes leave the audit trail alone and lose no record.
pub record IsLawful {A : Type 0} (t : Table A) : Type 0 where
  pub keeps : (d : Dict A) (s : Stores) → (t.write d s).audit ≡ s.audit
  pub grows :
      (x : A) (id : String) (s : Stores) (trail : List AuditIntent)
      → Grows s (record (t.write (t.read s ++ (id, x) ∷ []) s) { audit = trail })

pub table-IsLawful : (k : Kind) → IsLawful (table k)
table-IsLawful k = record { keeps = table_audit k; grows = write-Grows k }
