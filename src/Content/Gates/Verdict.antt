-- ===== src/Content/Gates/Verdict.antt =====
-- What a passed quality gate says of a draft, and when a compiled draft passes.
use geoplane.Base.{
  ℕ, suc, String, Bool, false, ◌≡◌, refl, ap, ◌≢◌, ◌↔◌, inl, inr, some, List, [], ◌∷◌, map, ok,
  arith, eq_iff, any, All, Option-cases,
}
use geoplane.Base.Text.{is_blank}
use geoplane.Content.Drafts.{
  ArticleBrief, ArticleBriefPlanningContext, ProviderArticleContent, ArticleDraft,
  ArticleDraftSection, ArticleDraftCompilationIdentity, compile_article_draft, compiled,
  sections_from,
}
use geoplane.Content.Drafts.Compile.{compile_iff, only_compiled}
use geoplane.Content.Gates.{
  passed, QualityGateEvaluationIdentity, quality_reasons, outcome_of, evaluate_quality_gate,
}

-- The conditions of the gate.
pub record IsComplete (draft : ArticleDraft) (brief : ArticleBrief) : Type 0 where
  pub has_sections : draft.sections ≢ []
  pub titled : All (λ section. is_blank section.heading ≡ false) draft.sections
  pub context : ArticleBriefPlanningContext
  pub planned : brief.planning_context ≡ some context
  pub keywords : context.target_keywords ≢ []
  pub decided : context.authorizing_human_review_decision_ids ≢ []
  pub sourced : draft.source_provider_article_content_ids ≢ []
  pub own_brief : draft.article_brief_id ≡ brief.id

All-of_not_any :
    {A : Type 0} (p : A → Bool) (xs : List A) → any p xs ≡ false → All (λ x. p x ≡ false) xs
All-of_not_any p [] h = tt
All-of_not_any p (x ∷ xs) h = (ground arith, All-of_not_any p xs (ground arith))

not_any_of_All :
    {A : Type 0} (p : A → Bool) (xs : List A) → All (λ x. p x ≡ false) xs → any p xs ≡ false
not_any_of_All p [] h = refl
not_any_of_All p (x ∷ xs) h = ground (arith, not_any_of_All p xs h.1)

quality_reasons_none :
    (draft : ArticleDraft) (brief : ArticleBrief)
    → quality_reasons draft brief ≡ []
    → IsComplete draft brief
unfolding quality_reasons
quality_reasons_none draft brief h = elim (Option-cases brief.planning_context) [
  | inl missing ↦ absurd (ground arith)
  | inr (context, planned) ↦ record {
    has_sections = λ e. ground arith;
    titled = All-of_not_any (λ section. is_blank section.heading) draft.sections (ground arith);
    context = context;
    planned = planned;
    keywords = λ e. ground arith;
    decided = λ e. ground arith;
    sourced = λ e. ground arith;
    own_brief = ground (arith, eq_iff draft.article_brief_id brief.id);
  }
]

none_quality_reasons :
    (draft : ArticleDraft) (brief : ArticleBrief)
    → IsComplete draft brief
    → quality_reasons draft brief ≡ []
unfolding quality_reasons
none_quality_reasons draft brief c = ground (
  arith,
  eq_iff draft.article_brief_id brief.id,
  not_any_of_All (λ (section : ArticleDraftSection). is_blank section.heading) draft.sections
      c.titled,
  c.planned,
  c.keywords,
  c.decided,
)

passed_iff_no_reasons : {R : Type 0} (rs : List R) → (outcome_of rs ≡ passed) ↔ (rs ≡ [])
passed_iff_no_reasons [] = (λ _. refl, λ _. refl)
passed_iff_no_reasons (r ∷ rs) = (λ e. cc, λ e. cc)

-- The quality gate passes exactly the drafts that meet all its conditions: there are sections and
-- none has a blank heading, the brief has a planning context with keywords and review decisions,
-- the draft has sources and is one of this brief.
pub evaluate_quality_gate-passed_iff :
    (draft : ArticleDraft) (brief : ArticleBrief) (identity : QualityGateEvaluationIdentity)
    → ((evaluate_quality_gate draft brief identity).outcome ≡ passed) ↔ IsComplete draft brief
unfolding evaluate_quality_gate
evaluate_quality_gate-passed_iff draft brief identity =
    let (from, to) = passed_iff_no_reasons (quality_reasons draft brief) in
    ((λ h. quality_reasons_none draft brief (from h)), λ c. to (none_quality_reasons draft brief c))

sections_of_outline :
    (n : ℕ) (outline : List String)
    → All (λ heading. is_blank heading ≡ false) outline
    → All (λ section. is_blank section.heading ≡ false) (sections_from n outline)
unfolding sections_from
sections_of_outline n [] h = tt
sections_of_outline n (x ∷ xs) h = (h.0, sections_of_outline (suc n) xs h.1)

outline_of_sections :
    (n : ℕ) (outline : List String)
    → All (λ section. is_blank section.heading ≡ false) (sections_from n outline)
    → All (λ heading. is_blank heading ≡ false) outline
unfolding sections_from
outline_of_sections n [] h = tt
outline_of_sections n (x ∷ xs) h = (h.0, outline_of_sections (suc n) xs h.1)

-- A brief whose drafts can pass: a non-empty outline without blank headings, and a planning
-- context with keywords and review decisions.
pub record IsReady (brief : ArticleBrief) : Type 0 where
  pub outlined : brief.outline ≢ []
  pub headed : All (λ heading. is_blank heading ≡ false) brief.outline
  pub context : ArticleBriefPlanningContext
  pub planned : brief.planning_context ≡ some context
  pub keywords : context.target_keywords ≢ []
  pub decided : context.authorizing_human_review_decision_ids ≢ []

sections_from-ne-nil : (outline : List String) → outline ≢ [] → sections_from 0 outline ≢ []
unfolding sections_from
sections_from-ne-nil [] h = λ e. h refl
sections_from-ne-nil (x ∷ xs) h = λ e. cc

map-ne-nil : {A B : Type 0} (f : A → B) (xs : List A) → xs ≢ [] → map f xs ≢ []
map-ne-nil f [] h = λ e. h refl
map-ne-nil f (x ∷ xs) h = λ e. cc

compiled-IsComplete :
    (brief : ArticleBrief) (contents : List ProviderArticleContent)
    (compilation : ArticleDraftCompilationIdentity)
    → contents ≢ []
    → IsReady brief
    → IsComplete (compiled brief contents compilation) brief
unfolding compiled sections_from
compiled-IsComplete brief contents compilation sourced ready = record {
  has_sections = sections_from-ne-nil brief.outline ready.outlined;
  titled = sections_of_outline 0 brief.outline ready.headed;
  context = ready.context;
  planned = ready.planned;
  keywords = ready.keywords;
  decided = ready.decided;
  sourced = map-ne-nil (λ content. content.id) contents sourced;
  own_brief = refl;
}

IsReady-of_compiled :
    (brief : ArticleBrief) (contents : List ProviderArticleContent)
    (compilation : ArticleDraftCompilationIdentity)
    → IsComplete (compiled brief contents compilation) brief
    → IsReady brief
unfolding compiled sections_from
IsReady-of_compiled brief contents compilation c = record {
  outlined = λ e. c.has_sections (ap (sections_from 0) e);
  headed = outline_of_sections 0 brief.outline c.titled;
  context = c.context;
  planned = c.planned;
  keywords = c.keywords;
  decided = c.decided;
}

-- A draft that was compiled from a brief passes the quality gate on that brief exactly when the
-- outline is not empty and has no blank heading, and the planning context has keywords and review
-- decisions: its sources and its brief need no further check.
pub compiled_passes_iff :
    (brief : ArticleBrief) (contents : List ProviderArticleContent)
    (compilation : ArticleDraftCompilationIdentity) {draft : ArticleDraft}
    (identity : QualityGateEvaluationIdentity)
    → compile_article_draft brief contents compilation ≡ ok draft
    → ((evaluate_quality_gate draft brief identity).outcome ≡ passed) ↔ IsReady brief
compiled_passes_iff brief contents compilation {draft} identity h =
    let sourced = ((compile_iff brief contents compilation).0 (draft, h)).sourced in
    let (from, to) =
      evaluate_quality_gate-passed_iff (compiled brief contents compilation) brief identity in
    rw (← only_compiled brief contents compilation draft h) (
      (λ p. IsReady-of_compiled brief contents compilation (from p)),
      λ ready. to (compiled-IsComplete brief contents compilation sourced ready),
    )
