-- ===== src/Content/Drafts/Compile.antt =====
-- When a draft is compiled from a brief, and what it then holds.
use geoplane.Base.{
  ℕ, zero, suc, ◌+◌, String, ◌≡◌, refl, ◌∙◌, ◌≢◌, ◌↔◌, inl, inr, ◌==◌, none, some, List, [], ◌∷◌,
  map, ok, arith, eq_iff, get_elem?, All, Bool-cases, Option-cases,
}
use mathlib.Core.Option
use native.Mathlib.Nat.{zero-add}
use geoplane.Content.Drafts.{
  ArticleBrief, ArticleBriefPlanningContext, ProviderArticleContent, ArticleDraft,
  ArticleDraftCompilationIdentity, sections_from, mismatched, compiled, compile_article_draft,
}

-- Every content is one for the brief.
abbrev pub BelongTo : ArticleBrief → List ProviderArticleContent → Type 0
BelongTo brief = All (λ content. content.article_brief_id ≡ brief.id)

-- What a brief and its contents must be for a draft to be compiled.
pub record IsCompilable (brief : ArticleBrief) (contents : List ProviderArticleContent)
    : Type 0 where
  pub context : ArticleBriefPlanningContext
  pub planned : brief.planning_context ≡ some context
  pub sourced : contents ≢ []
  pub own : BelongTo brief contents

mismatched-none :
    (brief : ArticleBrief) (contents : List ProviderArticleContent)
    → BelongTo brief contents
    → mismatched brief contents ≡ none
unfolding mismatched
mismatched-none brief [] h = refl
mismatched-none brief (c ∷ cs) h =
    ground (arith, eq_iff c.article_brief_id brief.id, mismatched-none brief cs h.1)

none-mismatched :
    (brief : ArticleBrief) (contents : List ProviderArticleContent)
    → mismatched brief contents ≡ none
    → BelongTo brief contents
unfolding mismatched
none-mismatched brief [] h = tt
none-mismatched brief (c ∷ cs) h = elim (Bool-cases (c.article_brief_id == brief.id)) [
  | inl same ↦
      ((eq_iff c.article_brief_id brief.id).0 same, none-mismatched brief cs (ground arith))
  | inr other ↦ absurd (ground arith)
]

compile_complete :
    (brief : ArticleBrief) (contents : List ProviderArticleContent)
    (identity : ArticleDraftCompilationIdentity)
    → IsCompilable brief contents
    → compile_article_draft brief contents identity ≡ ok (compiled brief contents identity)
unfolding compile_article_draft
compile_complete brief [] identity h = absurd (h.sourced refl)
compile_complete brief (c ∷ cs) identity h =
    ground (arith, mismatched-none brief (c ∷ cs) h.own, h.planned)

compile_sound :
    (brief : ArticleBrief) (contents : List ProviderArticleContent)
    (identity : ArticleDraftCompilationIdentity) (draft : ArticleDraft)
    → compile_article_draft brief contents identity ≡ ok draft
    → IsCompilable brief contents
unfolding compile_article_draft
compile_sound brief contents identity draft h = elim (Option-cases brief.planning_context) [
  | inl missing ↦ absurd (ground arith)
  | inr (context, planned) ↦ record {
    context = context;
    planned = planned;
    sourced = λ e. ground arith;
    own = none-mismatched brief contents (ground arith);
  }
]

-- A draft is compiled exactly when the brief has a planning context and there are contents, all of
-- them for this brief.
pub compile_iff :
    (brief : ArticleBrief) (contents : List ProviderArticleContent)
    (identity : ArticleDraftCompilationIdentity)
    → ((draft : ArticleDraft) × (compile_article_draft brief contents identity ≡ ok draft))
      ↔ IsCompilable brief contents
compile_iff brief contents identity = (
  (λ h. compile_sound brief contents identity h.0 h.1),
  λ h. (compiled brief contents identity, compile_complete brief contents identity h),
)

add_swap : (n i : ℕ) → suc n + i ≡ n + suc i
add_swap n i = omega arith

section_at :
    (n i : ℕ) (outline : List String)
    → get_elem? (sections_from n outline) i
      ≡ Option.map (λ heading. record { heading = heading; order = n + i }) (get_elem? outline i)
unfolding sections_from
section_at n i [] = refl
section_at n zero (h ∷ rest) = ground arith
section_at n (suc i) (h ∷ rest) = section_at (suc n) i rest ∙ rw (add_swap n i)

get_elem?-map :
    {A B : Type 0} (f : A → B) (xs : List A) (i : ℕ)
    → get_elem? (map f xs) i ≡ Option.map f (get_elem? xs i)
get_elem?-map f [] i = refl
get_elem?-map f (x ∷ xs) zero = refl
get_elem?-map f (x ∷ xs) (suc i) = get_elem?-map f xs i

pub only_compiled :
    (brief : ArticleBrief) (contents : List ProviderArticleContent)
    (identity : ArticleDraftCompilationIdentity) (draft : ArticleDraft)
    → compile_article_draft brief contents identity ≡ ok draft
    → compiled brief contents identity ≡ draft
only_compiled brief contents identity draft h =
    cc (compile_complete brief contents identity (compile_sound brief contents identity draft h))

-- The sections of a compiled draft are the headings of the outline, each with its position, and
-- its sources are the ids of the contents, in order.
pub compile_sections :
    (brief : ArticleBrief) (contents : List ProviderArticleContent)
    (identity : ArticleDraftCompilationIdentity) {draft : ArticleDraft} (i : ℕ)
    → compile_article_draft brief contents identity ≡ ok draft
    → (get_elem? draft.sections i
        ≡ Option.map
            (λ heading. record { heading = heading; order = i })
            (get_elem? brief.outline i))
      × (get_elem? draft.source_provider_article_content_ids i
          ≡ Option.map (λ content. content.id) (get_elem? contents i))
unfolding compiled
compile_sections brief contents identity {draft} i h =
    rw (← only_compiled brief contents identity draft h)
      (section_at 0 i brief.outline ∙ rw zero-add, get_elem?-map (λ content. content.id) contents i)
