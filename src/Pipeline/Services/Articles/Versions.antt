-- ===== src/Pipeline/Services/Articles/Versions.antt =====
-- The versions of the drafts that compileDraft stores.
use geoplane.Base.{
  ℕ, suc, ◌<◌, ◌≤◌, String, ◌≡◌, refl, ap, List, [], ◌∷◌, ◌++◌, ok, arith, ltb, leb, All, Memᴰ,
  filter, mem-filter_iff, ◌==◌, eq_iff, Bool-cases, inl, inr, if◌then◌else◌,
}
use geoplane.Base.Dict.{Dict, values}
use geoplane.Tenancy.Entities.{AuthorizationContext}
use geoplane.Content.Drafts.{
  ArticleBrief, ProviderArticleContent, ArticleDraft, compile_article_draft, compiled,
}
use geoplane.Content.Drafts.Compile.{only_compiled}
use geoplane.Pipeline.Stores.{Stores}
use geoplane.Pipeline.Tables
use geoplane.Pipeline.Action.{Runtime, World, ◌>>◌, compile_failed}
use geoplane.Pipeline.Ensures.{
  Ensures, check_then, Ensures-ok, Checks-now, Checks-next_id, Checks-reads, Checks-lift,
  Checks-assert_access, persist-Ensures, persisted,
}
use geoplane.Pipeline.Services.Articles.{
  highest, insert_draft, sort_drafts, list_by_article_brief, compile_draft,
}

highest-from : (max : ℕ) (ds : List ArticleDraft) → max ≤ highest max ds
unfolding highest
highest-from max [] = omega arith
highest-from max (d ∷ ds) = ground (arith, highest-from d.version ds, highest-from max ds)

highest-bound : (max : ℕ) (ds : List ArticleDraft) → All (λ d. d.version ≤ highest max ds) ds
unfolding highest
highest-bound max [] = tt
highest-bound max (d ∷ ds) = (
  ground (arith, highest-from d.version ds, highest-from max ds),
  highest-bound (if ltb max d.version then d.version else max) ds,
)

-- What is stored with a draft: it is for the brief, newer than every stored draft of the brief, and
-- added after the others.
pub record IsNewest (brief : ArticleBrief) (s s' : Stores) (draft : ArticleDraft) : Type 0 where
  pub of_brief : draft.article_brief_id ≡ brief.id
  pub newer :
      (d : ArticleDraft)
      → Memᴰ d (values s.drafts)
      → d.article_brief_id ≡ brief.id
      → d.version < draft.version
  pub stored : s'.drafts ≡ s.drafts ++ (draft.id, draft) ∷ []

mem-insert_draft :
    (d e : ArticleDraft) (ds : List ArticleDraft) → Memᴰ e (d ∷ ds) → Memᴰ e (insert_draft d ds)
unfolding insert_draft
mem-insert_draft d e [] m = m
mem-insert_draft d e (f ∷ ds) m = elim (Bool-cases (leb d.version f.version)) [
  | inl first ↦ rw first m
  | inr later ↦ rw later (elim m [
    | Memᴰ.head h ↦ Memᴰ.tail (mem-insert_draft d e ds (Memᴰ.head h))
    | Memᴰ.tail (Memᴰ.head h) ↦ Memᴰ.head h
    | Memᴰ.tail (Memᴰ.tail n) ↦ Memᴰ.tail (mem-insert_draft d e ds (Memᴰ.tail n))
  ])
]

mem-sort_drafts : (e : ArticleDraft) (ds : List ArticleDraft) → Memᴰ e ds → Memᴰ e (sort_drafts ds)
unfolding sort_drafts
mem-sort_drafts e (d ∷ ds) (Memᴰ.head h) = mem-insert_draft d e (sort_drafts ds) (Memᴰ.head h)
mem-sort_drafts e (d ∷ ds) (Memᴰ.tail m) =
    mem-insert_draft d e (sort_drafts ds) (Memᴰ.tail (mem-sort_drafts e ds m))
mem-sort_drafts e [] m = elim m [ ]

-- Every stored draft of a brief is listed for it.
mem-list_by_article_brief :
    (brief_id : String) (drafts : Dict ArticleDraft) (d : ArticleDraft)
    → Memᴰ d (values drafts)
    → d.article_brief_id ≡ brief_id
    → Memᴰ d (list_by_article_brief brief_id drafts)
unfolding list_by_article_brief
mem-list_by_article_brief brief_id drafts d m own =
    let of_brief = λ (e : ArticleDraft). e.article_brief_id == brief_id in
    mem-sort_drafts d (filter of_brief (values drafts)) (
      (mem-filter_iff of_brief (values drafts) d).1 (m, (eq_iff d.article_brief_id brief_id).1 own))

all-mem :
    (P : ArticleDraft → Type 0) (ds : List ArticleDraft) (d : ArticleDraft)
    → All P ds
    → Memᴰ d ds
    → P d
all-mem P [] d h m = elim m [ ]
all-mem P (e ∷ ds) d h (Memᴰ.head same) = rw (same) h.0
all-mem P (e ∷ ds) d h (Memᴰ.tail m) = all-mem P ds d h.1 m

newest :
    (actor : AuthorizationContext) (brief : ArticleBrief) (contents : List ProviderArticleContent)
    (s : Stores) (existing : List ArticleDraft) (id at : String) (draft : ArticleDraft)
    → existing ≡ list_by_article_brief brief.id s.drafts
    → compile_article_draft brief contents
        (record { id = id; version = suc (highest 0 existing); compiled_at = at })
      ≡ ok draft
    → IsNewest brief s
        (persisted Tables.drafts actor draft.client_organization_id draft.project_id
          "article_draft.compiled" "ArticleDraft" draft.id at draft s)
        draft
unfolding persisted compiled
newest actor brief contents s existing id at draft all h =
    let made = only_compiled brief contents _ draft h in
    record {
      of_brief = rw (← made) refl;
      newer = λ d m own.
          let listed : Memᴰ d existing =
            rw (all) (mem-list_by_article_brief brief.id s.drafts d m own) in
          let b =
            all-mem (λ d. d.version ≤ highest 0 existing) existing d (highest-bound 0 existing)
              listed in
          rw (← ap (λ (d : ArticleDraft). d.version) made) (omega arith);
      stored = refl;
    }

module _ (rt : Runtime) (actor : AuthorizationContext) where
  compile_draft-Ensures :
      (brief : ArticleBrief) (contents : List ProviderArticleContent) (s : Stores)
      → Ensures s (λ draft s'. IsNewest brief s s' draft) (compile_draft rt actor brief contents)
  unfolding compile_draft ◌>>◌
  compile_draft-Ensures brief contents s = check_then (Checks-assert_access s actor _) λ _ _.
      check_then (Checks-reads s _) λ existing all. check_then (Checks-now rt s) λ at _.
        check_then (Checks-next_id rt s) λ id _.
          check_then (Checks-lift s compile_failed _) λ draft h.
            persist-Ensures _ _ _ _ _ _ _ _ _
              λ new. newest actor brief contents s existing id at draft all h

  -- A draft that the service compiles is for the given brief, has a version above those of all the
  -- drafts stored for this brief, and is stored behind them.
  pub compile_draft-IsNewest :
      (brief : ArticleBrief) (contents : List ProviderArticleContent) (w w' : World)
      {draft : ArticleDraft}
      → compile_draft rt actor brief contents w ≡ (ok draft, w')
      → IsNewest brief w.stores w'.stores draft
  compile_draft-IsNewest brief contents w w' =
      Ensures-ok (compile_draft-Ensures brief contents w.stores) refl
