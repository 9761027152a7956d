-- ===== src/Pipeline/Services/Gates/Approvals.antt =====
-- Which approvals approveArticle gives.
use mathlib.Core.Path.{subst}
use geoplane.Base.{
  suc, String, Bool, true, false, ◌≡◌, refl, ◌∙◌, ◌↔◌, List, [], ◌∷◌, ok, arith, eq_iff, All, none,
}
use geoplane.Base.Dict.{get}
use geoplane.Base.Text.{is_blank}
use geoplane.Tenancy.Entities.{AuthorizationContext}
use geoplane.Tenancy.Authorization.{can_access_client_organization}
use geoplane.Content.Drafts.{ArticleDraft}
use geoplane.Content.Gates.{ArticleApproval}
use geoplane.Pipeline.Tables
use geoplane.Pipeline.Action.Add.{
  resume-ok, resume-Returns, add-new, add_sound, access_sound, access_complete,
}
use geoplane.Pipeline.Action.{
  Runtime, Failure, blank_approver, World, resume, ◌>>=◌, ◌>>◌, throw_when, pure, assert_access,
  persist, now, next_id, emit_audit,
}
use geoplane.Pipeline.Services.Gates.{
  PassedQualityGate, PassedPlatformGate, PassedVerticalGate, check_gates, approve_article,
}

check_gates_sound :
    (draft : ArticleDraft) (gates : List (String × String)) (w w' : World)
    → check_gates draft gates w ≡ (ok tt, w')
    → (w' ≡ w) × All (λ gate. gate.1 ≡ draft.id) gates
unfolding check_gates throw_when pure ◌>>◌ ◌>>=◌ resume
check_gates_sound draft [] w w' h = (ground arith, tt)
check_gates_sound draft ((i, d) ∷ gates) w w' h =
    let (same, rest) = check_gates_sound draft gates w w' (ground (arith, eq_iff d draft.id)) in
    (same, (ground (arith, eq_iff d draft.id), rest))

check_gates_complete :
    (draft : ArticleDraft) (gates : List (String × String)) (w : World)
    → All (λ gate. gate.1 ≡ draft.id) gates
    → check_gates draft gates w ≡ (ok tt, w)
unfolding check_gates throw_when pure ◌>>◌ ◌>>=◌ resume
check_gates_complete draft [] w h = refl
check_gates_complete draft ((i, d) ∷ gates) w h =
    ground (arith, (eq_iff d draft.id).1 h.0, check_gates_complete draft gates w h.1)

unless_sound :
    (b : Bool) (e : Failure) (w w' : World)
    → throw_when b e w ≡ (ok tt, w')
    → (b ≡ false) × (w' ≡ w)
unfolding throw_when
unless_sound true e w w' h = ground arith
unless_sound false e w w' h = (refl, ground arith)

-- The gates of an approval.
abbrev gate_drafts :
    PassedQualityGate → PassedPlatformGate → PassedVerticalGate → List (String × String)
gate_drafts quality platform vertical =
    (quality.gate.id, quality.gate.article_draft_id)
    ∷ (platform.gate.id, platform.gate.article_draft_id)
    ∷ (vertical.gate.id, vertical.gate.article_draft_id)
    ∷ []

-- When a draft is approved: by an actor with access, for an approver who is named, with three
-- passed gates of this very draft, under an id that is not in use.
pub record IsApprovable (rt : Runtime) (actor : AuthorizationContext) (draft : ArticleDraft)
    (approver_id : String) (quality : PassedQualityGate) (platform : PassedPlatformGate)
    (vertical : PassedVerticalGate) (w : World) : Type 0 where
  pub allowed : can_access_client_organization actor draft.client_organization_id ≡ true
  pub named : is_blank approver_id ≡ false
  pub quality_own : quality.gate.article_draft_id ≡ draft.id
  pub platform_own : platform.gate.article_draft_id ≡ draft.id
  pub vertical_own : vertical.gate.article_draft_id ≡ draft.id
  pub fresh : get (rt.id_at w.issued) w.stores.approvals ≡ none

unless_complete : (b : Bool) (e : Failure) (w : World) → b ≡ false → throw_when b e w ≡ (ok tt, w)
unfolding throw_when
unless_complete b e w h = ground arith

module _ (rt : Runtime) (actor : AuthorizationContext) (draft : ArticleDraft) (approver_id : String)
    (quality : PassedQualityGate) (platform : PassedPlatformGate)
    (vertical : PassedVerticalGate) where
  approve_sound :
      (w w' : World) (approval : ArticleApproval)
      → approve_article rt actor draft approver_id quality platform vertical w ≡ (ok approval, w')
      → IsApprovable rt actor draft approver_id quality platform vertical w
  unfolding approve_article ◌>>◌ ◌>>=◌ now next_id resume persist
  approve_sound w w' approval h =
      let gates = gate_drafts quality platform vertical in
      let (a, w1, checked, then) =
        resume-ok _ (assert_access actor draft.client_organization_id w) approval w' h in
      let (allowed, same1) = access_sound actor draft.client_organization_id w w1 checked in
      let (b, w2, tested, next) =
        resume-ok _ (throw_when (is_blank approver_id) blank_approver w1) approval w' then in
      let (named, same2) = unless_sound (is_blank approver_id) blank_approver w1 w2 tested in
      let (c, w3, verified, last) = resume-ok _ (check_gates draft gates w2) approval w' next in
      let (same3, own) = check_gates_sound draft gates w2 w3 verified in
      let (d, w4, added, end) = resume-ok _ _ approval w' last in
      record {
        allowed = allowed;
        named = named;
        quality_own = own.0;
        platform_own = own.1.0;
        vertical_own = own.1.1.0;
        fresh =
            subst (λ w. get (rt.id_at w.issued) w.stores.approvals ≡ none) (same3 ∙ same2 ∙ same1)
              (add_sound Tables.approvals _ _ _ _ added);
      }

  approve_complete :
      (w : World)
      → IsApprovable rt actor draft approver_id quality platform vertical w
      → (approval : ArticleApproval) × (w' : World) × (approve_article rt actor draft approver_id
            quality platform vertical w
          ≡ (ok approval, w'))
  unfolding approve_article ◌>>◌ ◌>>=◌ now next_id resume persist pure emit_audit
  approve_complete w h =
      resume-Returns _ _ _ _ (access_complete actor draft.client_organization_id w h.allowed) (
        resume-Returns _ _ _ _ (unless_complete (is_blank approver_id) blank_approver w h.named) (
          resume-Returns _ _ _ _
            (check_gates_complete draft (gate_drafts quality platform vertical) w
              (h.quality_own, (h.platform_own, (h.vertical_own, tt))))
            (resume-Returns _ _ _ _
              (add-new Tables.approvals (rt.id_at w.issued) _
                (record w { ticks = suc w.ticks; issued = suc w.issued }) h.fresh)
              (_, _, refl))))

  -- An article is approved exactly when the actor may access its client organization, the approver
  -- is named, the three passed gates are gates of this very draft and the next id is not in use.
  pub approve_article_iff :
      (w : World)
      → ((approval : ArticleApproval) × (w' : World) × (approve_article rt actor draft approver_id
              quality platform vertical w
            ≡ (ok approval, w')))
        ↔ IsApprovable rt actor draft approver_id quality platform vertical w
  approve_article_iff w = ((λ h. approve_sound w h.1 h.0 h.2), approve_complete w)
