-- ===== src/Pipeline/Services/Opportunities/Families.antt =====
-- Which families createFamily accepts.
use mathlib.Core.Path.{subst}
use geoplane.Base.{
  suc, String, true, false, ◌≡◌, ◌≢◌, Memᴰ, includes, includes_iff, Bool-cases, inl, inr, map,
  is_empty, repeats, refl, ◌∙◌, ◌↔◌, Option, none, some, List, [], ◌∷◌, ok, arith, eq_iff, All,
}
use geoplane.Base.Dict.{Dict, get}
use geoplane.Tenancy.Entities.{AuthorizationContext}
use geoplane.Tenancy.Authorization.{can_access_client_organization}
use geoplane.Content.Opportunities.{
  HumanReviewDecision, HumanReviewStatus, approved, changes_requested, rejected, OpportunityFamily,
  OpportunityFamilyMember,
}
use geoplane.Pipeline.Tables
use geoplane.Pipeline.Tables.{Table}
use geoplane.Pipeline.Action.Add.{
  resume-ok, resume-Returns, add-new, add_sound, access_sound, access_complete,
}
use geoplane.Pipeline.Action.{
  Runtime, World, resume, ◌>>=◌, ◌>>◌, pure, reads, throw_when, assert_access, persist, now,
  next_id, emit_audit,
}
use geoplane.Pipeline.Services.Opportunities.{
  CreateOpportunityFamilyInput, is_approved, check_decision, check_members, refuse_family,
  create_family,
}

-- The stored decision by which a member enters the family: an approval, of the family's tenant and
-- project, of the member's opportunity.
pub record IsAuthorized (reviews : Dict HumanReviewDecision) (input : CreateOpportunityFamilyInput)
    (member : OpportunityFamilyMember) : Type 0 where
  pub decision : HumanReviewDecision
  pub stored : get member.authorizing_human_review_decision_id reviews ≡ some decision
  pub same_tenant : decision.client_organization_id ≡ input.client_organization_id
  pub same_project : decision.project_id ≡ input.project_id
  pub confirmed : decision.status ≡ approved
  pub same_opportunity : decision.opportunity_id ≡ member.opportunity_id

is_approved_iff : (status : HumanReviewStatus) → (is_approved status ≡ true) ↔ (status ≡ approved)
is_approved_iff approved = ((λ h. refl), λ h. refl)
is_approved_iff (changes_requested note) = ((λ h. ground arith), λ h. ground arith)
is_approved_iff (rejected note) = ((λ h. ground arith), λ h. ground arith)

check_decision_sound :
    (input : CreateOpportunityFamilyInput) (member : OpportunityFamilyMember) (w w' : World)
    (found : Option HumanReviewDecision)
    → get member.authorizing_human_review_decision_id w.stores.reviews ≡ found
    → check_decision input member found w ≡ (ok tt, w')
    → (w' ≡ w) × IsAuthorized w.stores.reviews input member
unfolding check_decision throw_when ◌>>◌ ◌>>=◌ resume
check_decision_sound input member w w' none e h = ground arith
check_decision_sound input member w w' (some d) e h = (
  ground arith,
  record {
    decision = d;
    stored = e;
    same_tenant = ground (arith, eq_iff d.client_organization_id input.client_organization_id);
    same_project = ground (arith, eq_iff d.project_id input.project_id);
    confirmed = ground (arith, is_approved_iff d.status);
    same_opportunity = ground (arith, eq_iff d.opportunity_id member.opportunity_id);
  },
)

check_decision_complete :
    (input : CreateOpportunityFamilyInput) (member : OpportunityFamilyMember) (w : World)
    (a : IsAuthorized w.stores.reviews input member)
    → check_decision input member (some a.decision) w ≡ (ok tt, w)
unfolding check_decision throw_when ◌>>◌ ◌>>=◌ resume
check_decision_complete input member w a = ground (
  arith,
  (eq_iff a.decision.client_organization_id input.client_organization_id).1 a.same_tenant,
  (eq_iff a.decision.project_id input.project_id).1 a.same_project,
  (is_approved_iff a.decision.status).1 a.confirmed,
  (eq_iff a.decision.opportunity_id member.opportunity_id).1 a.same_opportunity,
)

check_members_sound :
    (input : CreateOpportunityFamilyInput) (members : List OpportunityFamilyMember) (w w' : World)
    → check_members input members w ≡ (ok tt, w')
    → (w' ≡ w) × All (IsAuthorized w.stores.reviews input) members
unfolding check_members ◌>>◌ ◌>>=◌ resume reads pure
check_members_sound input [] w w' h = (ground arith, tt)
check_members_sound input (member ∷ members) w w' h =
    let found = get member.authorizing_human_review_decision_id w.stores.reviews in
    let (a, w1, first, then) =
      resume-ok (λ _. check_members input members) (check_decision input member found w) tt w' h in
    let (same, authorized) = check_decision_sound input member w w1 found refl first in
    let (rest_same, rest) = check_members_sound input members w1 w' then in
    (
      rest_same ∙ same,
      (authorized, subst (λ w. All (IsAuthorized w.stores.reviews input) members) same rest),
    )

check_members_complete :
    (input : CreateOpportunityFamilyInput) (members : List OpportunityFamilyMember) (w : World)
    → All (IsAuthorized w.stores.reviews input) members
    → check_members input members w ≡ (ok tt, w)
unfolding check_members ◌>>◌ ◌>>=◌ resume reads pure
check_members_complete input [] w h = refl
check_members_complete input (member ∷ members) w (a, rest) =
    rw (a.stored, check_decision_complete input member w a)
      (check_members_complete input members w rest)

-- The check of the members passes exactly when each of them names a stored decision that approves
-- its own opportunity, in the client organization and the project of the family; and it changes
-- nothing.
pub check_members_iff :
    (input : CreateOpportunityFamilyInput) (members : List OpportunityFamilyMember) (w w' : World)
    → (check_members input members w ≡ (ok tt, w'))
      ↔ ((w' ≡ w) × All (IsAuthorized w.stores.reviews input) members)
check_members_iff input members w w' = (
  check_members_sound input members w w',
  λ h. rw (h.0) (check_members_complete input members w h.1),
)

-- No text stands twice.
pub Distinct : List String → Type 0
Distinct [] = Unit
Distinct (x ∷ xs) = (¬ Memᴰ x xs) × Distinct xs

repeats_sound : (xs : List String) → repeats xs ≡ false → Distinct xs
unfolding Distinct
repeats_sound [] h = tt
repeats_sound (x ∷ xs) h =
    ((λ m. absurd (ground (arith, (includes_iff xs x).1 m))), repeats_sound xs (ground arith))

repeats_complete : (xs : List String) → Distinct xs → repeats xs ≡ false
unfolding Distinct
repeats_complete [] h = refl
repeats_complete (x ∷ xs) h = elim (Bool-cases (includes xs x)) [
  | inl old ↦ absurd (h.0 ((includes_iff xs x).0 old))
  | inr new ↦ ground (arith, new, repeats_complete xs h.1)
]

-- What the repository asks of the members: there is one, and none has the opportunity of another.
pub IsFamily : List OpportunityFamilyMember → Type 0
IsFamily members = (members ≢ []) × Distinct (map (λ member. member.opportunity_id) members)

refuse_family_sound :
    (members : List OpportunityFamilyMember) (id : String) (w w' : World)
    → refuse_family members id w ≡ (ok tt, w')
    → (w' ≡ w) × IsFamily members
unfolding refuse_family throw_when ◌>>◌ ◌>>=◌ resume IsFamily
refuse_family_sound members id w w' h =
    let new : repeats (map (λ member. member.opportunity_id) members) ≡ false = ground arith in
    (ground arith, ((λ e. absurd (ground (arith, e))), repeats_sound _ new))

some_member : (members : List OpportunityFamilyMember) → members ≢ [] → is_empty members ≡ false
some_member [] h = absurd (h refl)
some_member (member ∷ members) h = refl

refuse_family_complete :
    (members : List OpportunityFamilyMember) (id : String) (w : World)
    → IsFamily members
    → refuse_family members id w ≡ (ok tt, w)
unfolding refuse_family throw_when ◌>>◌ ◌>>=◌ resume IsFamily
refuse_family_complete members id w h = rw (some_member members h.0, repeats_complete _ h.1) refl

module _ (rt : Runtime) (actor : AuthorizationContext) where
  create_family_sound :
      (input : CreateOpportunityFamilyInput) (w w' : World) (family : OpportunityFamily)
      → create_family rt actor input w ≡ (ok family, w')
      → (can_access_client_organization actor input.client_organization_id ≡ true)
        × All (IsAuthorized w.stores.reviews input) input.members
        × IsFamily input.members
        × (get (rt.id_at w.issued) w.stores.families ≡ none)
  unfolding create_family ◌>>◌ ◌>>=◌ now next_id resume persist
  create_family_sound input w w' family h =
      let (a, w1, checked, then) =
        resume-ok _ (assert_access actor input.client_organization_id w) family w' h in
      let (allowed, same) = access_sound actor input.client_organization_id w w1 checked in
      let (b, w2, verified, last) =
        resume-ok _ (check_members input input.members w1) family w' then in
      let (same_again, authorized) = check_members_sound input input.members w1 w2 verified in
      let (c, w3, taken, write) = resume-ok _ _ family w' last in
      let (as_read, is_family) = refuse_family_sound input.members _ _ w3 taken in
      let (d, w4, added, end) = resume-ok _ _ family w' write in
      let free = add_sound Tables.families _ _ _ _ added in
      let fresh = rw as_read at free in
      (
        allowed,
        subst (λ w. All (IsAuthorized w.stores.reviews input) input.members) same authorized,
        is_family,
        subst (λ w. get (rt.id_at w.issued) w.stores.families ≡ none) (same_again ∙ same) fresh,
      )

  create_family_complete :
      (input : CreateOpportunityFamilyInput) (w : World)
      → (can_access_client_organization actor input.client_organization_id ≡ true)
        × All (IsAuthorized w.stores.reviews input) input.members
        × IsFamily input.members
        × (get (rt.id_at w.issued) w.stores.families ≡ none)
      → (family : OpportunityFamily) × (w' : World) × (create_family rt actor input w
          ≡ (ok family, w'))
  unfolding create_family ◌>>◌ ◌>>=◌ now next_id resume persist pure emit_audit
  create_family_complete input w h =
      let f1 = access_complete actor input.client_organization_id w h.0 in
      let f2 = check_members_complete input input.members w h.1 in
      resume-Returns _ _ _ _ f1 (
        resume-Returns _ _ _ _ f2 (
          resume-Returns _ _ _ _ (refuse_family_complete input.members _ _ h.2) (
            resume-Returns _ _ _ _
              (add-new Tables.families (rt.id_at w.issued) _
                (record w { ticks = suc w.ticks; issued = suc w.issued }) h.3)
              (_, _, refl))))

  -- A family is created exactly when the actor may access the client organization, every member is
  -- authorized by a stored approval, there is a member, no two members have the same opportunity
  -- and the next id is not in use.
  pub create_family_iff :
      (input : CreateOpportunityFamilyInput) (w : World)
      → ((family : OpportunityFamily) × (w' : World) × (create_family rt actor input w
            ≡ (ok family, w')))
        ↔ ((can_access_client_organization actor input.client_organization_id ≡ true)
            × All (IsAuthorized w.stores.reviews input) input.members
            × IsFamily input.members
            × (get (rt.id_at w.issued) w.stores.families ≡ none))
  create_family_iff input w =
      ((λ h. create_family_sound input w h.1 h.0 h.2), create_family_complete input w)
