-- ===== src/Tenancy/Repository/Memberships.antt =====
-- `createMembership` in a repository that any calls have led to: a user's ACTIVE memberships in
-- CLIENT organizations are all in one organization.
use geoplane.Base.{
  String, Bool, true, false, ◌&&◌, ◌≡◌, refl, ◌≢◌, inl, inr, none, some, err, arith, eq_iff, get_or,
  Option-cases, if◌then◌else◌,
}
use geoplane.Base.Dict.{get}
use geoplane.Base.Host.{Host}
use geoplane.Tenancy.Entities.{OrganizationType, MembershipStatus, Organization, Membership}
use geoplane.Tenancy.Repository.{
  Repository, CreateOrganizationInput, CreateMembershipInput, empty, membership_conflict, is_client,
  is_active, conflict, admit_membership, new_organization, new_membership, create_organization,
  create_membership, issue_and_record_invitation, revoke_and_record_invitation, record_audit,
}
use geoplane.Tenancy.Repository.Steps.{Step, Reach, here, next}
use geoplane.Tenancy.Repository.Invariant.{
  IsConsistent, IsClientSeat, empty-IsConsistent, with_organization-IsConsistent,
  store_membership-IsConsistent,
}

admit_membership-IsConsistent :
    (m : Membership) (o : Organization) (r : Repository)
    → get m.id r.memberships_by_id ≡ none
    → get m.organization_id r.organizations_by_id ≡ some o
    → (exclusive : Bool) → is_active m.status && is_client o.type ≡ exclusive
    → IsConsistent r
    → IsConsistent
        (admit_membership m exclusive
          (if exclusive then conflict m.user_id m.organization_id r else none)
          r).1
unfolding admit_membership
admit_membership-IsConsistent m o r fresh home false closed c =
    store_membership-IsConsistent m o r fresh home false (λ e. absurd (ground arith)) (λ _. closed)
      c
admit_membership-IsConsistent m o r fresh home true closed c =
    elim (Option-cases (conflict m.user_id m.organization_id r)) [
      | inl free ↦
          rw (free, admit_membership)
            (store_membership-IsConsistent m o r fresh home true (λ _. free)
              (λ e. absurd (ground arith)) c)
      | inr (other, taken) ↦ rw (taken, admit_membership) c
    ]

module _ (host : Host) where
  pub create_organization-IsConsistent :
      (uuid : String) (input : CreateOrganizationInput) (r : Repository)
      → get (get_or input.id uuid) r.organizations_by_id ≡ none
      → IsConsistent r
      → IsConsistent (create_organization host uuid input r).1
  unfolding create_organization
  create_organization-IsConsistent uuid input r fresh c =
      elim (Option-cases (get input.idempotency_key r.organization_id_by_idempotency_key)) [
        | inl new_key ↦
            rw (new_key, create_organization)
              (with_organization-IsConsistent (new_organization host uuid input) r fresh _ c)
        | inr (old_id, e) ↦ elim (Option-cases (get old_id r.organizations_by_id)) [
          | inl gone ↦ rw (e, gone, create_organization) c
          | inr (o, found) ↦ rw (e, found, create_organization) c
        ]
      ]

  pub create_membership-IsConsistent :
      (uuid : String) (input : CreateMembershipInput) (r : Repository)
      → get (get_or input.id uuid) r.memberships_by_id ≡ none
      → IsConsistent r
      → IsConsistent (create_membership host uuid input r).1
  unfolding create_membership
  create_membership-IsConsistent uuid input r fresh c =
      elim (Option-cases (get input.organization_id r.organizations_by_id)) [
        | inl missing ↦ rw (missing, create_membership) c
        | inr (o, home) ↦
            rw (home, create_membership)
              (admit_membership-IsConsistent (new_membership host uuid input) o r fresh home _ refl
                c)
      ]

-- The methods for invitations and audit leave organizations, memberships and the index alone.
keep-IsConsistent :
    (r s : Repository)
    → s.organizations_by_id ≡ r.organizations_by_id
    → s.memberships_by_id ≡ r.memberships_by_id
    → s.active_client_membership_by_user ≡ r.active_client_membership_by_user
    → IsConsistent r
    → IsConsistent s
keep-IsConsistent r s o m a c = record {
  homed = λ id n h. rw o (c.homed id n (rw m at h));
  indexed = λ id n seat.
      let old = c.indexed id n (record {
        stored = rw m at (seat.stored);
        live = seat.live;
        organization = seat.organization;
        known = rw o at (seat.known);
        of_client = seat.of_client;
      }) in
      record {
        entry_id = old.entry_id;
        entry = old.entry;
        at = rw a old.at;
        found = rw m old.found;
        same = old.same;
      };
}

module _ (host : Host) where
  pub Step-IsConsistent : {r s : Repository} → Step host r s → IsConsistent r → IsConsistent s
  unfolding issue_and_record_invitation revoke_and_record_invitation record_audit
  Step-IsConsistent {r} (Step.organization uuid input fresh) c =
      create_organization-IsConsistent host uuid input r fresh c
  Step-IsConsistent {r} (Step.membership uuid input fresh) c =
      create_membership-IsConsistent host uuid input r fresh c
  Step-IsConsistent {r} (Step.invite token uuid audit_uuid input) c =
      keep-IsConsistent r _ refl refl refl c
  Step-IsConsistent {r} (Step.revoke audit_uuid args) c =
      keep-IsConsistent r _ (ground arith) (ground arith) (ground arith) c
  Step-IsConsistent {r} (Step.audit uuid input) c = keep-IsConsistent r _ refl refl refl c

  pub Reach-IsConsistent : {r : Repository} → Reach host empty r → IsConsistent r
  Reach-IsConsistent here = empty-IsConsistent
  Reach-IsConsistent (next before step) = Step-IsConsistent step (Reach-IsConsistent before)

  -- After any calls that take ids not in use, two ACTIVE memberships of one user in CLIENT
  -- organizations are in the same organization.
  pub one_client_organization :
      {r : Repository} (id id' : String) (m m' : Membership)
      → Reach host empty r
      → IsClientSeat r id m
      → IsClientSeat r id' m'
      → m.user_id ≡ m'.user_id
      → m.organization_id ≡ m'.organization_id
  one_client_organization id id' m m' reach seat seat' same =
      let c = Reach-IsConsistent reach in
      let x = c.indexed id m seat in let y = c.indexed id' m' seat' in ground arith

  -- In a repository that is reached by calls that take ids not in use, a user who holds an ACTIVE
  -- membership in a CLIENT organization gets no ACTIVE one in another known CLIENT organization:
  -- the call throws a conflict that names both organizations, and changes nothing.
  pub create_membership_conflict :
      (uuid : String) (input : CreateMembershipInput) {r : Repository} (id : String)
      (m : Membership) (wanted : Organization)
      → Reach host empty r
      → IsClientSeat r id m
      → m.user_id ≡ input.user_id
      → m.organization_id ≢ input.organization_id
      → get_or input.status MembershipStatus.active ≡ MembershipStatus.active
      → get input.organization_id r.organizations_by_id ≡ some wanted
      → wanted.type ≡ OrganizationType.client
      → create_membership host uuid input r
        ≡ (err (membership_conflict input.user_id m.organization_id input.organization_id), r)
  unfolding create_membership
  create_membership_conflict uuid input {r} id m wanted reach seat same other live known client =
      let x = (Reach-IsConsistent reach).indexed id m seat in
      ground (arith, eq_iff x.entry.organization_id input.organization_id)
