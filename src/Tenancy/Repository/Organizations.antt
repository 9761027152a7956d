-- ===== src/Tenancy/Repository/Organizations.antt =====
-- `createOrganization` and `listOrganizations`.
use geoplane.Base.{
  String, true, false, ◌≡◌, refl, ◌≢◌, ◌↔◌, ◌⊎◌, inl, inr, ok, Memᴰ, mem-filter_iff, arith, eq_refl,
  eq_iff, some, get_or, Bool-cases, Option-cases,
}
use geoplane.Base.Dict.{get, values, get-set}
use geoplane.Base.Host.{Host}
use geoplane.Tenancy.Entities.{OrganizationType, Organization, AuthorizationContext}
use geoplane.Tenancy.Authorization.{is_platform_admin}
use geoplane.Tenancy.Authorization.Isolation.{MayAccess, can_access_iff}
use geoplane.Tenancy.Repository.{
  CreateOrganizationInput, Repository, create_organization, list_organizations, visible,
  new_organization, create_membership, admit_membership, store_membership,
  issue_and_record_invitation, revoke_and_record_invitation, record_audit,
}
use geoplane.Tenancy.Repository.Steps.{Step, Reach, here, next}

-- The organization to which an idempotency key leads.
record IsKeyed (key : String) (organization : Organization) (r : Repository) : Type 0 where
  id : String
  keyed : get key r.organization_id_by_idempotency_key ≡ some id
  stored : get id r.organizations_by_id ≡ some organization

module _ (host : Host) where
  create_organization-IsKeyed :
      (uuid : String) (input : CreateOrganizationInput) (r : Repository)
      {organization : Organization}
      → (create_organization host uuid input r).0 ≡ ok organization
      → IsKeyed input.idempotency_key organization (create_organization host uuid input r).1
  unfolding create_organization
  create_organization-IsKeyed uuid input r {organization} h =
      let known = get input.idempotency_key r.organization_id_by_idempotency_key in
      elim (Option-cases known) [
        | inl new ↦ record {
          id = get_or input.id uuid;
          keyed = grind (arith, get-set, eq_refl);
          stored = grind (arith, get-set, eq_refl);
        }
        | inr (id, old) ↦ record { id = id; keyed = ground arith; stored = ground arith }
      ]

  Step-IsKeyed :
      {key : String} {organization : Organization} {r s : Repository}
      → Step host r s
      → IsKeyed key organization r
      → IsKeyed key organization s
  unfolding create_organization create_membership admit_membership store_membership
      issue_and_record_invitation revoke_and_record_invitation record_audit
  Step-IsKeyed {key} {r = r} (Step.organization uuid input fresh) k =
      let made = get_or input.id uuid in
      record {
        id = k.id;
        keyed = ground (
          arith,
          k.keyed,
          get-set input.idempotency_key key made r.organization_id_by_idempotency_key,
          eq_iff input.idempotency_key key,
        );
        stored = ground (
          arith,
          k.stored,
          get-set made k.id (new_organization host uuid input) r.organizations_by_id,
          eq_iff made k.id,
        );
      }
  Step-IsKeyed (Step.membership uuid input fresh) k = record {
    id = k.id;
    keyed = ground (arith, k.keyed);
    stored = ground (arith, k.stored);
  }
  Step-IsKeyed (Step.invite token uuid audit_uuid input) k = record {
    id = k.id;
    keyed = k.keyed;
    stored = k.stored;
  }
  Step-IsKeyed (Step.revoke audit_uuid args) k = record {
    id = k.id;
    keyed = ground (arith, k.keyed);
    stored = ground (arith, k.stored);
  }
  Step-IsKeyed (Step.audit uuid input) k = record { id = k.id; keyed = k.keyed; stored = k.stored }

  Reach-IsKeyed :
      {key : String} {organization : Organization} {r s : Repository}
      → Reach host r s
      → IsKeyed key organization r
      → IsKeyed key organization s
  Reach-IsKeyed here k = k
  Reach-IsKeyed (next before step) k = Step-IsKeyed step (Reach-IsKeyed before k)

  -- After a request has returned an organization, and then any calls that take ids not in use, a
  -- request with the same idempotency key returns that very organization and changes nothing,
  -- whatever else it asks for.
  pub create_organization_idempotent :
      (uuid again_uuid : String) (input again : CreateOrganizationInput) (r : Repository)
      {organization : Organization} {s : Repository}
      → (create_organization host uuid input r).0 ≡ ok organization
      → Reach host (create_organization host uuid input r).1 s
      → again.idempotency_key ≡ input.idempotency_key
      → create_organization host again_uuid again s ≡ (ok organization, s)
  unfolding create_organization
  create_organization_idempotent uuid again_uuid input again r {s = s} h later same =
      let k = Reach-IsKeyed later (create_organization-IsKeyed uuid input r h) in
      let keyed : get again.idempotency_key s.organization_id_by_idempotency_key ≡ some k.id =
        rw (same) k.keyed in
      ground (arith, keyed, k.stored)

visible_iff :
    (ctx : AuthorizationContext) (organization : Organization)
    → (visible ctx organization ≡ true)
      ↔ ((organization.type ≢ OrganizationType.platform) × MayAccess ctx organization.id)
unfolding visible
visible_iff ctx organization =
    let (sound, complete) = can_access_iff ctx organization.id in
    ((λ h. (ground arith, sound (ground arith))), λ h. ground (arith, complete h.1))

-- A platform administrator sees every organization. Anyone else sees exactly the organizations
-- that are not of the platform's type and that the access rule lets the actor reach.
pub mem-list_organizations_iff :
    (ctx : AuthorizationContext) (r : Repository) (organization : Organization)
    → Memᴰ organization (list_organizations ctx r) ↔ (
        Memᴰ organization (values r.organizations_by_id)
        × ((is_platform_admin ctx ≡ true)
            ⊎ ((organization.type ≢ OrganizationType.platform) × MayAccess ctx organization.id)))
unfolding list_organizations visible
mem-list_organizations_iff ctx r organization =
    let (from, to) = mem-filter_iff (visible ctx) (values r.organizations_by_id) organization in
    let (seen, shown) = visible_iff ctx organization in
    elim (Bool-cases (is_platform_admin ctx)) [
      | inl admin ↦ rw admin (λ m. (m, inl refl), λ h. h.0)
      | inr plain ↦
          rw plain
            (λ m. let (old, v) = from m in (old, inr (seen v)), λ h. to (h.0, shown (pick h.1)))
    ]
  where
    pick : {A : Type 0} → (false ≡ true) ⊎ A → A
    pick (inl e) = absurd (ground arith)
    pick (inr a) = a
