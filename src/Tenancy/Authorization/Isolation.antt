-- ===== src/Tenancy/Authorization/Isolation.antt =====
-- Who reaches which client organization: the checks of authorization.ts against their rule.
use geoplane.Base.{
  String, true, ◌≡◌, refl, ◌↔◌, inl, inr, some, arith, eq_refl, includes_iff, is_text-eq_some,
  Bool-cases, Memᴰ,
}
use geoplane.Tenancy.Entities.{
  PlatformRole, platform_super_admin, agency_owner, agency_operator, client_owner,
  AuthorizationContext,
}
use geoplane.Tenancy.Authorization.{role_can_access, can_access_client_organization}

-- The rule, role by role: an administrator reaches every organization, a client owner the one
-- that is pinned to the context, an agency member those of the allow-list.
pub data MayAccess (ctx : AuthorizationContext) (target : String) : Type 0 where
  admin_flag : ctx.is_platform_admin ≡ true → MayAccess ctx target
  admin_role : ctx.actor_role ≡ platform_super_admin → MayAccess ctx target
  pinned :
      ctx.actor_role ≡ client_owner
      → ctx.active_client_organization_id ≡ some target
      → MayAccess ctx target
  assigned_owner :
      ctx.actor_role ≡ agency_owner
      → Memᴰ target ctx.allowed_client_organization_ids
      → MayAccess ctx target
  assigned_operator :
      ctx.actor_role ≡ agency_operator
      → Memᴰ target ctx.allowed_client_organization_ids
      → MayAccess ctx target

role_sound :
    (ctx : AuthorizationContext) (target : String) (role : PlatformRole)
    → ctx.actor_role ≡ role
    → role_can_access role ctx target ≡ true
    → MayAccess ctx target
unfolding role_can_access
role_sound ctx target platform_super_admin e h = admin_role e
role_sound ctx target client_owner e h = pinned e (is_text-eq_some _ target h)
role_sound ctx target agency_owner e h = assigned_owner e ((includes_iff _ target).0 h)
role_sound ctx target agency_operator e h = assigned_operator e ((includes_iff _ target).0 h)

access_sound :
    (ctx : AuthorizationContext) (target : String)
    → can_access_client_organization ctx target ≡ true
    → MayAccess ctx target
unfolding can_access_client_organization
access_sound ctx target h = elim (Bool-cases ctx.is_platform_admin) [
  | inl flag ↦ admin_flag flag
  | inr plain ↦ role_sound ctx target ctx.actor_role refl (ground arith)
]

access_complete :
    (ctx : AuthorizationContext) (target : String)
    → MayAccess ctx target
    → can_access_client_organization ctx target ≡ true
unfolding can_access_client_organization
access_complete ctx target (admin_flag e) = ground arith
access_complete ctx target (admin_role e) = ground arith
access_complete ctx target (pinned e p) = ground (arith, eq_refl target)
access_complete ctx target (assigned_owner e m) = ground (arith, (includes_iff _ target).1 m)
access_complete ctx target (assigned_operator e m) = ground (arith, (includes_iff _ target).1 m)

-- The access test passes exactly for the actors that the rule lets through: an administrator by
-- flag or by role, a client owner at the organization pinned to the context, an agency member at
-- an organization of the allow-list.
pub can_access_iff :
    (ctx : AuthorizationContext) (target : String)
    → (can_access_client_organization ctx target ≡ true) ↔ MayAccess ctx target
can_access_iff ctx target = (access_sound ctx target, access_complete ctx target)
