-- ===== src/Tenancy/Authorization.antt =====
-- contracts/tenancy/authorization.ts: which client organizations an actor may touch.
pub mod Isolation
use geoplane.Base.{
  String, Bool, true, false, ◌||◌, not, Option, none, some, Result, ok, err, throw_if, includes,
  is_text, if◌then◌else◌,
}
use geoplane.Tenancy.Entities.{
  PlatformRole, platform_super_admin, agency_owner, agency_operator, client_owner,
  AuthorizationContext,
}

-- What an `AuthorizationDeniedError` carries.
pub record AuthorizationDenied : Type 0 where
  pub actor_user_id : String
  pub actor_role : PlatformRole
  pub target_client_organization_id : String

unfoldable pub denied : AuthorizationContext → String → AuthorizationDenied
denied ctx target = record {
  actor_user_id = ctx.actor_user_id;
  actor_role = ctx.actor_role;
  target_client_organization_id = target;
}

-- the `switch` on the role
unfoldable pub role_can_access : PlatformRole → AuthorizationContext → String → Bool
role_can_access platform_super_admin ctx target = true
role_can_access client_owner ctx target = is_text ctx.active_client_organization_id target
role_can_access agency_owner ctx target = includes ctx.allowed_client_organization_ids target
role_can_access agency_operator ctx target = includes ctx.allowed_client_organization_ids target

unfoldable pub can_access_client_organization : AuthorizationContext → String → Bool
unfolding role_can_access
can_access_client_organization ctx target =
    if ctx.is_platform_admin then true else role_can_access ctx.actor_role ctx target

unfoldable pub assert_can_access_client_organization :
    AuthorizationContext → String → Result AuthorizationDenied (Unit {0})
assert_can_access_client_organization ctx target =
    throw_if (not (can_access_client_organization ctx target)) (denied ctx target)

abbrev is_super_admin : PlatformRole → Bool
is_super_admin platform_super_admin = true
is_super_admin _ = false

unfoldable pub is_platform_admin : AuthorizationContext → Bool
is_platform_admin ctx = ctx.is_platform_admin || is_super_admin ctx.actor_role

unfoldable pub assert_is_platform_admin :
    AuthorizationContext → Result AuthorizationDenied (Unit {0})
assert_is_platform_admin ctx =
    throw_if (not (is_platform_admin ctx)) (denied ctx "<platform-scope>")
