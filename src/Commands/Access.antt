-- ===== src/Commands/Access.antt =====
-- runtime/commands/geo-command-runtime.ts: the tenant check of a route and the context that the
-- services check again.
pub mod Agreement
use geoplane.Base.{
  String, Bool, true, false, Option, none, some, List, [], get_or, includes, is_text, if◌then◌else◌,
}
use geoplane.Tenancy.Entities.{
  PlatformRole, platform_super_admin, OrganizationType, AuthorizationContext,
}
use geoplane.Auth.Accounts.{AuthenticatedSession, is_agency_role}

abbrev pub is_client_type : OrganizationType → Bool
is_client_type OrganizationType.client = true
is_client_type _ = false

abbrev pub is_super_admin : PlatformRole → Bool
is_super_admin platform_super_admin = true
is_super_admin _ = false

unfoldable pub client_org_of : AuthenticatedSession → Option String
client_org_of session =
    if is_client_type session.organization_type
    then some (get_or session.active_client_organization_id session.organization_id)
    else session.active_client_organization_id

unfoldable pub build_geo_authorization_context : AuthenticatedSession → AuthorizationContext
unfolding client_org_of
build_geo_authorization_context session = record {
  actor_user_id = session.user_id;
  actor_role = session.role;
  organization_id = session.organization_id;
  organization_type = session.organization_type;
  active_project_id = none;
  active_client_organization_id = client_org_of session;
  assigned_client_organization_ids = session.assigned_client_organization_ids;
  allowed_client_organization_ids = session.assigned_client_organization_ids;
  is_platform_admin = is_super_admin session.role;
  permissions = [];
}

unfoldable pub session_can_access_client_organization :
    AuthenticatedSession → (client_organization_id : String) → Bool
unfolding client_org_of
session_can_access_client_organization session client_organization_id =
    if is_super_admin session.role
    then true
    else if is_client_type session.organization_type
    then is_text (client_org_of session) client_organization_id
    else if is_agency_role session.role
    then includes session.assigned_client_organization_ids client_organization_id
    else false
