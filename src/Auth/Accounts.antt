-- ===== src/Auth/Accounts.antt =====
-- runtime/auth/auth-service.ts: the principal of a request, the views and the service's helpers.
use geoplane.Base.{ℕ, String, Bool, true, false, Option, none, some, List, []}
use geoplane.Tenancy.Entities.{
  PlatformRole, platform_super_admin, agency_owner, agency_operator, client_owner, OrganizationType,
  Organization, AuthorizationContext, Metadata,
}
use geoplane.Auth.Cookie.{SurfacePrefix, app, agency, ops, allowed_surface_for_role}

pub record AuthenticatedSession : Type 0 where
  pub session_id : String
  pub user_id : String
  pub email : String
  pub display_name : Option String
  pub role : PlatformRole
  pub organization_id : String
  pub organization_type : OrganizationType
  pub active_client_organization_id : Option String
  pub assigned_client_organization_ids : List String
  pub acting_client_organization_id : Option String

pub record AuthenticatedUser : Type 0 where
  pub id : String
  pub email : String
  pub display_name : Option String

pub data WorkspaceSurface : Type 0 where
  client_surface agency_surface ops_surface : WorkspaceSurface

pub record AccountView : Type 0 where
  pub user_id : String
  pub email : String
  pub display_name : Option String
  pub role : PlatformRole
  pub surface : WorkspaceSurface
  pub organization_id : String
  pub organization_name : String
  pub organization_type : OrganizationType
  pub active_client_organization_id : Option String

pub record ProjectView : Type 0 where
  pub id : String
  pub name : String
  pub client_organization_id : String
  pub client_organization_name : String
  pub created_at : String

pub record AgencyClientPortfolioItem : Type 0 where
  pub client_organization_id : String
  pub client_organization_name : String
  pub project_count : ℕ
  pub open_review_count : ℕ

pub record AgencyClientPortfolioView : Type 0 where
  pub agency_organization_id : String
  pub agency_organization_name : String
  pub clients : List AgencyClientPortfolioItem

pub record AgencyActingContext : Type 0 where
  pub agency_organization_id : String
  pub agency_organization_name : String
  pub acting_client_organization_id : String
  pub acting_client_organization_name : String
  pub surface : WorkspaceSurface

pub data Outcome : Type 0 where
  allowed denied : Outcome

pub record AuditIntent : Type 0 where
  pub action : String
  pub outcome : Outcome
  pub actor_user_id : String
  pub actor_organization_id : String
  pub client_organization_id : Option String
  pub project_id : Option String
  pub target_type : Option String
  pub target_id : Option String
  pub metadata : Option Metadata

unfoldable pub is_agency_role : PlatformRole → Bool
is_agency_role agency_owner = true
is_agency_role agency_operator = true
is_agency_role _ = false

abbrev pub surface_of_prefix : SurfacePrefix → WorkspaceSurface
surface_of_prefix app = client_surface
surface_of_prefix agency = agency_surface
surface_of_prefix ops = ops_surface

unfoldable pub surface_for_role : PlatformRole → WorkspaceSurface
unfolding allowed_surface_for_role
surface_for_role role = surface_of_prefix (allowed_surface_for_role role)

unfoldable pub pinned_client_organization_id :
    PlatformRole → (organization_id : String) → Option String
pinned_client_organization_id client_owner organization_id = some organization_id
pinned_client_organization_id _ organization_id = none

unfoldable pub build_account_view : AuthenticatedUser → PlatformRole → Organization → AccountView
unfolding surface_for_role pinned_client_organization_id
build_account_view user role org = record {
  user_id = user.id;
  email = user.email;
  display_name = user.display_name;
  role = role;
  surface = surface_for_role role;
  organization_id = org.id;
  organization_name = org.display_name;
  organization_type = org.type;
  active_client_organization_id = pinned_client_organization_id role org.id;
}

abbrev is_super_admin : PlatformRole → Bool
is_super_admin platform_super_admin = true
is_super_admin _ = false

abbrev pub only_client_owner : PlatformRole → Option String → Option String
only_client_owner client_owner pinned = pinned
only_client_owner _ pinned = none

unfoldable pub context_from_session : AuthenticatedSession → AuthorizationContext
context_from_session session = record {
  actor_user_id = session.user_id;
  actor_role = session.role;
  organization_id = session.organization_id;
  organization_type = session.organization_type;
  active_project_id = none;
  active_client_organization_id =
      only_client_owner session.role session.active_client_organization_id;
  assigned_client_organization_ids = session.assigned_client_organization_ids;
  allowed_client_organization_ids = session.assigned_client_organization_ids;
  is_platform_admin = is_super_admin session.role;
  permissions = [];
}

unfoldable pub denied_audit :
    (action : String)
    → AuthenticatedSession
    → (client_organization_id project_id target_type target_id : Option String) → AuditIntent
denied_audit action session client_organization_id project_id target_type target_id = record {
  action = action;
  outcome = denied;
  actor_user_id = session.user_id;
  actor_organization_id = session.organization_id;
  client_organization_id = client_organization_id;
  project_id = project_id;
  target_type = target_type;
  target_id = target_id;
  metadata = none;
}
