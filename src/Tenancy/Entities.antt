-- ===== src/Tenancy/Entities.antt =====
-- contracts/tenancy/entities.ts: the records of the tenancy model. A time is the text that
-- `toISOString` writes; `null` is `none`.
use geoplane.Base.{ℕ, String, Option, List, Bool}

pub data OrganizationType : Type 0 where
  platform agency client : OrganizationType

pub data OrganizationStatus : Type 0 where
  active suspended archived : OrganizationStatus

pub data PlatformRole : Type 0 where
  platform_super_admin agency_owner agency_operator client_owner : PlatformRole

pub data MembershipStatus : Type 0 where
  active suspended removed : MembershipStatus

pub data InvitationStatus : Type 0 where
  pending accepted revoked expired : InvitationStatus

pub record Organization : Type 0 where
  pub id : String
  pub type : OrganizationType
  pub display_name : String
  pub status : OrganizationStatus
  pub idempotency_key : String
  pub source_namespace : Option String
  pub external_reference : Option String
  pub created_at : String
  pub created_by_user_id : String

pub record Membership : Type 0 where
  pub id : String
  pub user_id : String
  pub organization_id : String
  pub role : PlatformRole
  pub status : MembershipStatus
  pub created_at : String

pub record Project : Type 0 where
  pub id : String
  pub client_organization_id : String
  pub name : String
  pub created_at : String
  pub created_by_user_id : String

pub record Invitation : Type 0 where
  pub id : String
  pub organization_id : String
  pub invited_email : String
  pub role : PlatformRole
  pub status : InvitationStatus
  pub token_hash : String
  pub created_by_user_id : String
  pub created_at : String
  pub expires_at : String
  pub revoked_at : Option String
  pub revoked_by_user_id : Option String

pub record Session : Type 0 where
  pub id : String
  pub user_id : String
  pub membership_id : String
  pub organization_id : String
  pub role : PlatformRole
  pub active_client_organization_id : Option String
  pub active_project_id : Option String
  pub session_version : ℕ
  pub created_at : String
  pub expires_at : String
  pub revoked_at : Option String

pub record AuthorizationContext : Type 0 where
  pub actor_user_id : String
  pub actor_role : PlatformRole
  pub organization_id : String
  pub organization_type : OrganizationType
  pub active_project_id : Option String
  pub active_client_organization_id : Option String
  pub assigned_client_organization_ids : List String
  pub allowed_client_organization_ids : List String
  pub is_platform_admin : Bool
  pub permissions : List String

-- The metadata that the program records are objects whose values are texts.
abbrev pub Metadata : Type 0
Metadata = List (String × String)

pub record AuditEvent : Type 0 where
  pub id : String
  pub organization_id : String
  pub actor_user_id : String
  pub actor_organization_id : String
  pub client_organization_id : Option String
  pub project_id : Option String
  pub action : String
  pub target_type : Option String
  pub target_id : Option String
  pub metadata : Option Metadata
  pub event_hash : String
  pub created_at : String

-- the literals of `PlatformRole` and `OrganizationType`
abbrev pub role_text : PlatformRole → String
role_text platform_super_admin = "PLATFORM_SUPER_ADMIN"
role_text agency_owner = "AGENCY_OWNER"
role_text agency_operator = "AGENCY_OPERATOR"
role_text client_owner = "CLIENT_OWNER"

abbrev pub organization_type_text : OrganizationType → String
organization_type_text OrganizationType.platform = "PLATFORM"
organization_type_text OrganizationType.agency = "AGENCY"
organization_type_text OrganizationType.client = "CLIENT"
