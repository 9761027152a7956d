-- ===== src/Auth/Runtime.antt =====
-- runtime/auth/runtime-context.ts: the adapters behind the service's ports, the resolution of a
-- cookie to a principal, and the audit trail of the intents. The repositories other than the
-- sessions' are functions of the state of the database.
pub mod Resolution
pub mod Logins
pub mod Entry
use geoplane.Base.{
  ℕ, ◌+◌, ◌*◌, String, Bool, true, false, not, ◌==◌, Option, none, some, List, [], ◌∷◌, ◌++◌, map,
  Result, ok, err, get_or, ltb, is_none, if◌then◌else◌,
}
use geoplane.Base.Text.{trim, is_empty_text}
use geoplane.Base.Split.{split_on, break_at}
use geoplane.Base.Dict.{set}
use geoplane.Base.Host.{Host}
use geoplane.Base.Codec.{Codec}
use geoplane.Tenancy.Entities.{
  PlatformRole, platform_super_admin, agency_owner, agency_operator, client_owner, Session,
  Organization, Invitation, Membership, Project, AuditEvent, Metadata,
}
use geoplane.Tenancy.Sessions.{SessionError, is_session_valid}
use geoplane.Tenancy.Audit.{record_audit_event}
use geoplane.Auth.Keys.{Environment, KeyState, KeyError}
use geoplane.Auth.Cookie.{
  SurfacePrefix, app, agency, ops, DecodedSessionCookie, session_cookie_name,
  allowed_surface_for_role, decode_session_cookie_with_meta,
}
use geoplane.Auth.Ports.{AgencyAssignedClient, Readers}
use geoplane.Auth.Accounts.{
  AuthenticatedSession, AuditIntent, Outcome, allowed, denied, is_agency_role,
}
use geoplane.Auth.Table.{SessionRow, map_row, load_latest_row, current_membership_version}

abbrev pub session_idle_ttl_ms : ℕ
session_idle_ttl_ms = 30 * 60 * 1000

pub record Repositories : Type 0 where
  pub find_invitation_by_token_hash : String → Option Invitation
  pub list_active_by_user : String → List Membership
  pub find_organization : String → Option Organization
  pub list_active_client_ids : String → List String
  pub is_authorized : (agency client : String) → Bool
  pub find_project : String → Option Project
  pub list_projects_for_client : String → List Project
  -- `SELECT email FROM "user" WHERE id = $1`
  pub user_email : String → Option String

-- the class `RepoAgencyClientReader`: a client without an organization is passed over
unfoldable pub name_clients :
    (String → Option Organization) → List String → List AgencyAssignedClient
name_clients find_organization [] = []
name_clients find_organization (client ∷ clients) =
    let rest = name_clients find_organization clients in
    elim (find_organization client) [
      | none ↦ rest
      | some org ↦
          record {
            client_organization_id = client;
            client_organization_name = org.display_name;
            open_review_count = 0;
          }
          ∷ rest
    ]

unfoldable pub build_auth_service_deps : Repositories → Readers
unfolding name_clients
build_auth_service_deps repos = record {
  find_invitation_by_token_hash = repos.find_invitation_by_token_hash;
  list_active_by_user = repos.list_active_by_user;
  find_organization = repos.find_organization;
  list_active_clients_for_agency =
      λ org. name_clients repos.find_organization (repos.list_active_client_ids org);
  is_agency_authorized_for_client = repos.is_authorized;
  find_project = repos.find_project;
  list_projects_for_client = repos.list_projects_for_client;
}

unfoldable pub read_cookie_parts : (name : String) → List String → Option String
read_cookie_parts name [] = none
read_cookie_parts name (part ∷ parts) =
    let later = read_cookie_parts name parts in
    elim (break_at "=" part) [
      | none ↦ later
      | some (before, after) ↦ if trim before == name then some (trim after) else later
    ]

-- A missing header is the empty text.
unfoldable pub read_cookie : (cookie_header name : String) → Option String
unfolding read_cookie_parts
read_cookie cookie_header name =
    if is_empty_text cookie_header
    then none
    else read_cookie_parts name (split_on ";" cookie_header)

-- `allowedSurfaceForRole` of a text that is cast to a role: the `switch` has no default
unfoldable pub surface_for_text : (role : String) → Option SurfacePrefix
surface_for_text role =
    if role == "CLIENT_OWNER"
    then some app
    else if role == "AGENCY_OWNER"
    then some agency
    else if role == "AGENCY_OPERATOR"
    then some agency
    else if role == "PLATFORM_SUPER_ADMIN"
    then some ops
    else none

abbrev pub is_surface : SurfacePrefix → Option SurfacePrefix → Bool
is_surface app (some app) = true
is_surface agency (some agency) = true
is_surface ops (some ops) = true
is_surface _ _ = false

-- What `resolveSession` may throw.
pub data ResolveError : Type 0 where
  no_keys : KeyError → ResolveError
  wrong_membership : SessionError → ResolveError

abbrev pub principal :
    Repositories → (assigned : List String) → SessionRow → Organization → AuthenticatedSession
principal repos assigned row org = record {
  session_id = row.id;
  user_id = row.user_id;
  email = get_or (repos.user_email row.user_id) "";
  display_name = none;
  role = row.role;
  organization_id = row.organization_id;
  organization_type = org.type;
  active_client_organization_id = row.active_client_organization_id;
  assigned_client_organization_ids = assigned;
  acting_client_organization_id = none;
}

unfoldable pub assigned_clients_of :
    Repositories → PlatformRole → (organization_id : String) → List String
unfolding build_auth_service_deps
assigned_clients_of repos role organization_id =
    if is_agency_role role
    then map (λ c. c.client_organization_id)
        ((build_auth_service_deps repos).list_active_clients_for_agency organization_id)
    else []

module _ (host : Host) (id_leb : String → String → Bool) (repos : Repositories)
    (rows : List SessionRow) (now : ℕ) where
  -- the row that was loaded, once it is valid
  unfoldable pub resolve_valid : (role : String) → SessionRow → Option AuthenticatedSession
  unfolding surface_for_text assigned_clients_of
  resolve_valid role row =
      if not (is_surface (allowed_surface_for_role row.role) (surface_for_text role))
      then none
      else elim (repos.find_organization row.organization_id) [
        | none ↦ none
        | some org ↦
            some (principal repos (assigned_clients_of repos row.role row.organization_id) row org)
      ]

  unfoldable pub resolve_row :
      (role : String) → SessionRow → Result ResolveError (Option AuthenticatedSession)
  unfolding resolve_valid
  resolve_row role row =
      let version = current_membership_version row.membership_id rows in
      elim (is_session_valid host (map_row host row)
        (record { membership_id = row.membership_id; session_version = version }) now) [
          | err e ↦ err (wrong_membership e)
          | ok valid ↦ if not valid then ok none else ok (resolve_valid role row)
        ]

  unfoldable pub resolve_decoded :
      DecodedSessionCookie → Result ResolveError (Option AuthenticatedSession)
  unfolding resolve_row
  resolve_decoded decoded =
      if ltb (decoded.issued_at + session_idle_ttl_ms) now
      then ok none
      else elim (load_latest_row id_leb decoded.payload.actor_user_id
          decoded.payload.organization_id rows) [
            | none ↦ ok none
            | some row ↦ resolve_row decoded.payload.role row
          ]

  -- `clock` is the time that verification reads, before `now`.
  unfoldable pub resolve_session :
      Codec
      → Environment
      → (clock : ℕ) → (cookie_header : String) → KeyState
      → Result ResolveError (Option AuthenticatedSession) × KeyState
  unfolding resolve_decoded
  resolve_session codec env clock cookie_header keys =
      let value = get_or (read_cookie cookie_header session_cookie_name) "" in
      let (decoded, after) = decode_session_cookie_with_meta codec env clock value keys in
      elim decoded [
        | err e ↦ (err (no_keys e), after)
        | ok none ↦ (ok none, after)
        | ok (some cookie) ↦ (resolve_decoded cookie, after)
      ]

abbrev pub outcome_text : Outcome → String
outcome_text allowed = "ALLOWED"
outcome_text denied = "DENIED"

-- The row's id and time, which the database gives, are arguments.
unfoldable pub persist_audit_intent :
    Host → (row_id row_time : String) (uuid : String) (now : ℕ) → AuditIntent → AuditEvent
persist_audit_intent host row_id row_time uuid now intent =
    record (record_audit_event host uuid (record {
      id = none;
      organization_id = intent.actor_organization_id;
      actor_user_id = intent.actor_user_id;
      actor_organization_id = intent.actor_organization_id;
      client_organization_id = intent.client_organization_id;
      project_id = intent.project_id;
      action = intent.action;
      target_type = intent.target_type;
      target_id = intent.target_id;
      metadata = some (set "outcome" (outcome_text intent.outcome) (get_or intent.metadata []));
      now = now;
    })) { id = row_id; created_at = row_time }
