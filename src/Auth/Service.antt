-- ===== src/Auth/Service.antt =====
-- runtime/auth/auth-service.ts: the account service's calls for a principal that is logged in.
pub mod Access
use Prim.Native.String.{◌++◌ as join}
use geoplane.Base.{
  ℕ, String, Bool, true, false, not, ◌&&◌, ◌||◌, ◌==◌, Option, none, some, List, [], ◌∷◌, map,
  length, Result, ok, err, is_none, is_text, if◌then◌else◌,
}
use geoplane.Base.Host.{Host}
use geoplane.Tenancy.Entities.{
  Organization, Project, Invitation, InvitationStatus, pending, accepted, revoked, expired,
}
use geoplane.Tenancy.Authorization.{can_access_client_organization}
use geoplane.Tenancy.Invitations.{is_invitation_usable, effective_invitation_status}
use geoplane.Auth.Responses.{
  ApiError, ApiResponse, api_err, forbidden, not_found, conflict, internal_error,
}
use geoplane.Auth.Ports.{AgencyAssignedClient, Readers}
use geoplane.Auth.Accounts.{
  AuthenticatedSession, AuthenticatedUser, AccountView, ProjectView, AgencyClientPortfolioItem,
  AgencyClientPortfolioView, AgencyActingContext, AuditIntent, allowed, agency_surface,
  is_agency_role, build_account_view, context_from_session, denied_audit,
}

pub record AcceptInvitationInput : Type 0 where
  pub token_hash : String
  pub user : AuthenticatedUser
  pub now : ℕ

pub record AuditedResult (A : Type 0) : Type 0 where
  pub response : ApiResponse A
  pub audit_intents : List AuditIntent

pub record SetAgencyContextResult : Type 0 where
  pub response : ApiResponse AgencyActingContext
  pub session : AuthenticatedSession
  pub audit_intents : List AuditIntent

abbrev pub invitation_status_text : InvitationStatus → String
invitation_status_text pending = "PENDING"
invitation_status_text accepted = "ACCEPTED"
invitation_status_text revoked = "REVOKED"
invitation_status_text expired = "EXPIRED"

abbrev pub not_usable : InvitationStatus → ApiError
not_usable status = record {
  code = conflict;
  message = join "Invitation is " (join (invitation_status_text status) " and cannot be accepted.");
  status = some (invitation_status_text status);
}

-- an agency that has selected a client is held to it
unfoldable pub acting_blocks : AuthenticatedSession → (target : String) → Bool
acting_blocks session target =
    is_agency_role session.role
    && not (is_none session.acting_client_organization_id)
    && not (is_text session.acting_client_organization_id target)

unfoldable pub may_read : AuthenticatedSession → (target : String) → Bool
unfolding acting_blocks
may_read session target =
    can_access_client_organization (context_from_session session) target
    && not (acting_blocks session target)

abbrev pub context_denied : AuthenticatedSession → (client : String) → AuditIntent
context_denied session client =
    denied_audit "access-context-changed" session (some client) none (some "organization")
      (some client)

abbrev pub context_changed : AuthenticatedSession → (client : String) → AuditIntent
context_changed session client = record {
  action = "access-context-changed";
  outcome = allowed;
  actor_user_id = session.user_id;
  actor_organization_id = session.organization_id;
  client_organization_id = some client;
  project_id = none;
  target_type = some "organization";
  target_id = some client;
  metadata = none;
}

abbrev pub project_denied : AuthenticatedSession → Project → AuditIntent
project_denied session project =
    denied_audit "project-access-denied" session (some project.client_organization_id)
      (some project.id) (some "project") (some project.id)

abbrev pub project_view : Project → Organization → ProjectView
project_view project org = record {
  id = project.id;
  name = project.name;
  client_organization_id = org.id;
  client_organization_name = org.display_name;
  created_at = project.created_at;
}

abbrev pub selected :
    AuthenticatedSession
    → (client_id : String) → Organization
    → Organization
    → SetAgencyContextResult
selected session client_id client agency_org = record {
  response = ok (record {
    agency_organization_id = agency_org.id;
    agency_organization_name = agency_org.display_name;
    acting_client_organization_id = client.id;
    acting_client_organization_name = client.display_name;
    surface = agency_surface;
  });
  session = record session { acting_client_organization_id = some client_id };
  audit_intents = context_changed session client_id ∷ [];
}

abbrev pub refused :
    AuthenticatedSession
    → ApiResponse AgencyActingContext
    → List AuditIntent
    → SetAgencyContextResult
refused session response intents = record {
  response = response;
  session = session;
  audit_intents = intents;
}

module _ (readers : Readers) where
  unfoldable pub get_account : AuthenticatedSession → ApiResponse AccountView
  get_account session = elim (readers.find_organization session.organization_id) [
    | none ↦ api_err internal_error "Session references a missing organization."
    | some org ↦ ok (
        build_account_view
          (record {
            id = session.user_id;
            email = session.email;
            display_name = session.display_name;
          })
          session.role org)
  ]

module _ (host : Host) (readers : Readers) where
  unfoldable pub accept_found : AcceptInvitationInput → Invitation → ApiResponse AccountView
  accept_found input invitation =
      if not (is_invitation_usable host invitation input.now)
      then err (not_usable (effective_invitation_status host invitation input.now))
      else if not
          (host.to_lower_case invitation.invited_email == host.to_lower_case input.user.email)
      then api_err forbidden "Invitation was issued to a different email address."
      else elim (readers.find_organization invitation.organization_id) [
        | none ↦ api_err internal_error "Invitation references a missing organization."
        | some org ↦ ok (build_account_view input.user invitation.role org)
      ]

  unfoldable pub accept_invitation : AcceptInvitationInput → ApiResponse AccountView
  unfolding accept_found
  accept_invitation input = elim (readers.find_invitation_by_token_hash input.token_hash) [
    | none ↦ api_err not_found "Invitation not found."
    | some invitation ↦ accept_found input invitation
  ]

module _ (readers : Readers) where
  abbrev pub portfolio_item : AgencyAssignedClient → AgencyClientPortfolioItem
  portfolio_item client = record {
    client_organization_id = client.client_organization_id;
    client_organization_name = client.client_organization_name;
    project_count = length (readers.list_projects_for_client client.client_organization_id);
    open_review_count = client.open_review_count;
  }

  unfoldable pub list_agency_clients : AuthenticatedSession → ApiResponse AgencyClientPortfolioView
  list_agency_clients session =
      if not (is_agency_role session.role)
      then api_err forbidden "Only agency members can view the client portfolio."
      else elim (readers.find_organization session.organization_id) [
        | none ↦ api_err internal_error "Session references a missing organization."
        | some agency_org ↦ ok (record {
          agency_organization_id = agency_org.id;
          agency_organization_name = agency_org.display_name;
          clients =
              map portfolio_item (readers.list_active_clients_for_agency session.organization_id);
        })
      ]

  unfoldable pub set_agency_context :
      AuthenticatedSession → (client_id : String) → SetAgencyContextResult
  set_agency_context session client_id =
      if not (is_agency_role session.role)
      then refused session (api_err forbidden "Only agency members can select a client context.")
          (context_denied session client_id ∷ [])
      else if not (readers.is_agency_authorized_for_client session.organization_id client_id)
      then refused session (api_err forbidden "Agency is not assigned to this client organization.")
          (context_denied session client_id ∷ [])
      else elim (readers.find_organization client_id) [
        | none ↦ refused session (api_err not_found "Client organization not found.") []
        | some client ↦ elim (readers.find_organization session.organization_id) [
          | none ↦
              refused session (api_err internal_error "Session references a missing organization.")
                []
          | some agency_org ↦ selected session client_id client agency_org
        ]
      ]

  unfoldable pub read_project : AuthenticatedSession → Project → AuditedResult ProjectView
  unfolding may_read
  read_project session project =
      if not (may_read session project.client_organization_id)
      then record {
        response = api_err forbidden "Not authorized to access this project.";
        audit_intents = project_denied session project ∷ [];
      }
      else elim (readers.find_organization project.client_organization_id) [
        | none ↦ record {
          response = api_err internal_error "Project references a missing client organization.";
          audit_intents = [];
        }
        | some org ↦ record { response = ok (project_view project org); audit_intents = [] }
      ]

  unfoldable pub get_project :
      AuthenticatedSession → (project_id : String) → AuditedResult ProjectView
  unfolding read_project
  get_project session project_id = elim (readers.find_project project_id) [
    | none ↦ record { response = api_err not_found "Project not found."; audit_intents = [] }
    | some project ↦ read_project session project
  ]
