-- ===== src/Auth/Ports.antt =====
-- runtime/auth/ports.ts: what the account service asks of its stores. A reader answers from a
-- state that does not change during one call; the session store is written, and its state is `S`.
use geoplane.Base.{ℕ, String, Bool, Option, List}
use geoplane.Tenancy.Entities.{Session, Invitation, Membership, Organization, Project}

pub record AgencyAssignedClient : Type 0 where
  pub client_organization_id : String
  pub client_organization_name : String
  pub open_review_count : ℕ

pub record SessionStore (S : Type 0) : Type 0 where
  -- `none` where it throws
  pub create : Session → S → Option S
  pub find : String → S → Option Session
  pub revoke : String → (now : ℕ) → S → S

pub record Readers : Type 0 where
  pub find_invitation_by_token_hash : String → Option Invitation
  pub list_active_by_user : String → List Membership
  pub find_organization : String → Option Organization
  pub list_active_clients_for_agency : String → List AgencyAssignedClient
  pub is_agency_authorized_for_client : (agency client : String) → Bool
  pub find_project : String → Option Project
  pub list_projects_for_client : String → List Project
