-- ===== src/Auth/Login.antt =====
-- runtime/auth/auth-service.ts: logging in and out. The random UUID and the clock are arguments.
use geoplane.Base.{
  ℕ, zero, String, Option, none, some, List, [], ◌∷◌, map, Result, ok, err, get_or, if◌then◌else◌,
}
use geoplane.Base.Text.{is_empty_text}
use geoplane.Base.Host.{Host}
use geoplane.Base.Json.{nullable_text}
use geoplane.Base.Codec.{Codec}
use geoplane.Tenancy.Entities.{Session, Membership, Organization, role_text, organization_type_text}
use geoplane.Tenancy.Sessions.{CurrentMembershipSessionVersion, SessionError, issue_session}
use geoplane.Auth.Keys.{Environment, KeyState, KeyError}
use geoplane.Auth.Cookie.{
  AcceptanceSessionCookiePayload, encode_session_cookie, session_cookie_name,
}
use geoplane.Auth.Responses.{ApiResponse, api_err, unauthenticated, internal_error}
use geoplane.Auth.Ports.{SessionStore, Readers}
use geoplane.Auth.Accounts.{
  AuthenticatedSession, AuthenticatedUser, AccountView, is_agency_role,
  pinned_client_organization_id, build_account_view, context_from_session,
}

pub record LoginInput : Type 0 where
  pub user : AuthenticatedUser
  pub now : ℕ
  pub session_id : Option String
  pub session_version : Option ℕ
  pub ttl_ms : Option ℕ

pub record LoginResult : Type 0 where
  pub account : AccountView
  pub session : AuthenticatedSession
  pub session_cookie_name : String
  pub session_cookie : String

-- What `login` may throw: the session is not issued, it is not stored, or the cookie is not signed.
pub data LoginError : Type 0 where
  not_issued : SessionError → LoginError
  not_stored : LoginError
  not_signed : KeyError → LoginError

-- `membership.role` and the organization, with the clients that an agency is assigned to
abbrev pub assigned_clients : Readers → Membership → Organization → List String
assigned_clients readers membership org =
    if is_agency_role membership.role
    then map (λ c. c.client_organization_id) (readers.list_active_clients_for_agency org.id)
    else []

abbrev pub unissued_session :
    Readers → AuthenticatedUser → Membership → Organization → AuthenticatedSession
unissued_session readers user membership org = record {
  session_id = "";
  user_id = user.id;
  email = user.email;
  display_name = user.display_name;
  role = membership.role;
  organization_id = org.id;
  organization_type = org.type;
  active_client_organization_id = pinned_client_organization_id membership.role org.id;
  assigned_client_organization_ids = assigned_clients readers membership org;
  acting_client_organization_id = none;
}

abbrev pub cookie_payload : AuthenticatedSession → AcceptanceSessionCookiePayload
cookie_payload session = record {
  actor_user_id = session.user_id;
  role = role_text session.role;
  organization_id = session.organization_id;
  organization_type = organization_type_text session.organization_type;
  active_client_organization_id = nullable_text session.active_client_organization_id;
}

-- `input.sessionId ? { id } : {}` and `input.ttlMs ? { ttlMs } : {}`
abbrev pub non_empty : Option String → Option String
non_empty none = none
non_empty (some t) = if is_empty_text t then none else some t

abbrev pub non_zero : Option ℕ → Option ℕ
non_zero (some zero) = none
non_zero o = o

module _ {S : Type 0} (host : Host) (codec : Codec) (env : Environment) (store : SessionStore S)
    (readers : Readers) where
  -- what a login answers once the cookie is signed or is not
  abbrev pub with_cookie :
      LoginInput
      → Membership
      → Organization
      → AuthenticatedSession
      → S
      → Result KeyError String × KeyState
      → Result LoginError (ApiResponse LoginResult) × S × KeyState
  with_cookie input membership org session stored (err e, after) =
      (err (not_signed e), stored, after)
  with_cookie input membership org session stored (ok value, after) = (
    ok (
        ok (record {
          account = build_account_view input.user membership.role org;
          session = session;
          session_cookie_name = session_cookie_name;
          session_cookie = value;
        })),
    stored,
    after,
  )

  -- The persisted session is stored before the cookie is signed.
  abbrev pub finish_login :
      (clock : ℕ)
      → LoginInput
      → Membership
      → Organization
      → Session
      → S
      → KeyState
      → Result LoginError (ApiResponse LoginResult) × S × KeyState
  finish_login clock input membership org persisted stored keys =
      let session : AuthenticatedSession =
        record (unissued_session readers input.user membership org) { session_id = persisted.id } in
      with_cookie input membership org session stored
        (encode_session_cookie codec env clock (cookie_payload session) keys)

  -- what the store has made of the session, and otherwise what was there
  abbrev pub after_create :
      (clock : ℕ)
      → LoginInput
      → Membership
      → Organization
      → Session
      → S
      → Option S
      → KeyState
      → Result LoginError (ApiResponse LoginResult) × S × KeyState
  after_create clock input membership org persisted st none keys = (err not_stored, st, keys)
  after_create clock input membership org persisted st (some stored) keys =
      finish_login clock input membership org persisted stored keys

  abbrev pub login_with :
      (uuid : String) (clock : ℕ)
      → LoginInput
      → Membership
      → Organization
      → S
      → KeyState
      → Result LoginError (ApiResponse LoginResult) × S × KeyState
  login_with uuid clock input membership org st keys =
      let ctx = context_from_session (unissued_session readers input.user membership org) in
      let version : CurrentMembershipSessionVersion = record {
        membership_id = membership.id;
        session_version = get_or input.session_version 1;
      } in
      elim (issue_session host uuid membership version ctx (record {
        id = non_empty input.session_id;
        now = input.now;
        ttl_ms = non_zero input.ttl_ms;
      })) [
        | err e ↦ (err (not_issued e), st, keys)
        | ok persisted ↦
            after_create clock input membership org persisted st (store.create persisted st) keys
      ]

  unfoldable pub login :
      (uuid : String) (clock : ℕ)
      → LoginInput
      → S
      → KeyState
      → Result LoginError (ApiResponse LoginResult) × S × KeyState
  login uuid clock input st keys = elim (readers.list_active_by_user input.user.id) [
    | [] ↦ (ok (api_err unauthenticated "No active membership for this user."), st, keys)
    | membership ∷ _ ↦ elim (readers.find_organization membership.organization_id) [
      | none ↦
          (ok (api_err internal_error "Membership references a missing organization."), st, keys)
      | some org ↦ login_with uuid clock input membership org st keys
    ]
  ]

  unfoldable pub logout : (session_id : String) (now : ℕ) → S → ApiResponse String × S
  logout session_id now st = (ok session_id, store.revoke session_id now st)
