-- ===== src/Auth/Runtime/Logins.antt =====
-- A login over the session table: auth-service.ts with the adapters of runtime-context.ts.
use geoplane.Base.{
  ℕ, ◌+◌, String, none, some, List, ◌∷◌, ok, ◌≡◌, refl, ap, ◌∙◌, get_or, eq_iff, eq_refl,
}
use geoplane.Base.Host.{Host, ReadsDates}
use geoplane.Base.Codec.{Codec}
use geoplane.Tenancy.Entities.{
  PlatformRole, platform_super_admin, agency_owner, agency_operator, client_owner, Membership,
  Organization, Session,
}
use geoplane.Tenancy.Sessions.{default_session_ttl_ms, issue_session}
use geoplane.Auth.Keys.{Environment, KeyState, current_signing_key}
use geoplane.Auth.Signing.{session_ttl_ms, sign_with}
use geoplane.Auth.Cookie.{AcceptanceSessionCookiePayload, payload_segment, session_cookie_name}
use geoplane.Auth.Cookie.RoundTrip.{encode_lem}
use geoplane.Auth.Accounts.{
  AuthenticatedSession, AuthenticatedUser, only_client_owner, context_from_session,
  pinned_client_organization_id, build_account_view,
}
use geoplane.Auth.Login.{
  LoginInput, unissued_session, cookie_payload, non_empty, non_zero, login_with, after_create,
  with_cookie, login,
}
use geoplane.Auth.Table.{SessionRow, new_row, insert_session, repo_session_store}
use geoplane.Auth.Runtime.{Repositories, build_auth_service_deps}

abbrev pub login_expiry : LoginInput → ℕ
login_expiry input = input.now + get_or (non_zero input.ttl_ms) default_session_ttl_ms

-- the row that a login leaves
abbrev pub login_row :
    (row_id : String) (db_now : ℕ) → LoginInput → Membership → Organization → SessionRow
login_row row_id db_now input membership org = record {
  id = row_id;
  user_id = membership.user_id;
  membership_id = membership.id;
  organization_id = membership.organization_id;
  role = membership.role;
  active_client_organization_id = pinned_client_organization_id membership.role org.id;
  active_project_id = none;
  session_version = get_or input.session_version 1;
  created_at = db_now;
  expires_at = login_expiry input;
  revoked_at = none;
}

-- the principal of a login, as the next request sees it
abbrev pub logged_in :
    Repositories
    → (row_id : String) → AuthenticatedUser
    → Membership
    → Organization
    → AuthenticatedSession
logged_in repos row_id user membership org =
    record (unissued_session (build_auth_service_deps repos) user membership org) {
      session_id = row_id;
      email = get_or (repos.user_email user.id) "";
      display_name = none;
    }

pinned_twice :
    (role : PlatformRole) (id : String)
    → only_client_owner role (pinned_client_organization_id role id)
      ≡ pinned_client_organization_id role id
unfolding pinned_client_organization_id
pinned_twice platform_super_admin id = refl
pinned_twice agency_owner id = refl
pinned_twice agency_operator id = refl
pinned_twice client_owner id = refl

inserted :
    (host : Host) (row_id : String) (db_now : ℕ) (session : Session) (expires_at : ℕ)
    (rows : List SessionRow)
    → host.get_time session.expires_at ≡ some expires_at
    → insert_session host row_id db_now session rows
      ≡ some (new_row row_id db_now expires_at session ∷ rows)
unfolding insert_session
inserted host row_id db_now session expires_at rows e = rw (e, insert_session) refl

-- What a login needs of the stores: the user's first membership, of that user, and the
-- membership's organization, found under its own id.
pub record CanLogin (repos : Repositories) (input : LoginInput) (membership : Membership)
    (others : List Membership) (org : Organization) : Type 0 where
  pub listed : repos.list_active_by_user input.user.id ≡ membership ∷ others
  pub own : membership.user_id ≡ input.user.id
  pub home : repos.find_organization membership.organization_id ≡ some org
  pub same_id : org.id ≡ membership.organization_id

-- what the cookie of a login says
abbrev pub login_payload :
    Repositories → LoginInput → Membership → Organization → AcceptanceSessionCookiePayload
login_payload repos input membership org =
    cookie_payload (unissued_session (build_auth_service_deps repos) input.user membership org)

abbrev pub login_cookie :
    Codec
    → Repositories
    → (clock : ℕ) (input : LoginInput) → Membership
    → Organization
    → (key : String) → String
login_cookie codec repos clock input membership org key =
    sign_with codec (payload_segment codec (login_payload repos input membership org)) clock
      (clock + session_ttl_ms) key

module _ (host : Host) (codec : Codec) (env : Environment) (repos : Repositories) (row_id : String)
    (db_now : ℕ) (reads : ReadsDates host) where
  abbrev issued_of : (uuid : String) → LoginInput → Membership → Organization → Session
  issued_of uuid input membership org = record {
    id = get_or (non_empty input.session_id) uuid;
    user_id = membership.user_id;
    membership_id = membership.id;
    organization_id = membership.organization_id;
    role = membership.role;
    active_client_organization_id =
        (context_from_session (
          unissued_session (build_auth_service_deps repos) input.user membership
            org)).active_client_organization_id;
    active_project_id = none;
    session_version = get_or input.session_version 1;
    created_at = host.to_iso_string input.now;
    expires_at = host.to_iso_string (login_expiry input);
    revoked_at = none;
  }

  stored_row :
      (uuid : String) (input : LoginInput) (membership : Membership) (org : Organization)
      (rows : List SessionRow)
      → insert_session host row_id db_now (issued_of uuid input membership org) rows
        ≡ some (login_row row_id db_now input membership org ∷ rows)
  unfolding context_from_session
  stored_row uuid input membership org rows =
      inserted host row_id db_now (issued_of uuid input membership org) (login_expiry input) rows
        (reads (login_expiry input))
      ∙ ap
          (λ pinned. some (
            record (login_row row_id db_now input membership org) {
              active_client_organization_id = pinned;
            }
            ∷ rows))
          (pinned_twice membership.role org.id)

  issued_lem :
      (uuid : String) (input : LoginInput) (membership : Membership) (org : Organization)
      → membership.user_id ≡ input.user.id
      → issue_session host uuid membership
          (record {
            membership_id = membership.id;
            session_version = get_or input.session_version 1;
          })
          (context_from_session
            (unissued_session (build_auth_service_deps repos) input.user membership org))
          (record {
            id = non_empty input.session_id;
            now = input.now;
            ttl_ms = non_zero input.ttl_ms;
          })
        ≡ ok (issued_of uuid input membership org)
  unfolding issue_session context_from_session
  issued_lem uuid input membership org own =
      rw (eq_refl membership.id, (eq_iff membership.user_id input.user.id).1 own) refl

  pub login_lem :
      (uuid : String) (clock : ℕ) (input : LoginInput) (membership : Membership)
      (others : List Membership) (org : Organization) (rows : List SessionRow)
      (keys after : KeyState) (key : String)
      → CanLogin repos input membership others org
      → current_signing_key env keys ≡ (ok key, after)
      → login host codec env
          (repo_session_store host row_id db_now)
          (build_auth_service_deps repos)
          uuid
          clock
          input
          rows
          keys
        ≡ (
          ok (
              ok (record {
                account = build_account_view input.user membership.role org;
                session =
                    record (unissued_session
                      (build_auth_service_deps repos)
                      input.user
                      membership
                      org) { session_id = get_or (non_empty input.session_id) uuid };
                session_cookie_name = session_cookie_name;
                session_cookie =
                    sign_with codec
                      (payload_segment codec (login_payload repos input membership org))
                      clock
                      (clock + session_ttl_ms)
                      key;
              })),
          login_row row_id db_now input membership org ∷ rows,
          after,
        )
  unfolding login build_auth_service_deps
  login_lem uuid clock input membership others org rows keys after key can signs =
      let start = unissued_session (build_auth_service_deps repos) input.user membership org in
      rw (login, can.listed, can.home)
        (rw (login_with, after_create, issued_lem uuid input membership org can.own)
          (rw (stored_row uuid input membership org rows) (
            ap
              (with_cookie host codec env (repo_session_store host row_id db_now)
                (build_auth_service_deps repos) input membership org
                (record start { session_id = get_or (non_empty input.session_id) uuid })
                (login_row row_id db_now input membership org ∷ rows))
              (encode_lem codec (cookie_payload start) env clock keys after key signs))))
