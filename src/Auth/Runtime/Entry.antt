-- ===== src/Auth/Runtime/Entry.antt =====
-- From logging in to the next request: auth-service.ts, session-cookie.ts and runtime-context.ts
-- together.
use geoplane.Base.{
  ℕ, ◌+◌, ◌≤◌, ◌<◌, String, Bool, true, none, some, List, ◌∷◌, ok, ◌≡◌, refl, sym, ap, ◌∙◌, arith,
  Memᴰ, get_or,
}
use geoplane.Base.Host.{Host, ReadsDates}
use geoplane.Base.Codec.{Codec}
use geoplane.Tenancy.Entities.{
  PlatformRole, platform_super_admin, agency_owner, agency_operator, client_owner, Membership,
  Organization, role_text,
}
use geoplane.Auth.Keys.{Environment, KeyState, current_signing_key, verification_keys}
use geoplane.Auth.Signing.{session_ttl_ms}
use geoplane.Auth.Cookie.{session_cookie_name, allowed_surface_for_role}
use geoplane.Auth.Cookie.RoundTrip.{ReadsBack, decode_lem}
use geoplane.Auth.Login.{LoginInput, LoginResult, login}
use geoplane.Auth.Table.{
  SessionRow, repo_session_store, load_latest_row, current_membership_version,
}
use geoplane.Auth.Table.Latest.{load_latest_row-new, current_membership_version_le}
use geoplane.Auth.Runtime.{
  Repositories, session_idle_ttl_ms, build_auth_service_deps, surface_for_text, is_surface,
  assigned_clients_of, read_cookie, principal, resolve_valid, resolve_row, resolve_decoded,
  resolve_session,
}
use geoplane.Auth.Runtime.Resolution.{valid_row}
use geoplane.Auth.Runtime.Logins.{
  login_expiry, login_row, logged_in, CanLogin, login_payload, login_cookie, login_lem,
}

role_surface :
    (role : PlatformRole)
    → is_surface (allowed_surface_for_role role) (surface_for_text (role_text role)) ≡ true
unfolding allowed_surface_for_role surface_for_text
role_surface platform_super_admin = refl
role_surface agency_owner = refl
role_surface agency_operator = refl
role_surface client_owner = refl

same_principal :
    (repos : Repositories) (row_id : String) (db_now : ℕ) (input : LoginInput)
    (membership : Membership) (others : List Membership) (org : Organization)
    → CanLogin repos input membership others org
    → principal repos
        (assigned_clients_of repos membership.role membership.organization_id)
        (login_row row_id db_now input membership org)
        org
      ≡ logged_in repos row_id input.user membership org
unfolding assigned_clients_of
same_principal repos row_id db_now input membership others org can = rw (can.own, can.same_id) refl

-- what the table must hold before the login: no younger session of that user and organization,
-- and no later version of that membership
abbrev pub Behind : (db_now : ℕ) → LoginInput → Membership → List SessionRow → Type 0
Behind db_now input membership rows =
    (other : SessionRow)
    → Memᴰ other rows
    → (other.user_id ≡ membership.user_id
        → other.organization_id ≡ membership.organization_id
        → other.created_at < db_now)
      × (other.membership_id ≡ membership.id
          → other.session_version ≤ get_or input.session_version 1)

module _ (host : Host) (codec : Codec) (env : Environment) (repos : Repositories) (row_id : String)
    (db_now : ℕ) (reads : ReadsDates host) where
  version_current :
      (input : LoginInput) (membership : Membership) (org : Organization) (rows : List SessionRow)
      → Behind db_now input membership rows
      → current_membership_version membership.id
          (login_row row_id db_now input membership org ∷ rows)
        ≤ get_or input.session_version 1
  version_current input membership org rows behind =
      current_membership_version_le membership.id
        (login_row row_id db_now input membership org ∷ rows) (get_or input.session_version 1)
        (newest input membership org rows behind)
    where
      newest :
          (input : LoginInput) (membership : Membership) (org : Organization)
          (rows : List SessionRow)
          → Behind db_now input membership rows
          → (other : SessionRow) → Memᴰ other (login_row row_id db_now input membership org ∷ rows)
          → other.membership_id ≡ membership.id
          → other.session_version ≤ get_or input.session_version 1
      newest input membership org rows behind other (Memᴰ.head e) same = rw e (ground arith)
      newest input membership org rows behind other (Memᴰ.tail m) same = (behind other m).1 same

  resolve_lem :
      (id_leb : String → String → Bool) (input : LoginInput) (membership : Membership)
      (others : List Membership) (org : Organization) (rows : List SessionRow) (now clock : ℕ)
      → CanLogin repos input membership others org
      → Behind db_now input membership rows
      → now ≤ clock + session_idle_ttl_ms
      → now < login_expiry input
      → resolve_decoded host id_leb repos
          (login_row row_id db_now input membership org ∷ rows)
          now
          (record {
            payload = login_payload repos input membership org;
            issued_at = clock;
            expires_at = clock + session_ttl_ms;
          })
        ≡ ok (some (logged_in repos row_id input.user membership org))
  unfolding resolve_decoded resolve_row resolve_valid
  resolve_lem id_leb input membership others org rows now clock can behind idle live =
      let row = login_row row_id db_now input membership org in
      let latest : load_latest_row id_leb input.user.id org.id (row ∷ rows) ≡ some row =
        ap (λ user. load_latest_row id_leb user org.id (row ∷ rows)) (sym can.own)
        ∙ ap (λ home. load_latest_row id_leb membership.user_id home (row ∷ rows)) can.same_id
        ∙ load_latest_row-new id_leb row rows (λ other m. (behind other m).0) in
      let valid =
        valid_row host row (current_membership_version membership.id (row ∷ rows)) now reads in
      let checked : resolve_row host id_leb repos (row ∷ rows) now (role_text membership.role) row
          ≡ ok (resolve_valid host id_leb repos (row ∷ rows) now (role_text membership.role) row) =
        ground (arith, valid, version_current input membership org rows behind) in
      let found : resolve_valid host id_leb repos (row ∷ rows) now (role_text membership.role) row
          ≡ some
              (principal repos (assigned_clients_of repos row.role row.organization_id) row org) =
        ground (arith, can.home, role_surface membership.role) in
      ground (
        arith,
        latest,
        checked,
        found,
        same_principal repos row_id db_now input membership others org can,
      )

  -- On a host that reads back the times it writes and with encodings that read back the texts of
  -- the cookie, a user whose first membership and its organization are found logs in wherever a
  -- signing key is had, and the answer carries the signed cookie. A request with that cookie,
  -- checked by a process whose keys include the signing one, within thirty minutes of the login and
  -- before the session's and the cookie's expiry, resolves to the same user, role, organization and
  -- clients, with the id of the stored row as the id of its session and the e-mail address as it is
  -- read again and no display name, if no stored session of the user there is as young as the new
  -- row and none of the membership has a later version.
  pub login-resolve_session :
      (reader : Environment) (id_leb : String → String → Bool) (uuid cookie_header : String)
      (input : LoginInput) (membership : Membership) (others : List Membership) (org : Organization)
      (rows : List SessionRow) (clock later now : ℕ) (keys after seen seen_after : KeyState)
      (key : String) (accepted_keys : List String)
      → CanLogin repos input membership others org
      → Behind db_now input membership rows
      → current_signing_key env keys ≡ (ok key, after)
      → verification_keys reader none seen ≡ (ok accepted_keys, seen_after)
      → Memᴰ key accepted_keys
      → ReadsBack codec
          (login_payload repos input membership org)
          clock
          (clock + session_ttl_ms)
          key
      → read_cookie cookie_header session_cookie_name
        ≡ some (login_cookie codec repos clock input membership org key)
      → later < clock + session_ttl_ms
      → now ≤ clock + session_idle_ttl_ms
      → now < login_expiry input
      → (result : LoginResult) × ((login host codec env
              (repo_session_store host row_id db_now)
              (build_auth_service_deps repos)
              uuid
              clock
              input
              rows
              keys
            ≡ (ok (ok result), login_row row_id db_now input membership org ∷ rows, after))
          × (result.session_cookie ≡ login_cookie codec repos clock input membership org key)
          × ((resolve_session host id_leb repos
                (login_row row_id db_now input membership org ∷ rows)
                now
                codec
                reader
                later
                cookie_header
                seen).0
              ≡ ok (some (logged_in repos row_id input.user membership org))))
  unfolding resolve_session
  login-resolve_session reader id_leb uuid cookie_header input membership others org rows clock
        later now keys after seen seen_after key accepted_keys can behind signs verifies m back
        header young idle live =
      let payload = login_payload repos input membership org in
      (
        _,
        (
          login_lem host codec env repos row_id db_now reads uuid clock input membership others org
              rows keys after key can signs,
          refl,
          ground (
            arith,
            header,
            decode_lem codec payload reader clock later seen seen_after key accepted_keys back
                verifies m young,
            resolve_lem id_leb input membership others org rows now clock can behind idle live,
          ),
        ),
      )
