-- ===== src/Auth/Runtime/Resolution.antt =====
-- Which principal a request stands for.
use geoplane.Base.{
  ℕ, ◌+◌, ◌≤◌, ◌<◌, String, Bool, true, Option, none, some, List, ok, ◌≡◌, ◌∙◌, arith, Memᴰ,
  Option-cases, inl, inr, get_or, Result-cases, is_none, ltb, leb, ◌&&◌, eq_refl,
}
use geoplane.Base.Host.{Host, ReadsDates}
use geoplane.Base.Codec.{Codec}
use geoplane.Tenancy.Entities.{Organization}
use geoplane.Tenancy.Sessions.{is_session_valid, is_session_version_current}
use geoplane.Auth.Keys.{Environment, KeyState}
use geoplane.Auth.Cookie.{
  DecodedSessionCookie, session_cookie_name, allowed_surface_for_role,
  decode_session_cookie_with_meta,
}
use geoplane.Auth.Accounts.{AuthenticatedSession}
use geoplane.Auth.Table.{SessionRow, map_row, load_latest_row, current_membership_version}
use geoplane.Auth.Table.Latest.{load_latest_row_lem, version_bounds}
use geoplane.Auth.Runtime.{
  Repositories, SurfacePrefix, session_idle_ttl_ms, read_cookie, surface_for_text, is_surface,
  principal, assigned_clients_of, resolve_valid, resolve_row, resolve_decoded, resolve_session,
}

-- What stands behind a principal: a cookie that verifies and is not idle, and the youngest session
-- row of its user in its organization, neither revoked nor expired nor behind another row of its
-- membership, whose role has the surface of the cookie's role.
pub record StandsBehind (repos : Repositories) (rows : List SessionRow) (now : ℕ)
    (cookie : DecodedSessionCookie) (session : AuthenticatedSession) : Type 0 where
  pub row : SessionRow
  pub org : Organization
  pub not_idle : now ≤ cookie.issued_at + session_idle_ttl_ms
  pub stored : Memᴰ row rows
  pub same_user : row.user_id ≡ cookie.payload.actor_user_id
  pub same_organization : row.organization_id ≡ cookie.payload.organization_id
  pub youngest :
      (other : SessionRow)
      → Memᴰ other rows
      → other.user_id ≡ row.user_id
      → other.organization_id ≡ row.organization_id
      → other.created_at ≤ row.created_at
  pub not_revoked : row.revoked_at ≡ none
  pub unexpired : now < row.expires_at
  pub current :
      (other : SessionRow)
      → Memᴰ other rows
      → other.membership_id ≡ row.membership_id
      → other.session_version ≤ row.session_version
  pub same_surface : surface_for_text cookie.payload.role ≡ some (allowed_surface_for_role row.role)
  pub home : repos.find_organization row.organization_id ≡ some org
  pub facts :
      session ≡ principal repos (assigned_clients_of repos row.role row.organization_id) row org

same_surface_of :
    (s : SurfacePrefix) (o : Option SurfacePrefix) → is_surface s o ≡ true → o ≡ some s
same_surface_of s o h = ground arith

-- The validity of a row that is read back: not revoked, not expired, of the live version.
pub valid_row :
    (host : Host) (row : SessionRow) (version now : ℕ)
    → ReadsDates host
    → is_session_valid host
        (map_row host row)
        (record { membership_id = row.membership_id; session_version = version })
        now
      ≡ ok (is_none row.revoked_at && ltb now row.expires_at && leb version row.session_version)
unfolding is_session_valid is_session_version_current map_row
valid_row host row version now reads = elim (Option-cases row.revoked_at) [
  | inl e ↦ ground (arith, reads row.expires_at, eq_refl row.membership_id)
  | inr (t, e) ↦ ground arith
]

module _ (host : Host) (id_leb : String → String → Bool) (repos : Repositories)
    (rows : List SessionRow) (now : ℕ) where
  principal_sound :
      (role : String) (row : SessionRow) (session : AuthenticatedSession)
      → resolve_valid host id_leb repos rows now role row ≡ some session
      → (is_surface (allowed_surface_for_role row.role) (surface_for_text role) ≡ true)
        × ((org : Organization) × ((repos.find_organization row.organization_id ≡ some org)
              × (session
                  ≡ principal repos
                      (assigned_clients_of repos row.role row.organization_id)
                      row
                      org)))
  unfolding resolve_valid
  principal_sound role row session h =
      elim (Option-cases (repos.find_organization row.organization_id)) [
        | inl e ↦ absurd (ground arith)
        | inr (org, e) ↦ (ground arith, (org, (e, ground arith)))
      ]

  valid_sound :
      (role : String) (row : SessionRow) (session : AuthenticatedSession)
      → ReadsDates host
      → resolve_row host id_leb repos rows now role row ≡ ok (some session)
      → (row.revoked_at ≡ none)
        × (now < row.expires_at)
        × (current_membership_version row.membership_id rows ≤ row.session_version)
        × (resolve_valid host id_leb repos rows now role row ≡ some session)
  unfolding resolve_row
  valid_sound role row session reads h =
      ground
        (arith, valid_row host row (current_membership_version row.membership_id rows) now reads)

  decoded_sound :
      (cookie : DecodedSessionCookie) (session : AuthenticatedSession)
      → ReadsDates host
      → resolve_decoded host id_leb repos rows now cookie ≡ ok (some session)
      → StandsBehind repos rows now cookie session
  unfolding resolve_decoded
  decoded_sound cookie session reads h =
      let user = cookie.payload.actor_user_id in
      let organization = cookie.payload.organization_id in
      elim (Option-cases (load_latest_row id_leb user organization rows)) [
        | inl e ↦ absurd (ground arith)
        | inr (row, e) ↦
            let valid : resolve_row host id_leb repos rows now cookie.payload.role row
                ≡ ok (some session) =
              ground arith in
            let fresh : now ≤ cookie.issued_at + session_idle_ttl_ms = ground arith in
            let (live, unexpired, current, rest) =
              valid_sound cookie.payload.role row session reads valid in
            let (surface, (org, (home, facts))) =
              principal_sound cookie.payload.role row session rest in
            let (stored, same_user, same_organization, youngest) =
              load_latest_row_lem id_leb user organization rows row e in
            record {
              row = row;
              org = org;
              not_idle = fresh;
              stored = stored;
              same_user = same_user;
              same_organization = same_organization;
              youngest = λ other m u o. youngest other m (u ∙ same_user) (o ∙ same_organization);
              not_revoked = live;
              unexpired = unexpired;
              current = λ other m e.
                  let bound : other.session_version
                      ≤ current_membership_version row.membership_id rows =
                    version_bounds row.membership_id rows other m e in
                  omega arith;
              same_surface = same_surface_of _ _ surface;
              home = home;
              facts = facts;
            }
      ]

  -- On a host that reads back the times it writes, a request that resolves to a principal carries
  -- a cookie that verifies and is not idle, and the principal's facts are those of the youngest
  -- session row of the cookie's user in its organization, which is stored, not revoked, not
  -- expired, not behind another row of its membership, and of a role with the surface of the
  -- cookie's role.
  pub resolve_session_sound :
      (codec : Codec) (env : Environment) (clock : ℕ) (cookie_header : String) (keys : KeyState)
      (session : AuthenticatedSession)
      → ReadsDates host
      → (resolve_session host id_leb repos rows now codec env clock cookie_header keys).0
        ≡ ok (some session)
      → (cookie : DecodedSessionCookie) × (((decode_session_cookie_with_meta codec env clock
              (get_or (read_cookie cookie_header session_cookie_name) "")
              keys).0
            ≡ ok (some cookie))
          × StandsBehind repos rows now cookie session)
  unfolding resolve_session
  resolve_session_sound codec env clock cookie_header keys session reads h =
      let value = get_or (read_cookie cookie_header session_cookie_name) "" in
      let decoded = (decode_session_cookie_with_meta codec env clock value keys).0 in
      elim (Result-cases decoded) [
        | inr (e, failed) ↦ absurd (ground arith)
        | inl (o, read) ↦ elim (Option-cases o) [
          | inl e ↦ absurd (ground arith)
          | inr (cookie, e) ↦
              (cookie, (ground arith, decoded_sound cookie session reads (ground arith)))
        ]
      ]
