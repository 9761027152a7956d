-- ===== src/Auth/Table.antt =====
-- The session table: persistence/pg/session-repository.ts and the queries of
-- runtime/auth/runtime-context.ts. A time of a row is in milliseconds; the id and the time that
-- the database gives a new row are arguments, and so is the order of the ids.
pub mod Latest
use geoplane.Base.{
  ℕ, String, Bool, true, false, ◌&&◌, ◌||◌, ◌==◌, Option, none, some, List, [], ◌∷◌, ◌++◌, map,
  filter, find, eqb, ltb, leb, is_none, if◌then◌else◌,
}
use mathlib.Core.Option
use geoplane.Base.Host.{Host}
use geoplane.Tenancy.Entities.{PlatformRole, Session}
use geoplane.Auth.Ports.{SessionStore}

pub record SessionRow : Type 0 where
  pub id : String
  pub user_id : String
  pub membership_id : String
  pub organization_id : String
  pub role : PlatformRole
  pub active_client_organization_id : Option String
  pub active_project_id : Option String
  pub session_version : ℕ
  pub created_at : ℕ
  pub expires_at : ℕ
  pub revoked_at : Option ℕ

unfoldable pub map_row : Host → SessionRow → Session
map_row host row = record {
  id = row.id;
  user_id = row.user_id;
  membership_id = row.membership_id;
  organization_id = row.organization_id;
  role = row.role;
  active_client_organization_id = row.active_client_organization_id;
  active_project_id = row.active_project_id;
  session_version = row.session_version;
  created_at = host.to_iso_string row.created_at;
  expires_at = host.to_iso_string row.expires_at;
  revoked_at = Option.map host.to_iso_string row.revoked_at;
}

abbrev pub new_row : (row_id : String) (db_now expires_at : ℕ) → Session → SessionRow
new_row row_id db_now expires_at session = record {
  id = row_id;
  user_id = session.user_id;
  membership_id = session.membership_id;
  organization_id = session.organization_id;
  role = session.role;
  active_client_organization_id = session.active_client_organization_id;
  active_project_id = session.active_project_id;
  session_version = session.session_version;
  created_at = db_now;
  expires_at = expires_at;
  revoked_at = none;
}

-- The insert throws on an expiry that is no date.
unfoldable pub insert_session :
    Host → (row_id : String) (db_now : ℕ) → Session → List SessionRow → Option (List SessionRow)
insert_session host row_id db_now session rows =
    Option.map (λ expires_at. new_row row_id db_now expires_at session ∷ rows)
      (host.get_time session.expires_at)

unfoldable pub find_row : Host → String → List SessionRow → Option Session
find_row host id rows = Option.map (map_row host) (find (λ row. row.id == id) rows)

abbrev pub revoke_row : (id : String) (db_now : ℕ) → SessionRow → SessionRow
revoke_row id db_now row =
    if row.id == id && is_none row.revoked_at then record row { revoked_at = some db_now } else row

unfoldable pub revoke_session : (id : String) (db_now : ℕ) → List SessionRow → List SessionRow
revoke_session id db_now rows = map (revoke_row id db_now) rows

-- the class `RepoSessionStore`
abbrev pub repo_session_store :
    Host → (row_id : String) (db_now : ℕ) → SessionStore (List SessionRow)
repo_session_store host row_id db_now = record {
  create = insert_session host row_id db_now;
  find = find_row host;
  revoke = λ id _. revoke_session id db_now;
}

-- `ORDER BY created_at DESC, id DESC`
abbrev pub comes_first : (id_leb : String → String → Bool) → SessionRow → SessionRow → Bool
comes_first id_leb a b =
    ltb b.created_at a.created_at || (eqb b.created_at a.created_at && id_leb b.id a.id)

abbrev pub first_of :
    (id_leb : String → String → Bool) → SessionRow → Option SessionRow → Option SessionRow
first_of id_leb row none = some row
first_of id_leb row (some other) = if comes_first id_leb row other then some row else some other

unfoldable pub first_row : (id_leb : String → String → Bool) → List SessionRow → Option SessionRow
first_row id_leb [] = none
first_row id_leb (row ∷ rows) = first_of id_leb row (first_row id_leb rows)

abbrev pub is_of : (user_id organization_id : String) → SessionRow → Bool
is_of user_id organization_id row = row.user_id == user_id && row.organization_id == organization_id

unfoldable pub load_latest_row :
    (id_leb : String → String → Bool)
    → (user_id organization_id : String) → List SessionRow
    → Option SessionRow
unfolding first_row
load_latest_row id_leb user_id organization_id rows =
    first_row id_leb (filter (is_of user_id organization_id) rows)

abbrev larger : ℕ → ℕ → ℕ
larger a b = if leb a b then b else a

-- `COALESCE(MAX(session_version), 0)` over the rows of a membership
unfoldable pub current_membership_version : (membership_id : String) → List SessionRow → ℕ
current_membership_version membership_id [] = 0
current_membership_version membership_id (row ∷ rows) =
    let rest = current_membership_version membership_id rows in
    if row.membership_id == membership_id then larger row.session_version rest else rest
