-- ===== src/Commands/Events.antt =====
-- runtime/commands/runtime-context.ts: the rows of the audit trail that commands write and look up.
-- What the database gives a new row, the random UUID and the clock are a stamp.
use geoplane.Base.{
  ℕ, String, Bool, false, ◌&&◌, ◌==◌, Option, none, some, List, [], ◌∷◌, ◌++◌, get_or, is_text,
  filter, leb, if◌then◌else◌,
}
use geoplane.Base.Host.{Host}
use geoplane.Base.Json.{Json, Fields, no_fields, null_value, text, get_field, set_field}
use geoplane.Tenancy.Audit.{record_audit_event}
use geoplane.Auth.Accounts.{Outcome}
use geoplane.Auth.Runtime.{outcome_text}

pub record CommandActor : Type 0 where
  pub user_id : String
  pub organization_id : String

pub record CommandAuditFields : Type 0 where
  pub client_organization_id : Option String
  pub project_id : Option String
  pub target_type : Option String
  pub target_id : Option String
  pub metadata : Option Fields

-- a row of the table audit_event
pub record AuditRow : Type 0 where
  pub id : String
  pub organization_id : String
  pub actor_user_id : String
  pub actor_organization_id : String
  pub client_organization_id : Option String
  pub project_id : Option String
  pub action : String
  pub target_type : Option String
  pub target_id : Option String
  pub metadata : Option Fields
  pub event_hash : String
  pub created_at : ℕ

pub record Database (T : Type 0) : Type 0 where
  pub tables : T
  pub audit_events : List AuditRow

pub record Stamp : Type 0 where
  pub row_id : String
  pub row_time : ℕ
  pub uuid : String
  pub now : ℕ

module _ (host : Host) where
  unfoldable pub audit_row :
      CommandActor → (action : String) → Outcome → CommandAuditFields → Stamp → AuditRow
  audit_row actor action outcome fields stamp =
      let event = record_audit_event host stamp.uuid (record {
        id = none;
        organization_id = actor.organization_id;
        actor_user_id = actor.user_id;
        actor_organization_id = actor.organization_id;
        client_organization_id = fields.client_organization_id;
        project_id = fields.project_id;
        action = action;
        target_type = fields.target_type;
        target_id = fields.target_id;
        metadata = none;
        now = stamp.now;
      }) in
      record {
        id = stamp.row_id;
        organization_id = actor.organization_id;
        actor_user_id = actor.user_id;
        actor_organization_id = actor.organization_id;
        client_organization_id = fields.client_organization_id;
        project_id = fields.project_id;
        action = action;
        target_type = fields.target_type;
        target_id = fields.target_id;
        metadata =
            some (
              set_field "outcome" (text (outcome_text outcome)) (get_or fields.metadata no_fields));
        event_hash = event.event_hash;
        created_at = stamp.row_time;
      }

  unfoldable pub append_audit :
      {T : Type 0}
      → CommandActor
      → (action : String) → Outcome
      → CommandAuditFields
      → Stamp
      → Database T
      → Database T
  unfolding audit_row
  append_audit actor action outcome fields stamp db = record db {
    audit_events = db.audit_events ++ audit_row actor action outcome fields stamp ∷ [];
  }

-- `metadata->>key`: a text stands for itself, null is absent, and any other value has the text
-- that the database writes.
abbrev pub arrow_text : (jsonb_text : Json → String) → Option Json → Option String
arrow_text jsonb_text none = none
arrow_text jsonb_text (some null_value) = none
arrow_text jsonb_text (some (text t)) = some t
arrow_text jsonb_text (some value) = some (jsonb_text value)

abbrev pub field_is : (jsonb_text : Json → String) → (key value : String) → Option Fields → Bool
field_is jsonb_text key value none = false
field_is jsonb_text key value (some fields) =
    is_text (arrow_text jsonb_text (get_field key fields)) value

-- the query's `WHERE`
unfoldable pub is_prior :
    (jsonb_text : Json → String) → (actor_user_id action key : String) → AuditRow → Bool
is_prior jsonb_text actor_user_id action key row =
    row.actor_user_id == actor_user_id
    && row.action == action
    && field_is jsonb_text "idempotencyKey" key row.metadata
    && field_is jsonb_text "outcome" "ALLOWED" row.metadata

-- `ORDER BY created_at ASC LIMIT 1`; of two rows with one time, the one that was stored
-- first, where the query leaves the choice to the database
abbrev pub older_of : AuditRow → Option AuditRow → AuditRow
older_of row none = row
older_of row (some other) = if leb row.created_at other.created_at then row else other

unfoldable pub oldest : List AuditRow → Option AuditRow
oldest [] = none
oldest (row ∷ rows) = some (older_of row (oldest rows))

abbrev pub result_of : Option Fields → Option Json
result_of none = none
result_of (some fields) = get_field "result" fields

-- `undefined` and null are both no result
abbrev pub present : Option Json → Option Json
present (some null_value) = none
present o = o

abbrev pub row_result : Option AuditRow → Option Json
row_result none = none
row_result (some row) = present (result_of row.metadata)

unfoldable pub find_idempotent_replay :
    (jsonb_text : Json → String) → (actor_user_id action key : String) → List AuditRow → Option Json
unfolding is_prior oldest
find_idempotent_replay jsonb_text actor_user_id action key rows =
    row_result (oldest (filter (is_prior jsonb_text actor_user_id action key) rows))
