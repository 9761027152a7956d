-- ===== src/Tenancy/Audit.antt =====
-- contracts/tenancy/audit.ts: an audit event and its hash. `JSON.stringify` is written out for the
-- one object that is hashed; the random UUID is an argument.
use Prim.Native.Nat.{◌/◌, ◌%◌}
use Prim.Native.Char.{Char, code}
use Prim.Native.String.{◌++◌ as join, char_at}
use geoplane.Base.{ℕ, String, Option, none, some, get_or, eqb, ltb, if◌then◌else◌}
use geoplane.Base.Host.{Host}
use geoplane.Tenancy.Entities.{AuditEvent, Metadata}

pub record AuditEventHashInput : Type 0 where
  pub action : String
  pub target_type : Option String
  pub target_id : Option String
  pub actor_user_id : String
  pub created_at : String

pub record RecordAuditEventInput : Type 0 where
  pub id : Option String
  pub organization_id : String
  pub actor_user_id : String
  pub actor_organization_id : String
  pub client_organization_id : Option String
  pub project_id : Option String
  pub action : String
  pub target_type : Option String
  pub target_id : Option String
  pub metadata : Option Metadata
  pub now : ℕ

hex_digit : ℕ → String
hex_digit n = String.◌∷◌ (char_at "0123456789abcdef" n) ""

-- one character inside a JSON text
escape_char : Char → String
unfolding hex_digit
escape_char c =
    if eqb (code c) 34
    then "\\\""
    else if eqb (code c) 92
    then "\\\\"
    else if eqb (code c) 8
    then "\\b"
    else if eqb (code c) 12
    then "\\f"
    else if eqb (code c) 10
    then "\\n"
    else if eqb (code c) 13
    then "\\r"
    else if eqb (code c) 9
    then "\\t"
    else if ltb (code c) 32
    then join "\\u00" (join (hex_digit (code c / 16)) (hex_digit (code c % 16)))
    else String.◌∷◌ c ""

escape : String → String
escape String.[] = ""
escape (String.◌∷◌ c s) = join (escape_char c) (escape s)

json_text : String → String
json_text s = join "\"" (join (escape s) "\"")

json_nullable : Option String → String
json_nullable none = "null"
json_nullable (some s) = json_text s

-- the fixed-key-order text that is hashed
unfoldable pub stable_json : AuditEventHashInput → String
unfolding escape_char escape json_text json_nullable
stable_json input = join "{\"action\":" (
    join (json_text input.action) (
      join ",\"targetType\":" (
        join (json_nullable input.target_type) (
          join ",\"targetId\":" (
            join (json_nullable input.target_id) (
              join ",\"actorUserId\":" (
                join (json_text input.actor_user_id)
                  (join ",\"createdAt\":" (join (json_text input.created_at) "}")))))))))

module _ (host : Host) where
  unfoldable pub compute_audit_event_hash : AuditEventHashInput → String
  compute_audit_event_hash input = host.sha256_hex (stable_json input)

  unfoldable pub record_audit_event : (uuid : String) → RecordAuditEventInput → AuditEvent
  unfolding compute_audit_event_hash
  record_audit_event uuid input =
      let created_at = host.to_iso_string input.now in
      record {
        id = get_or input.id uuid;
        organization_id = input.organization_id;
        actor_user_id = input.actor_user_id;
        actor_organization_id = input.actor_organization_id;
        client_organization_id = input.client_organization_id;
        project_id = input.project_id;
        action = input.action;
        target_type = input.target_type;
        target_id = input.target_id;
        metadata = input.metadata;
        event_hash = compute_audit_event_hash (record {
          action = input.action;
          target_type = input.target_type;
          target_id = input.target_id;
          actor_user_id = input.actor_user_id;
          created_at = created_at;
        });
        created_at = created_at;
      }
