-- ===== src/Commands/Ledger.antt =====
-- runtime/commands/runtime-context.ts: a write command runs in one transaction, leaves one audit
-- event and is replayed from it. The audit trail and the other tables are the state. A DTO is kept
-- as JSON.
pub mod Replay
use geoplane.Base.{
  ℕ, String, Bool, true, false, ◌&&◌, ◌==◌, Option, none, some, List, [], ◌∷◌, ◌++◌, Result, ok,
  err, get_or, is_text, filter, leb, if◌then◌else◌,
}
use geoplane.Base.Text.{is_empty_text}
use geoplane.Base.Host.{Host}
use geoplane.Base.Json.{
  Json, Fields, no_fields, null_value, flag, number, text, array, object, get_field, set_field,
}
use geoplane.Tenancy.Audit.{record_audit_event}
use geoplane.Auth.Responses.{ApiError, ApiErrorCode, forbidden, validation_failed}
use geoplane.Auth.Accounts.{Outcome, allowed, denied}
use geoplane.Auth.Runtime.{outcome_text}
use geoplane.Commands.Events.{
  CommandActor, CommandAuditFields, Database, Stamp, append_audit, find_idempotent_replay,
}

pub record CommandResult : Type 0 where
  pub dto : Json
  pub audit : CommandAuditFields

pub record WriteCommandOutcome : Type 0 where
  pub replayed : Bool
  pub dto : Json

-- What a command throws: an abort with its response, a domain error, or anything else.
pub data CommandError : Type 0 where
  abort : ApiError → CommandError
  authorization_denied : (message : String) → CommandError
  other_error : (message : String) → CommandError
  no_error_object : CommandError

abbrev pub Transaction : Type 0 → Type 0 → Type 0
Transaction T A = Database T → Result CommandError A × Database T

-- `db.transaction(work)`: what a failing unit wrote is rolled back
abbrev keep_or_roll_back :
    {T A : Type 0}
    → Database T
    → Result CommandError A × Database T
    → Result CommandError A × Database T
keep_or_roll_back db (ok a, after) = (ok a, after)
keep_or_roll_back db (err e, after) = (err e, db)

abbrev pub transaction : {T A : Type 0} → Transaction T A → Transaction T A
transaction work db = keep_or_roll_back db (work db)

-- the key of a command, where it is not empty
abbrev pub usable_key : Option String → Option String
usable_key none = none
usable_key (some key) = if is_empty_text key then none else some key

abbrev pub with_key : Option String → Fields → Fields
with_key none fields = fields
with_key (some key) fields = set_field "idempotencyKey" (text key) fields

abbrev pub ledger_fields : (key : Option String) → CommandResult → CommandAuditFields
ledger_fields key result = record (result.audit) {
  metadata =
      some (with_key key (set_field "result" result.dto (get_or result.audit.metadata no_fields)));
}

module _ {T : Type 0} (host : Host) (jsonb_text : Json → String) where
  abbrev finish :
      CommandActor
      → (action : String) (key : Option String) → Stamp
      → Result CommandError CommandResult × Database T
      → Result CommandError WriteCommandOutcome × Database T
  finish actor action key stamp (err e, after) = (err e, after)
  finish actor action key stamp (ok result, after) = (
    ok (record { replayed = false; dto = result.dto }),
    append_audit host actor action allowed (ledger_fields key result) stamp after,
  )

  abbrev perform_command :
      CommandActor
      → (action : String) (key : Option String) → Stamp
      → Transaction T CommandResult
      → Transaction T WriteCommandOutcome
  perform_command actor action key stamp perform db = finish actor action key stamp (perform db)

  abbrev prior_result : CommandActor → (action : String) → Option String → Database T → Option Json
  prior_result actor action none db = none
  prior_result actor action (some key) db =
      find_idempotent_replay jsonb_text actor.user_id action key db.audit_events

  abbrev command_body :
      CommandActor
      → (action : String) (key : Option String) → Stamp
      → Transaction T CommandResult
      → Transaction T WriteCommandOutcome
  command_body actor action key stamp perform db = elim (prior_result actor action key db) [
    | some prior ↦ (ok (record { replayed = true; dto = prior }), db)
    | none ↦ perform_command actor action key stamp perform db
  ]

  -- `perform` is given its context by the caller: the clock, the actor and the tables.
  unfoldable pub run_write_command :
      CommandActor
      → (action : String) (idempotency_key : Option String) → Stamp
      → Transaction T CommandResult
      → Transaction T WriteCommandOutcome
  unfolding find_idempotent_replay append_audit
  run_write_command actor action idempotency_key stamp perform =
      transaction (command_body actor action (usable_key idempotency_key) stamp perform)

  unfoldable pub record_denied_command :
      CommandActor → (action : String) → CommandAuditFields → Stamp → Database T → Database T
  unfolding append_audit
  record_denied_command actor action fields stamp db =
      append_audit host actor action denied fields stamp db

-- geo-command-runtime.ts, `invokeDomain`: a domain error becomes an abort
unfoldable pub translate_error : CommandError → CommandError
translate_error (abort response) = abort response
translate_error (authorization_denied message) =
    abort (record { code = forbidden; message = message; status = none })
translate_error (other_error message) =
    abort (record { code = validation_failed; message = message; status = none })
translate_error no_error_object = no_error_object

abbrev translate : {A S : Type 0} → Result CommandError A × S → Result CommandError A × S
translate (ok a, st) = (ok a, st)
translate (err e, st) = (err (translate_error e), st)

unfoldable pub invoke_domain : {T A : Type 0} → Transaction T A → Transaction T A
unfolding translate_error
invoke_domain call db = translate (call db)
