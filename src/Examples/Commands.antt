-- ===== src/Examples/Commands.antt =====
-- A command that is sent twice with its key.
use geoplane.Base.{ℕ, ◌+◌, String, true, false, none, some, [], ◌∷◌, ◌++◌, ok, ◌≡◌, refl}
use geoplane.Base.Json.{Json, text}
use geoplane.Commands.Events.{
  CommandActor, AuditRow, Database, Stamp, find_idempotent_replay, oldest,
}
use geoplane.Commands.Ledger.{CommandResult, Transaction, run_write_command}
use geoplane.Commands.Ledger.Replay.{run_write_command-run_write_command}
use geoplane.Examples.Data.{marks}

abbrev actor : CommandActor
actor = record { user_id = "u1"; organization_id = "acme" }

abbrev stamp : String → ℕ → Stamp
stamp id time = record { row_id = id; row_time = time; uuid = id; now = time }

-- a work that counts and answers a name
abbrev count_up : Transaction ℕ CommandResult
count_up db = (
  ok (record {
    dto = text "created";
    audit = record {
      client_organization_id = some "acme";
      project_id = none;
      target_type = none;
      target_id = none;
      metadata = none;
    };
  }),
  record db { tables = db.tables + 1 },
)

abbrev empty : Database ℕ
empty = record { tables = 0; audit_events = [] }

abbrev counted : Database ℕ
counted = record { tables = 1; audit_events = [] }

abbrev created : CommandResult
created = record {
  dto = text "created";
  audit = record {
    client_organization_id = some "acme";
    project_id = none;
    target_type = none;
    target_id = none;
    metadata = none;
  };
}

abbrev as_null : Json → String
as_null _ = "null"

fresh : find_idempotent_replay as_null "u1" "organization.create" "k" [] ≡ none
unfolding find_idempotent_replay oldest
fresh = refl

run_write_command-run_write_command_example :
    (first : Database ℕ) × ((run_write_command marks as_null actor "organization.create"
          (some "k")
          (stamp "e1" 5)
          count_up
          empty
        ≡ (ok (record { replayed = false; dto = text "created" }), first))
      × (first.tables ≡ 1)
      × ((event : AuditRow) × (first.audit_events ≡ [] ++ event ∷ []))
      × (run_write_command marks as_null actor "organization.create"
            (some "k")
            (stamp "e2" 6)
            count_up
            (record { tables = 7; audit_events = first.audit_events ++ [] })
          ≡ (
            ok (record { replayed = true; dto = text "created" }),
            record { tables = 7; audit_events = first.audit_events ++ [] },
          )))
run_write_command-run_write_command_example =
    run_write_command-run_write_command marks as_null actor "organization.create" "k" (stamp "e1" 5)
      (stamp "e2" 6) count_up count_up empty counted created 7 [] refl fresh refl refl refl tt
