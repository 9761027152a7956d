-- ===== src/Commands/Ledger/Replay.antt =====
-- A command that is sent again with its key.
use mathlib.Core.List.{append_assoc}
use geoplane.Base.{
  ℕ, ◌≤◌, String, Bool, true, false, none, some, List, [], ◌∷◌, ◌++◌, ok, ◌≡◌, refl, arith, inl,
  inr, eq_refl, get_or, filter, All, Bool-cases, Option-cases,
}
use geoplane.Base.Text.{is_empty_text}
use geoplane.Base.Host.{Host}
use geoplane.Base.Json.{Json, no_fields, text, set_field, get_field-set_field}
use geoplane.Auth.Accounts.{allowed}
use geoplane.Commands.Events.{
  CommandActor, AuditRow, Database, Stamp, audit_row, append_audit, is_prior, oldest, older_of,
  present, result_of, find_idempotent_replay,
}
use geoplane.Commands.Ledger.{CommandResult, Transaction, ledger_fields, run_write_command}

filter-All :
    (P : AuditRow → Type 0) (p : AuditRow → Bool) (rows : List AuditRow)
    → All P rows
    → All P (filter p rows)
filter-All P p [] h = tt
filter-All P p (row ∷ rows) h = elim (Bool-cases (p row)) [
  | inl e ↦ rw e (h.0, filter-All P p rows h.1)
  | inr e ↦ rw e (filter-All P p rows h.1)
]

filter_past :
    (p : AuditRow → Bool) (rows more : List AuditRow)
    → filter p rows ≡ []
    → filter p (rows ++ more) ≡ filter p more
filter_past p [] more h = refl
filter_past p (row ∷ rows) more h = elim (Bool-cases (p row)) [
  | inl e ↦ absurd (ground arith)
  | inr e ↦ rw e (filter_past p rows more (rw e at h))
]

oldest_bounds :
    (t : ℕ) (rows : List AuditRow) (row : AuditRow)
    → All (λ r. t ≤ r.created_at) rows
    → oldest rows ≡ some row
    → t ≤ row.created_at
unfolding oldest
oldest_bounds t [] row h e = absurd (ground arith)
oldest_bounds t (first ∷ rows) row h e = elim (Option-cases (oldest rows)) [
  | inl o ↦ ground arith
  | inr (other, o) ↦
      let below : t ≤ other.created_at = oldest_bounds t rows other h.1 o in ground arith
]

oldest_first :
    (row : AuditRow) (rows : List AuditRow)
    → All (λ r. row.created_at ≤ r.created_at) rows
    → older_of row (oldest rows) ≡ row
oldest_first row rows h = elim (Option-cases (oldest rows)) [
  | inl o ↦ rw o refl
  | inr (other, o) ↦ ground (arith, o, oldest_bounds row.created_at rows other h o)
]

module _ (host : Host) (jsonb_text : Json → String) where
  ledger_row_lem :
      (actor : CommandActor) (action key : String) (result : CommandResult) (stamp : Stamp)
      → (is_prior jsonb_text actor.user_id action key
            (audit_row host actor action allowed (ledger_fields (some key) result) stamp)
          ≡ true)
        × (result_of
              (audit_row host actor action allowed (ledger_fields (some key) result) stamp).metadata
            ≡ some result.dto)
  unfolding is_prior audit_row
  ledger_row_lem actor action key result stamp =
      let base = get_or result.audit.metadata no_fields in
      let one = set_field "result" result.dto base in
      let two = set_field "idempotencyKey" (text key) one in
      ground (
        arith,
        eq_refl actor.user_id,
        eq_refl action,
        eq_refl key,
        get_field-set_field "outcome" "outcome" (text "ALLOWED") two,
        get_field-set_field "outcome" "idempotencyKey" (text "ALLOWED") two,
        get_field-set_field "outcome" "result" (text "ALLOWED") two,
        get_field-set_field "idempotencyKey" "idempotencyKey" (text key) one,
        get_field-set_field "idempotencyKey" "result" (text key) one,
        get_field-set_field "result" "result" result.dto base,
      )

  replay_at :
      (user action key : String) (row : AuditRow) (dto : Json) (before more : List AuditRow)
      → is_prior jsonb_text user action key row ≡ true
      → result_of row.metadata ≡ some dto
      → present (some dto) ≡ some dto
      → filter (is_prior jsonb_text user action key) before ≡ []
      → All (λ r. row.created_at ≤ r.created_at) more
      → find_idempotent_replay jsonb_text user action key ((before ++ row ∷ []) ++ more) ≡ some dto
  unfolding find_idempotent_replay
  replay_at user action key row dto before more prior answer is_dto unused later =
      let p = is_prior jsonb_text user action key in
      rw (append_assoc before (row ∷ []) more, filter_past p before (row ∷ more) unused, prior)
        (rw
          (oldest_first row (filter p more)
            (filter-All (λ r. row.created_at ≤ r.created_at) p more later))
          (rw answer is_dto))

  replay_found :
      (actor : CommandActor) (action key : String) (result : CommandResult) (stamp : Stamp)
      (before more : List AuditRow)
      → present (some result.dto) ≡ some result.dto
      → filter (is_prior jsonb_text actor.user_id action key) before ≡ []
      → All (λ r. stamp.row_time ≤ r.created_at) more
      → find_idempotent_replay jsonb_text actor.user_id action key (
          (before
            ++ audit_row host actor action allowed (ledger_fields (some key) result) stamp ∷ [])
          ++ more)
        ≡ some result.dto
  unfolding audit_row
  replay_found actor action key result stamp before more is_dto unused later =
      let row = audit_row host actor action allowed (ledger_fields (some key) result) stamp in
      let (prior, answer) = ledger_row_lem actor action key result stamp in
      replay_at actor.user_id action key row result.dto before more prior answer is_dto unused later

  -- A command with a key, whose first run finds no earlier answer and whose work leaves no event
  -- that counts as one and answers a DTO other than null, leaves one event behind its work's.
  -- Sent again with its key by its actor, whatever its work would then do, whatever the tables
  -- then hold and whatever was appended to the trail since then, with times not before its event's,
  -- it answers that DTO as a replay and changes nothing.
  pub run_write_command-run_write_command :
      {T : Type 0} (actor : CommandActor) (action key : String) (stamp again : Stamp)
      (perform perform_again : Transaction T CommandResult) (db worked : Database T)
      (result : CommandResult) (tables : T) (more : List AuditRow)
      → is_empty_text key ≡ false
      → find_idempotent_replay jsonb_text actor.user_id action key db.audit_events ≡ none
      → perform db ≡ (ok result, worked)
      → filter (is_prior jsonb_text actor.user_id action key) worked.audit_events ≡ []
      → present (some result.dto) ≡ some result.dto
      → All (λ r. stamp.row_time ≤ r.created_at) more
      → (first : Database T) × ((run_write_command host jsonb_text actor action
              (some key)
              stamp
              perform
              db
            ≡ (ok (record { replayed = false; dto = result.dto }), first))
          × (first.tables ≡ worked.tables)
          × ((event : AuditRow) × (first.audit_events ≡ worked.audit_events ++ event ∷ []))
          × (run_write_command host jsonb_text actor action
                (some key)
                again
                perform_again
                (record { tables = tables; audit_events = first.audit_events ++ more })
              ≡ (
                ok (record { replayed = true; dto = result.dto }),
                record { tables = tables; audit_events = first.audit_events ++ more },
              )))
  unfolding run_write_command append_audit
  run_write_command-run_write_command actor action key stamp again perform perform_again db worked
        result tables more named fresh work unused is_dto later =
      let event = audit_row host actor action allowed (ledger_fields (some key) result) stamp in
      (
        record { tables = worked.tables; audit_events = worked.audit_events ++ event ∷ [] },
        (
          ground (arith, fresh, work),
          refl,
          (event, refl),
          ground (
            arith,
            replay_found actor action key result stamp worked.audit_events more is_dto unused later,
          ),
        ),
      )
