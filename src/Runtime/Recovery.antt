-- ===== src/Runtime/Recovery.antt =====
-- `TaskStore::recover_after_restart` and `storage_summary` of
-- crates/cakesplitter-desktop-runtime/src/store.rs.
pub mod Bounded
pub mod Covered
pub mod Listed
pub mod Interrupted
pub mod Idle
use cake_splitter.Prelude.{
  ℕ, zero, suc, ◌+◌, ◌-◌, min, Bool, true, false, not, ◌&&◌, ◌||◌, List, [], ◌∷◌, Text, codes,
  text_eq, ltb, any, is_empty, length, count, take, drop, Result, ok, err, map_err, ◌>>=◌,
  if◌then◌else◌,
}
use cake_splitter.Format.Manifest.{External}
use cake_splitter.Format.Filename.{contains_str}
use cake_splitter.Runtime.Status.{
  TaskStatus, running, pausing, paused, resuming, cancelling, interrupted, completed, is_terminal,
  status_eq, sql_terminal,
}
use cake_splitter.Runtime.Record.{TaskRecord, transition, max_nonterminal_tasks}
use cake_splitter.Runtime.Shape.{is_some}
use cake_splitter.Runtime.Store.{
  StoreError, invalid_transition, StoredRow, Codec, Database, count_nonterminal, delete_where,
  text_ltb, quarantine_row, prune_history, preferences_of, max_quarantine_records,
}
use cake_splitter.Runtime.Store.Methods.{mutate}
use cake_splitter.Runtime.Scheduler.{Listing, list_validated}

pub data StartupRecoveryState : Type 0 where
  ready recovery_required quarantined capacity_exceeded unsupported corrupt : StartupRecoveryState

pub record StartupRecoveryReport : Type 0 where
  pub state : StartupRecoveryState
  pub recovered_tasks : ℕ
  pub quarantined_records : ℕ
  pub capacity_exceeded_records : ℕ

abbrev pub max_recovery_records : ℕ
max_recovery_records = max_nonterminal_tasks

-- the statuses of the two `matches!`
unfoldable pub is_active : TaskStatus → Bool
is_active running = true
is_active pausing = true
is_active paused = true
is_active resuming = true
is_active cancelling = true
is_active _ = false

-- `ORDER BY updated_at ASC, id ASC`: whether a row stands before another
abbrev pub is_older : StoredRow → StoredRow → Bool
is_older row other =
    text_ltb row.updated_at other.updated_at
    || (text_eq row.updated_at other.updated_at && text_ltb row.id other.id)

unfoldable pub insert_older : StoredRow → List StoredRow → List StoredRow
insert_older row [] = row ∷ []
insert_older row (other ∷ rows) =
    let later = insert_older row rows in
    if is_older other row then other ∷ later else row ∷ other ∷ rows

unfoldable pub oldest_first : List StoredRow → List StoredRow
unfolding insert_older
oldest_first [] = []
oldest_first (row ∷ rows) = insert_older row (oldest_first rows)

-- the nonterminal rows after the oldest ones that may stay
unfoldable pub excess_rows : List StoredRow → List StoredRow
unfolding oldest_first
excess_rows rows =
    drop max_recovery_records (oldest_first (delete_where (λ row. sql_terminal row.status) rows))

-- `id IN (…)`
abbrev pub has_id_in : List StoredRow → StoredRow → Bool
has_id_in others row = any (λ other. text_eq other.id row.id) others

-- the tests of a reason for the quarantine
unfoldable pub is_corrupt_reason : Text → Bool
is_corrupt_reason reason =
    contains_str (codes "checksum") reason
    || contains_str (codes "serialization") reason
    || contains_str (codes "JSON") reason

unfoldable pub is_unsupported : StartupRecoveryState → Bool
is_unsupported unsupported = true
is_unsupported _ = false

unfoldable pub state_of : StartupRecoveryState → ℕ → List Text → ℕ → StartupRecoveryState
unfolding is_unsupported is_corrupt_reason
state_of prior exceeded reasons recovered =
    if is_unsupported prior
    then unsupported
    else if ltb 0 exceeded
    then capacity_exceeded
    else if any is_corrupt_reason reasons
    then corrupt
    else if any (contains_str (codes "schema version")) reasons
    then unsupported
    else if not (is_empty reasons)
    then quarantined
    else if ltb 0 recovered
    then recovery_required
    else ready

module _ {Json : Type 0} (x : External) (c : Codec Json) (now : Text) where
  unfoldable pub quarantine_all : Database → List StoredRow → Database
  quarantine_all db [] = db
  quarantine_all db (row ∷ rows) =
      quarantine_all
        (quarantine_row x c now db row
          (codes "startup recovery capacity exceeded; record was not resumed"))
        rows

  -- the rows that go to quarantine as samples
  abbrev pub samples : Database → List StoredRow
  samples db = take max_quarantine_records (excess_rows db.tasks)

  -- the DELETE, of what is in excess then
  unfoldable pub delete_excess : Database → Database
  unfolding excess_rows
  delete_excess db = record db { tasks = delete_where (has_id_in (excess_rows db.tasks)) db.tasks }

  unfoldable pub trim : Database → Database
  unfolding quarantine_all delete_excess
  trim db =
      if ltb max_recovery_records (count_nonterminal db.tasks)
      then delete_excess (quarantine_all db (samples db))
      else db

  abbrev pub interrupt : TaskRecord → Result StoreError TaskRecord
  interrupt task = map_err (λ e. invalid_transition) (transition now task interrupted)

  -- the loop over the records; it stops at an error
  unfoldable pub interrupt_all : Database → List TaskRecord → Result StoreError ℕ × Database
  interrupt_all db [] = (ok 0, db)
  interrupt_all db (r ∷ rs) =
      let others = interrupt_all db rs in
      elim (is_active r.status) [
        | false ↦ others
        | true ↦
            let (done, db1) = mutate x c now db r.id r.epoch interrupt in
            elim done [
              | err e ↦ (err e, db1)
              | ok _ ↦ let (rest, db2) = interrupt_all db1 rs in (rest >>= λ n. ok (suc n), db2)
            ]
      ]

  abbrev exceeded : Database → ℕ
  exceeded db = count_nonterminal db.tasks - max_recovery_records

  -- the report, from the state before, the number in excess, the samples, the reasons and the tasks
  unfoldable pub report_of : StartupRecoveryState → ℕ → ℕ → List Text → ℕ → StartupRecoveryReport
  unfolding state_of
  report_of prior exceeded sampled reasons recovered = record {
    state = state_of prior exceeded reasons recovered;
    recovered_tasks = recovered;
    quarantined_records =
        min (length reasons + sampled + (if is_unsupported prior then 1 else 0))
          max_quarantine_records;
    capacity_exceeded_records = exceeded;
  }

  abbrev pub sampled : Database → ℕ
  sampled db = if ltb 0 (exceeded db) then length (samples db) else 0

  unfoldable pub recover_after_restart :
      StartupRecoveryState → Database → Result StoreError StartupRecoveryReport × Database
  unfolding trim interrupt_all report_of
  recover_after_restart prior db = elim (prune_history x c now (trim db)) [
    | err e ↦ (err e, db)
    | ok pruned ↦
        let listing = list_validated x c now pruned in
        let (recovered, after) = interrupt_all listing.db listing.records in
        (
          recovered >>= λ n. ok (report_of prior (exceeded db) (sampled db) listing.reasons n),
          after,
        )
  ]
