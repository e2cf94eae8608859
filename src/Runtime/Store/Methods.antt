-- ===== src/Runtime/Store/Methods.antt =====
-- The methods of `TaskStore` as functions of the database, at a time `now`. A transaction that fails
-- leaves the database as it was; one that commits and then fails returns it beside the error.
use cake_splitter.Prelude.{
  ℕ, Bool, not, ◌&&◌, List, [], ◌∷◌, ◌++◌, none, some, Text, codes, text_eq, ltb, leb, ◌==◌, length,
  count, Result, ok, err, reject_if, ok_or, map_err, checked_add, ◌>>=◌, ◌>>◌, if◌then◌else◌,
}
use cake_splitter.Format.Manifest.{External, max_slice_count}
use cake_splitter.Runtime.Status.{
  queued, is_terminal, status_eq, status_name, sql_terminal, TaskPriority,
}
use cake_splitter.Runtime.Record.{
  TaskRecord, DesktopPreferences, validate_preferences, max_nonterminal_tasks, max_task_history,
}
use cake_splitter.Runtime.Shape.{is_some, validate_record_shape}
use cake_splitter.Runtime.Store.{
  StoreError, database, serialization, not_found, corrupt_state, task_active, task_plan_too_large,
  invalid_priority_change, stale_epoch, queue_capacity_reached, checkpoint_history_capacity_reached,
  StoredRow, Codec, Database, read_row, count_nonterminal, delete_where,
  count_checkpointed_terminal, next_queue_order, encode, decode_row, prune_history,
  prune_with_preferences, quarantine_row,
}

-- the rows of `UPDATE … WHERE id = ? AND revision = ? AND epoch = ?`
abbrev pub matches_update : StoredRow → ℕ → ℕ → StoredRow → Bool
matches_update new revision epoch row =
    text_eq row.id new.id && row.revision == revision && row.epoch == epoch

abbrev pub written : StoredRow → StoredRow → StoredRow
written new row = record row {
  revision = new.revision;
  status = new.status;
  updated_at = new.updated_at;
  data_json = new.data_json;
  checksum = new.checksum;
}

unfoldable pub update_where : List StoredRow → StoredRow → ℕ → ℕ → List StoredRow
update_where [] new revision epoch = []
update_where (row ∷ rows) new revision epoch =
    let rest = update_where rows new revision epoch in
    if matches_update new revision epoch row then written new row ∷ rest else row ∷ rest

-- the row that INSERT and UPDATE write
abbrev pub row_of : TaskRecord → Text × Text → StoredRow
row_of r encoded = record {
  id = r.id;
  epoch = r.epoch;
  revision = r.revision;
  status = status_name r.status;
  updated_at = r.updated_at;
  data_json = encoded.0;
  checksum = encoded.1;
}

module _ {Json : Type 0} (x : External) (c : Codec Json) (now : Text) where
  -- a queued record with no place in the queue is given the next
  unfoldable pub assign_order : Database → TaskRecord → Result StoreError TaskRecord
  assign_order db r =
      if status_eq r.status queued && r.queue_order == 0
      then (do order ← next_queue_order x c db.tasks; ok (record r { queue_order = order }))
      else ok r

  -- the tests before the record is completed
  unfoldable pub check_admission : Database → TaskRecord → Result StoreError (Unit {0})
  check_admission db given = do
    reject_if (ltb max_slice_count given.plan.slice_count) task_plan_too_large
    reject_if (not (given.epoch == db.epoch)) (stale_epoch db.epoch given.epoch)
    reject_if
        (not (is_terminal given.status) && leb max_nonterminal_tasks (count_nonterminal db.tasks))
        (queue_capacity_reached max_nonterminal_tasks)
    reject_if
        (is_terminal given.status
          && is_some given.checkpoint
          && leb max_task_history (count_checkpointed_terminal x c db.tasks))
        (checkpoint_history_capacity_reached max_task_history)

  -- the encoded record, once its shape is found valid
  unfoldable pub checked_encoding : TaskRecord → Result StoreError (Text × Text)
  checked_encoding r = do
    encoded ← encode x c r
    map_err (λ reason. corrupt_state) (validate_record_shape x r)
    ok encoded

  abbrev pub first_revision : TaskRecord → TaskRecord
  first_revision r = record r { revision = 1; updated_at = now }

  unfoldable pub insert : Database → TaskRecord → Result StoreError (TaskRecord × Database)
  insert db given = do
    check_admission db given
    ordered ← assign_order db given
    encoded ← checked_encoding (first_revision ordered)
    reject_if (is_some (read_row db.tasks ordered.id)) (database (codes "UNIQUE constraint failed"))
    pruned ←
        prune_history x c now
          (record db { tasks = db.tasks ++ row_of (first_revision ordered) encoded ∷ [] })
    ok (first_revision ordered, pruned)

  abbrev pub next_revision : TaskRecord → ℕ → TaskRecord
  next_revision r revision = record r { revision = revision; updated_at = now }

  -- the capacity tests of `mutate`, on the record before and after the change
  unfoldable pub check_change : Database → TaskRecord → TaskRecord → Result StoreError (Unit {0})
  check_change db old changed = do
    reject_if
        (is_terminal old.status
          && not (is_terminal changed.status)
          && leb max_nonterminal_tasks (count_nonterminal db.tasks))
        (queue_capacity_reached max_nonterminal_tasks)
    reject_if
        (is_terminal changed.status
          && is_some changed.checkpoint
          && not (is_terminal old.status && is_some old.checkpoint)
          && leb max_task_history (count_checkpointed_terminal x c db.tasks))
        (checkpoint_history_capacity_reached max_task_history)

  -- `mutate` from the decoded record on
  unfoldable pub mutate_decoded :
      Database
      → ℕ
      → (TaskRecord → Result StoreError TaskRecord)
      → StoredRow
      → TaskRecord
      → Result StoreError (TaskRecord × Database)
  mutate_decoded db epoch change row old = do
    reject_if (not (old.epoch == epoch)) (stale_epoch epoch old.epoch)
    changed ← change old
    check_change db old changed
    revision ← ok_or (checked_add changed.revision 1) corrupt_state
    encoded ← checked_encoding (next_revision changed revision)
    let new = row_of (next_revision changed revision) encoded
    reject_if (not (count (matches_update new row.revision epoch) db.tasks == 1))
        (stale_epoch db.epoch epoch)
    pruned ←
        prune_history x c now (record db { tasks = update_where db.tasks new row.revision epoch })
    ok (next_revision changed revision, pruned)

  -- the result, with the database after it: as it was, unless a row went to quarantine
  unfoldable pub mutate :
      Database
      → Text
      → ℕ
      → (TaskRecord → Result StoreError TaskRecord)
      → Result StoreError TaskRecord × Database
  unfolding mutate_decoded
  mutate db id epoch change =
      if not (epoch == db.epoch)
      then (err (stale_epoch db.epoch epoch), db)
      else elim (read_row db.tasks id) [
        | none ↦ (err not_found, db)
        | some row ↦ elim (decode_row x c row) [
          | err reason ↦ (err corrupt_state, quarantine_row x c now db row reason)
          | ok old ↦ elim (mutate_decoded db epoch change row old) [
            | err e ↦ (err e, db)
            | ok done ↦ (ok done.0, done.1)
          ]
        ]
      ]

  unfoldable pub set_priority :
      Database → Text → ℕ → TaskPriority → Result StoreError TaskRecord × Database
  unfolding mutate
  set_priority db id epoch priority = mutate db id epoch (λ r.
      if not (status_eq r.status queued)
      then err invalid_priority_change
      else ok (record r { priority = priority }))

  unfoldable pub get : Database → Text → Result StoreError TaskRecord × Database
  get db id = elim (read_row db.tasks id) [
    | none ↦ (err not_found, db)
    | some row ↦ elim (decode_row x c row) [
      | ok r ↦ (ok r, db)
      | err reason ↦ (err corrupt_state, quarantine_row x c now db row reason)
    ]
  ]

  unfoldable pub remove_terminal : Database → Text → Result StoreError Database
  remove_terminal db id = do
    row ← ok_or (read_row db.tasks id) not_found
    r ← map_err (λ reason. corrupt_state) (decode_row x c row)
    reject_if (not (is_terminal r.status)) task_active
    ok (record db { tasks = delete_where (λ other. text_eq other.id id) db.tasks })

  unfoldable pub save_preferences : Database → DesktopPreferences → Result StoreError Database
  save_preferences db preferences = do
    reject_if (not (validate_preferences preferences)) corrupt_state
    json ← map_err serialization (c.preferences_to_text preferences)
    ok (record db {
      settings = some (json, c.sha256_hex json);
      tasks = prune_with_preferences x c now preferences db.tasks;
    })

-- `DELETE FROM tasks WHERE id = ?1 AND status = 'queued'`
unfoldable pub remove_failed_admission : Database → Text → Result StoreError Database
remove_failed_admission db id =
    let admitted = λ (row : StoredRow). text_eq row.id id && text_eq row.status (codes "queued") in
    if count admitted db.tasks == 1
    then ok (record db { tasks = delete_where admitted db.tasks })
    else err task_active

unfoldable pub clear_terminal_status : Database → Text → ℕ × Database
clear_terminal_status db status =
    let cleared = λ (row : StoredRow). text_eq row.status status && sql_terminal row.status in
    (count cleared db.tasks, record db { tasks = delete_where cleared db.tasks })

unfoldable pub clear_quarantine : Database → ℕ × Database
clear_quarantine db = (length db.quarantine, record db { quarantine = [] })

unfoldable pub clear_all : Database → Result StoreError (ℕ × Database)
clear_all db = do
  next_epoch ← ok_or (checked_add db.epoch 1) corrupt_state
  ok (next_epoch, record db { tasks = []; quarantine = []; epoch = next_epoch })

unfoldable pub ensure_admission_available : Database → Result StoreError (Unit {0})
ensure_admission_available db =
    reject_if (leb max_nonterminal_tasks (count_nonterminal db.tasks))
      (queue_capacity_reached max_nonterminal_tasks)
