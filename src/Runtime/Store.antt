-- ===== src/Runtime/Store.antt =====
-- `TaskStore` of crates/cakesplitter-desktop-runtime/src/store.rs: the rows of its SQL tables, and
-- their encoding. The methods are in the child module Methods.
pub mod Methods
pub mod Rows
pub mod Capacity
pub mod Reach
pub mod Epochs
use cake_splitter.Prelude.{
  ℕ, zero, suc, ◌+◌, ◌-◌, ◌/◌, min, max, ◌≤◌, Bool, true, false, not, ◌&&◌, ◌||◌, List, [], ◌∷◌,
  ◌++◌, map, Option, none, some, Text, codes, byte_len, utf8_len, text_eq, ltb, leb, ◌==◌, any,
  length, count, take, Result, ok, err, reject_if, ok_or, map_err, checked_add, ◌>>=◌, ◌>>◌,
  if◌then◌else◌,
}
use cake_splitter.Format.Manifest.{External, max_slice_count}
use cake_splitter.Format.Decimal.{to_decimal}
use cake_splitter.Runtime.Status.{
  TaskStatus, queued, running, pausing, paused, resuming, cancelling, interrupted, is_terminal,
  status_eq, status_name, sql_terminal,
}
use cake_splitter.Runtime.Record.{
  TaskRecord, DesktopPreferences, default_preferences, validate_preferences, max_nonterminal_tasks,
  max_task_history, max_task_metadata_bytes, task_state_schema_version, scheduler_version_number,
}
use cake_splitter.Runtime.Shape.{is_some, validate_record_shape}

-- the values of `StoreError` that the methods below return
pub data StoreError : Type 0 where
  database serialization : Text → StoreError
  not_found corrupt_state invalid_transition task_active task_plan_too_large : StoreError
  invalid_reorder invalid_priority_change : StoreError
  stale_epoch : ℕ → ℕ → StoreError  -- expected, actual
  queue_capacity_reached checkpoint_history_capacity_reached : ℕ → StoreError
  task_metadata_too_large : ℕ → ℕ → StoreError  -- actual, maximum

pub record StoredRow : Type 0 where
  pub id : Text
  pub epoch : ℕ
  pub revision : ℕ
  pub status : Text
  pub updated_at : Text
  pub data_json : Text
  pub checksum : Text

-- What the store takes from `serde_json`, `sha2`, SQLite's JSON functions and `chrono`.
pub record Codec (Json : Type 0) : Type 0 where
  pub value_from_text : Text → Result Text Json
  -- `value.get("schemaVersion").and_then(as_u64)`
  pub schema_version : Json → Option ℕ
  pub is_object : Json → Bool
  -- `object.insert(key, value)` of a number
  pub insert_number : Text → ℕ → Json → Json
  pub record_from_value : Json → Result Text TaskRecord
  pub record_to_text : TaskRecord → Result Text Text
  pub preferences_from_text : Text → Result Text DesktopPreferences
  pub preferences_to_text : DesktopPreferences → Result Text Text
  pub sha256_hex : Text → Text
  -- `json_extract(data_json, '$.checkpoint') IS NOT NULL`
  pub has_checkpoint : Text → Bool
  -- `CAST(json_extract(data_json, '$.queueOrder') AS INTEGER)`
  pub queue_order : Text → ℕ
  -- `(now - days).to_rfc3339_opts(Millis)`
  pub cutoff : Text → ℕ → Text

pub record QuarantineRow : Type 0 where
  pub task_id : Text
  pub quarantined_at : Text
  pub reason : Text
  pub data_json : Text
  pub checksum : Text

pub record Database : Type 0 where
  pub tasks : List StoredRow
  pub quarantine : List QuarantineRow  -- the newest first
  pub epoch : ℕ
  pub settings : Option (Text × Text)  -- data_json, checksum

-- `task_id`s of the quarantine are kept for the newest twenty rows
abbrev pub max_quarantine_records : ℕ
max_quarantine_records = 20

abbrev pub max_quarantine_data_bytes : ℕ
max_quarantine_data_bytes = 65_536

abbrev pub max_quarantine_reason_bytes : ℕ
max_quarantine_reason_bytes = 1_000

-- `truncate_utf8_bytes`: the longest prefix of whole characters within the bytes
unfoldable pub truncate_utf8_bytes : Text → ℕ → Text
truncate_utf8_bytes [] maximum = []
truncate_utf8_bytes (ch ∷ s) maximum =
    let rest = truncate_utf8_bytes s (maximum - utf8_len ch) in
    if leb (utf8_len ch) maximum then ch ∷ rest else []

-- `SELECT … WHERE id = ?1`
unfoldable pub read_row : List StoredRow → Text → Option StoredRow
read_row [] id = none
read_row (row ∷ rows) id = if text_eq row.id id then some row else read_row rows id

abbrev pub is_nonterminal_row : StoredRow → Bool
is_nonterminal_row row = not (sql_terminal row.status)

unfoldable pub count_nonterminal : List StoredRow → ℕ
count_nonterminal rows = count is_nonterminal_row rows

-- `DELETE FROM tasks WHERE p`
unfoldable pub delete_where : (StoredRow → Bool) → List StoredRow → List StoredRow
delete_where p [] = []
delete_where p (row ∷ rows) = let rest = delete_where p rows in if p row then rest else row ∷ rest

-- BINARY collation, which orders the timestamps and the ids
unfoldable pub text_ltb : Text → Text → Bool
text_ltb s [] = false
text_ltb [] (d ∷ t) = true
text_ltb (c ∷ s) (d ∷ t) = ltb c d || (c == d && text_ltb s t)

-- the texts of the two errors about the schema version
unfoldable pub unsupported_version : ℕ → Text → Text
unsupported_version version or_migrated =
    codes "task schema version "
    ++ (to_decimal version ++ (codes " is unsupported; expected " ++ (or_migrated ++ codes "3")))

module _ {Json : Type 0} (x : External) (c : Codec Json) where
  abbrev is_checkpointed_terminal : StoredRow → Bool
  is_checkpointed_terminal row = sql_terminal row.status && c.has_checkpoint row.data_json

  unfoldable pub count_checkpointed_terminal : List StoredRow → ℕ
  count_checkpointed_terminal rows = count is_checkpointed_terminal rows

  -- `SELECT MAX(…)`, 0 where there is no row
  max_queue_order : List StoredRow → ℕ
  max_queue_order [] = 0
  max_queue_order (row ∷ rows) = max (c.queue_order row.data_json) (max_queue_order rows)

  unfoldable pub next_queue_order : List StoredRow → Result StoreError ℕ
  unfolding max_queue_order
  next_queue_order rows = ok_or (checked_add (max_queue_order rows) 1) corrupt_state

  -- the text and its checksum
  unfoldable pub encode : TaskRecord → Result StoreError (Text × Text)
  encode r = do
    json ← map_err serialization (c.record_to_text r)
    reject_if (ltb max_task_metadata_bytes (byte_len json))
        (task_metadata_too_large (byte_len json) max_task_metadata_bytes)
    ok (json, c.sha256_hex json)

  -- the value after the migration from schema version 2
  unfoldable pub migrate_value : Json → Result Text Json
  migrate_value value = do
    version ← ok_or (c.schema_version value) (codes "task schema version is missing")
    if version == 2
        then (do
          reject_if (not (c.is_object value)) (codes "task JSON must be an object")
          ok (
              c.insert_number (codes "queueOrder") 1 (
                c.insert_number (codes "schedulerVersion") scheduler_version_number
                  (c.insert_number (codes "schemaVersion") task_state_schema_version value))))
        else if not (version == task_state_schema_version)
        then err (unsupported_version version (codes "2 or "))
        else ok value

  unfoldable pub decode_row : StoredRow → Result Text TaskRecord
  decode_row row = do
    reject_if (ltb max_task_metadata_bytes (byte_len row.data_json))
        (codes "task metadata exceeds the supported limit")
    reject_if (not (text_eq (c.sha256_hex row.data_json) row.checksum)) (codes "checksum mismatch")
    value ←
        map_err (λ e. codes "task JSON serialization is invalid: " ++ e)
          (c.value_from_text row.data_json)
    migrated ← migrate_value value
    r ←
        map_err (λ e. codes "task JSON serialization is invalid: " ++ e)
          (c.record_from_value migrated)
    reject_if (ltb max_slice_count r.plan.slice_count)
        (codes "task plan exceeds the supported Slice limit")
    reject_if (not (r.schema_version == task_state_schema_version))
        (unsupported_version r.schema_version [])
    reject_if
        (not (text_eq r.id row.id)
          || not (r.epoch == row.epoch)
          || not (r.revision == row.revision)
          || not (text_eq (status_name r.status) row.status)
          || not (text_eq r.updated_at row.updated_at))
        (codes "indexed task metadata does not match the checksummed record")
    validate_record_shape x r
    ok r

  unfoldable pub preferences_of : Database → Result StoreError DesktopPreferences
  preferences_of db = elim db.settings [
    | none ↦ ok default_preferences
    | some stored ↦ do
      reject_if (not (text_eq (c.sha256_hex stored.0) stored.1)) corrupt_state
      preferences ← map_err serialization (c.preferences_from_text stored.0)
      reject_if (not (validate_preferences preferences)) corrupt_state
      ok preferences
  ]

  -- a terminal row whose record has no checkpoint
  abbrev pub is_prunable : StoredRow → Bool
  is_prunable row = sql_terminal row.status && not (c.has_checkpoint row.data_json)

  -- `ORDER BY updated_at DESC, id DESC`: whether a row stands before another
  abbrev pub stands_before : StoredRow → StoredRow → Bool
  stands_before row other =
      text_ltb other.updated_at row.updated_at
      || (text_eq row.updated_at other.updated_at && text_ltb other.id row.id)

  -- the second DELETE: prunable rows with `maximum` prunable rows before them
  abbrev pub is_excess : ℕ → List StoredRow → StoredRow → Bool
  is_excess maximum rows row =
      is_prunable row
      && leb maximum (count (λ other. is_prunable other && stands_before other row) rows)

  unfoldable pub prune_with_preferences :
      Text → DesktopPreferences → List StoredRow → List StoredRow
  prune_with_preferences now preferences rows =
      let recent =
        delete_where
          (λ row.
            is_prunable row
            && text_ltb row.updated_at (c.cutoff now preferences.terminal_history_days))
          rows in
      delete_where (is_excess preferences.maximum_terminal_history recent) recent

  unfoldable pub prune_history : Text → Database → Result StoreError Database
  prune_history now db = do
    preferences ← preferences_of db
    ok (record db { tasks = prune_with_preferences now preferences db.tasks })

  -- `quarantine`: the row moves to the quarantine, which keeps its newest rows
  unfoldable pub quarantine_row : Text → Database → StoredRow → Text → Database
  unfolding truncate_utf8_bytes
  quarantine_row now db row reason = record db {
    tasks = delete_where (λ other. text_eq other.id row.id) db.tasks;
    quarantine = take max_quarantine_records (
        record {
          task_id = row.id;
          quarantined_at = now;
          reason = truncate_utf8_bytes reason max_quarantine_reason_bytes;
          data_json = truncate_utf8_bytes row.data_json max_quarantine_data_bytes;
          checksum = row.checksum;
        }
        ∷ db.quarantine);
  }
