-- ===== src/Runtime/Summary.antt =====
-- `StorageSummary` of crates/cakesplitter-desktop-runtime/src/model.rs and
-- `TaskStore::storage_summary` of store.rs.
use cake_splitter.Prelude.{ℕ, Bool, not, ◌&&◌, Text, length, count, Result, ok, ◌>>=◌}
use cake_splitter.Format.Manifest.{External}
use cake_splitter.Runtime.Status.{completed, is_terminal, status_eq}
use cake_splitter.Runtime.Record.{TaskRecord}
use cake_splitter.Runtime.Shape.{is_some}
use cake_splitter.Runtime.Store.{StoreError, Codec, Database, preferences_of}
use cake_splitter.Runtime.Scheduler.{list_validated}
use cake_splitter.Runtime.Recovery.{is_active}

pub record StorageSummary : Type 0 where
  pub database_bytes : ℕ
  pub active_tasks : ℕ
  pub nonterminal_tasks : ℕ
  pub terminal_history_tasks : ℕ
  pub quarantined_records : ℕ
  pub incomplete_output_references : ℕ
  pub diagnostic_bundle_count : ℕ
  pub maximum_terminal_history : ℕ
  pub terminal_history_days : ℕ

-- a checkpoint that a task not completed may still need
abbrev is_incomplete : TaskRecord → Bool
is_incomplete r = is_some r.checkpoint && not (status_eq r.status completed)

module _ {Json : Type 0} (x : External) (c : Codec Json) (now : Text) where
  -- the size of the database's file is an argument, an error of it among them
  unfoldable pub storage_summary :
      Result StoreError ℕ → ℕ → Database → Result StoreError StorageSummary × Database
  storage_summary database_file_bytes diagnostic_bundle_count db =
      let listing = list_validated x c now db in
      (
        do
          preferences ← preferences_of x c listing.db
          database_bytes ← database_file_bytes
          ok (record {
            database_bytes = database_bytes;
            active_tasks = count (λ r. is_active r.status) listing.records;
            nonterminal_tasks = count (λ r. not (is_terminal r.status)) listing.records;
            terminal_history_tasks = count (λ r. is_terminal r.status) listing.records;
            quarantined_records = length listing.db.quarantine;
            incomplete_output_references = count is_incomplete listing.records;
            diagnostic_bundle_count = diagnostic_bundle_count;
            maximum_terminal_history = preferences.maximum_terminal_history;
            terminal_history_days = preferences.terminal_history_days;
          }),
        listing.db,
      )
