-- ===== src/Checks/Recoveries.antt =====
-- A recovery of a database with two running tasks.
use cake_splitter.Prelude.{All, false, arith, ◌≡◌, ◌≤◌, refl, [], ◌∷◌, ℕ, ok}
use cake_splitter.Runtime.Status.{running}
use cake_splitter.Runtime.Record.{TaskRecord, max_nonterminal_tasks}
use cake_splitter.Runtime.Store.{Codec, Database, StoredRow}
use cake_splitter.Runtime.Store.Methods.{row_of}
use cake_splitter.Runtime.Store.Capacity.{nonterminal}
use cake_splitter.Runtime.Recovery.{
  ready, recovery_required, StartupRecoveryReport, recover_after_restart,
}
use cake_splitter.Runtime.Recovery.Covered.{is_active_name, HasUniqueIds}
use cake_splitter.Runtime.Recovery.Idle.{recover_after_restart_lem}
use cake_splitter.Checks.Samples.{ascii_external, noon, numbered, numbering, two_tasks}

abbrev running_task : ℕ → TaskRecord
running_task n = record (numbered n) { status = running }

abbrev running_codec : Codec ℕ
running_codec = record numbering { record_from_value = λ v. ok (running_task v) }

abbrev running_row : ℕ → StoredRow
running_row n = row_of (running_task n) (n ∷ [], n ∷ [])

abbrev two_running : Database
two_running = record two_tasks { tasks = running_row 1 ∷ running_row 2 ∷ [] }

abbrev report : StartupRecoveryReport
report = record {
  state = recovery_required;
  recovered_tasks = 2;
  quarantined_records = 0;
  capacity_exceeded_records = 0;
}

recovery_succeeds :
    (recover_after_restart ascii_external running_codec noon ready two_running).0 ≡ ok report
unfolding recover_after_restart cake_splitter.Runtime.Store.prune_history
    cake_splitter.Runtime.Store.preferences_of cake_splitter.Runtime.Store.count_nonterminal
    cake_splitter.Runtime.Status.sql_terminal cake_splitter.Runtime.Status.status_name
    cake_splitter.Runtime.Scheduler.list_validated
    cake_splitter.Runtime.Store.prune_with_preferences cake_splitter.Runtime.Store.delete_where
    cake_splitter.Runtime.Store.text_ltb cake_splitter.Runtime.Store.decode_row
    cake_splitter.Runtime.Store.migrate_value cake_splitter.Runtime.Shape.validate_record_shape
    cake_splitter.Runtime.Shape.has_bad_fields cake_splitter.Runtime.Record.operation_of
    cake_splitter.Runtime.Status.status_eq cake_splitter.Runtime.Shape.has_bad_failure
    cake_splitter.Runtime.Shape.has_bad_preflight cake_splitter.Runtime.Record.default_preferences
    cake_splitter.Runtime.Record.transition cake_splitter.Runtime.Record.validate_preferences
    cake_splitter.Runtime.Recovery.delete_excess cake_splitter.Runtime.Recovery.excess_rows
    cake_splitter.Runtime.Recovery.insert_older cake_splitter.Runtime.Recovery.interrupt_all
    cake_splitter.Runtime.Recovery.is_active cake_splitter.Runtime.Recovery.is_corrupt_reason
    cake_splitter.Runtime.Recovery.is_unsupported cake_splitter.Runtime.Recovery.oldest_first
    cake_splitter.Runtime.Recovery.quarantine_all cake_splitter.Runtime.Recovery.report_of
    cake_splitter.Runtime.Recovery.state_of cake_splitter.Runtime.Recovery.trim
    cake_splitter.Runtime.Scheduler.list_rows cake_splitter.Runtime.Shape.path_is_safe
    cake_splitter.Runtime.Shape.validate_spec cake_splitter.Runtime.Status.can_transition_to
    cake_splitter.Runtime.Status.discriminant cake_splitter.Runtime.Status.is_listed
    cake_splitter.Runtime.Status.is_terminal cake_splitter.Runtime.Store.Methods.check_change
    cake_splitter.Runtime.Store.Methods.checked_encoding cake_splitter.Runtime.Store.Methods.mutate
    cake_splitter.Runtime.Store.Methods.mutate_decoded
    cake_splitter.Runtime.Store.Methods.update_where
    cake_splitter.Runtime.Store.count_checkpointed_terminal cake_splitter.Runtime.Store.encode
    cake_splitter.Runtime.Store.quarantine_row cake_splitter.Runtime.Store.read_row
recovery_succeeds = refl

unique_ids : HasUniqueIds two_running.tasks
unique_ids [] = omega arith
unique_ids (d ∷ id) = ground arith

recover_after_restart_lem_example :
    All
      (λ row. is_active_name row.status ≡ false)
      (recover_after_restart ascii_external running_codec noon ready two_running).1.tasks
    × (nonterminal (recover_after_restart ascii_external running_codec noon ready two_running).1
        ≤ max_nonterminal_tasks)
recover_after_restart_lem_example =
    recover_after_restart_lem ascii_external running_codec noon ready two_running report unique_ids
      recovery_succeeds
