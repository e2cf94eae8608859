-- ===== src/Checks/Tasks.antt =====
-- The theorems of Runtime at small queues and databases.
use mathlib.Core.List.{Perm}
use cake_splitter.Prelude.{
  ◌≤◌, ◌≡◌, ◌≢◌, ◌↔◌, ◌⊎◌, refl, true, false, List, [], ◌∷◌, arith, some, codes, ok, err, is_err,
}
use cake_splitter.Runtime.Status.{
  status_eq, completed, failed, paused, planned, sql_terminal, status_name, is_terminal, high,
  normal, low,
}
use cake_splitter.Runtime.Status.Graph.{Run, Run-iff, sql_terminal-status_name}
use cake_splitter.Runtime.Record.{TaskRecord, max_nonterminal_tasks, bounded_failure}
use cake_splitter.Runtime.Shape.{has_bad_failure}
use cake_splitter.Runtime.Shape.Failure.{bounded_failure-accepted}
use cake_splitter.Runtime.Store.{Database, stale_epoch}
use cake_splitter.Runtime.Store.Methods.{row_of, insert, mutate, clear_all}
use cake_splitter.Runtime.Store.Capacity.{nonterminal}
use cake_splitter.Runtime.Store.Reach.{created, called, inserting, recovering, Reach-capacity}
use cake_splitter.Runtime.Recovery.{ready, recover_after_restart}
use cake_splitter.Runtime.Store.Epochs.{clear_all-fences}
use cake_splitter.Runtime.Scheduler.{
  queued_of, maximum_order, queued_in_scheduler_order, next_scheduled_task,
}
use cake_splitter.Runtime.Scheduler.Order.{
  Sorted, queued_in_scheduler_order-Sorted, next_scheduled_task-no_starvation,
}
use cake_splitter.Checks.Samples.{ascii_external, one_task, first_epoch, noon, task_at}

Run-iff_example :
    Run paused failed ↔ ((paused ≡ failed) ⊎ ((paused ≢ completed) × (failed ≢ planned)))
Run-iff_example = Run-iff paused failed

sql_terminal-status_name_example :
    (sql_terminal (status_name failed) ≡ is_terminal failed)
    × ((status_name failed ≡ status_name completed) ↔ (failed ≡ completed))
sql_terminal-status_name_example = sql_terminal-status_name failed completed

bounded_failure-accepted_example :
    has_bad_failure ascii_external (record (task_at 1 normal) {
      failure = some (bounded_failure noon (codes "io_error") (codes "disk full"));
      failure_history = [];
    })
    ≡ false
bounded_failure-accepted_example =
    bounded_failure-accepted ascii_external noon (codes "io_error") (codes "disk full")
      (task_at 1 normal) refl refl (omega arith) (omega arith)

abbrev second_epoch : Database
second_epoch = record first_epoch { epoch = 2 }

cleared : clear_all first_epoch ≡ ok (2, second_epoch)
unfolding clear_all
cleared = refl

-- one task is admitted, and the application is started again
abbrev admitted_task : TaskRecord
admitted_task = task_at 1 normal

abbrev with_task : Database
with_task = record first_epoch { tasks = row_of admitted_task (codes "{}", codes "{}") ∷ [] }

inserted :
    insert ascii_external one_task noon first_epoch admitted_task ≡ ok (admitted_task, with_task)
unfolding insert cake_splitter.Runtime.Store.Methods.check_admission
    cake_splitter.Runtime.Store.Methods.assign_order
    cake_splitter.Runtime.Store.Methods.checked_encoding is_terminal status_eq sql_terminal
    status_name has_bad_failure cake_splitter.Runtime.Store.count_nonterminal
    cake_splitter.Runtime.Store.encode cake_splitter.Runtime.Store.read_row
    cake_splitter.Runtime.Store.prune_history cake_splitter.Runtime.Store.preferences_of
    cake_splitter.Runtime.Store.prune_with_preferences cake_splitter.Runtime.Store.delete_where
    cake_splitter.Runtime.Store.text_ltb cake_splitter.Runtime.Store.count_checkpointed_terminal
    cake_splitter.Runtime.Shape.validate_record_shape cake_splitter.Runtime.Shape.has_bad_fields
    cake_splitter.Runtime.Shape.has_bad_preflight cake_splitter.Runtime.Shape.validate_spec
    cake_splitter.Runtime.Shape.path_is_safe cake_splitter.Runtime.Record.operation_of
    cake_splitter.Runtime.Record.default_preferences
    cake_splitter.Runtime.Record.validate_preferences
inserted = refl

Reach-capacity_example :
    nonterminal (recover_after_restart ascii_external one_task noon ready with_task).1
    ≤ max_nonterminal_tasks
Reach-capacity_example = Reach-capacity ascii_external one_task (
    called with_task _
      (called first_epoch with_task created
        (inserting noon first_epoch admitted_task admitted_task with_task inserted))
      (recovering noon ready with_task))

clear_all-fences_example :
    (mutate ascii_external one_task noon second_epoch (codes "task") 1 ok
      ≡ (err (stale_epoch 2 1), second_epoch))
    × (is_err (insert ascii_external one_task noon second_epoch (task_at 1 normal)) ≡ true)
clear_all-fences_example =
    clear_all-fences ascii_external one_task noon first_epoch second_epoch 2 1 (codes "task") ok
      (task_at 1 normal) cleared (omega arith) (omega arith)

abbrev waiting : List TaskRecord
waiting = task_at 20 high ∷ task_at 2 low ∷ task_at 19 normal ∷ []

queued_in_scheduler_order-Sorted_example :
    Perm (queued_in_scheduler_order waiting) (queued_of waiting)
    × Sorted (maximum_order (queued_of waiting)) (queued_in_scheduler_order waiting)
queued_in_scheduler_order-Sorted_example = queued_in_scheduler_order-Sorted waiting

-- the oldest task goes first, though its priority is the lowest
no_starvation_example :
    (h : TaskRecord) × (next_scheduled_task waiting ≡ some h) × (h.queue_order ≤ 2)
unfolding status_eq
no_starvation_example =
    next_scheduled_task-no_starvation waiting 1 (task_at 2 low) (unfold queued_of in refl)
      (unfold queued_of maximum_order in omega arith)
