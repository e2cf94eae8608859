-- ===== src/Runtime/Store/Reach.antt =====
-- Histories of calls of `TaskStore`, and the bound on nonterminal tasks that all of them keep.
use cake_splitter.Prelude.{
  ℕ, ◌≤◌, ◌≡◌, refl, Bool, not, ◌&&◌, codes, [], arith, none, Text, text_eq, ok, err, Result, ◌∙◌,
  ap, sym, subst, List, if◌then◌else◌,
}
use cake_splitter.Format.Manifest.{External}
use cake_splitter.Runtime.Status.{queued, status_eq, sql_terminal, TaskPriority}
use cake_splitter.Runtime.Record.{TaskRecord, DesktopPreferences, max_nonterminal_tasks}
use cake_splitter.Runtime.Store.{
  StoreError, StoredRow, Codec, Database, invalid_priority_change, is_nonterminal_row,
  count_nonterminal, delete_where, prune_with_preferences,
}
use cake_splitter.Runtime.Store.Methods.{
  insert, mutate, set_priority, get, remove_terminal, save_preferences, remove_failed_admission,
  clear_terminal_status, clear_quarantine, clear_all,
}
use cake_splitter.Runtime.Scheduler.{list_validated}
use cake_splitter.Runtime.Scheduler.Capacity.{list_validated-capacity}
use cake_splitter.Runtime.Recovery.{StartupRecoveryState, recover_after_restart}
use cake_splitter.Runtime.Recovery.Bounded.{recover-capacity}
use cake_splitter.Runtime.Reorder.{QueueDirection, move_queued}
use cake_splitter.Runtime.Reorder.Swapped.{move_queued-nonterminal}
use cake_splitter.Runtime.Store.Rows.{count-delete_where-le, count_nonterminal-prune}
use cake_splitter.Runtime.Store.Capacity.{
  nonterminal, KeepsId, insert-capacity, mutate-capacity, get-capacity,
}

-- the database that the schema creates
abbrev pub empty_database : Database
empty_database = record { tasks = []; quarantine = []; epoch = 1; settings = none }

-- One call of a method, at any time. A call that fails without a change of the database is no step.
pub data Step {Json : Type 0} (x : External) (c : Codec Json) : Database → Database → Type 0 where
  inserting :
      (now : Text) (db : Database) (given r : TaskRecord) (db' : Database)
      → insert x c now db given ≡ ok (r, db')
      → Step x c db db'
  mutating :
      (now : Text) (db : Database) (id : Text) (epoch : ℕ)
      (change : TaskRecord → Result StoreError TaskRecord)
      → KeepsId x c now change
      → Step x c db (mutate x c now db id epoch change).1
  setting_priority :
      (now : Text) (db : Database) (id : Text) (epoch : ℕ) (priority : TaskPriority)
      → Step x c db (set_priority x c now db id epoch priority).1
  getting : (now : Text) (db : Database) (id : Text) → Step x c db (get x c now db id).1
  removing :
      (now : Text) (db : Database) (id : Text) (db' : Database)
      → remove_terminal x c now db id ≡ ok db'
      → Step x c db db'
  saving_preferences :
      (now : Text) (db : Database) (preferences : DesktopPreferences) (db' : Database)
      → save_preferences x c now db preferences ≡ ok db'
      → Step x c db db'
  withdrawing :
      (db : Database) (id : Text) (db' : Database)
      → remove_failed_admission db id ≡ ok db'
      → Step x c db db'
  clearing_status :
      (db : Database) (status : Text) → Step x c db (clear_terminal_status db status).1
  clearing_quarantine : (db : Database) → Step x c db (clear_quarantine db).1
  moving :
      (now : Text) (db : Database) (id : Text) (direction : QueueDirection)
      (moved : List TaskRecord) (db' : Database)
      → move_queued x c now db id direction ≡ ok (moved, db')
      → Step x c db db'
  listing : (now : Text) (db : Database) → Step x c db (list_validated x c now db).db
  recovering :
      (now : Text) (prior : StartupRecoveryState) (db : Database)
      → Step x c db (recover_after_restart x c now prior db).1
  clearing_all :
      (db : Database) (epoch : ℕ) (db' : Database)
      → clear_all db ≡ ok (epoch, db')
      → Step x c db db'

-- The databases that a history of calls leads to.
pub data Reach {Json : Type 0} (x : External) (c : Codec Json) : Database → Type 0 where
  created : Reach x c empty_database
  called : (db db' : Database) → Reach x c db → Step x c db db' → Reach x c db'

module _ {Json : Type 0} (x : External) (c : Codec Json) where
  priority_change-KeepsId :
      (now : Text) (priority : TaskPriority)
      → KeepsId x c now (λ r.
        if not (status_eq r.status queued)
        then err invalid_priority_change
        else ok (record r { priority = priority }))
  priority_change-KeepsId now priority r r' run = ground arith

  fewer :
      (db : Database) (p : StoredRow → Bool) (db' : Database)
      → record db { tasks = delete_where p db.tasks } ≡ db'
      → nonterminal db ≤ max_nonterminal_tasks
      → nonterminal db' ≤ max_nonterminal_tasks
  unfolding count_nonterminal
  fewer db p db' made room =
      subst (λ d. nonterminal d ≤ max_nonterminal_tasks) made
        (omega (arith, count-delete_where-le is_nonterminal_row p db.tasks, room))

  saved-nonterminal :
      (now : Text) (db : Database) (preferences : DesktopPreferences) {db' : Database}
      → save_preferences x c now db preferences ≡ ok db'
      → nonterminal db' ≡ nonterminal db
  unfolding save_preferences
  saved-nonterminal now db preferences {db'} run =
      let pruned : prune_with_preferences x c now preferences db.tasks ≡ db'.tasks =
        ground (arith, run) in
      ap count_nonterminal (sym pruned) ∙ count_nonterminal-prune x c now preferences db.tasks

  -- Every method keeps the capacity.
  Step-capacity :
      {db db' : Database}
      → Step x c db db'
      → nonterminal db ≤ max_nonterminal_tasks
      → nonterminal db' ≤ max_nonterminal_tasks
  unfolding remove_terminal set_priority remove_failed_admission clear_terminal_status
      clear_quarantine clear_all count_nonterminal
  Step-capacity (inserting now db given r db' run) room = insert-capacity x c now db given room run
  Step-capacity (mutating now db id epoch change keeps) room =
      mutate-capacity x c now db id epoch change keeps room
  Step-capacity (setting_priority now db id epoch priority) room =
      mutate-capacity x c now db id epoch _ (priority_change-KeepsId now priority) room
  Step-capacity (getting now db id) room = omega (arith, get-capacity x c now db id, room)
  Step-capacity (removing now db id db' run) room =
      fewer db (λ other. text_eq other.id id) db' (ground (arith, run)) room
  Step-capacity (saving_preferences now db preferences db' run) room =
      omega (arith, saved-nonterminal now db preferences run, room)
  Step-capacity (withdrawing db id db' run) room =
      fewer db (λ row. text_eq row.id id && text_eq row.status (codes "queued")) db'
        (ground (arith, run)) room
  Step-capacity (clearing_status db status) room =
      fewer db (λ row. text_eq row.status status && sql_terminal row.status) _ refl room
  Step-capacity (clearing_quarantine db) room = room
  Step-capacity (moving now db id direction moved db' run) room =
      omega (arith, move_queued-nonterminal x c now db id direction moved db' run, room)
  Step-capacity (listing now db) room = omega (arith, list_validated-capacity x c now db, room)
  Step-capacity (recovering now prior db) room = recover-capacity x c now prior db room
  Step-capacity (clearing_all db epoch db' run) room = ground (arith, run)

  -- In every database that a history of calls leads to, at most 64 tasks are nonterminal.
  pub Reach-capacity : {db : Database} → Reach x c db → nonterminal db ≤ max_nonterminal_tasks
  unfolding count_nonterminal
  Reach-capacity created = omega arith
  Reach-capacity (called db db' before step) = Step-capacity step (Reach-capacity before)
