-- ===== src/Checks/Moves.antt =====
-- A move in a queue of two tasks.
use cake_splitter.Prelude.{◌≡◌, refl, [], ◌∷◌, List, ok}
use cake_splitter.Runtime.Record.{TaskRecord}
use cake_splitter.Runtime.Store.{Database}
use cake_splitter.Runtime.Store.Methods.{row_of}
use cake_splitter.Runtime.Reorder.{earlier, in_place_of, move_queued}
use cake_splitter.Runtime.Reorder.Swapped.{Moved, move_queued_lem}
use cake_splitter.Checks.Samples.{ascii_external, noon, numbered, numbering, two_tasks}

-- the second task is moved before the first
abbrev moved_tasks : List TaskRecord
moved_tasks =
    in_place_of ascii_external numbering noon (numbered 2) (numbered 1) 2
    ∷ in_place_of ascii_external numbering noon (numbered 1) (numbered 2) 2
    ∷ []

abbrev after_move : Database
after_move = record two_tasks {
  tasks =
      row_of (in_place_of ascii_external numbering noon (numbered 1) (numbered 2) 2)
        (2 ∷ [], 2 ∷ [])
      ∷ row_of (in_place_of ascii_external numbering noon (numbered 2) (numbered 1) 2)
          (1 ∷ [], 1 ∷ [])
      ∷ [];
}

move_succeeds :
    move_queued ascii_external numbering noon two_tasks (2 ∷ []) earlier
    ≡ ok (moved_tasks, after_move)
unfolding move_queued cake_splitter.Runtime.Reorder.write_swapped
    cake_splitter.Runtime.Reorder.write_record cake_splitter.Runtime.Reorder.decode_all
    cake_splitter.Runtime.Reorder.peers_of cake_splitter.Runtime.Reorder.position
    cake_splitter.Runtime.Reorder.other_index cake_splitter.Runtime.Reorder.sort_by_place
    cake_splitter.Runtime.Reorder.insert_by_place cake_splitter.Runtime.Reorder.place_leb
    cake_splitter.Runtime.Reorder.of_priority cake_splitter.Runtime.Reorder.queued_rows
    cake_splitter.Runtime.Reorder.update_target cake_splitter.Runtime.Store.read_row
    cake_splitter.Runtime.Store.encode cake_splitter.Runtime.Store.decode_row
    cake_splitter.Runtime.Store.migrate_value cake_splitter.Runtime.Status.status_name
    cake_splitter.Runtime.Status.status_eq cake_splitter.Runtime.Status.rank
    cake_splitter.Runtime.Shape.validate_record_shape cake_splitter.Runtime.Shape.has_bad_fields
    cake_splitter.Runtime.Shape.has_bad_failure cake_splitter.Runtime.Shape.has_bad_preflight
    cake_splitter.Runtime.Shape.validate_spec cake_splitter.Runtime.Shape.path_is_safe
    cake_splitter.Core.Enumeration.text_leb cake_splitter.Runtime.Record.operation_of
move_succeeds = refl

move_queued_lem_example :
    Moved ascii_external numbering noon two_tasks (2 ∷ []) earlier (3 ∷ []) moved_tasks after_move
move_queued_lem_example =
    move_queued_lem ascii_external numbering noon two_tasks (2 ∷ []) earlier (3 ∷ []) moved_tasks
      after_move move_succeeds (refl, (refl, tt))
