-- ===== src/Runtime/Reorder.antt =====
-- `TaskStore::move_queued` and `write_record` of crates/cakesplitter-desktop-runtime/src/store.rs.
pub mod Ordered
pub mod Once
pub mod Rows
pub mod Stored
pub mod Places
pub mod Written
pub mod Swapped
use cake_splitter.Prelude.{
  ℕ, suc, ◌+◌, Bool, not, ◌&&◌, ◌||◌, List, [], ◌∷◌, Option, none, some, Text, codes, text_eq, ltb,
  ◌==◌, length, count, get_elem?, Result, ok, err, reject_if, ok_or, map_err, checked_add,
  checked_sub, ◌>>=◌, ◌>>◌, if◌then◌else◌,
}
use cake_splitter.Core.Enumeration.{text_leb}
use cake_splitter.Format.Manifest.{External}
use cake_splitter.Runtime.Status.{queued, status_eq, rank, TaskPriority}
use cake_splitter.Runtime.Record.{TaskRecord}
use cake_splitter.Runtime.Shape.{validate_record_shape}
use cake_splitter.Runtime.Store.{
  StoreError, not_found, corrupt_state, invalid_reorder, StoredRow, Codec, Database, read_row,
  encode, decode_row,
}
use cake_splitter.Runtime.Store.Methods.{written, row_of}

pub data QueueDirection : Type 0 where
  earlier later : QueueDirection

-- the row of `WHERE id = ?6 AND epoch = ?7`
abbrev pub is_target : StoredRow → StoredRow → Bool
is_target new row = text_eq row.id new.id && row.epoch == new.epoch

unfoldable pub update_target : List StoredRow → StoredRow → List StoredRow
update_target [] new = []
update_target (row ∷ rows) new =
    let rest = update_target rows new in
    if is_target new row then written new row ∷ rest else row ∷ rest

-- `WHERE status = 'queued'`
unfoldable pub queued_rows : List StoredRow → List StoredRow
queued_rows [] = []
queued_rows (row ∷ rows) =
    let rest = queued_rows rows in if text_eq row.status (codes "queued") then row ∷ rest else rest

-- `record.priority == target.priority`
unfoldable pub of_priority : TaskPriority → List TaskRecord → List TaskRecord
of_priority priority [] = []
of_priority priority (r ∷ rs) =
    let rest = of_priority priority rs in
    if rank r.priority == rank priority then r ∷ rest else rest

-- the order of the keys (queue order, id)
unfoldable pub place_leb : TaskRecord → TaskRecord → Bool
place_leb r s =
    ltb r.queue_order s.queue_order || (r.queue_order == s.queue_order && text_leb r.id s.id)

unfoldable pub insert_by_place : TaskRecord → List TaskRecord → List TaskRecord
insert_by_place r [] = r ∷ []
insert_by_place r (s ∷ rs) =
    let rest = insert_by_place r rs in if place_leb r s then r ∷ s ∷ rs else s ∷ rest

-- `peers.sort_by_key(…)`, which is stable
unfoldable pub sort_by_place : List TaskRecord → List TaskRecord
unfolding insert_by_place
sort_by_place [] = []
sort_by_place (r ∷ rs) = insert_by_place r (sort_by_place rs)

-- `iter().position(|record| record.id == id)`
unfoldable pub position : Text → List TaskRecord → Option ℕ
position id [] = none
position id (r ∷ rs) =
    let rest = position id rs in
    if text_eq r.id id then some 0 else elim rest [ none ↦ none | some i ↦ some (suc i) ]

unfoldable pub other_index : QueueDirection → ℕ → ℕ → Option ℕ
other_index earlier index n = checked_sub index 1
other_index later index n = if ltb (index + 1) n then some (index + 1) else none

module _ {Json : Type 0} (x : External) (c : Codec Json) (now : Text) where
  unfoldable pub write_record : Database → TaskRecord → Result StoreError Database
  write_record db r = do
    map_err (λ reason. corrupt_state) (validate_record_shape x r)
    encoded ← encode x c r
    reject_if (not (count (is_target (row_of r encoded)) db.tasks == 1)) not_found
    ok (record db { tasks = update_target db.tasks (row_of r encoded) })

  unfoldable pub decode_all : List StoredRow → Result StoreError (List TaskRecord)
  decode_all [] = ok []
  decode_all (row ∷ rows) = do
    r ← map_err (λ reason. corrupt_state) (decode_row x c row)
    rest ← decode_all rows
    ok (r ∷ rest)

  -- the record in the place of another, one revision later
  abbrev pub in_place_of : TaskRecord → TaskRecord → ℕ → TaskRecord
  in_place_of r other revision = record r {
    queue_order = other.queue_order;
    revision = revision;
    updated_at = now;
  }

  -- the two turns of the last loop
  unfoldable pub write_swapped :
      Database → TaskRecord → TaskRecord → Result StoreError (List TaskRecord × Database)
  unfolding write_record
  write_swapped db r s = do
    first ← ok_or (checked_add r.revision 1) corrupt_state
    db1 ← write_record db (in_place_of r s first)
    second ← ok_or (checked_add s.revision 1) corrupt_state
    db2 ← write_record db1 (in_place_of s r second)
    ok (in_place_of r s first ∷ in_place_of s r second ∷ [], db2)

  -- the queued records of a priority, in the order of their places
  unfoldable pub peers_of : Database → TaskPriority → Result StoreError (List TaskRecord)
  unfolding decode_all
  peers_of db priority = do
    records ← decode_all (queued_rows db.tasks)
    ok (sort_by_place (of_priority priority records))

  unfoldable pub move_queued :
      Database → Text → QueueDirection → Result StoreError (List TaskRecord × Database)
  unfolding write_swapped peers_of
  move_queued db id direction = do
    row ← ok_or (read_row db.tasks id) not_found
    target ← map_err (λ reason. corrupt_state) (decode_row x c row)
    reject_if (not (status_eq target.status queued)) invalid_reorder
    peers ← peers_of db target.priority
    index ← ok_or (position id peers) invalid_reorder
    other ← ok_or (other_index direction index (length peers)) invalid_reorder
    first ← ok_or (get_elem? peers index) invalid_reorder
    second ← ok_or (get_elem? peers other) invalid_reorder
    write_swapped db first second
