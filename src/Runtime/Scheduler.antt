-- ===== src/Runtime/Scheduler.antt =====
-- `TaskStore::list`, `queued_in_scheduler_order` and `next_scheduled_task` of
-- crates/cakesplitter-desktop-runtime/src/store.rs.
pub mod Order
pub mod Capacity
use cake_splitter.Prelude.{
  ℕ, ◌-◌, ◌/◌, max, Bool, ◌&&◌, ◌||◌, List, [], ◌∷◌, Option, none, some, Text, ltb, ◌==◌, Result,
  ok, err, if◌then◌else◌,
}
use cake_splitter.Core.Enumeration.{text_leb}
use cake_splitter.Format.Manifest.{External}
use cake_splitter.Runtime.Status.{queued, status_eq, rank}
use cake_splitter.Runtime.Record.{TaskRecord, fairness_admission_window}
use cake_splitter.Runtime.Store.{
  StoredRow, Codec, Database, decode_row, quarantine_row, stands_before,
}

-- what `list_validated` returns, with the database after it
pub record Listing : Type 0 where
  pub records : List TaskRecord
  pub reasons : List Text
  pub db : Database

module _ {Json : Type 0} (x : External) (c : Codec Json) where
  -- `ORDER BY updated_at DESC, id DESC`, by insertion
  unfoldable pub insert_row : StoredRow → List StoredRow → List StoredRow
  insert_row row [] = row ∷ []
  insert_row row (other ∷ rows) =
      let later = insert_row row rows in
      if stands_before x c other row then other ∷ later else row ∷ other ∷ rows

  unfoldable pub newest_first : List StoredRow → List StoredRow
  unfolding insert_row
  newest_first [] = []
  newest_first (row ∷ rows) = insert_row row (newest_first rows)

  -- the loop: the rows that decode, why the others do not, and the database with those in quarantine
  unfoldable pub list_rows : Text → Database → List StoredRow → Listing
  list_rows now db [] = record { records = []; reasons = []; db = db }
  list_rows now db (row ∷ rows) =
      let kept = list_rows now db rows in
      elim (decode_row x c row) [
        | ok r ↦ record kept { records = r ∷ kept.records }
        | err reason ↦
            let later = list_rows now (quarantine_row x c now db row reason) rows in
            record later { reasons = reason ∷ later.reasons }
      ]

  unfoldable pub list_validated : Text → Database → Listing
  unfolding list_rows newest_first
  list_validated now db = list_rows now db (newest_first db.tasks)

  unfoldable pub list : Text → Database → List TaskRecord × Database
  unfolding list_validated
  list now db = let listing = list_validated now db in (listing.records, listing.db)

unfoldable pub queued_of : List TaskRecord → List TaskRecord
queued_of [] = []
queued_of (r ∷ rs) = let rest = queued_of rs in if status_eq r.status queued then r ∷ rest else rest

unfoldable pub maximum_order : List TaskRecord → ℕ
maximum_order [] = 0
maximum_order (r ∷ rs) = max r.queue_order (maximum_order rs)

unfoldable pub effective_priority : ℕ → TaskRecord → ℕ
effective_priority maximum r =
    let waited_admissions = maximum - r.queue_order in
    let fairness_boost = waited_admissions / fairness_admission_window in
    rank r.priority - fairness_boost

-- the order of the keys (effective priority, queue order, id)
unfoldable pub key_leb : ℕ → TaskRecord → TaskRecord → Bool
key_leb maximum r s =
    ltb (effective_priority maximum r) (effective_priority maximum s)
    || (effective_priority maximum r == effective_priority maximum s
        && (ltb r.queue_order s.queue_order
            || (r.queue_order == s.queue_order && text_leb r.id s.id)))

unfoldable pub insert_by_key : ℕ → TaskRecord → List TaskRecord → List TaskRecord
insert_by_key maximum r [] = r ∷ []
insert_by_key maximum r (s ∷ rs) =
    let later = insert_by_key maximum r rs in if key_leb maximum r s then r ∷ s ∷ rs else s ∷ later

-- `queued.sort_by_key(…)`, which is stable
unfoldable pub sort_by_key : ℕ → List TaskRecord → List TaskRecord
sort_by_key maximum [] = []
sort_by_key maximum (r ∷ rs) = insert_by_key maximum r (sort_by_key maximum rs)

-- of the records that `list` returns
unfoldable pub queued_in_scheduler_order : List TaskRecord → List TaskRecord
queued_in_scheduler_order records =
    sort_by_key (maximum_order (queued_of records)) (queued_of records)

-- `queued.into_iter().next()`
abbrev pub first : List TaskRecord → Option TaskRecord
first [] = none
first (r ∷ rs) = some r

unfoldable pub next_scheduled_task : List TaskRecord → Option TaskRecord
next_scheduled_task records = first (queued_in_scheduler_order records)
