-- ===== src/Runtime/Reorder/Once.antt =====
-- How often a task stands in the queue that a move looks at: no more often than its row in the table.
use cake_splitter.Prelude.{
  ℕ, zero, suc, ◌≤◌, ◌≡◌, refl, sym, ap, ◌∙◌, Bool, true, false, ◌&&◌, List, [], ◌∷◌, some, Text,
  subst, text_eq, text_eq_refl, ◌==◌, count, get_elem?, ok, err, codes, map_err, >>=-eq-ok,
  ok_injective, map_err-eq-ok, arith,
}
use cake_splitter.Format.Manifest.{External}
use cake_splitter.Runtime.Status.{TaskPriority, rank}
use cake_splitter.Runtime.Record.{TaskRecord}
use cake_splitter.Runtime.Store.{corrupt_state, StoredRow, Codec, Database, decode_row}
use cake_splitter.Runtime.Store.Capacity.{decoded_as_indexed}
use cake_splitter.Runtime.Reorder.Places.{AreNeighbours}
use cake_splitter.Runtime.Reorder.{
  QueueDirection, earlier, later, queued_rows, of_priority, insert_by_place, sort_by_place,
  decode_all, peers_of,
}

-- a row, and a record, of an id and an epoch
abbrev pub is_row : Text → ℕ → StoredRow → Bool
is_row id epoch row = text_eq row.id id && row.epoch == epoch

abbrev pub is_record : Text → ℕ → TaskRecord → Bool
is_record id epoch r = text_eq r.id id && r.epoch == epoch

module _ (p : TaskRecord → Bool) where
  count-insert_by_place :
      (r : TaskRecord) (rs : List TaskRecord) → count p (insert_by_place r rs) ≡ count p (r ∷ rs)
  unfolding insert_by_place
  count-insert_by_place r [] = refl
  count-insert_by_place r (s ∷ rs) = ground (arith, count-insert_by_place r rs)

  count-sort_by_place : (rs : List TaskRecord) → count p (sort_by_place rs) ≡ count p rs
  unfolding sort_by_place
  count-sort_by_place [] = refl
  count-sort_by_place (r ∷ rs) =
      count-insert_by_place r (sort_by_place rs) ∙ ground (arith, count-sort_by_place rs)

  count-of_priority :
      (priority : TaskPriority) (rs : List TaskRecord)
      → count p (of_priority priority rs) ≡ count (λ r. p r && rank r.priority == rank priority) rs
  unfolding of_priority
  count-of_priority priority [] = refl
  count-of_priority priority (r ∷ rs) = ground (arith, count-of_priority priority rs)

  -- two neighbours that both count
  pub count-neighbours :
      (rs : List TaskRecord) (k : ℕ) (a b : TaskRecord)
      → get_elem? rs k ≡ some a
      → get_elem? rs (suc k) ≡ some b
      → p a ≡ true
      → p b ≡ true
      → 2 ≤ count p rs
  count-neighbours [] k a b at next h h' = absurd (cc at)
  count-neighbours (r ∷ []) zero a b at next h h' = absurd (cc next)
  count-neighbours (r ∷ s ∷ rs) zero a b at next h h' =
      let first : r ≡ a = cc at in
      let second : s ≡ b = cc next in ground (arith, ap p first ∙ h, ap p second ∙ h')
  count-neighbours (r ∷ rs) (suc k) a b at next h h' =
      ground (arith, count-neighbours rs k a b at next h h')

own_key : (r : TaskRecord) → is_record r.id r.epoch r ≡ true
own_key r = ground (arith, text_eq_refl r.id)

-- two records of one key at neighbouring places
pub count-same_key :
    (rs : List TaskRecord) (direction : QueueDirection) (i j : ℕ) (a b : TaskRecord)
    → get_elem? rs i ≡ some a
    → get_elem? rs j ≡ some b
    → AreNeighbours direction i j
    → is_record a.id a.epoch b ≡ true
    → 2 ≤ count (is_record a.id a.epoch) rs
count-same_key rs earlier i j a b here there next same =
    count-neighbours (is_record a.id a.epoch) rs j b a there
      (subst (λ k. get_elem? rs k ≡ some a) next here) same (own_key a)
count-same_key rs later i j a b here there next same =
    count-neighbours (is_record a.id a.epoch) rs i a b here
      (subst (λ k. get_elem? rs k ≡ some b) next there) (own_key a) same

count-queued_rows :
    (p : StoredRow → Bool) (rows : List StoredRow)
    → count p (queued_rows rows) ≡ count (λ row. text_eq row.status (codes "queued") && p row) rows
unfolding queued_rows
count-queued_rows p [] = refl
count-queued_rows p (row ∷ rows) = ground (arith, count-queued_rows p rows)

fewer_of_both :
    (p q : StoredRow → Bool) (rows : List StoredRow)
    → count (λ row. text_eq row.status (codes "queued") && (p row && q row)) rows ≤ count p rows
fewer_of_both p q [] = omega arith
fewer_of_both p q (row ∷ rows) = ground (arith, fewer_of_both p q rows)

module _ {Json : Type 0} (x : External) (c : Codec Json) (now : Text) where
  -- a row whose text is that of a task of the priority
  abbrev pub has_priority : TaskPriority → StoredRow → Bool
  has_priority priority row = elim (decode_row x c row) [
    | err reason ↦ false
    | ok r ↦ rank r.priority == rank priority
  ]

  -- a queued row of an id and an epoch whose text is that of a task of the priority
  abbrev pub is_peer_row : TaskPriority → Text → ℕ → StoredRow → Bool
  is_peer_row priority id epoch row =
      text_eq row.status (codes "queued") && (is_row id epoch row && has_priority priority row)

  decoded_priority :
      (priority : TaskPriority) (row : StoredRow) (r : TaskRecord)
      → decode_row x c row ≡ ok r
      → (rank r.priority == rank priority) ≡ has_priority priority row
  decoded_priority priority row r decoded = rw (decoded, has_priority) refl

  count-decode_all :
      (priority : TaskPriority) (id : Text) (epoch : ℕ) (rows : List StoredRow)
      (rs : List TaskRecord)
      → decode_all x c now rows ≡ ok rs
      → count (λ r. is_record id epoch r && rank r.priority == rank priority) rs
        ≡ count (λ row. is_row id epoch row && has_priority priority row) rows
  unfolding decode_all
  count-decode_all priority id epoch [] rs run =
      ap (count (λ r. is_record id epoch r && rank r.priority == rank priority))
        (sym (ok_injective run))
  count-decode_all priority id epoch (row ∷ rows) rs run =
      let (r, decoding, run1) =
        >>=-eq-ok (map_err (λ reason. corrupt_state) (decode_row x c row)) _ run in
      let (rest, others, made) = >>=-eq-ok (decode_all x c now rows) _ run1 in
      let decoded = map_err-eq-ok (λ reason. corrupt_state) (decode_row x c row) r decoding in
      let (same_id, (same_epoch, _)) = decoded_as_indexed x c now row decoded in
      let same : is_record id epoch r ≡ is_row id epoch row =
        ap (λ i. text_eq i id && r.epoch == epoch) same_id
        ∙ ap (λ e. text_eq row.id id && e == epoch) same_epoch in
      let placed : (rank r.priority == rank priority) ≡ has_priority priority row =
        decoded_priority priority row r decoded in
      ap (count (λ r. is_record id epoch r && rank r.priority == rank priority))
        (sym (ok_injective made))
      ∙ ground (arith, same, placed, count-decode_all priority id epoch rows rest others)

  -- a task stands in the queue as often as the table has a queued row of it
  pub count-peers_of :
      (db : Database) (priority : TaskPriority) (peers : List TaskRecord) (id : Text) (epoch : ℕ)
      → peers_of x c now db priority ≡ ok peers
      → count (is_record id epoch) peers ≡ count (is_peer_row priority id epoch) db.tasks
  unfolding peers_of
  count-peers_of db priority peers id epoch run =
      let (records, decoded, sorted) =
        >>=-eq-ok (decode_all x c now (queued_rows db.tasks)) _ run in
      let p = is_record id epoch in
      ap (count p) (sym (ok_injective sorted))
      ∙ count-sort_by_place p (of_priority priority records)
      ∙ count-of_priority p priority records
      ∙ count-decode_all priority id epoch (queued_rows db.tasks) records decoded
      ∙ count-queued_rows (λ row. is_row id epoch row && has_priority priority row) db.tasks

  pub count-peers_of-le :
      (db : Database) (priority : TaskPriority) (peers : List TaskRecord) (id : Text) (epoch : ℕ)
      → peers_of x c now db priority ≡ ok peers
      → count (is_record id epoch) peers ≤ count (is_row id epoch) db.tasks
  count-peers_of-le db priority peers id epoch run = omega (
    arith,
    count-peers_of db priority peers id epoch run,
    fewer_of_both (is_row id epoch) (has_priority priority) db.tasks,
  )
