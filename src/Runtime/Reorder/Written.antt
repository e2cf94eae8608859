-- ===== src/Runtime/Reorder/Written.antt =====
-- What `write_record`, and the two turns of the last loop of `move_queued`, leave in the table.
use cake_splitter.Prelude.{
  ℕ, ◌+◌, ◌≤◌, ◌≡◌, sym, ap, ◌∙◌, subst, true, false, not, List, [], ◌∷◌, Text, codes, text_eq,
  ◌==◌, count, All, ok, ok_or, map_err, checked_add, >>=-eq-ok, Bool-cases, inl, inr, >>-eq-ok,
  reject_if-eq-ok, ok_injective, arith,
}
use cake_splitter.Format.Manifest.{External}
use cake_splitter.Runtime.Status.{status_name, sql_terminal}
use cake_splitter.Runtime.Record.{TaskRecord}
use cake_splitter.Runtime.Shape.{validate_record_shape}
use cake_splitter.Runtime.Store.{
  corrupt_state, StoredRow, Codec, Database, read_row, count_nonterminal, encode,
}
use cake_splitter.Runtime.Store.Methods.{row_of}
use cake_splitter.Runtime.Store.Capacity.{nonterminal}
use cake_splitter.Runtime.Reorder.{is_target, write_record, in_place_of, write_swapped}
use cake_splitter.Runtime.Reorder.Rows.{
  read_row-update_target, count-update_target, queued-update_target, queued_live,
}
use cake_splitter.Runtime.Reorder.Once.{is_row, is_record}
use cake_splitter.Runtime.Reorder.Stored.{
  rows_of, IsStored, rows_of-update_target, rows_of-update_target_other,
}
use cake_splitter.Runtime.Reorder.Places.{IsQueuedIn}

checked_suc : (n m : ℕ) → ok_or (checked_add n 1) corrupt_state ≡ ok m → m ≡ n + 1
checked_suc n m e = ground arith

-- one row of a key is not that of two tasks
once_only :
    (a b : TaskRecord) (rows : List StoredRow)
    → (is_record a.id a.epoch b ≡ true → 2 ≤ count (is_row a.id a.epoch) rows)
    → count (is_row a.id a.epoch) rows ≡ 1
    → is_record a.id a.epoch b ≡ false
once_only a b rows twice once = elim (Bool-cases (is_record a.id a.epoch b)) [
  | inl same ↦ absurd (omega (arith, twice same, once))
  | inr other ↦ other
]

module _ {Json : Type 0} (x : External) (c : Codec Json) (now : Text) where
  -- one record written back, which stays queued
  abbrev WroteOne : Database → TaskRecord → Database → Type 0
  WroteOne db r db' =
      (nonterminal db' ≡ nonterminal db)
      × ((id : Text) → text_eq r.id id ≡ false → read_row db'.tasks id ≡ read_row db.tasks id)
      × ((s : TaskRecord) → IsQueuedIn db.tasks s → IsQueuedIn db'.tasks s)
      × IsStored x c db'.tasks r
      × ((id : Text) (epoch : ℕ)
          → is_record id epoch r ≡ false
          → rows_of id epoch db'.tasks ≡ rows_of id epoch db.tasks)
      × (count (is_row r.id r.epoch) db.tasks ≡ 1)

  write_record_lem :
      (db : Database) (r : TaskRecord) (db' : Database)
      → IsQueuedIn db.tasks r
      → write_record x c now db r ≡ ok db'
      → WroteOne db r db'
  unfolding write_record count_nonterminal status_name sql_terminal
  write_record_lem db r db' (status, there) run =
      let (_, r1) =
        >>-eq-ok (map_err (λ reason. corrupt_state) (validate_record_shape x r)) _ run in
      let (encoded, is_encoded, r2) = >>=-eq-ok (encode x c r) _ r1 in
      let new = row_of r encoded in
      let (one, made) = reject_if-eq-ok (not (count (is_target new) db.tasks == 1)) _ _ r2 in
      let once : count (is_target new) db.tasks ≡ 1 = ground (arith, one) in
      let queued_name : text_eq new.status (codes "queued") ≡ true =
        ap (λ s. text_eq (status_name s) (codes "queued")) status in
      subst (WroteOne db r) (ok_injective made) (
        count-update_target db.tasks new (queued_live new.status queued_name) there once,
        λ id other. read_row-update_target db.tasks new id other,
        λ s q. (q.0, queued-update_target db.tasks new s.id s.epoch queued_name q.1),
        (encoded, is_encoded, rows_of-update_target db.tasks new once),
        λ id epoch apart. rows_of-update_target_other db.tasks new id epoch apart,
        once,
      )

  -- a record at the place of another, one revision later
  abbrev pub moved_to : TaskRecord → TaskRecord → TaskRecord
  moved_to r other = record r {
    queue_order = other.queue_order;
    revision = r.revision + 1;
    updated_at = now;
  }

  abbrev pub Differs : Text → TaskRecord → Type 0
  Differs other r = text_eq r.id other ≡ false

  pub write_swapped_lem :
      (db : Database) (a b : TaskRecord) (moved : List TaskRecord) (db' : Database)
      → IsQueuedIn db.tasks a
      → IsQueuedIn db.tasks b
      → (is_record a.id a.epoch b ≡ true → 2 ≤ count (is_row a.id a.epoch) db.tasks)
      → write_swapped x c now db a b ≡ ok (moved, db')
      → (moved ≡ moved_to a b ∷ moved_to b a ∷ [])
        × IsStored x c db'.tasks (moved_to a b)
        × IsStored x c db'.tasks (moved_to b a)
        × ((other : Text)
            → All (Differs other) moved
            → read_row db'.tasks other ≡ read_row db.tasks other)
        × (nonterminal db' ≡ nonterminal db)
  unfolding write_swapped
  write_swapped_lem db a b moved db' in_a in_b twice run =
      let (m, m_is, r1) = >>=-eq-ok (ok_or (checked_add a.revision 1) corrupt_state) _ run in
      let (db1, wrote1, r2) =
        >>=-eq-ok (write_record x c now db (in_place_of x c now a b m)) _ r1 in
      let (n, n_is, r3) = >>=-eq-ok (ok_or (checked_add b.revision 1) corrupt_state) _ r2 in
      let (db2, wrote2, made) =
        >>=-eq-ok (write_record x c now db1 (in_place_of x c now b a n)) _ r3 in
      let whole = ok_injective made in
      let (count1, rows1, kept1, stored1, _, once) =
        write_record_lem db (in_place_of x c now a b m) db1 in_a wrote1 in
      let (count2, rows2, _, stored2, apart2, _) =
        write_record_lem db1 (in_place_of x c now b a n) db2 (kept1 b in_b) wrote2 in
      let same2 = ap (λ (d : List TaskRecord × Database). d.1) whole in
      let other : is_record a.id a.epoch b ≡ false = once_only a b db.tasks twice once in
      let (encoded, is_encoded, row) = stored1 in
      let stored : IsStored x c db2.tasks (in_place_of x c now a b m) =
        (encoded, is_encoded, apart2 a.id a.epoch other ∙ row) in
      (
        sym (ap (λ (d : List TaskRecord × Database). d.0) whole)
            ∙ ap (λ k. in_place_of x c now a b k ∷ in_place_of x c now b a n ∷ [])
                (checked_suc a.revision m m_is)
            ∙ ap (λ k. moved_to a b ∷ in_place_of x c now b a k ∷ [])
                (checked_suc b.revision n n_is),
        subst (λ (d : Database). IsStored x c d.tasks (moved_to a b)) same2
            (subst (λ k. IsStored x c db2.tasks (in_place_of x c now a b k))
              (checked_suc a.revision m m_is) stored),
        subst (λ (d : Database). IsStored x c d.tasks (moved_to b a)) same2
            (subst (λ k. IsStored x c db2.tasks (in_place_of x c now b a k))
              (checked_suc b.revision n n_is) stored2),
        λ other apart.
            let both =
              subst (All (Differs other)) (sym (ap (λ (d : List TaskRecord × Database). d.0) whole))
                apart in
            ap (λ d. read_row (Database.tasks d) other) (sym same2)
            ∙ rows2 other both.1.0
            ∙ rows1 other both.0,
        ap nonterminal (sym same2) ∙ count2 ∙ count1,
      )
