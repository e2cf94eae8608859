-- ===== src/Runtime/Store/Capacity.antt =====
-- The bound on nonterminal tasks, kept by every method over any history of calls.
use cake_splitter.Prelude.{
  checked_add, ok_or, ◌==◌, ℕ, suc, ◌+◌, ◌≤◌, ◌≡◌, refl, Bool, true, false, not, List, [], ◌∷◌,
  ◌++◌, arith, some, Text, text_eq, text_eq_iff, count, ok, Result, >>=-eq-ok, >>-eq-ok,
  reject_if-eq-ok, ◌∙◌, ap, sym, subst, if◌then◌else◌, Bool-cases, Option-cases, Result-cases, inl,
  inr,
}
use cake_splitter.Format.Manifest.{External}
use cake_splitter.Runtime.Status.{is_terminal, sql_terminal, status_name, TaskStatus}
use cake_splitter.Runtime.Status.Graph.{sql_terminal-status_name}
use cake_splitter.Runtime.Record.{TaskRecord, max_nonterminal_tasks}
use cake_splitter.Runtime.Shape.{is_some}
use cake_splitter.Runtime.Store.{
  StoreError, StoredRow, Codec, Database, corrupt_state, read_row, is_nonterminal_row,
  count_nonterminal, decode_row, prune_history, prune_with_preferences, preferences_of,
  quarantine_row,
}
use cake_splitter.Runtime.Store.Methods.{
  matches_update, written, update_where, row_of, assign_order, check_admission, first_revision,
  next_revision, checked_encoding, check_change, insert, mutate_decoded, mutate, get,
}
use cake_splitter.Runtime.Store.Rows.{
  count-delete_where-le, count-append, count_nonterminal-prune, count-update,
}

-- the tasks that the queue's capacity counts
abbrev pub nonterminal : Database → ℕ
nonterminal db = count_nonterminal db.tasks

pub found_by_id :
    (rows : List StoredRow) (id : Text) {row : StoredRow}
    → read_row rows id ≡ some row
    → row.id ≡ id
unfolding read_row
found_by_id [] id found = cc
found_by_id (r ∷ rows) id {row} found = elim (Bool-cases (text_eq r.id id)) [
  | inl same ↦
      let e : r ≡ row = ground (arith, same, found) in
      ap (λ (s : StoredRow). s.id) (sym e) ∙ (text_eq_iff r.id id).0 same
  | inr other ↦ found_by_id rows id {row = row} (ground (arith, other, found))
]

moved_within :
    (n m limit : ℕ) (old changed : Bool)
    → n + (if not old then 1 else 0) ≡ m + (if not changed then 1 else 0)
    → (old ≡ true → changed ≡ false → suc m ≤ limit)
    → m ≤ limit
    → n ≤ limit
moved_within n m limit true false moved fits within = ground (arith, moved, fits refl refl)
moved_within n m limit true true moved fits within = omega arith
moved_within n m limit false changed moved fits within = ground (arith, moved, within)

pub equal_of_passed : (n m : ℕ) → not (n == m) ≡ false → n ≡ m
equal_of_passed n m passed = ground arith

matches_own :
    (new row : StoredRow) (epoch : ℕ)
    → row.id ≡ new.id
    → row.epoch ≡ epoch
    → matches_update new row.revision epoch row ≡ true
matches_own new row epoch same_id same_epoch =
    ground (arith, (text_eq_iff row.id new.id).1 same_id, same_epoch)

module _ {Json : Type 0} (x : External) (c : Codec Json) (now : Text) where
  pub nonterminal-prune :
      (db : Database) {db' : Database}
      → prune_history x c now db ≡ ok db'
      → nonterminal db' ≡ nonterminal db
  unfolding prune_history
  nonterminal-prune db {db'} run =
      let (preferences, _, made) = >>=-eq-ok (preferences_of x c db) _ run in
      let pruned : record db { tasks = prune_with_preferences x c now preferences db.tasks } ≡ db' =
        ground (arith, made) in
      ap nonterminal (sym pruned) ∙ count_nonterminal-prune x c now preferences db.tasks

  ordered_status :
      (db : Database) (given : TaskRecord) {r : TaskRecord}
      → assign_order x c now db given ≡ ok r
      → r.status ≡ given.status
  unfolding assign_order
  ordered_status db given run = ground arith

  -- a row of a record is counted by the record's status
  row_counted : (s : TaskStatus) → not (sql_terminal (status_name s)) ≡ not (is_terminal s)
  row_counted s = ap not (sql_terminal-status_name s s).0

  admitted_room :
      (db : Database) (given : TaskRecord)
      → check_admission x c now db given ≡ ok tt
      → is_terminal given.status ≡ false
      → suc (nonterminal db) ≤ max_nonterminal_tasks
  unfolding check_admission
  admitted_room db given run h = ground arith

  -- An insertion that succeeds keeps the capacity.
  pub insert-capacity :
      (db : Database) (given : TaskRecord) {done : TaskRecord × Database}
      → nonterminal db ≤ max_nonterminal_tasks
      → insert x c now db given ≡ ok done
      → nonterminal done.1 ≤ max_nonterminal_tasks
  unfolding insert sql_terminal status_name count_nonterminal
  insert-capacity db given {done} room run =
      let (admitted, r1) = >>-eq-ok (check_admission x c now db given) _ run in
      let (ordered, is_ordered, r2) = >>=-eq-ok (assign_order x c now db given) _ r1 in
      let (encoded, _, r3) =
        >>=-eq-ok (checked_encoding x c now (first_revision x c now ordered)) _ r2 in
      let (_, r4) = reject_if-eq-ok (is_some (read_row db.tasks ordered.id)) _ _ r3 in
      let new = row_of (first_revision x c now ordered) encoded in
      let (pruned, is_pruned, made) =
        >>=-eq-ok (prune_history x c now (record db { tasks = db.tasks ++ new ∷ [] })) _ r4 in
      let same : pruned ≡ done.1 = ground (arith, made) in
      let counted : nonterminal done.1
          ≡ (if not (is_terminal given.status) then suc (nonterminal db) else nonterminal db) =
        ap nonterminal (sym same)
        ∙ (nonterminal-prune (record db { tasks = db.tasks ++ new ∷ [] }) is_pruned
            ∙ (count-append is_nonterminal_row db.tasks new
                ∙ ap (λ b. if b then suc (nonterminal db) else nonterminal db)
                    (row_counted ordered.status
                      ∙ ap (λ s. not (is_terminal s)) (ordered_status db given is_ordered)))) in
      elim (Bool-cases (is_terminal given.status)) [
        | inl over ↦ ground (arith, counted, over, room)
        | inr live ↦ ground (arith, counted, live, admitted_room db given admitted live)
      ]

  -- a change that keeps the record's name
  abbrev pub KeepsId : (TaskRecord → Result StoreError TaskRecord) → Type 0
  KeepsId change = (r r' : TaskRecord) → change r ≡ ok r' → r'.id ≡ r.id

  pub decoded_as_indexed :
      (row : StoredRow) {r : TaskRecord}
      → decode_row x c row ≡ ok r
      → (r.id ≡ row.id) × ((r.epoch ≡ row.epoch) × (status_name r.status ≡ row.status))
  unfolding decode_row
  decoded_as_indexed row {r} run =
      let indexed : (text_eq r.id row.id ≡ true)
          × ((r.epoch ≡ row.epoch) × (text_eq (status_name r.status) row.status ≡ true)) =
        ground (arith, run) in
      (
        (text_eq_iff r.id row.id).0 indexed.0,
        (indexed.1.0, (text_eq_iff (status_name r.status) row.status).0 indexed.1.1),
      )

  changed_room :
      (db : Database) (old changed : TaskRecord)
      → check_change x c now db old changed ≡ ok tt
      → is_terminal old.status ≡ true
      → is_terminal changed.status ≡ false
      → suc (nonterminal db) ≤ max_nonterminal_tasks
  unfolding check_change
  changed_room db old changed run h1 h2 = ground arith

  -- an UPDATE of the row that was read, within the capacity
  updated-capacity :
      (db : Database) (epoch : ℕ) (row new : StoredRow) (old changed : TaskRecord) {db' : Database}
      → read_row db.tasks new.id ≡ some row
      → matches_update new row.revision epoch row ≡ true
      → count (matches_update new row.revision epoch) db.tasks ≡ 1
      → status_name old.status ≡ row.status
      → new.status ≡ status_name changed.status
      → check_change x c now db old changed ≡ ok tt
      → prune_history x c now (record db { tasks = update_where db.tasks new row.revision epoch })
        ≡ ok db'
      → nonterminal db ≤ max_nonterminal_tasks
      → nonterminal db' ≤ max_nonterminal_tasks
  unfolding count_nonterminal
  updated-capacity db epoch row new old changed {db'} found hit one was becomes checked is_pruned
        room =
      let updated = record db { tasks = update_where db.tasks new row.revision epoch } in
      let kept : nonterminal db' ≡ nonterminal updated = nonterminal-prune updated is_pruned in
      let moved =
        count-update new row.revision epoch is_nonterminal_row db.tasks row found hit one in
      let before : is_nonterminal_row row ≡ not (is_terminal old.status) =
        ap (λ s. not (sql_terminal s)) (sym was) ∙ row_counted old.status in
      let after : is_nonterminal_row (written new row) ≡ not (is_terminal changed.status) =
        ap (λ s. not (sql_terminal s)) becomes ∙ row_counted changed.status in
      moved_within (nonterminal db') (nonterminal db) max_nonterminal_tasks (is_terminal old.status)
        (is_terminal changed.status) (ground (arith, kept, moved, before, after))
        (changed_room db old changed checked) room

  mutate_decoded-capacity :
      (db : Database) (id : Text) (epoch : ℕ) (change : TaskRecord → Result StoreError TaskRecord)
      (row : StoredRow) (old : TaskRecord) {done : TaskRecord × Database}
      → KeepsId change
      → read_row db.tasks id ≡ some row
      → decode_row x c row ≡ ok old
      → nonterminal db ≤ max_nonterminal_tasks
      → mutate_decoded x c now db epoch change row old ≡ ok done
      → nonterminal done.1 ≤ max_nonterminal_tasks
  unfolding mutate_decoded sql_terminal status_name count_nonterminal
  mutate_decoded-capacity db id epoch change row old {done} keeps found decoded room run =
      let (same_epoch, r1) = reject_if-eq-ok (not (old.epoch == epoch)) _ _ run in
      let (changed, is_changed, r2) = >>=-eq-ok (change old) _ r1 in
      let (checked, r3) = >>-eq-ok (check_change x c now db old changed) _ r2 in
      let (revision, _, r4) =
        >>=-eq-ok (ok_or (checked_add changed.revision 1) corrupt_state) _ r3 in
      let (encoded, _, r5) =
        >>=-eq-ok (checked_encoding x c now (next_revision x c now changed revision)) _ r4 in
      let new = row_of (next_revision x c now changed revision) encoded in
      let (updated, r6) =
        reject_if-eq-ok (not (count (matches_update new row.revision epoch) db.tasks == 1)) _ _
          r5 in
      let (pruned, is_pruned, made) =
        >>=-eq-ok
          (prune_history x c now
            (record db { tasks = update_where db.tasks new row.revision epoch }))
          _ r6 in
      let same : pruned ≡ done.1 = ground (arith, made) in
      let (same_id, (same_epoch', same_status)) = decoded_as_indexed row decoded in
      let named = found_by_id db.tasks id found in
      let new_id : changed.id ≡ id = keeps old changed is_changed ∙ (same_id ∙ named) in
      let at_epoch : row.epoch ≡ epoch =
        sym same_epoch' ∙ equal_of_passed old.epoch epoch same_epoch in
      updated-capacity db epoch row new old changed
        (subst (λ i. read_row db.tasks i ≡ some row) (sym new_id) found)
        (matches_own new row epoch (named ∙ sym new_id) at_epoch)
        (equal_of_passed (count (matches_update new row.revision epoch) db.tasks) 1 updated)
        same_status refl checked
        (subst
          (λ d.
            prune_history x c now
              (record db { tasks = update_where db.tasks new row.revision epoch })
            ≡ ok d)
          same is_pruned)
        room

  pub quarantined-capacity :
      (db : Database) (row : StoredRow) (reason : Text)
      → nonterminal (quarantine_row x c now db row reason) ≤ nonterminal db
  unfolding quarantine_row count_nonterminal
  quarantined-capacity db row reason =
      count-delete_where-le is_nonterminal_row (λ other. text_eq other.id row.id) db.tasks

  -- A change of a record that keeps its name keeps the capacity, whether it succeeds or not.
  pub mutate-capacity :
      (db : Database) (id : Text) (epoch : ℕ) (change : TaskRecord → Result StoreError TaskRecord)
      → KeepsId change
      → nonterminal db ≤ max_nonterminal_tasks
      → nonterminal (mutate x c now db id epoch change).1 ≤ max_nonterminal_tasks
  unfolding mutate
  mutate-capacity db id epoch change keeps room = elim (Bool-cases (epoch == db.epoch)) [
    | inr stale ↦ rw stale room
    | inl current ↦ elim (Option-cases (read_row db.tasks id)) [
      | inl absent ↦ rw (current, absent) room
      | inr (row, found) ↦ elim (Result-cases (decode_row x c row)) [
        | inr (reason, corrupt) ↦
            rw (current, found, corrupt) (omega (arith, quarantined-capacity db row reason, room))
        | inl (old, decoded) ↦
            elim (Result-cases (mutate_decoded x c now db epoch change row old)) [
              | inr (e, failed) ↦ rw (current, found, decoded, failed) room
              | inl (done, run) ↦
                  rw (current, found, decoded, run)
                    (mutate_decoded-capacity db id epoch change row old keeps found decoded room
                      run)
            ]
      ]
    ]
  ]

  pub get-capacity :
      (db : Database) (id : Text) → nonterminal (get x c now db id).1 ≤ nonterminal db
  unfolding get
  get-capacity db id = elim (Option-cases (read_row db.tasks id)) [
    | inl absent ↦ rw (absent, get) (omega arith)
    | inr (row, found) ↦ elim (Result-cases (decode_row x c row)) [
      | inl (old, decoded) ↦ rw (found, decoded, get) (omega arith)
      | inr (reason, corrupt) ↦ rw (found, corrupt, get) (quarantined-capacity db row reason)
    ]
  ]
