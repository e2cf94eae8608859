-- ===== src/Runtime/Recovery/Interrupted.antt =====
-- What the change of one record to `interrupted` leaves of the rows.
use cake_splitter.Prelude.{
  ℕ, ◌≤◌, ◌≡◌, refl, sym, ap, ◌∙◌, subst, Bool, false, not, List, [], ◌∷◌, some, Text, text_eq,
  count, All, ok, ok_or, checked_add, >>=-eq-ok, >>-eq-ok, reject_if-eq-ok, ok_injective, ◌==◌,
  arith,
}
use cake_splitter.Format.Manifest.{External}
use cake_splitter.Runtime.Status.{interrupted, status_name}
use cake_splitter.Runtime.Record.{TaskRecord, transition, DesktopPreferences}
use cake_splitter.Runtime.Store.{
  corrupt_state, StoredRow, Codec, Database, read_row, decode_row, delete_where, prune_history,
  prune_with_preferences, preferences_of,
}
use cake_splitter.Runtime.Store.Methods.{
  matches_update, update_where, row_of, next_revision, checked_encoding, check_change,
  mutate_decoded,
}
use cake_splitter.Runtime.Store.Rows.{count-delete_where-le}
use cake_splitter.Runtime.Store.Capacity.{found_by_id, equal_of_passed, decoded_as_indexed}
use cake_splitter.Runtime.Recovery.{interrupt}
use cake_splitter.Runtime.Recovery.Covered.{
  is_active_name, IsCovered, HasUniqueIds, All-delete_where, All-imp, update_where-IsCovered,
}

-- no id is in more rows than before
abbrev pub Shrinks : List StoredRow → List StoredRow → Type 0
Shrinks rows later =
    (id : Text) → count (λ row. text_eq row.id id) later ≤ count (λ row. text_eq row.id id) rows

pub delete_where-Shrinks :
    (p : StoredRow → Bool) (rows : List StoredRow) → Shrinks rows (delete_where p rows)
delete_where-Shrinks p rows id = count-delete_where-le (λ row. text_eq row.id id) p rows

update_where-Shrinks :
    (new : StoredRow) (revision epoch : ℕ) (rows : List StoredRow)
    → Shrinks rows (update_where rows new revision epoch)
unfolding update_where
update_where-Shrinks new revision epoch [] id = omega arith
update_where-Shrinks new revision epoch (row ∷ rows) id =
    ground (arith, update_where-Shrinks new revision epoch rows id)

pub Shrinks-trans : (a b c : List StoredRow) → Shrinks a b → Shrinks b c → Shrinks a c
Shrinks-trans a b c first second id = omega (arith, first id, second id)

deleted-IsCovered :
    (rs : List TaskRecord) (p : StoredRow → Bool) (rows : List StoredRow)
    → All (IsCovered rs) rows
    → All (IsCovered rs) (delete_where p rows)
deleted-IsCovered rs p rows all =
    All-imp (λ row. IsCovered rs row × (p row ≡ false)) (IsCovered rs) (delete_where p rows)
      (λ row h. h.0) (All-delete_where (IsCovered rs) p rows all)

interrupted_idle : is_active_name (status_name interrupted) ≡ false
unfolding is_active_name status_name
interrupted_idle = refl

module _ {Json : Type 0} (x : External) (c : Codec Json) (now : Text) where
  pruned-tasks :
      (db db' : Database)
      → prune_history x c now db ≡ ok db'
      → (preferences : DesktopPreferences) × (db'.tasks
          ≡ prune_with_preferences x c now preferences db.tasks)
  unfolding prune_history
  pruned-tasks db db' run =
      let (preferences, _, made) = >>=-eq-ok (preferences_of x c db) _ run in
      (preferences, ap (λ d. Database.tasks d) (sym (ok_injective made)))

  pub prune-Shrinks :
      (db db' : Database) → prune_history x c now db ≡ ok db' → Shrinks db.tasks db'.tasks
  unfolding prune_with_preferences
  prune-Shrinks db db' run =
      let (preferences, made) = pruned-tasks db db' run in
      subst (Shrinks db.tasks) (sym made)
        (Shrinks-trans db.tasks _ _ (delete_where-Shrinks _ db.tasks) (delete_where-Shrinks _ _))

  prune-IsCovered :
      (rs : List TaskRecord) (db db' : Database)
      → prune_history x c now db ≡ ok db'
      → All (IsCovered rs) db.tasks
      → All (IsCovered rs) db'.tasks
  unfolding prune_with_preferences
  prune-IsCovered rs db db' run all =
      let (preferences, made) = pruned-tasks db db' run in
      subst (All (IsCovered rs)) (sym made)
        (deleted-IsCovered rs _ _ (deleted-IsCovered rs _ db.tasks all))

  interrupt_lem :
      (old changed : TaskRecord)
      → interrupt x c now old ≡ ok changed
      → (changed.id ≡ old.id) × (changed.status ≡ interrupted)
  unfolding transition
  interrupt_lem old changed run = (ground arith, ground arith)

  -- the record of a change that succeeded is written in its row
  unfoldable pub Interrupted : List TaskRecord → Database → Database → Type 0
  Interrupted rs db db' = Shrinks db.tasks db'.tasks × All (IsCovered rs) db'.tasks

  pub mutate_decoded-Interrupted :
      (r : TaskRecord) (rs : List TaskRecord) (db : Database) (row : StoredRow) (old : TaskRecord)
      (done : TaskRecord × Database)
      → HasUniqueIds db.tasks
      → All (IsCovered (r ∷ rs)) db.tasks
      → read_row db.tasks r.id ≡ some row
      → decode_row x c row ≡ ok old
      → mutate_decoded x c now db r.epoch (interrupt x c now) row old ≡ ok done
      → Interrupted rs db done.1
  unfolding mutate_decoded Interrupted
  mutate_decoded-Interrupted r rs db row old done unique covered found decoded run =
      let (_, r1) = reject_if-eq-ok (not (old.epoch == r.epoch)) _ _ run in
      let (changed, is_changed, r2) = >>=-eq-ok (interrupt x c now old) _ r1 in
      let (_, r3) = >>-eq-ok (check_change x c now db old changed) _ r2 in
      let (revision, _, r4) =
        >>=-eq-ok (ok_or (checked_add changed.revision 1) corrupt_state) _ r3 in
      let (encoded, _, r5) =
        >>=-eq-ok (checked_encoding x c now (next_revision x c now changed revision)) _ r4 in
      let new = row_of (next_revision x c now changed revision) encoded in
      let updated = update_where db.tasks new row.revision r.epoch in
      let (one, r6) =
        reject_if-eq-ok (not (count (matches_update new row.revision r.epoch) db.tasks == 1)) _ _
          r5 in
      let (pruned, is_pruned, made) =
        >>=-eq-ok (prune_history x c now (record db { tasks = updated })) _ r6 in
      let (same_id, status) = interrupt_lem old changed is_changed in
      let named : new.id ≡ r.id =
        same_id ∙ (decoded_as_indexed x c now row decoded).0 ∙ found_by_id db.tasks r.id found in
      let idle : is_active_name new.status ≡ false =
        ap (λ s. is_active_name (status_name s)) status ∙ interrupted_idle in
      let all =
        update_where-IsCovered r rs new row.revision r.epoch db.tasks named idle
          (equal_of_passed (count (matches_update new row.revision r.epoch) db.tasks) 1 one)
          (unique new.id) covered in
      subst (λ d. Shrinks db.tasks (Database.tasks d) × All (IsCovered rs) (Database.tasks d))
        (ap (λ (d : TaskRecord × Database). d.1) (ok_injective made))
        (
          Shrinks-trans db.tasks updated pruned.tasks
              (update_where-Shrinks new row.revision r.epoch db.tasks)
              (prune-Shrinks (record db { tasks = updated }) pruned is_pruned),
          prune-IsCovered rs (record db { tasks = updated }) pruned is_pruned all,
        )
