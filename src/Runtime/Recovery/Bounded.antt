-- ===== src/Runtime/Recovery/Bounded.antt =====
-- The bound on nonterminal tasks after `recover_after_restart`.
use cake_splitter.Prelude.{
  ◌+◌, ◌≤◌, ◌≡◌, refl, sym, ap, ◌∙◌, Bool, true, not, List, [], ◌∷◌, ◌++◌, Text, text_eq_refl, ltb,
  ltb→le, count, count-le-length, take, drop, take-append-drop, length-take, ok, err, Bool-cases,
  Result-cases, inl, inr, arith,
}
use cake_splitter.Format.Manifest.{External}
use cake_splitter.Runtime.Status.{sql_terminal}
use cake_splitter.Runtime.Record.{TaskRecord, transition, max_nonterminal_tasks}
use cake_splitter.Runtime.Store.{
  StoredRow, Codec, Database, is_nonterminal_row, count_nonterminal, delete_where, prune_history,
}
use cake_splitter.Runtime.Store.Methods.{mutate}
use cake_splitter.Runtime.Store.Capacity.{nonterminal, KeepsId, mutate-capacity, nonterminal-prune}
use cake_splitter.Runtime.Scheduler.Capacity.{list_validated-capacity}
use cake_splitter.Runtime.Scheduler.{list_validated}
use cake_splitter.Runtime.Recovery.{
  StartupRecoveryState, StartupRecoveryReport, max_recovery_records, is_active, insert_older,
  oldest_first, excess_rows, has_id_in, delete_excess, trim, quarantine_all, samples, interrupt,
  interrupt_all, recover_after_restart,
}

count-++ :
    (p : StoredRow → Bool) (rows others : List StoredRow)
    → count p (rows ++ others) ≡ count p rows + count p others
count-++ p [] others = omega arith
count-++ p (row ∷ rows) others = ground (arith, count-++ p rows others)

count-insert_older :
    (p : StoredRow → Bool) (row : StoredRow) (rows : List StoredRow)
    → count p (insert_older row rows) ≡ count p (row ∷ rows)
unfolding insert_older
count-insert_older p row [] = refl
count-insert_older p row (other ∷ rows) = ground (arith, count-insert_older p row rows)

count-oldest_first :
    (p : StoredRow → Bool) (rows : List StoredRow) → count p (oldest_first rows) ≡ count p rows
unfolding oldest_first
count-oldest_first p [] = refl
count-oldest_first p (row ∷ rows) =
    count-insert_older p row (oldest_first rows) ∙ ground (arith, count-oldest_first p rows)

-- what a deletion leaves of the nonterminal rows
count_kept :
    (p : StoredRow → Bool) (rows : List StoredRow)
    → count is_nonterminal_row (delete_where p rows)
      ≡ count (λ row. not (p row)) (delete_where (λ row. sql_terminal row.status) rows)
unfolding delete_where
count_kept p [] = refl
count_kept p (row ∷ rows) = ground (arith, count_kept p rows)

-- no row is left whose id is among its own
none_kept :
    (others rows : List StoredRow)
    → ((row : StoredRow) → has_id_in rows row ≡ true → has_id_in others row ≡ true)
    → count (λ row. not (has_id_in others row)) rows ≡ 0
none_kept others [] inside = refl
none_kept others (row ∷ rows) inside =
    ground
      (arith, inside row (own row rows), none_kept others rows λ r h. inside r (ground (arith, h)))
  where
    own : (row : StoredRow) (rows : List StoredRow) → has_id_in (row ∷ rows) row ≡ true
    own row rows = ground (arith, text_eq_refl row.id)

-- Without the rows after the first 64, at most 64 nonterminal ones are left.
delete_excess-bounded :
    {Json : Type 0} (x : External) (c : Codec Json) (now : Text) (db : Database)
    → nonterminal (delete_excess x c now db) ≤ max_nonterminal_tasks
unfolding delete_excess excess_rows count_nonterminal
delete_excess-bounded x c now db =
    let live = delete_where (λ (row : StoredRow). sql_terminal row.status) db.tasks in
    let queue = oldest_first live in
    let gone = drop max_recovery_records queue in
    let kept = λ (row : StoredRow). not (has_id_in gone row) in
    let left =
      count_kept (has_id_in gone) db.tasks
      ∙ sym (count-oldest_first kept live)
      ∙ sym (ap (count kept) (take-append-drop max_recovery_records queue))
      ∙ count-++ kept (take max_recovery_records queue) gone in
    omega (
      arith,
      left,
      none_kept gone gone (λ row h. h),
      count-le-length kept (take max_recovery_records queue),
      length-take max_recovery_records queue,
    )

module _ {Json : Type 0} (x : External) (c : Codec Json) (now : Text) where
  trim-bounded : (db : Database) → nonterminal (trim x c now db) ≤ max_nonterminal_tasks
  unfolding trim
  trim-bounded db = elim (Bool-cases (ltb max_recovery_records (count_nonterminal db.tasks))) [
    | inl over ↦
        rw over (delete_excess-bounded x c now (quarantine_all x c now db (samples x c now db)))
    | inr within ↦ rw within (ltb→le _ _ within)
  ]

  interrupt-KeepsId : KeepsId x c now (interrupt x c now)
  unfolding transition
  interrupt-KeepsId r r' run = ground arith

  interrupt_all-capacity :
      (rs : List TaskRecord) (db : Database)
      → nonterminal db ≤ max_nonterminal_tasks
      → nonterminal (interrupt_all x c now db rs).1 ≤ max_nonterminal_tasks
  unfolding interrupt_all
  interrupt_all-capacity [] db room = room
  interrupt_all-capacity (r ∷ rs) db room =
      let first =
        mutate-capacity x c now db r.id r.epoch (interrupt x c now) interrupt-KeepsId room in
      elim (Bool-cases (is_active r.status)) [
        | inr idle ↦ rw (idle, interrupt_all) (interrupt_all-capacity rs db room)
        | inl active ↦ elim (Result-cases (mutate x c now db r.id r.epoch (interrupt x c now)).0) [
          | inr (e, failed) ↦ rw (active, failed, interrupt_all) first
          | inl (task, done) ↦ rw (active, done, interrupt_all) (interrupt_all-capacity rs _ first)
        ]
      ]

  pruned-capacity :
      (prior : StartupRecoveryState) (db pruned : Database)
      → prune_history x c now (trim x c now db) ≡ ok pruned
      → nonterminal (recover_after_restart x c now prior db).1 ≤ max_nonterminal_tasks
  unfolding recover_after_restart
  pruned-capacity prior db pruned done =
      rw (done, recover_after_restart)
        (interrupt_all-capacity (list_validated x c now pruned).records _ (
          omega (
            arith,
            list_validated-capacity x c now pruned,
            nonterminal-prune x c now (trim x c now db) done,
            trim-bounded db,
          )))

  -- Whatever the database holds, at most 64 tasks are nonterminal after a recovery that succeeds.
  pub recover-bounded :
      (prior : StartupRecoveryState) (db : Database) (report : StartupRecoveryReport)
      → (recover_after_restart x c now prior db).0 ≡ ok report
      → nonterminal (recover_after_restart x c now prior db).1 ≤ max_nonterminal_tasks
  unfolding recover_after_restart
  recover-bounded prior db report run =
      elim (Result-cases (prune_history x c now (trim x c now db))) [
        | inr (e, failed) ↦
            let refused : (recover_after_restart x c now prior db).0 ≡ err e =
              rw (failed, recover_after_restart) refl in
            absurd (cc (sym run, refused))
        | inl (pruned, done) ↦ pruned-capacity prior db pruned done
      ]

  -- A recovery that fails, before or amid its interruptions, leaves no more than there may be either.
  pub recover-capacity :
      (prior : StartupRecoveryState) (db : Database)
      → nonterminal db ≤ max_nonterminal_tasks
      → nonterminal (recover_after_restart x c now prior db).1 ≤ max_nonterminal_tasks
  unfolding recover_after_restart
  recover-capacity prior db room = elim (Result-cases (prune_history x c now (trim x c now db))) [
    | inr (e, failed) ↦ rw (failed, recover_after_restart) room
    | inl (pruned, done) ↦ pruned-capacity prior db pruned done
  ]
