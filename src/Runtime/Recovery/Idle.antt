-- ===== src/Runtime/Recovery/Idle.antt =====
-- The rows after `recover_after_restart`, of which none is at work.
use cake_splitter.Prelude.{
  ℕ, suc, ◌≤◌, ◌≡◌, false, List, [], ◌∷◌, Text, text_eq, ltb, All, ok, ◌>>=◌, >>=-eq-ok, Bool-cases,
  Option-cases, Result-cases, ◌==◌, inl, inr, arith,
}
use cake_splitter.Format.Manifest.{External}
use cake_splitter.Runtime.Record.{TaskRecord, max_nonterminal_tasks}
use cake_splitter.Runtime.Store.Capacity.{nonterminal}
use cake_splitter.Runtime.Store.{
  StoredRow, Codec, Database, read_row, count_nonterminal, decode_row, prune_history,
  quarantine_row,
}
use cake_splitter.Runtime.Store.Methods.{mutate_decoded, mutate}
use cake_splitter.Runtime.Scheduler.{newest_first, list_rows, list_validated}
use cake_splitter.Runtime.Recovery.{
  StartupRecoveryState, StartupRecoveryReport, max_recovery_records, is_active, quarantine_all,
  samples, delete_excess, trim, interrupt, interrupt_all, recover_after_restart,
}
use cake_splitter.Runtime.Recovery.Bounded.{recover-bounded}
use cake_splitter.Runtime.Recovery.Covered.{is_active_name, IsCovered, HasUniqueIds, All-imp}
use cake_splitter.Runtime.Recovery.Listed.{list_validated-IsCovered}
use cake_splitter.Runtime.Recovery.Interrupted.{
  Shrinks, delete_where-Shrinks, prune-Shrinks, Interrupted, mutate_decoded-Interrupted,
}

-- a record that is not at work covers no row
skipped :
    (r : TaskRecord) (rs : List TaskRecord) (row : StoredRow)
    → is_active r.status ≡ false
    → IsCovered (r ∷ rs) row
    → IsCovered rs row
skipped r rs row idle covered = ground (arith, idle, covered)

still_unique :
    (rows later : List StoredRow) → Shrinks rows later → HasUniqueIds rows → HasUniqueIds later
still_unique rows later shrinks unique id = omega (arith, shrinks id, unique id)

module _ {Json : Type 0} (x : External) (c : Codec Json) (now : Text) where
  quarantine_all-Shrinks :
      (rows : List StoredRow) (db : Database)
      → Shrinks db.tasks (quarantine_all x c now db rows).tasks
  unfolding quarantine_all quarantine_row
  quarantine_all-Shrinks [] db id = omega arith
  quarantine_all-Shrinks (row ∷ rows) db id = omega (
    arith,
    quarantine_all-Shrinks rows (quarantine_row x c now db row _) id,
    delete_where-Shrinks (λ other. text_eq other.id row.id) db.tasks id,
  )

  trim-Shrinks : (db : Database) → Shrinks db.tasks (trim x c now db).tasks
  unfolding trim delete_excess
  trim-Shrinks db id = elim (Bool-cases (ltb max_recovery_records (count_nonterminal db.tasks))) [
    | inr within ↦ rw (within, trim) (omega arith)
    | inl over ↦
        let sampled = quarantine_all x c now db (samples x c now db) in
        rw (over, trim)
          (omega (
            arith,
            delete_where-Shrinks _ sampled.tasks id,
            quarantine_all-Shrinks (samples x c now db) db id,
          ))
  ]

  list_rows-Shrinks :
      (rows : List StoredRow) (db : Database)
      → Shrinks db.tasks (list_rows x c now db rows).db.tasks
  unfolding list_rows quarantine_row
  list_rows-Shrinks [] db id = omega arith
  list_rows-Shrinks (row ∷ rows) db id = elim (Result-cases (decode_row x c row)) [
    | inl (r, decoded) ↦ rw (decoded, list_rows) (list_rows-Shrinks rows db id)
    | inr (reason, corrupt) ↦
        rw (corrupt, list_rows)
          (omega (
            arith,
            list_rows-Shrinks rows (quarantine_row x c now db row reason) id,
            delete_where-Shrinks (λ other. text_eq other.id row.id) db.tasks id,
          ))
  ]

  list_validated-Shrinks : (db : Database) → Shrinks db.tasks (list_validated x c now db).db.tasks
  unfolding list_validated
  list_validated-Shrinks db = list_rows-Shrinks (newest_first x c db.tasks) db

  mutate-Interrupted :
      (r : TaskRecord) (rs : List TaskRecord) (db : Database) (task : TaskRecord)
      → HasUniqueIds db.tasks
      → All (IsCovered (r ∷ rs)) db.tasks
      → (mutate x c now db r.id r.epoch (interrupt x c now)).0 ≡ ok task
      → Interrupted x c now rs db (mutate x c now db r.id r.epoch (interrupt x c now)).1
  unfolding mutate
  mutate-Interrupted r rs db task unique covered run = elim (Bool-cases (r.epoch == db.epoch)) [
    | inr stale ↦ absurd (cc (rw stale at run))
    | inl current ↦ elim (Option-cases (read_row db.tasks r.id)) [
      | inl absent ↦ absurd (cc (rw (current, absent) at run))
      | inr (row, found) ↦ elim (Result-cases (decode_row x c row)) [
        | inr (reason, corrupt) ↦ absurd (cc (rw (current, found, corrupt) at run))
        | inl (old, decoded) ↦
            elim (Result-cases (mutate_decoded x c now db r.epoch (interrupt x c now) row old)) [
              | inr (e, failed) ↦ absurd (cc (rw (current, found, decoded, failed) at run))
              | inl (done, made) ↦
                  rw (current, found, decoded, made)
                    (mutate_decoded-Interrupted x c now r rs db row old done unique covered found
                      decoded made)
            ]
      ]
    ]
  ]

  interrupt_all-idle :
      (rs : List TaskRecord) (db : Database) (n : ℕ)
      → HasUniqueIds db.tasks
      → All (IsCovered rs) db.tasks
      → (interrupt_all x c now db rs).0 ≡ ok n
      → All (IsCovered []) (interrupt_all x c now db rs).1.tasks
  unfolding interrupt_all Interrupted
  interrupt_all-idle [] db n unique covered run = covered
  interrupt_all-idle (r ∷ rs) db n unique covered run = elim (Bool-cases (is_active r.status)) [
    | inr idle ↦
        rw (idle, interrupt_all)
          (interrupt_all-idle rs db n unique
            (All-imp (IsCovered (r ∷ rs)) (IsCovered rs) db.tasks (λ row h. skipped r rs row idle h)
              covered)
            (rw (idle, interrupt_all) at run))
    | inl active ↦ elim (Result-cases (mutate x c now db r.id r.epoch (interrupt x c now)).0) [
      | inr (e, failed) ↦ absurd (cc (rw (active, failed, interrupt_all) at run))
      | inl (task, done) ↦
          let db1 = (mutate x c now db r.id r.epoch (interrupt x c now)).1 in
          let (shrinks, covered1) = mutate-Interrupted r rs db task unique covered done in
          let later : ((interrupt_all x c now db1 rs).0 >>= λ k. ok (suc k)) ≡ ok n =
            rw (active, done, interrupt_all) at run in
          let (k, rest, _) = >>=-eq-ok (interrupt_all x c now db1 rs).0 _ later in
          rw (active, done, interrupt_all)
            (interrupt_all-idle rs db1 k (still_unique db.tasks db1.tasks shrinks unique) covered1
              rest)
    ]
  ]

  recover-idle :
      (prior : StartupRecoveryState) (db : Database) (report : StartupRecoveryReport)
      → HasUniqueIds db.tasks
      → (recover_after_restart x c now prior db).0 ≡ ok report
      → All
          (λ row. is_active_name row.status ≡ false)
          (recover_after_restart x c now prior db).1.tasks
  unfolding recover_after_restart
  recover-idle prior db report unique run =
      elim (Result-cases (prune_history x c now (trim x c now db))) [
        | inr (e, failed) ↦ absurd (cc (rw (failed, recover_after_restart) at run))
        | inl (pruned, done) ↦
            let listing = list_validated x c now pruned in
            let later = rw (done, recover_after_restart) at run in
            let (n, finished, _) =
              >>=-eq-ok (interrupt_all x c now listing.db listing.records).0 _ later in
            let all =
              interrupt_all-idle listing.records listing.db n
                (λ id. omega (
                  arith,
                  list_validated-Shrinks pruned id,
                  prune-Shrinks x c now (trim x c now db) pruned done id,
                  trim-Shrinks db id,
                  unique id,
                ))
                (list_validated-IsCovered x c now pruned) finished in
            rw (done, recover_after_restart)
              (All-imp (IsCovered []) (λ row. is_active_name row.status ≡ false)
                (interrupt_all x c now listing.db listing.records).1.tasks
                (λ row h. ground (arith, h)) all)
      ]

  -- If a recovery succeeds on a table whose ids are unique, then no row that it leaves has the status
  -- of a task at work, and at most 64 are nonterminal.
  pub recover_after_restart_lem :
      (prior : StartupRecoveryState) (db : Database) (report : StartupRecoveryReport)
      → HasUniqueIds db.tasks
      → (recover_after_restart x c now prior db).0 ≡ ok report
      → All
          (λ row. is_active_name row.status ≡ false)
          (recover_after_restart x c now prior db).1.tasks
        × (nonterminal (recover_after_restart x c now prior db).1 ≤ max_nonterminal_tasks)
  recover_after_restart_lem prior db report unique run =
      (recover-idle prior db report unique run, recover-bounded x c now prior db report run)
