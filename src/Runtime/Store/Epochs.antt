-- ===== src/Runtime/Store/Epochs.antt =====
-- The epoch as a fence: what was admitted before `clear_all` cannot be written after it.
use cake_splitter.Prelude.{
  ℕ, suc, ◌≤◌, ◌≡◌, refl, true, false, arith, Text, ◌==◌, err, ok, Result, is_err,
}
use cake_splitter.Format.Manifest.{External}
use cake_splitter.Runtime.Record.{TaskRecord}
use cake_splitter.Runtime.Store.{StoreError, Codec, Database, stale_epoch}
use cake_splitter.Runtime.Store.Methods.{check_admission, insert, mutate, clear_all}

next_epoch-suc :
    (db : Database) (n : ℕ) (db' : Database) → clear_all db ≡ ok (n, db') → db'.epoch ≡ suc db.epoch
unfolding clear_all
next_epoch-suc db n db' run = ground (arith, run)

other_epoch : (old now : ℕ) → old ≤ now → (old == suc now) ≡ false
other_epoch old now h = ground arith

module _ {Json : Type 0} (x : External) (c : Codec Json) (now : Text) where
  mutate-stale :
      (db : Database) (id : Text) (epoch : ℕ) (change : TaskRecord → Result StoreError TaskRecord)
      → (epoch == db.epoch) ≡ false
      → mutate x c now db id epoch change ≡ (err (stale_epoch db.epoch epoch), db)
  unfolding mutate
  mutate-stale db id epoch change stale = rw stale refl

  insert-stale :
      (db : Database) (given : TaskRecord)
      → (given.epoch == db.epoch) ≡ false
      → is_err (insert x c now db given) ≡ true
  unfolding insert check_admission
  insert-stale db given stale = ground (arith, stale)

  -- After `clear_all`, a change or an insertion of an earlier epoch fails; the change leaves the
  -- database as it is.
  pub clear_all-fences :
      (db db' : Database) (n epoch : ℕ) (id : Text)
      (change : TaskRecord → Result StoreError TaskRecord) (given : TaskRecord)
      → clear_all db ≡ ok (n, db')
      → epoch ≤ db.epoch
      → given.epoch ≤ db.epoch
      → (mutate x c now db' id epoch change ≡ (err (stale_epoch db'.epoch epoch), db'))
        × (is_err (insert x c now db' given) ≡ true)
  clear_all-fences db db' n epoch id change given run old old_given =
      let next = next_epoch-suc db n db' run in
      let miss : (e : ℕ) → e ≤ db.epoch → (e == db'.epoch) ≡ false =
        λ e h. rw next (other_epoch e db.epoch h) in
      (
        mutate-stale db' id epoch change (miss epoch old),
        insert-stale db' given (miss given.epoch old_given),
      )
