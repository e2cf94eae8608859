-- ===== src/Runtime/Recovery/Covered.antt =====
-- The rows that `recover_after_restart` still has to interrupt.
use cake_splitter.Prelude.{
  ℕ, ◌≤◌, ◌≡◌, refl, sym, ◌∙◌, Bool, true, false, not, ◌&&◌, ◌||◌, List, [], ◌∷◌, Text, codes,
  text_eq, text_eq_iff, text_mem, any, count, All, Bool-cases, inl, inr, arith,
}
use cake_splitter.Runtime.Status.{TaskStatus, running, status_name}
use cake_splitter.Runtime.Record.{TaskRecord}
use cake_splitter.Runtime.Store.{StoredRow, delete_where}
use cake_splitter.Runtime.Store.Methods.{matches_update, update_where}
use cake_splitter.Runtime.Recovery.{is_active}

-- a status under which a task was at work
unfoldable pub is_active_name : Text → Bool
is_active_name name = text_mem name (
    codes "running" ∷ codes "pausing" ∷ codes "paused" ∷ codes "resuming" ∷ codes "cancelling" ∷ [])

pub is_active_name-status_name : (s : TaskStatus) → is_active_name (status_name s) ≡ is_active s
unfolding status_name is_active is_active_name
is_active_name-status_name running = refl
is_active_name-status_name _ = refl

abbrev pub is_active_record : Text → TaskRecord → Bool
is_active_record id r = text_eq r.id id && is_active r.status

-- a row at work is one of the records to interrupt
abbrev pub is_covered : List TaskRecord → StoredRow → Bool
is_covered rs row = not (is_active_name row.status) || any (is_active_record row.id) rs

abbrev pub IsCovered : List TaskRecord → StoredRow → Type 0
IsCovered rs row = is_covered rs row ≡ true

-- as in a table whose `id` is the primary key
abbrev pub HasUniqueIds : List StoredRow → Type 0
HasUniqueIds rows = (id : Text) → count (λ row. text_eq row.id id) rows ≤ 1

pub All-delete_where :
    (P : StoredRow → Type 0) (p : StoredRow → Bool) (rows : List StoredRow)
    → All P rows
    → All (λ row. P row × (p row ≡ false)) (delete_where p rows)
unfolding delete_where
All-delete_where P p [] all = tt
All-delete_where P p (row ∷ rows) (here, all) = elim (Bool-cases (p row)) [
  | inl gone ↦ rw gone (All-delete_where P p rows all)
  | inr kept ↦ rw kept ((here, kept), All-delete_where P p rows all)
]

pub All-imp :
    (P Q : StoredRow → Type 0) (rows : List StoredRow)
    → ((row : StoredRow) → P row → Q row)
    → All P rows
    → All Q rows
All-imp P Q [] f all = tt
All-imp P Q (row ∷ rows) f (here, all) = (f row here, All-imp P Q rows f all)

matches_fewer :
    (new : StoredRow) (revision epoch : ℕ) (rows : List StoredRow)
    → count (matches_update new revision epoch) rows ≤ count (λ row. text_eq row.id new.id) rows
matches_fewer new revision epoch [] = omega arith
matches_fewer new revision epoch (row ∷ rows) =
    ground (arith, matches_fewer new revision epoch rows)

another_id :
    (r : TaskRecord) (new row : StoredRow)
    → new.id ≡ r.id
    → text_eq row.id new.id ≡ false
    → text_eq r.id row.id ≡ false
another_id r new row same other = elim (Bool-cases (text_eq r.id row.id)) [
  | inr apart ↦ apart
  | inl equal ↦
      let one = sym ((text_eq_iff r.id row.id).0 equal) ∙ sym same in
      absurd (cc (sym other, (text_eq_iff row.id new.id).1 one))
]

-- a record of another id covers no row of this one
uncovered :
    (r : TaskRecord) (rs : List TaskRecord) (row : StoredRow)
    → text_eq r.id row.id ≡ false
    → IsCovered (r ∷ rs) row
    → IsCovered rs row
uncovered r rs row other covered = rw other at covered

others-IsCovered :
    (r : TaskRecord) (rs : List TaskRecord) (new : StoredRow) (revision epoch : ℕ)
    (rows : List StoredRow)
    → new.id ≡ r.id
    → count (λ row. text_eq row.id new.id) rows ≡ 0
    → All (IsCovered (r ∷ rs)) rows
    → All (IsCovered rs) (update_where rows new revision epoch)
unfolding update_where
others-IsCovered r rs new revision epoch [] same none all = tt
others-IsCovered r rs new revision epoch (row ∷ rows) same none (here, all) =
    let other : text_eq row.id new.id ≡ false = ground (arith, none) in
    let rest : count (λ row. text_eq row.id new.id) rows ≡ 0 = ground (arith, none, other) in
    let kept : matches_update new revision epoch row ≡ false = ground (arith, other) in
    rw kept (
      uncovered r rs row (another_id r new row same other) here,
      others-IsCovered r rs new revision epoch rows same rest all,
    )

-- the row of a record is written once, and the records after it cover the rest
pub update_where-IsCovered :
    (r : TaskRecord) (rs : List TaskRecord) (new : StoredRow) (revision epoch : ℕ)
    (rows : List StoredRow)
    → new.id ≡ r.id
    → is_active_name new.status ≡ false
    → count (matches_update new revision epoch) rows ≡ 1
    → count (λ row. text_eq row.id new.id) rows ≤ 1
    → All (IsCovered (r ∷ rs)) rows
    → All (IsCovered rs) (update_where rows new revision epoch)
unfolding update_where
update_where-IsCovered r rs new revision epoch [] same idle one unique all = tt
update_where-IsCovered r rs new revision epoch (row ∷ rows) same idle one unique (here, all) =
    let fewer = matches_fewer new revision epoch rows in
    elim (Bool-cases (matches_update new revision epoch row)) [
      | inl hit ↦
          let rest : count (λ row. text_eq row.id new.id) rows ≡ 0 = ground (arith, unique, hit) in
          rw hit (rw idle refl, others-IsCovered r rs new revision epoch rows same rest all)
      | inr kept ↦
          let later : count (matches_update new revision epoch) rows ≡ 1 =
            ground (arith, one, kept) in
          let other : text_eq row.id new.id ≡ false = ground (arith, unique, later, fewer) in
          let few : count (λ row. text_eq row.id new.id) rows ≤ 1 = ground (arith, unique, other) in
          rw kept (
            uncovered r rs row (another_id r new row same other) here,
            update_where-IsCovered r rs new revision epoch rows same idle later few all,
          )
    ]
