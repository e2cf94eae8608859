-- ===== src/Runtime/Reorder/Stored.antt =====
-- The one row of an id and an epoch after the UPDATE of `write_record`.
use cake_splitter.Prelude.{
  ℕ, ◌≡◌, refl, ap, ap₂, ◌∙◌, true, false, ◌&&◌, List, [], ◌∷◌, Text, text_eq, text_eq_iff, ◌==◌,
  count, ok, Bool-cases, inl, inr, arith, if◌then◌else◌,
}
use cake_splitter.Format.Manifest.{External}
use cake_splitter.Runtime.Status.{status_name}
use cake_splitter.Runtime.Record.{TaskRecord}
use cake_splitter.Runtime.Store.{StoredRow, Codec, encode}
use cake_splitter.Runtime.Store.Methods.{written}
use cake_splitter.Runtime.Reorder.{is_target, update_target}
use cake_splitter.Runtime.Reorder.Once.{is_row}
use cake_splitter.Runtime.Reorder.Rows.{none_left}

-- the rows of an id and an epoch
unfoldable pub rows_of : Text → ℕ → List StoredRow → List StoredRow
rows_of id epoch [] = []
rows_of id epoch (row ∷ rows) =
    let rest = rows_of id epoch rows in if is_row id epoch row then row ∷ rest else rest

-- the table has one row of the id and the epoch of the record, and that holds the record
abbrev pub IsStored : {Json : Type 0} → External → Codec Json → List StoredRow → TaskRecord → Type 0
IsStored x c rows r =
    (encoded : Text × Text) × (encode x c r ≡ ok encoded)
    × (rows_of r.id r.epoch rows
        ≡ record {
          id = r.id;
          epoch = r.epoch;
          revision = r.revision;
          status = status_name r.status;
          updated_at = r.updated_at;
          data_json = encoded.0;
          checksum = encoded.1;
        }
          ∷ [])

same_key :
    (id : Text) (epoch : ℕ) (row : StoredRow)
    → is_row id epoch row ≡ true
    → (row.id ≡ id) × (row.epoch ≡ epoch)
same_key id epoch row h =
    let both : (text_eq row.id id ≡ true) × (row.epoch ≡ epoch) = ground (arith, h) in
    ((text_eq_iff row.id id).0 both.0, both.1)

-- the UPDATE writes all that the row of the same id and epoch holds
written_whole : (new row : StoredRow) → is_target new row ≡ true → written new row ≡ new
written_whole new row h =
    let (same_id, same_epoch) = same_key new.id new.epoch row h in
    ap₂ (λ i e. record new { id = i; epoch = e }) same_id same_epoch

rows_of_none :
    (id : Text) (epoch : ℕ) (rows : List StoredRow)
    → count (is_row id epoch) rows ≡ 0
    → rows_of id epoch rows ≡ []
unfolding rows_of
rows_of_none id epoch [] h = refl
rows_of_none id epoch (row ∷ rows) h = ground (arith, rows_of_none id epoch rows)

-- the one row of the key is the new one
pub rows_of-update_target :
    (rows : List StoredRow) (new : StoredRow)
    → count (is_target new) rows ≡ 1
    → rows_of new.id new.epoch (update_target rows new) ≡ new ∷ []
unfolding rows_of update_target
rows_of-update_target [] new one = absurd (omega (arith, one))
rows_of-update_target (row ∷ rows) new one = elim (Bool-cases (is_target new row)) [
  | inl here ↦
      let none : count (is_target new) rows ≡ 0 = ground (arith, one, here) in
      rw (here, update_target, none_left rows new none, rows_of)
        (rw (here, rows_of_none new.id new.epoch rows none)
          (ap (λ r. r ∷ []) (written_whole new row here)))
  | inr other ↦
      rw (other, update_target, rows_of)
        (rw other (rows_of-update_target rows new (ground (arith, one, other))))
]

-- the rows of another key are as before
pub rows_of-update_target_other :
    (rows : List StoredRow) (new : StoredRow) (id : Text) (epoch : ℕ)
    → is_row id epoch new ≡ false
    → rows_of id epoch (update_target rows new) ≡ rows_of id epoch rows
unfolding rows_of update_target
rows_of-update_target_other [] new id epoch apart = refl
rows_of-update_target_other (row ∷ rows) new id epoch apart =
    let rest = rows_of-update_target_other rows new id epoch apart in
    elim (Bool-cases (is_target new row)) [
      | inl here ↦
          let (same_id, same_epoch) = same_key new.id new.epoch row here in
          let other : is_row id epoch row ≡ false =
            ap₂ (λ i e. text_eq i id && e == epoch) same_id same_epoch ∙ apart in
          rw (here, update_target, rows_of) (rw (other, rows_of) rest)
      | inr beyond ↦ ground (arith, beyond, rest)
    ]
