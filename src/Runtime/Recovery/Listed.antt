-- ===== src/Runtime/Recovery/Listed.antt =====
-- The records that `list_validated` returns against the rows that it leaves.
use cake_splitter.Prelude.{
  ◌≡◌, refl, sym, ap, ◌∙◌, subst, false, List, [], ◌∷◌, Text, text_eq, text_eq_iff, text_eq_refl,
  All, ok, Bool-cases, Result-cases, ◌⊎◌, inl, inr, arith,
}
use cake_splitter.Format.Manifest.{External}
use cake_splitter.Runtime.Record.{TaskRecord}
use cake_splitter.Runtime.Store.{
  StoredRow, Codec, Database, decode_row, quarantine_row, stands_before,
}
use cake_splitter.Runtime.Store.Capacity.{decoded_as_indexed}
use cake_splitter.Runtime.Scheduler.{insert_row, newest_first, list_rows, list_validated}
use cake_splitter.Runtime.Recovery.Covered.{
  is_active_name, is_active_name-status_name, IsCovered, All-delete_where, All-imp,
}

abbrev IsIn : StoredRow → List StoredRow → Type 0
IsIn row [] = ⊥
IsIn row (other ∷ rows) = (row ≡ other) ⊎ IsIn row rows

IsCovered-more :
    (r : TaskRecord) (rs : List TaskRecord) (row : StoredRow)
    → IsCovered rs row
    → IsCovered (r ∷ rs) row
IsCovered-more r rs row h = ground (arith, h)

module _ {Json : Type 0} (x : External) (c : Codec Json) (now : Text) where
  IsIn-insert_row :
      (row other : StoredRow) (rows : List StoredRow)
      → IsIn row (other ∷ rows)
      → IsIn row (insert_row x c other rows)
  unfolding insert_row
  IsIn-insert_row row other [] h = h
  IsIn-insert_row row other (next ∷ rows) h = elim (Bool-cases (stands_before x c next other)) [
    | inr first ↦ rw first h
    | inl later ↦ elim h [
      | inl here ↦ rw later (inr (IsIn-insert_row row other rows (inl here)))
      | inr (inl there) ↦ rw later (inl there)
      | inr (inr beyond) ↦ rw later (inr (IsIn-insert_row row other rows (inr beyond)))
    ]
  ]

  IsIn-newest_first :
      (row : StoredRow) (rows : List StoredRow) → IsIn row rows → IsIn row (newest_first x c rows)
  unfolding newest_first
  IsIn-newest_first row [] h = h
  IsIn-newest_first row (other ∷ rows) (inl here) =
      IsIn-insert_row row other (newest_first x c rows) (inl here)
  IsIn-newest_first row (other ∷ rows) (inr there) =
      IsIn-insert_row row other (newest_first x c rows) (inr (IsIn-newest_first row rows there))

  -- a record covers its row
  own_record :
      (row : StoredRow) (r : TaskRecord) (rs : List TaskRecord)
      → decode_row x c row ≡ ok r
      → IsCovered (r ∷ rs) row
  own_record row r rs decoded =
      let (id, (_, status)) = decoded_as_indexed x c now row decoded in
      let active = ap is_active_name (sym status) ∙ is_active_name-status_name r.status in
      ground (arith, (text_eq_iff r.id row.id).1 id, active)

  -- what is known of a row, what the records cover, or what is still to come
  list_rows-IsCovered :
      (K : StoredRow → Type 0) (rows : List StoredRow) (db : Database)
      → All (λ row. K row ⊎ IsIn row rows) db.tasks
      → All
          (λ row. K row ⊎ IsCovered (list_rows x c now db rows).records row)
          (list_rows x c now db rows).db.tasks
  unfolding list_rows quarantine_row
  list_rows-IsCovered K [] db all =
      All-imp (λ row. K row ⊎ IsIn row []) (λ row. K row ⊎ IsCovered [] row) db.tasks
        (λ row h. elim h [ inl known ↦ inl known | inr none ↦ absurd none ]) all
  list_rows-IsCovered K (row ∷ rows) db all = elim (Result-cases (decode_row x c row)) [
    | inl (r, decoded) ↦
        let rest = list_rows x c now db rows in
        let Known : StoredRow → Type 0 = (λ q. K q ⊎ (q ≡ row)) in
        let found = list_rows-IsCovered Known rows db (
          All-imp (λ q. K q ⊎ IsIn q (row ∷ rows)) (λ q. Known q ⊎ IsIn q rows) db.tasks
            (λ q h. elim h [
              | inl known ↦ inl (inl known)
              | inr (inl here) ↦ inl (inr here)
              | inr (inr later) ↦ inr later
            ])
            all) in
        rw (decoded, list_rows)
          (All-imp (λ q. Known q ⊎ IsCovered rest.records q)
            (λ q. K q ⊎ IsCovered (r ∷ rest.records) q) rest.db.tasks
            (λ q h. elim h [
              | inl (inl known) ↦ inl known
              | inl (inr here) ↦ inr (
                  subst (IsCovered (r ∷ rest.records)) (sym here)
                    (own_record row r rest.records decoded))
              | inr covered ↦ inr (IsCovered-more r rest.records q covered)
            ])
            found)
    | inr (reason, corrupt) ↦
        let db1 = quarantine_row x c now db row reason in
        rw (corrupt, list_rows)
          (list_rows-IsCovered K rows db1 (
            All-imp (λ q. (K q ⊎ IsIn q (row ∷ rows)) × (text_eq q.id row.id ≡ false))
              (λ q. K q ⊎ IsIn q rows) db1.tasks
              (λ q (h, other). elim h [
                | inl known ↦ inl known
                | inr (inl here) ↦ absurd (
                    cc (
                      sym other,
                      ap (λ (p : StoredRow). text_eq p.id row.id) here,
                      text_eq_refl row.id,
                    ))
                | inr (inr later) ↦ inr later
              ])
              (All-delete_where (λ q. K q ⊎ IsIn q (row ∷ rows)) (λ other. text_eq other.id row.id)
                db.tasks all)))
  ]

  all-IsIn :
      (rows others : List StoredRow)
      → ((row : StoredRow) → IsIn row rows → IsIn row others)
      → All (λ row. ⊥ ⊎ IsIn row others) rows
  all-IsIn [] others inside = tt
  all-IsIn (row ∷ rows) others inside =
      (inr (inside row (inl refl)), all-IsIn rows others (λ q h. inside q (inr h)))

  -- after a listing, each row at work is that of a record
  pub list_validated-IsCovered :
      (db : Database)
      → All (IsCovered (list_validated x c now db).records) (list_validated x c now db).db.tasks
  unfolding list_validated
  list_validated-IsCovered db =
      let listing = list_validated x c now db in
      All-imp (λ row. ⊥ ⊎ IsCovered listing.records row) (IsCovered listing.records)
        listing.db.tasks (λ row h. elim h [ inl none ↦ absurd none | inr covered ↦ covered ])
        (list_rows-IsCovered (λ row. ⊥) (newest_first x c db.tasks) db
          (all-IsIn db.tasks (newest_first x c db.tasks) (λ row. IsIn-newest_first row db.tasks)))
