-- ===== src/Runtime/Scheduler/Capacity.antt =====
-- The number of nonterminal tasks under `list_validated`.
use cake_splitter.Prelude.{◌≤◌, [], ◌∷◌, List, arith, Text, Result-cases, inl, inr}
use cake_splitter.Format.Manifest.{External}
use cake_splitter.Runtime.Store.{StoredRow, Codec, Database, decode_row, quarantine_row}
use cake_splitter.Runtime.Store.Capacity.{nonterminal, quarantined-capacity}
use cake_splitter.Runtime.Scheduler.{list_rows, list_validated}

module _ {Json : Type 0} (x : External) (c : Codec Json) where
  list_rows-capacity :
      (now : Text) (rows : List StoredRow) (db : Database)
      → nonterminal (list_rows x c now db rows).db ≤ nonterminal db
  unfolding list_rows
  list_rows-capacity now [] db = omega arith
  list_rows-capacity now (row ∷ rows) db = elim (Result-cases (decode_row x c row)) [
    | inl (r, decoded) ↦ rw (decoded, list_rows) (list_rows-capacity now rows db)
    | inr (reason, corrupt) ↦
        rw (corrupt, list_rows)
          (omega (
            arith,
            list_rows-capacity now rows (quarantine_row x c now db row reason),
            quarantined-capacity x c now db row reason,
          ))
  ]

  pub list_validated-capacity :
      (now : Text) (db : Database) → nonterminal (list_validated x c now db).db ≤ nonterminal db
  unfolding list_validated
  list_validated-capacity now db = list_rows-capacity now _ db
