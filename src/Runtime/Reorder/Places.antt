-- ===== src/Runtime/Reorder/Places.antt =====
-- The queue that a move looks at: queued records of one priority, each with its row.
use cake_splitter.Prelude.{
  ℕ, zero, suc, ◌≡◌, refl, sym, ap, ◌∙◌, subst, Bool, true, false, ◌&&◌, List, [], ◌∷◌, none, some,
  Text, codes, text_eq, text_eq_iff, ◌==◌, any, get_elem?, All, ok, map_err, >>=-eq-ok,
  ok_injective, map_err-eq-ok, Bool-cases, Option-cases, inl, inr, arith,
}
use cake_splitter.Format.Manifest.{External}
use cake_splitter.Runtime.Status.{TaskStatus, queued, status_name, rank, TaskPriority}
use cake_splitter.Runtime.Record.{TaskRecord}
use cake_splitter.Runtime.Store.{corrupt_state, StoredRow, Codec, Database, decode_row}
use cake_splitter.Runtime.Store.Capacity.{decoded_as_indexed}
use cake_splitter.Runtime.Reorder.Ordered.{IsInOrder, sort_by_place-IsInOrder}
use cake_splitter.Runtime.Reorder.{
  QueueDirection, earlier, later, queued_rows, of_priority, place_leb, insert_by_place,
  sort_by_place, position, other_index, decode_all, peers_of,
}

-- a queued row of an id and an epoch
abbrev pub is_queued_row : Text → ℕ → StoredRow → Bool
is_queued_row id epoch row =
    text_eq row.id id && row.epoch == epoch && text_eq row.status (codes "queued")

abbrev pub IsQueuedIn : List StoredRow → TaskRecord → Type 0
IsQueuedIn rows r = (r.status ≡ queued) × (any (is_queued_row r.id r.epoch) rows ≡ true)

abbrev pub IsPeer : List StoredRow → TaskPriority → TaskRecord → Type 0
IsPeer rows priority r = IsQueuedIn rows r × (rank r.priority ≡ rank priority)

queued_by_name : (s : TaskStatus) → text_eq (status_name s) (codes "queued") ≡ true → s ≡ queued
unfolding status_name
queued_by_name queued e = refl
queued_by_name _ e = absurd (cc e)

injective : {A : Type 0} {a b : A} → some a ≡ some b → a ≡ b
injective e = cc

All-imp :
    {A : Type 0} (P Q : A → Type 0) (xs : List A) → ((a : A) → P a → Q a) → All P xs → All Q xs
All-imp P Q [] f all = tt
All-imp P Q (a ∷ xs) f (p, all) = (f a p, All-imp P Q xs f all)

pub get_elem?-All :
    {A : Type 0} (P : A → Type 0) (xs : List A) (i : ℕ) (a : A)
    → All P xs
    → get_elem? xs i ≡ some a
    → P a
get_elem?-All P [] i a all e = absurd (cc e)
get_elem?-All P (b ∷ xs) zero a (p, all) e = subst P (injective e) p
get_elem?-All P (b ∷ xs) (suc i) a (p, all) e = get_elem?-All P xs i a all e

insert_by_place-All :
    (P : TaskRecord → Type 0) (r : TaskRecord) (rs : List TaskRecord)
    → P r
    → All P rs
    → All P (insert_by_place r rs)
unfolding insert_by_place
insert_by_place-All P r [] p all = (p, tt)
insert_by_place-All P r (s ∷ rs) p (q, all) = elim (Bool-cases (place_leb r s)) [
  | inl before ↦ rw before (p, (q, all))
  | inr beyond ↦ rw beyond (q, insert_by_place-All P r rs p all)
]

sort_by_place-All :
    (P : TaskRecord → Type 0) (rs : List TaskRecord) → All P rs → All P (sort_by_place rs)
unfolding sort_by_place
sort_by_place-All P [] all = tt
sort_by_place-All P (r ∷ rs) (p, all) =
    insert_by_place-All P r (sort_by_place rs) p (sort_by_place-All P rs all)

of_priority-All :
    (P : TaskRecord → Type 0) (priority : TaskPriority) (rs : List TaskRecord)
    → All P rs
    → All (λ r. P r × (rank r.priority ≡ rank priority)) (of_priority priority rs)
unfolding of_priority
of_priority-All P priority [] all = tt
of_priority-All P priority (r ∷ rs) (p, all) =
    let rest = of_priority-All P priority rs all in
    elim (Bool-cases (rank r.priority == rank priority)) [
      | inl same ↦ rw same ((p, ground (arith, same)), rest)
      | inr other ↦ rw other rest
    ]

any-later :
    (id : Text) (epoch : ℕ) (row : StoredRow) (rows : List StoredRow)
    → any (is_queued_row id epoch) rows ≡ true
    → any (is_queued_row id epoch) (row ∷ rows) ≡ true
any-later id epoch row rows h = ground arith

queued_first :
    (row : StoredRow) (rows : List StoredRow)
    → text_eq row.status (codes "queued") ≡ true
    → queued_rows (row ∷ rows) ≡ row ∷ queued_rows rows
unfolding queued_rows
queued_first row rows h = rw h refl

queued_other :
    (row : StoredRow) (rows : List StoredRow)
    → text_eq row.status (codes "queued") ≡ false
    → queued_rows (row ∷ rows) ≡ queued_rows rows
unfolding queued_rows
queued_other row rows h = rw h refl

still_queued :
    (row : StoredRow) (rows : List StoredRow) (r : TaskRecord)
    → IsQueuedIn rows r
    → IsQueuedIn (row ∷ rows) r
still_queued row rows r (status, there) = (status, any-later r.id r.epoch row rows there)

module _ {Json : Type 0} (x : External) (c : Codec Json) (now : Text) where
  queued_here :
      (row : StoredRow) (rows : List StoredRow) (r : TaskRecord)
      → text_eq row.status (codes "queued") ≡ true
      → decode_row x c row ≡ ok r
      → IsQueuedIn (row ∷ rows) r
  queued_here row rows r is_queued decoded =
      let (id, (epoch, status)) = decoded_as_indexed x c now row decoded in
      (
        queued_by_name r.status (ap (λ name. text_eq name (codes "queued")) status ∙ is_queued),
        ground (arith, (text_eq_iff row.id r.id).1 (sym id), epoch, is_queued),
      )

  decode_all-All :
      (rows : List StoredRow) (rs : List TaskRecord)
      → decode_all x c now (queued_rows rows) ≡ ok rs
      → All (IsQueuedIn rows) rs
  unfolding decode_all queued_rows
  decode_all-All [] rs run = subst (All (IsQueuedIn [])) (ok_injective run) tt
  decode_all-All (row ∷ rows) rs run = elim (Bool-cases (text_eq row.status (codes "queued"))) [
    | inl is_queued ↦
        let run1 : decode_all x c now (row ∷ queued_rows rows) ≡ ok rs =
          ap (decode_all x c now) (sym (queued_first row rows is_queued)) ∙ run in
        let (r, decoded, run2) =
          >>=-eq-ok (map_err (λ reason. corrupt_state) (decode_row x c row)) _ run1 in
        let (rest, others, made) = >>=-eq-ok (decode_all x c now (queued_rows rows)) _ run2 in
        subst (All (IsQueuedIn (row ∷ rows))) (ok_injective made) (
          queued_here row rows r is_queued
              (map_err-eq-ok (λ reason. corrupt_state) (decode_row x c row) r decoded),
          All-imp (IsQueuedIn rows) (IsQueuedIn (row ∷ rows)) rest (still_queued row rows)
              (decode_all-All rows rest others),
        )
    | inr other ↦
        All-imp (IsQueuedIn rows) (IsQueuedIn (row ∷ rows)) rs (still_queued row rows) (
          decode_all-All rows rs
            (ap (decode_all x c now) (sym (queued_other row rows other)) ∙ run))
  ]

  pub peers_of-IsInOrder :
      (db : Database) (priority : TaskPriority) (peers : List TaskRecord)
      → peers_of x c now db priority ≡ ok peers
      → IsInOrder peers
  unfolding peers_of
  peers_of-IsInOrder db priority peers run =
      let (records, _, sorted) = >>=-eq-ok (decode_all x c now (queued_rows db.tasks)) _ run in
      subst IsInOrder (ok_injective sorted) (sort_by_place-IsInOrder (of_priority priority records))

  -- the queue has queued records of the priority, each with its row
  pub peers_of-All :
      (db : Database) (priority : TaskPriority) (peers : List TaskRecord)
      → peers_of x c now db priority ≡ ok peers
      → All (IsPeer db.tasks priority) peers
  unfolding peers_of
  peers_of-All db priority peers run =
      let (records, decoded, sorted) =
        >>=-eq-ok (decode_all x c now (queued_rows db.tasks)) _ run in
      subst (All (IsPeer db.tasks priority)) (ok_injective sorted) (
        sort_by_place-All (IsPeer db.tasks priority) (of_priority priority records) (
          of_priority-All (IsQueuedIn db.tasks) priority records
            (decode_all-All db.tasks records decoded)))

pub position-id :
    (id : Text) (rs : List TaskRecord) (i : ℕ) (r : TaskRecord)
    → position id rs ≡ some i
    → get_elem? rs i ≡ some r
    → r.id ≡ id
unfolding position
position-id id [] i r at e = absurd (cc at)
position-id id (s ∷ rs) i r at e = elim (Bool-cases (text_eq s.id id)) [
  | inl same ↦
      let first : some 0 ≡ some i = rw same at at in
      ap (λ (t : TaskRecord). t.id)
        (sym (injective (ap (get_elem? (s ∷ rs)) (injective first) ∙ e)))
      ∙ (text_eq_iff s.id id).0 same
  | inr other ↦ elim (Option-cases (position id rs)) [
    | inl absent ↦ let none_at : none ≡ some i = rw (other, absent) at at in absurd (cc none_at)
    | inr (k, found) ↦
        let next : some (suc k) ≡ some i = rw (other, found) at at in
        position-id id rs k r found (ap (get_elem? (s ∷ rs)) (injective next) ∙ e)
  ]
]

-- the places are next to each other, in the direction's order
abbrev pub AreNeighbours : QueueDirection → ℕ → ℕ → Type 0
AreNeighbours earlier i j = i ≡ suc j
AreNeighbours later i j = j ≡ suc i

pub other_index-neighbours :
    (direction : QueueDirection) (i n j : ℕ)
    → other_index direction i n ≡ some j
    → AreNeighbours direction i j
unfolding other_index
other_index-neighbours earlier i n j e = ground arith
other_index-neighbours later i n j e = ground arith
