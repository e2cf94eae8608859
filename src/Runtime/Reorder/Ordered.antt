-- ===== src/Runtime/Reorder/Ordered.antt =====
-- The order of the queue that a move looks at.
use cake_splitter.Prelude.{◌<◌, ◌≡◌, ◌⊎◌, true, false, List, [], ◌∷◌, Bool-cases, inl, inr, arith}
use cake_splitter.Core.Enumeration.{text_leb}
use cake_splitter.Core.Enumeration.Ordered.{text_leb_total}
use cake_splitter.Runtime.Record.{TaskRecord}
use cake_splitter.Runtime.Reorder.{place_leb, insert_by_place, sort_by_place}

-- an earlier place in the queue, or the same place and an id that is no later
abbrev pub IsAhead : TaskRecord → TaskRecord → Type 0
IsAhead r s =
    (r.queue_order < s.queue_order)
    ⊎ ((r.queue_order ≡ s.queue_order) × (text_leb r.id s.id ≡ true))

abbrev pub IsAheadOf : TaskRecord → List TaskRecord → Type 0
IsAheadOf r [] = Unit
IsAheadOf r (s ∷ rs) = IsAhead r s

-- each record is ahead of its neighbour
abbrev pub IsInOrder : List TaskRecord → Type 0
IsInOrder [] = Unit
IsInOrder (r ∷ rs) = IsAheadOf r rs × IsInOrder rs

ahead : (r s : TaskRecord) → place_leb r s ≡ true → IsAhead r s
unfolding place_leb
ahead r s h = elim (Bool-cases (text_leb r.id s.id)) [
  | inl before ↦ ground (arith, h, before)
  | inr beyond ↦ inl (ground (arith, h, beyond))
]

behind : (r s : TaskRecord) → place_leb r s ≡ false → IsAhead s r
unfolding place_leb
behind r s h = elim (Bool-cases (text_leb r.id s.id)) [
  | inl before ↦ inl (ground (arith, h, before))
  | inr beyond ↦ ground (arith, h, text_leb_total r.id s.id beyond)
]

insert_by_place-IsAheadOf :
    (s r : TaskRecord) (rs : List TaskRecord)
    → IsAhead s r
    → IsAheadOf s rs
    → IsAheadOf s (insert_by_place r rs)
unfolding insert_by_place
insert_by_place-IsAheadOf s r [] h first = h
insert_by_place-IsAheadOf s r (t ∷ rs) h first = elim (Bool-cases (place_leb r t)) [
  | inl before ↦ rw (before, insert_by_place) h
  | inr beyond ↦ rw (beyond, insert_by_place) first
]

insert_by_place-IsInOrder :
    (r : TaskRecord) (rs : List TaskRecord) → IsInOrder rs → IsInOrder (insert_by_place r rs)
unfolding insert_by_place
insert_by_place-IsInOrder r [] a = (tt, tt)
insert_by_place-IsInOrder r (s ∷ rs) (first, a) = elim (Bool-cases (place_leb r s)) [
  | inl before ↦ rw (before, insert_by_place) (ahead r s before, (first, a))
  | inr beyond ↦
      rw (beyond, insert_by_place)
        (
          insert_by_place-IsAheadOf s r rs (behind r s beyond) first,
          insert_by_place-IsInOrder r rs a,
        )
]

pub sort_by_place-IsInOrder : (rs : List TaskRecord) → IsInOrder (sort_by_place rs)
unfolding sort_by_place
sort_by_place-IsInOrder [] = tt
sort_by_place-IsInOrder (r ∷ rs) =
    insert_by_place-IsInOrder r (sort_by_place rs) (sort_by_place-IsInOrder rs)
