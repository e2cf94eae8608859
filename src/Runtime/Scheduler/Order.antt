-- ===== src/Runtime/Scheduler/Order.antt =====
-- The order of the queue: a permutation of the queued tasks, sorted, in which no task starves.
use mathlib.Core.List.{Perm}
use mathlib.Core.List.Perm
use cake_splitter.Prelude.{
  ℕ, zero, suc, ◌+◌, ◌≤◌, ◌<◌, ◌≡◌, refl, sym, ◌⊎◌, inl, inr, true, false, List, [], ◌∷◌, arith,
  some, All, get_elem?, Bool-cases, subst,
}
use cake_splitter.Runtime.Status.{rank}
use cake_splitter.Runtime.Record.{TaskRecord}
use cake_splitter.Runtime.Scheduler.{
  queued_of, maximum_order, effective_priority, key_leb, insert_by_key, sort_by_key,
  queued_in_scheduler_order, first, next_scheduled_task,
}

-- holds of nothing
abbrev Nothing : Type 0
Nothing = true ≡ false

-- a smaller effective priority, or the same and an admission that was not later
abbrev pub Precedes : ℕ → TaskRecord → TaskRecord → Type 0
Precedes maximum r s =
    (effective_priority maximum r < effective_priority maximum s)
    ⊎ ((effective_priority maximum r ≡ effective_priority maximum s)
        × (r.queue_order ≤ s.queue_order))

abbrev pub Sorted : ℕ → List TaskRecord → Type 0
Sorted maximum [] = Unit
Sorted maximum (r ∷ rs) = All (Precedes maximum r) rs × Sorted maximum rs

module _ (maximum : ℕ) where
  Precedes-of_leb : (r s : TaskRecord) → key_leb maximum r s ≡ true → Precedes maximum r s
  unfolding key_leb
  Precedes-of_leb r s h = ground arith

  Precedes-of_not_leb : (r s : TaskRecord) → key_leb maximum r s ≡ false → Precedes maximum s r
  unfolding key_leb
  Precedes-of_not_leb r s h = ground arith

  Precedes-trans :
      (r s t : TaskRecord) → Precedes maximum r s → Precedes maximum s t → Precedes maximum r t
  Precedes-trans r s t h k = ground arith

  Precedes-All :
      (r s : TaskRecord) (rs : List TaskRecord)
      → Precedes maximum r s
      → All (Precedes maximum s) rs
      → All (Precedes maximum r) rs
  Precedes-All r s [] h a = tt
  Precedes-All r s (t ∷ rs) h (k, a) = (Precedes-trans r s t h k, Precedes-All r s rs h a)

  insert-All :
      (P : TaskRecord → Type 0) (r : TaskRecord) (rs : List TaskRecord)
      → P r
      → All P rs
      → All P (insert_by_key maximum r rs)
  unfolding insert_by_key
  insert-All P r [] p a = (p, tt)
  insert-All P r (s ∷ rs) p (q, a) = elim (Bool-cases (key_leb maximum r s)) [
    | inl here ↦ rw (here, insert_by_key) (p, (q, a))
    | inr later ↦ rw (later, insert_by_key) (q, insert-All P r rs p a)
  ]

  insert-Sorted :
      (r : TaskRecord) (rs : List TaskRecord)
      → Sorted maximum rs
      → Sorted maximum (insert_by_key maximum r rs)
  unfolding insert_by_key
  insert-Sorted r [] sorted = (tt, tt)
  insert-Sorted r (s ∷ rs) (a, sorted) = elim (Bool-cases (key_leb maximum r s)) [
    | inl here ↦
        let first = Precedes-of_leb r s here in
        rw (here, insert_by_key) ((first, Precedes-All r s rs first a), (a, sorted))
    | inr later ↦
        rw (later, insert_by_key)
          (
            insert-All (Precedes maximum s) r rs (Precedes-of_not_leb r s later) a,
            insert-Sorted r rs sorted,
          )
  ]

  insert-perm : (r : TaskRecord) (rs : List TaskRecord) → Perm (insert_by_key maximum r rs) (r ∷ rs)
  unfolding insert_by_key
  insert-perm r [] = Perm.refl _
  insert-perm r (s ∷ rs) = elim (Bool-cases (key_leb maximum r s)) [
    | inl here ↦ rw (here, insert_by_key) (Perm.refl _)
    | inr later ↦
        rw (later, insert_by_key) (Perm.trans (Perm.cons s (insert-perm r rs)) (Perm.swap r s rs))
  ]

  sort_by_key-Sorted : (rs : List TaskRecord) → Sorted maximum (sort_by_key maximum rs)
  unfolding sort_by_key
  sort_by_key-Sorted [] = tt
  sort_by_key-Sorted (r ∷ rs) = insert-Sorted r (sort_by_key maximum rs) (sort_by_key-Sorted rs)

  sort_by_key-perm : (rs : List TaskRecord) → Perm (sort_by_key maximum rs) rs
  unfolding sort_by_key
  sort_by_key-perm [] = Perm.refl _
  sort_by_key-perm (r ∷ rs) =
      Perm.trans (insert-perm r (sort_by_key maximum rs)) (Perm.cons r (sort_by_key-perm rs))

-- The scheduler's order holds each queued task once, and every task precedes those after it: by its
-- effective priority, and at the same effective priority by its place in the queue.
pub queued_in_scheduler_order-Sorted :
    (records : List TaskRecord)
    → Perm (queued_in_scheduler_order records) (queued_of records)
      × Sorted (maximum_order (queued_of records)) (queued_in_scheduler_order records)
unfolding queued_in_scheduler_order
queued_in_scheduler_order-Sorted records =
    (sort_by_key-perm _ (queued_of records), sort_by_key-Sorted _ (queued_of records))

here_cons :
    (maximum : ℕ) (r s : TaskRecord) (rs : List TaskRecord)
    → key_leb maximum r s ≡ true
    → insert_by_key maximum r (s ∷ rs) ≡ r ∷ s ∷ rs
unfolding insert_by_key
here_cons maximum r s rs here = rw (here, insert_by_key) refl

later_cons :
    (maximum : ℕ) (r s : TaskRecord) (rs : List TaskRecord)
    → key_leb maximum r s ≡ false
    → insert_by_key maximum r (s ∷ rs) ≡ s ∷ insert_by_key maximum r rs
unfolding insert_by_key
later_cons maximum r s rs later = rw (later, insert_by_key) refl

-- what holds of every sorted task holds of every task
All-insert :
    (P : TaskRecord → Type 0) (maximum : ℕ) (r : TaskRecord) (rs : List TaskRecord)
    → All P (insert_by_key maximum r rs)
    → P r × All P rs
unfolding insert_by_key
All-insert P maximum r [] a = a
All-insert P maximum r (s ∷ rs) a = elim (Bool-cases (key_leb maximum r s)) [
  | inl here ↦ subst (All P) (here_cons maximum r s rs here) a
  | inr later ↦
      let (q, tail) = subst (All P) (later_cons maximum r s rs later) a in
      let (p, b) = All-insert P maximum r rs tail in (p, (q, b))
]

All-sort :
    (P : TaskRecord → Type 0) (maximum : ℕ) (rs : List TaskRecord)
    → All P (sort_by_key maximum rs)
    → All P rs
unfolding sort_by_key
All-sort P maximum [] a = tt
All-sort P maximum (r ∷ rs) a =
    let (p, b) = All-insert P maximum r (sort_by_key maximum rs) a in (p, All-sort P maximum rs b)

All-get_elem? :
    (P : TaskRecord → Type 0) (rs : List TaskRecord) (i : ℕ) {r : TaskRecord}
    → All P rs
    → get_elem? rs i ≡ some r
    → P r
All-get_elem? P [] i a found = cc
All-get_elem? P (s ∷ rs) zero {r} (p, a) found = let e : s ≡ r = cc found in subst P e p
All-get_elem? P (s ∷ rs) (suc i) (p, a) found = All-get_elem? P rs i a found

first-Precedes :
    (maximum : ℕ) (rs sorted : List TaskRecord) (i : ℕ) (r : TaskRecord)
    → sort_by_key maximum rs ≡ sorted
    → Sorted maximum sorted
    → get_elem? rs i ≡ some r
    → (h : TaskRecord) × (first sorted ≡ some h) × Precedes maximum h r
first-Precedes maximum rs [] i r e sorted found =
    let none_in : All (λ s. Nothing) rs =
      All-sort (λ s. Nothing) maximum rs (subst (All (λ s. Nothing)) (sym e) tt) in
    absurd (cc (All-get_elem? (λ s. Nothing) rs i none_in found))
first-Precedes maximum rs (h ∷ rest) i r e (a, sorted) found =
    let all =
      All-sort (Precedes maximum h) maximum rs
        (subst (All (Precedes maximum h)) (sym e) (inr (refl, omega arith), a)) in
    (h, refl, All-get_elem? (Precedes maximum h) rs i all found)

overtaken_by_none :
    (maximum : ℕ) (h r : TaskRecord)
    → r.queue_order + 16 ≤ maximum
    → Precedes maximum h r
    → h.queue_order ≤ r.queue_order
unfolding effective_priority rank
overtaken_by_none maximum h r waited precedes = ground arith

-- A queued task that was admitted sixteen or more before the last is overtaken by no later one: there
-- is a next task, and it was admitted no later than it.
pub next_scheduled_task-no_starvation :
    (records : List TaskRecord) (i : ℕ) (r : TaskRecord)
    → get_elem? (queued_of records) i ≡ some r
    → r.queue_order + 16 ≤ maximum_order (queued_of records)
    → (h : TaskRecord) × (next_scheduled_task records ≡ some h) × (h.queue_order ≤ r.queue_order)
unfolding next_scheduled_task queued_in_scheduler_order
next_scheduled_task-no_starvation records i r found waited =
    let maximum = maximum_order (queued_of records) in
    let (h, chosen, precedes) =
      first-Precedes maximum (queued_of records) (queued_in_scheduler_order records) i r refl
        (queued_in_scheduler_order-Sorted records).1 found in
    (h, chosen, overtaken_by_none maximum h r waited precedes)
