-- ===== src/Core/Enumeration/Ordered.antt =====
-- The order of the names that `names.sort()` leaves.
use cake_splitter.Prelude.{◌≡◌, refl, true, false, List, [], ◌∷◌, Text, Bool-cases, inl, inr, arith}
use cake_splitter.Core.Enumeration.{text_leb, insert_sorted, sort}

pub text_leb_total : (s t : Text) → text_leb s t ≡ false → text_leb t s ≡ true
unfolding text_leb
text_leb_total [] t h = absurd (cc h)
text_leb_total (c ∷ s) [] h = refl
text_leb_total (c ∷ s) (d ∷ t) h = ground (arith, h, text_leb_total s t)

-- a name comes no later than the first of the others
abbrev pub IsBefore : Text → List Text → Type 0
IsBefore n [] = Unit
IsBefore n (m ∷ ns) = text_leb n m ≡ true

-- no name comes after its neighbour
abbrev pub IsAscending : List Text → Type 0
IsAscending [] = Unit
IsAscending (n ∷ ns) = IsBefore n ns × IsAscending ns

insert_sorted-IsBefore :
    (m n : Text) (ns : List Text)
    → text_leb m n ≡ true
    → IsBefore m ns
    → IsBefore m (insert_sorted n ns)
unfolding insert_sorted
insert_sorted-IsBefore m n [] h first = h
insert_sorted-IsBefore m n (o ∷ ns) h first = elim (Bool-cases (text_leb n o)) [
  | inl here ↦ rw (here, insert_sorted) h
  | inr later ↦ rw (later, insert_sorted) first
]

insert_sorted-IsAscending :
    (n : Text) (ns : List Text) → IsAscending ns → IsAscending (insert_sorted n ns)
unfolding insert_sorted
insert_sorted-IsAscending n [] a = (tt, tt)
insert_sorted-IsAscending n (m ∷ ns) (first, a) = elim (Bool-cases (text_leb n m)) [
  | inl here ↦ rw (here, insert_sorted) (here, (first, a))
  | inr later ↦
      rw (later, insert_sorted)
        (
          insert_sorted-IsBefore m n ns (text_leb_total n m later) first,
          insert_sorted-IsAscending n ns a,
        )
]

pub sort-IsAscending : (ns : List Text) → IsAscending (sort ns)
unfolding sort
sort-IsAscending [] = tt
sort-IsAscending (n ∷ ns) = insert_sorted-IsAscending n (sort ns) (sort-IsAscending ns)
