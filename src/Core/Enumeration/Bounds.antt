-- ===== src/Core/Enumeration/Bounds.antt =====
-- What an enumeration that succeeds has seen: every candidate slice once, within the limits.
use mathlib.Core.List.{Perm}
use mathlib.Core.List.Perm
use cake_splitter.Prelude.{
  suc, ◌+◌, ◌≤◌, ◌≡◌, ap, ◌∙◌, Bool, true, false, ◌&&◌, List, [], ◌∷◌, ◌++◌, arith, none, some,
  Text, codes, length, length-append, ok, err, Result, if◌then◌else◌, Bool-cases, inl, inr,
  Option-cases, ap₂, reject_if-eq-ok, >>=-eq-ok, >>-eq-ok,
}
use cake_splitter.Core.Error.{CoreError, cancelled, FilePath}
use cake_splitter.Core.Enumeration.Ordered.{IsAscending, sort-IsAscending}
use cake_splitter.Core.Enumeration.{
  EnumerationBudget, no_entries, record_entry, DirEntry, Turn, PackageInventory, text_leb,
  insert_sorted, sort, ends_with, io_at, visit_entry, enumerate_entries,
  enumerate_package_directory, max_directory_entries, max_slice_candidates,
}

insert_sorted-perm : (n : Text) (ns : List Text) → Perm (insert_sorted n ns) (n ∷ ns)
unfolding insert_sorted
insert_sorted-perm n [] = Perm.refl _
insert_sorted-perm n (m ∷ ns) = elim (Bool-cases (text_leb n m)) [
  | inl here ↦ rw (here, insert_sorted) (Perm.refl _)
  | inr later ↦
      rw (later, insert_sorted)
        (Perm.trans (Perm.cons m (insert_sorted-perm n ns)) (Perm.swap n m ns))
]

-- Sorting keeps the names.
pub sort-perm : (ns : List Text) → Perm (sort ns) ns
unfolding sort
sort-perm [] = Perm.refl _
sort-perm (n ∷ ns) = Perm.trans (insert_sorted-perm n (sort ns)) (Perm.cons n (sort-perm ns))

-- the name that an entry adds to the candidates
abbrev candidate_of : DirEntry → List Text
candidate_of e = elim e.name [
  | none ↦ []
  | some name ↦ if e.is_file && ends_with (codes ".slice") name then name ∷ [] else []
]

-- the names of the regular files among the turns that end in `.slice`
pub candidates : List Turn → List Text
candidates [] = []
candidates (turn ∷ turns) =
    let rest = candidates turns in
    elim turn.entry [ err e ↦ rest | ok entry ↦ candidate_of entry ++ rest ]

record_entry_counts :
    (b : EnumerationBudget) (name : Text) (is_slice : Bool) {b' : EnumerationBudget}
    → b.candidate_count ≤ max_slice_candidates
    → record_entry b name is_slice ≡ ok b'
    → (b'.entry_count ≡ suc b.entry_count)
      × (b'.entry_count ≤ max_directory_entries)
      × (b'.candidate_count ≡ (if is_slice then suc b.candidate_count else b.candidate_count))
      × (b'.candidate_count ≤ max_slice_candidates)
unfolding record_entry
record_entry_counts b name true h run = ground arith
record_entry_counts b name false h run = ground arith

visit_entry_counts :
    (b : EnumerationBudget) (e : DirEntry) {v : EnumerationBudget × List Text × List Text}
    → b.candidate_count ≤ max_slice_candidates
    → visit_entry b e ≡ ok v
    → (v.0.entry_count ≡ suc b.entry_count)
      × (v.0.entry_count ≤ max_directory_entries)
      × (v.0.candidate_count ≡ b.candidate_count + length v.1)
      × (v.0.candidate_count ≤ max_slice_candidates)
      × (v.1 ≡ candidate_of e)
unfolding visit_entry
visit_entry_counts b e {v} h run = elim (Option-cases e.name) [
  | inl nameless ↦ ground arith
  | inr (name, named) ↦ ground (
    arith,
    record_entry_counts b name (e.is_file && ends_with (codes ".slice") name) {b' = v.0} h,
  )
]

-- what one successful turn of the loop did
record Advanced (directory : FilePath) (b : EnumerationBudget) (turn : Turn) (turns : List Turn)
    (inv : PackageInventory) : Type 0 where
  entry : DirEntry
  visited : EnumerationBudget × List Text × List Text
  rest : PackageInventory
  is_entry : turn.entry ≡ ok entry
  is_visited : visit_entry b entry ≡ ok visited
  is_rest : enumerate_entries directory visited.0 turns ≡ ok rest
  names : inv.slice_names ≡ visited.1 ++ rest.slice_names

advance :
    (directory : FilePath) (b : EnumerationBudget) (turn : Turn) (turns : List Turn)
    {inv : PackageInventory}
    → enumerate_entries directory b (turn ∷ turns) ≡ ok inv
    → Advanced directory b turn turns inv
unfolding enumerate_entries
advance directory b turn turns {inv} run =
    let (_, entered) = reject_if-eq-ok turn.is_cancelled cancelled _ run in
    let (entry, is_entry, visits) = >>=-eq-ok (io_at directory turn.entry) _ entered in
    let (visited, is_visited, goes_on) = >>=-eq-ok (visit_entry b entry) _ visits in
    let (rest, is_rest, made) = >>=-eq-ok (enumerate_entries directory visited.0 turns) _ goes_on in
    record {
      entry = entry;
      visited = visited;
      rest = rest;
      is_entry = ground (arith, is_entry);
      is_visited = is_visited;
      is_rest = is_rest;
      names = ground (arith, made);
    }

-- the loop, from a budget that is within its limits
entries_counts :
    (directory : FilePath) (b : EnumerationBudget) (turns : List Turn) {inv : PackageInventory}
    → b.candidate_count ≤ max_slice_candidates
    → b.entry_count ≤ max_directory_entries
    → enumerate_entries directory b turns ≡ ok inv
    → (inv.slice_names ≡ candidates turns)
      × (b.candidate_count + length (candidates turns) ≤ max_slice_candidates)
      × (b.entry_count + length turns ≤ max_directory_entries)
unfolding enumerate_entries candidates
entries_counts directory b [] hc he run = (ground arith, omega arith, omega arith)
entries_counts directory b (turn ∷ turns) hc he run =
    let a = advance directory b turn turns run in
    let v = visit_entry_counts b a.entry hc a.is_visited in
    let ih = entries_counts directory a.visited.0 turns v.3 v.1 a.is_rest in
    rw a.is_entry (
      a.names ∙ ap₂ (λ s t. s ++ t) v.4 ih.0,
      omega (
        arith,
        length-append (candidate_of a.entry) (candidates turns),
        v.2,
        ih.1,
        ap length v.4,
      ),
      omega (arith, ih.2, v.0),
    )

-- An enumeration that succeeds returns every candidate slice of the directory exactly as often as
-- it was met, no name after its neighbour in the order of texts; the directory and the candidates are
-- within their limits.
pub enumerate-perm :
    (directory : FilePath) (existing : Result CoreError (Unit {0})) (turns : List Turn)
    (inv : PackageInventory)
    → enumerate_package_directory directory existing turns ≡ ok inv
    → Perm inv.slice_names (candidates turns)
      × IsAscending inv.slice_names
      × (length (candidates turns) ≤ max_slice_candidates)
      × (length turns ≤ max_directory_entries)
unfolding enumerate_package_directory
enumerate-perm directory existing turns inv run =
    let (_, started) = >>-eq-ok existing _ run in
    let (found, is_found, made) =
      >>=-eq-ok (enumerate_entries directory no_entries turns) _ started in
    let counts = entries_counts directory no_entries turns (omega arith) (omega arith) is_found in
    let names : inv.slice_names ≡ sort (candidates turns) =
      ground (arith, made, ap sort counts.0) in
    (
      rw names (sort-perm (candidates turns)),
      rw names (sort-IsAscending (candidates turns)),
      omega arith,
      omega arith,
    )
