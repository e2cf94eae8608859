-- ===== src/Format/Validate/Loop.antt =====
-- The loop over the slices accepts exactly the planned entries, and ends at the bytes they cover.
use cake_splitter.Prelude.{
  ℕ, ◌+◌, ◌-◌, ◌*◌, min, ◌≡◌, ◌≤◌, ◌<◌, refl, true, false, arith, Text, codes, text_eq, text_eq_iff,
  length, ok, ◌∙◌, sym, List, [], ◌∷◌, ◌++◌, ap, text_mem, All, Bool-cases, inl, inr,
}
use cake_splitter.Format.Manifest.{External, SliceEntry, CakeManifest, max_safe_integer}
use cake_splitter.Format.Decimal.{to_decimal}
use cake_splitter.Format.Slicing.{slice_index_width, slice_filename}
use cake_splitter.Format.Slicing.Name.{slice_filename_injective}
use cake_splitter.Format.Slicing.Count.{start-lt-size}
use cake_splitter.Format.Filename.{validate_portable_filename}
use cake_splitter.Format.Filename.Portable.{validate_portable_filename_iff}
use cake_splitter.Format.Validate.{validate_hash, validate_slices, index_mem}
use cake_splitter.Format.Validate.Hash.{validate_hash_iff}
use cake_splitter.Format.Validate.Valid.{IsValidHeader, Planned, IsPlannedEntry}

abbrev width_of : CakeManifest → ℕ
width_of m = slice_index_width m.slice_count

-- where the loop stands before `position`
abbrev reached : CakeManifest → ℕ → ℕ
reached m position = min (position * m.target_slice_size) m.original.size

-- what one round of the loop has tested
pub record HasPassed (x : External) (m : CakeManifest) (position offset : ℕ) (s : SliceEntry)
    : Type 0 where
  pub index : s.index ≡ position + 1
  pub offset_eq : s.offset ≡ offset
  pub size : s.size ≡ min (m.original.size - offset) m.target_slice_size
  pub filename : text_eq s.filename (slice_filename m.original.filename s.index (width_of m)) ≡ true
  pub portable : validate_portable_filename x s.filename ≡ ok tt
  pub hash : validate_hash (codes "slice " ++ to_decimal s.index) s.sha256 ≡ ok tt

passed_of_step :
    (x : External) (m : CakeManifest) (position offset : ℕ) (indexes : List ℕ) (names : List Text)
    (s : SliceEntry) (rest : List SliceEntry) (covered : ℕ)
    → validate_slices x m (width_of m) position offset indexes names (s ∷ rest) ≡ ok covered
    → HasPassed x m position offset s
unfolding validate_slices
passed_of_step x m position offset indexes names s rest covered run = ground arith

rest_of_step :
    (x : External) (m : CakeManifest) (position offset : ℕ) (indexes : List ℕ) (names : List Text)
    (s : SliceEntry) (rest : List SliceEntry) (covered : ℕ)
    → validate_slices x m (width_of m) position offset indexes names (s ∷ rest) ≡ ok covered
    → validate_slices x m
        (width_of m)
        (position + 1)
        (offset + s.size)
        (s.index ∷ indexes)
        (s.filename ∷ names)
        rest
      ≡ ok covered
unfolding validate_slices
rest_of_step x m position offset indexes names s rest covered run = ground arith

round_of_tests :
    (x : External) (m : CakeManifest) (position offset : ℕ) (indexes : List ℕ) (names : List Text)
    (s : SliceEntry) (rest : List SliceEntry)
    → HasPassed x m position offset s
    → index_mem s.index indexes ≡ false
    → text_mem s.filename names ≡ false
    → s.index ≤ max_safe_integer
    → s.offset ≤ max_safe_integer
    → s.size ≤ max_safe_integer
    → validate_slices x m (width_of m) position offset indexes names (s ∷ rest)
      ≡ validate_slices x m
          (width_of m)
          (position + 1)
          (offset + s.size)
          (s.index ∷ indexes)
          (s.filename ∷ names)
          rest
unfolding validate_slices
round_of_tests x m position offset indexes names s rest p i n bi bo bs = ground arith

-- the sets of the loop hold only what earlier positions put there
abbrev SeenBefore : CakeManifest → ℕ → List ℕ → List Text → Type 0
SeenBefore m position indexes names =
    All (λ i. i ≤ position) indexes
    × All (λ n. (j : ℕ) × (j ≤ position) × (n ≡ slice_filename m.original.filename j (width_of m)))
        names

fresh_index :
    (position : ℕ) (indexes : List ℕ)
    → All (λ i. i ≤ position) indexes
    → index_mem (position + 1) indexes ≡ false
fresh_index position [] h = refl
fresh_index position (i ∷ is) (h, hs) = ground (arith, fresh_index position is hs)

fresh_name :
    (m : CakeManifest) (position : ℕ) (names : List Text)
    → All
        (λ n. (j : ℕ) × (j ≤ position) × (n ≡ slice_filename m.original.filename j (width_of m)))
        names
    → text_mem (slice_filename m.original.filename (position + 1) (width_of m)) names ≡ false
fresh_name m position [] h = refl
fresh_name m position (n ∷ ns) ((j, le, e), hs) =
    elim (Bool-cases (text_eq (slice_filename m.original.filename (position + 1) (width_of m)) n)) [
      | inl same ↦
          let i : position + 1 ≡ j =
            slice_filename_injective m.original.filename (width_of m) (position + 1) j
              ((text_eq_iff _ _).0 same ∙ e) in
          absurd (omega (arith, le, i))
      | inr other ↦ cc (other, fresh_name m position ns hs)
    ]

later_indexes :
    (position : ℕ) (indexes : List ℕ)
    → All (λ i. i ≤ position) indexes
    → All (λ i. i ≤ position + 1) indexes
later_indexes position [] h = tt
later_indexes position (i ∷ is) (h, hs) = (omega arith, later_indexes position is hs)

later_names :
    (m : CakeManifest) (position : ℕ) (names : List Text)
    → All
        (λ n. (j : ℕ) × (j ≤ position) × (n ≡ slice_filename m.original.filename j (width_of m)))
        names
    → All
        (λ n.
          (j : ℕ) × (j ≤ position + 1) × (n ≡ slice_filename m.original.filename j (width_of m)))
        names
later_names m position [] h = tt
later_names m position (n ∷ ns) ((j, le, e), hs) =
    ((j, omega arith, e), later_names m position ns hs)

module _ (x : External) (m : CakeManifest) (v : IsValidHeader x m) where
  -- a position of the table starts inside the source
  starts_inside :
      (position : ℕ) → position < m.slice_count → position * m.target_slice_size < m.original.size
  starts_inside position h =
      start-lt-size m.original.size m.target_slice_size v.target_pos position
        (omega (arith, v.count))

  step_offset :
      (position : ℕ)
      → position < m.slice_count
      → reached m position + min (m.original.size - reached m position) m.target_slice_size
        ≡ reached m (position + 1)
  step_offset position h = let inside = starts_inside position h in omega (arith, inside)

  planned_of_passed :
      (position : ℕ) (s : SliceEntry)
      → position < m.slice_count
      → HasPassed x m position (reached m position) s
      → IsPlannedEntry x m position s
  planned_of_passed position s h p =
      let inside = starts_inside position h in
      record {
        index = p.index;
        offset = omega (arith, p.offset_eq, inside);
        size = omega (arith, p.size, inside);
        filename =
            (text_eq_iff _ _).0 p.filename
            ∙ ap (λ i. slice_filename m.original.filename i (width_of m)) p.index;
        portable = (validate_portable_filename_iff x _).0 p.portable;
        hash = (validate_hash_iff _ _).0 p.hash;
      }

  -- an accepted table is planned, and covers what its length says
  pub Planned-of_accepted :
      (position : ℕ) (offset : ℕ) (indexes : List ℕ) (names : List Text) (slices : List SliceEntry)
      (covered : ℕ)
      → position + length slices ≡ m.slice_count
      → offset ≡ reached m position
      → validate_slices x m (width_of m) position offset indexes names slices ≡ ok covered
      → Planned x m position slices × (covered ≡ reached m m.slice_count)
  Planned-of_accepted position offset indexes names [] covered e o run =
      (tt, unfold validate_slices in ground (arith, e, o))
  Planned-of_accepted position offset indexes names (s ∷ rest) covered e o run =
      let h : position < m.slice_count = omega arith in
      let passed = rw o at (passed_of_step x m position offset indexes names s rest covered run) in
      let next = rest_of_step x m position offset indexes names s rest covered run in
      let (planned, end) =
        Planned-of_accepted (position + 1) (offset + s.size) (s.index ∷ indexes)
          (s.filename ∷ names) rest covered (omega arith)
          (omega (arith, passed.size, o, step_offset position h)) next in
      ((planned_of_passed position s h passed, planned), end)

  -- one round on a planned entry passes every test
  round_of_planned :
      (position offset : ℕ) (indexes : List ℕ) (names : List Text) (s : SliceEntry)
      (rest : List SliceEntry)
      → position < m.slice_count
      → offset ≡ reached m position
      → SeenBefore m position indexes names
      → IsPlannedEntry x m position s
      → validate_slices x m (width_of m) position offset indexes names (s ∷ rest)
        ≡ validate_slices x m
            (width_of m)
            (position + 1)
            (offset + s.size)
            (s.index ∷ indexes)
            (s.filename ∷ names)
            rest
  round_of_planned position offset indexes names s rest h o (seen_indexes, seen_names) p =
      let inside = starts_inside position h in
      let start : offset ≡ position * m.target_slice_size = omega (arith, o, inside) in
      let name =
        p.filename ∙ ap (λ i. slice_filename m.original.filename i (width_of m)) (sym p.index) in
      round_of_tests x m position offset indexes names s rest
        (record {
          index = p.index;
          offset_eq = omega (arith, p.offset, start);
          size = omega (arith, p.size, start);
          filename = (text_eq_iff _ _).1 name;
          portable = (validate_portable_filename_iff x _).1 p.portable;
          hash = (validate_hash_iff _ _).1 p.hash;
        })
        (rw p.index (fresh_index position indexes seen_indexes))
        (rw p.filename (fresh_name m position names seen_names))
        (omega (arith, p.index, h, v.count_bounded)) (omega (arith, start, inside, v.size_safe))
        (omega (arith, p.size, v.target_safe))

  -- a planned table is accepted
  pub accepted_of_Planned :
      (position offset : ℕ) (indexes : List ℕ) (names : List Text) (slices : List SliceEntry)
      → position + length slices ≡ m.slice_count
      → offset ≡ reached m position
      → SeenBefore m position indexes names
      → Planned x m position slices
      → validate_slices x m (width_of m) position offset indexes names slices
        ≡ ok (reached m m.slice_count)
  accepted_of_Planned position offset indexes names [] e o seen p =
      unfold validate_slices in ground (arith, e, o)
  accepted_of_Planned position offset indexes names (s ∷ rest) e o seen (p, ps) =
      let h : position < m.slice_count = omega arith in
      let inside = starts_inside position h in
      round_of_planned position offset indexes names s rest h o seen p
      ∙ accepted_of_Planned (position + 1) (offset + s.size) (s.index ∷ indexes)
          (s.filename ∷ names) rest (omega arith) (omega (arith, p.size, o, inside))
          (
            (omega (arith, p.index), later_indexes position indexes seen.0),
            ((position + 1, omega arith, p.filename), later_names m position names seen.1),
          )
          ps
