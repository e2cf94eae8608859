-- ===== src/Format/Validate/Exact.antt =====
-- `validate` against the description of the valid manifests, and what a valid table covers.
use native.Mathlib.Nat.{mul-le-mul_right, div-mul-le_self, lt-div-mul-add}
use native.Mathlib.Decide.{dec_lt}
use cake_splitter.Prelude.{
  ℕ, zero, suc, ◌+◌, ◌-◌, ◌*◌, ◌/◌, min, ◌≤◌, ◌<◌, ◌≡◌, ◌≢◌, ◌↔◌, refl, arith, not, ◌==◌, ap, ◌∙◌,
  subst, Text, codes, ◌++◌, List, [], ◌∷◌, length, get_elem?, some, ok, err, Result, ◌>>=◌, ◌>>◌,
  reject_if, >>-eq-ok, >>=-eq-ok,
}
use cake_splitter.Format.Manifest.{
  External, SliceEntry, CakeManifest, ManifestError, incomplete_coverage,
}
use cake_splitter.Format.Slicing.{slice_index_width}
use cake_splitter.Format.Slicing.Count.{size-le-count}
use cake_splitter.Format.Decimal.{to_decimal}
use cake_splitter.Format.Filename.{validate_portable_filename}
use cake_splitter.Format.Validate.{validate_hash, validate_header, validate_slices, validate}
use cake_splitter.Format.Validate.Header.{validate_header_iff}
use cake_splitter.Format.Validate.Loop.{Planned-of_accepted, accepted_of_Planned}
use cake_splitter.Format.Validate.Valid.{IsValidHeader, IsValidManifest, Planned, IsPlannedEntry}

name-ne-incomplete :
    (x : External) (name : Text) → validate_portable_filename x name ≢ err incomplete_coverage
unfolding validate_portable_filename
name-ne-incomplete x name h = ground arith

hash-ne-incomplete : (label value : Text) → validate_hash label value ≢ err incomplete_coverage
unfolding validate_hash
hash-ne-incomplete label value h = ground arith

header-ne-incomplete :
    (x : External) (m : CakeManifest) → validate_header x m ≢ err incomplete_coverage
unfolding validate_header
header-ne-incomplete x m h = ground (
  arith,
  name-ne-incomplete x m.original.filename,
  hash-ne-incomplete (codes "original file") m.original.sha256,
)

loop-ne-incomplete :
    (x : External) (m : CakeManifest) (width position offset : ℕ) (indexes : List ℕ)
    (names : List Text) (slices : List SliceEntry)
    → validate_slices x m width position offset indexes names slices ≢ err incomplete_coverage
unfolding validate_slices
loop-ne-incomplete x m width position offset indexes names [] h = cc
loop-ne-incomplete x m width position offset indexes names (s ∷ rest) h = ground (
  arith,
  name-ne-incomplete x s.filename,
  hash-ne-incomplete (codes "slice " ++ to_decimal s.index) s.sha256,
  loop-ne-incomplete x m width (position + 1) (offset + s.size) (s.index ∷ indexes)
      (s.filename ∷ names) rest,
)

-- the last slice ends where the source ends
pub ends_at_size :
    (x : External) (m : CakeManifest)
    → IsValidHeader x m
    → min (m.slice_count * m.target_slice_size) m.original.size ≡ m.original.size
ends_at_size x m v =
    let reach = size-le-count m.original.size m.target_slice_size v.target_pos in
    let e : m.slice_count * m.target_slice_size ≡ _ = ap (λ n. n * m.target_slice_size) v.count in
    omega (arith, reach, e)

last_test :
    (header : Result ManifestError (Unit {0})) (loop : Result ManifestError ℕ) (size : ℕ)
    → header ≢ err incomplete_coverage
    → loop ≢ err incomplete_coverage
    → ((covered : ℕ) → header ≡ ok tt → loop ≡ ok covered → covered ≡ size)
    → (header >> (loop >>= λ covered. reject_if (not (covered == size)) incomplete_coverage))
      ≢ err incomplete_coverage
last_test (err e) loop size h l c run = h run
last_test (ok _) (err e) size h l c run = l (ground (arith, run))
last_test (ok _) (ok covered) size h l c run = ground (arith, c covered refl refl)

module _ (x : External) (m : CakeManifest) where
  -- the loop of `validate`, started
  loop : Result ManifestError ℕ
  loop = validate_slices x m (slice_index_width m.slice_count) 0 0 [] [] m.slices

  valid_of_loop :
      (covered : ℕ)
      → validate_header x m ≡ ok tt
      → loop ≡ ok covered
      → IsValidManifest x m × (covered ≡ m.original.size)
  unfolding loop
  valid_of_loop covered h run =
      let header = (validate_header_iff x m).0 h in
      let (planned, end) =
        Planned-of_accepted x m header 0 0 [] [] m.slices covered (omega (arith, header.table))
          (omega arith) run in
      (record { header = header; planned = planned }, end ∙ ends_at_size x m header)

  valid_of_accepted : validate x m ≡ ok tt → IsValidManifest x m
  unfolding validate loop
  valid_of_accepted run =
      let (h, rest) = >>-eq-ok (validate_header x m) _ run in
      let (covered, looped, _) = >>=-eq-ok loop _ rest in (valid_of_loop covered h looped).0

  accepted_of_valid : IsValidManifest x m → validate x m ≡ ok tt
  unfolding validate
  accepted_of_valid v =
      let looped =
        accepted_of_Planned x m v.header 0 0 [] [] m.slices (omega (arith, v.header.table))
          (omega arith) (tt, tt) v.planned in
      rw ((validate_header_iff x m).1 v.header, looped, ends_at_size x m v.header) (ground arith)

  -- A manifest is accepted exactly when its header is valid and its entries are those planned for
  -- their positions.
  pub validate_iff : (validate x m ≡ ok tt) ↔ IsValidManifest x m
  validate_iff = (valid_of_accepted, accepted_of_valid)

  -- The last test of `validate` never fails: what passes the others covers the source.
  pub validate-ne-incomplete_coverage : validate x m ≢ err incomplete_coverage
  unfolding validate loop
  validate-ne-incomplete_coverage =
      last_test (validate_header x m) loop m.original.size (header-ne-incomplete x m)
        (loop-ne-incomplete x m (slice_index_width m.slice_count) 0 0 [] [] m.slices)
        (λ covered h l. (valid_of_loop covered h l).1)

-- the entry at a position of a planned table
pub Planned-at :
    (x : External) (m : CakeManifest) (start i : ℕ) (slices : List SliceEntry)
    → Planned x m start slices
    → i < length slices
    → (s : SliceEntry) × (get_elem? slices i ≡ some s) × IsPlannedEntry x m (start + i) s
Planned-at x m start i [] p h = elim h [ ]
Planned-at x m start zero (s ∷ rest) (p, ps) h =
    (s, refl, subst (λ k. IsPlannedEntry x m k s) (omega arith) p)
Planned-at x m start (suc i) (s ∷ rest) (p, ps) h =
    let (t, found, q) = Planned-at x m (start + 1) i rest ps (omega arith) in
    (t, found, subst (λ k. IsPlannedEntry x m k t) (omega arith) q)

position_lt_count :
    (x : External) (m : CakeManifest)
    → IsValidHeader x m
    → (b : ℕ) → b < m.original.size
    → b / m.target_slice_size < m.slice_count
position_lt_count x m v b h = elim (dec_lt (b / m.target_slice_size) m.slice_count) [
  | yes inside ↦ inside
  | no outside ↦
      let end = ends_at_size x m v in
      let below : m.slice_count * m.target_slice_size
          ≤ b / m.target_slice_size * m.target_slice_size =
        mul-le-mul_right m.target_slice_size (omega arith) in
      let quotient : b / m.target_slice_size * m.target_slice_size ≤ b =
        div-mul-le_self b m.target_slice_size in
      absurd (omega arith)
]

-- In an accepted manifest every byte of the source lies in the entry at position b / target.
pub validate-covers :
    (x : External) (m : CakeManifest) (b : ℕ)
    → validate x m ≡ ok tt
    → b < m.original.size
    → (s : SliceEntry) × (get_elem? m.slices (b / m.target_slice_size) ≡ some s)
      × (s.offset ≤ b)
      × (b < s.offset + s.size)
validate-covers x m b run h =
    let v = valid_of_accepted x m run in
    let t = m.target_slice_size in
    let (s, found, p) =
      Planned-at x m 0 (b / t) m.slices v.planned
        (omega (arith, position_lt_count x m v.header b h, v.header.table)) in
    let quotient : b / t * t ≤ b = div-mul-le_self b t in
    let start : s.offset ≡ b / t * t = p.offset ∙ ap (λ k. k * t) (omega arith) in
    let bound : b < b / t * t + t = lt-div-mul-add v.header.target_pos in
    let size : s.size ≡ min (m.original.size - b / t * t) t =
      p.size ∙ ap (λ k. min (m.original.size - k * t) t) (omega arith) in
    (s, found, omega arith, omega arith)

-- the bytes that a table holds
unfoldable pub total_size : List SliceEntry → ℕ
total_size [] = 0
total_size (s ∷ rest) = s.size + total_size rest

total_size-Planned :
    (x : External) (m : CakeManifest) (start : ℕ) (slices : List SliceEntry)
    → Planned x m start slices
    → min (start * m.target_slice_size) m.original.size + total_size slices
      ≡ min ((start + length slices) * m.target_slice_size) m.original.size
unfolding total_size
total_size-Planned x m start [] p = omega arith
total_size-Planned x m start (s ∷ rest) (p, ps) =
    let ih = total_size-Planned x m (start + 1) rest ps in omega (arith, p.size, ih)

-- The sizes of the entries of an accepted manifest add up to the size of the source.
pub validate-total_size :
    (x : External) (m : CakeManifest) → validate x m ≡ ok tt → total_size m.slices ≡ m.original.size
validate-total_size x m run =
    let v = valid_of_accepted x m run in
    let total = total_size-Planned x m 0 m.slices v.planned in
    let end = ends_at_size x m v.header in
    let table : (0 + length m.slices) * m.target_slice_size ≡ m.slice_count * m.target_slice_size =
      ap (λ n. n * m.target_slice_size) (omega (arith, v.header.table)) in
    omega (arith, total, end, table)
