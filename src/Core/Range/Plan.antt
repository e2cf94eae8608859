-- ===== src/Core/Range/Plan.antt =====
-- The planner and the entries of an accepted manifest.
use cake_splitter.Prelude.{
  ℕ, ◌+◌, ◌-◌, ◌*◌, min, ◌≤◌, ◌<◌, ◌≡◌, arith, ok, some, get_elem?, get_elem?-lt, length, subst,
}
use cake_splitter.Format.Manifest.{
  External, SliceEntry, CakeManifest, max_safe_integer, max_slice_count,
}
use cake_splitter.Format.Slicing.{expected_slice_count}
use cake_splitter.Format.Slicing.Count.{start-lt-size}
use cake_splitter.Format.Validate.{validate}
use cake_splitter.Format.Validate.Valid.{IsPlannedEntry}
use cake_splitter.Format.Validate.Exact.{validate_iff, Planned-at}
use cake_splitter.Core.Range.{planned_slice_range}

-- Inside the plan no step of the computation overflows, and the range is the plain one.
pub planned_slice_range_lem :
    (total slice_size position : ℕ)
    → total ≤ max_safe_integer
    → 0 < slice_size
    → slice_size ≤ max_safe_integer
    → expected_slice_count total slice_size ≤ max_slice_count
    → position < expected_slice_count total slice_size
    → planned_slice_range total slice_size (position + 1)
      ≡ ok (position * slice_size, min (total - position * slice_size) slice_size)
unfolding planned_slice_range
planned_slice_range_lem total slice_size position total_safe pos safe few inside =
    let start = start-lt-size total slice_size pos position inside in ground (arith, start)

-- For each entry of an accepted manifest the planner returns that entry's offset and size.
pub planned_slice_range-entry :
    (x : External) (m : CakeManifest) (position : ℕ) (s : SliceEntry)
    → validate x m ≡ ok tt
    → get_elem? m.slices position ≡ some s
    → planned_slice_range m.original.size m.target_slice_size s.index ≡ ok (s.offset, s.size)
planned_slice_range-entry x m position s run found =
    let v = (validate_iff x m).0 run in
    let inside : position < length m.slices = get_elem?-lt m.slices position found in
    let (t, same, p) = Planned-at x m 0 position m.slices v.planned inside in
    let e : t ≡ s = cc (same, found) in
    let q : IsPlannedEntry x m position s =
      subst (λ k. IsPlannedEntry x m k s) (omega arith)
        (subst (λ u. IsPlannedEntry x m (0 + position) u) e p) in
    rw (
      q.index,
      q.offset,
      q.size,
      planned_slice_range_lem m.original.size m.target_slice_size position v.header.size_safe
          v.header.target_pos v.header.target_safe
          (omega (arith, v.header.count, v.header.count_bounded))
          (omega (arith, inside, v.header.table, v.header.count)),
    )
