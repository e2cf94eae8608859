-- ===== src/Checks/Formats.antt =====
-- The theorems of Format at the sample package.
use cake_splitter.Prelude.{
  ℕ, ◌+◌, ◌*◌, ◌≤◌, ◌<◌, ◌≡◌, ◌≢◌, ◌↔◌, refl, true, arith, some, codes, ok, err, is_err, ltb,
  get_elem?,
}
use cake_splitter.Format.Manifest.{SliceEntry, incomplete_coverage, max_json_nesting}
use cake_splitter.Format.Decimal.{zero_padded}
use cake_splitter.Format.Slicing.{expected_slice_count, slice_index_width, slice_filename}
use cake_splitter.Format.Slicing.Count.{expected_slice_count-le_iff}
use cake_splitter.Format.Slicing.Name.{slice_filename_injective}
use cake_splitter.Format.Filename.{
  is_windows_reserved_name, is_unsafe_filename, validate_portable_filename, is_control,
  is_whitespace, contains_str, char_mem, starts_with,
}
use cake_splitter.Format.Filename.Portable.{IsPortable, validate_portable_filename_iff}
use cake_splitter.Format.Nesting.{validate_json_nesting}
use cake_splitter.Format.Nesting.Depth.{lex, deepest, nesting_lem}
use cake_splitter.Format.Validate.{
  validate, validate_header, validate_slices, validate_hash, is_lower_hex, parse_manifest_json,
}
use cake_splitter.Format.Validate.Valid.{IsSha256Hex, IsValidManifest}
use cake_splitter.Format.Validate.Hash.{validate_hash_iff}
use cake_splitter.Format.Validate.Exact.{
  validate_iff, validate-ne-incomplete_coverage, validate-covers, total_size, validate-total_size,
}
use cake_splitter.Format.Validate.Parse.{IsParsed, parse_manifest_json_iff}
use cake_splitter.Checks.Samples.{archive, ascii_external, sha_b}

-- the sample passes the validator
pub archive-accepted : validate ascii_external archive ≡ ok tt
unfolding validate validate_header validate_portable_filename is_unsafe_filename char_mem is_control
    is_whitespace contains_str starts_with is_windows_reserved_name validate_hash is_lower_hex
    expected_slice_count validate_slices slice_filename zero_padded slice_index_width
archive-accepted = refl

-- and the hypotheses of the theorems hold at it
archive-accepted_iff :
    (validate ascii_external archive ≡ ok tt) ↔ IsValidManifest ascii_external archive
archive-accepted_iff = validate_iff ascii_external archive

validate_iff_example : IsValidManifest ascii_external archive
validate_iff_example = (validate_iff ascii_external archive).0 archive-accepted

validate-covers_example :
    (s : SliceEntry) × (get_elem? archive.slices 1 ≡ some s)
    × (s.offset ≤ 4)
    × (4 < s.offset + s.size)
validate-covers_example = validate-covers ascii_external archive 4 archive-accepted (omega arith)

validate-total_size_example : total_size archive.slices ≡ 5
validate-total_size_example = validate-total_size ascii_external archive archive-accepted

validate-ne-incomplete_coverage_example : validate ascii_external archive ≢ err incomplete_coverage
validate-ne-incomplete_coverage_example = validate-ne-incomplete_coverage ascii_external archive

parse_manifest_json_iff_example :
    (parse_manifest_json ascii_external (codes "{}") ≡ ok archive)
    ↔ IsParsed ascii_external (codes "{}") archive
parse_manifest_json_iff_example = parse_manifest_json_iff ascii_external (codes "{}") archive

-- the sample's text parses
archive-parsed : parse_manifest_json ascii_external (codes "{\"a\": [\"[\"]}") ≡ ok archive
unfolding parse_manifest_json validate_json_nesting cake_splitter.Format.Nesting.nesting_loop
archive-parsed = rw archive-accepted refl

nesting_lem_example :
    is_err (validate_json_nesting (codes "[{\"[[\\\"[\": []}]"))
    ≡ ltb max_json_nesting (deepest 0 (lex (codes "[{\"[[\\\"[\": []}]")))
nesting_lem_example = nesting_lem (codes "[{\"[[\\\"[\": []}]")

-- the brackets inside the string do not count
three_deep : deepest 0 (lex (codes "[{\"[[\\\"[\": []}]")) ≡ 3
unfolding deepest lex
three_deep = refl

validate_portable_filename_iff_example :
    (validate_portable_filename ascii_external (codes "com1.txt") ≡ ok tt)
    ↔ IsPortable ascii_external (codes "com1.txt")
validate_portable_filename_iff_example =
    validate_portable_filename_iff ascii_external (codes "com1.txt")

-- a device name of Windows is refused in any case
device_refused : is_err (validate_portable_filename ascii_external (codes "com1.txt")) ≡ true
unfolding validate_portable_filename is_unsafe_filename char_mem is_control is_whitespace
    contains_str starts_with is_windows_reserved_name
device_refused = refl

validate_hash_iff_example :
    (validate_hash (codes "original file") sha_b ≡ ok tt) ↔ IsSha256Hex sha_b
validate_hash_iff_example = validate_hash_iff (codes "original file") sha_b

slice_filename_injective_example : ◌≡◌ {A = ℕ} 7 7
slice_filename_injective_example = slice_filename_injective (codes "a") 3 7 7 refl

expected_slice_count-le_iff_example : (expected_slice_count 5 3 ≤ 2) ↔ (5 ≤ 2 * 3)
expected_slice_count-le_iff_example = expected_slice_count-le_iff 5 3 (omega arith) 2
