-- ===== src/Format/Validate.antt =====
-- `CakeManifest::validate`, `validate_hash` and `parse_manifest_json`.
pub mod Valid
pub mod Hash
pub mod Header
pub mod Loop
pub mod Exact
pub mod Parse
use cake_splitter.Prelude.{
  ℕ, ◌+◌, ◌-◌, min, Bool, false, not, ◌&&◌, ◌||◌, List, [], ◌∷◌, ◌++◌, Text, codes, byte_len,
  text_eq, text_mem, ltb, leb, ◌==◌, all, length, Result, ok, reject_if, ok_or, checked_add,
  map_err, ◌>>=◌, ◌>>◌,
}
use cake_splitter.Format.Manifest.{
  SliceEntry, CakeManifest, ManifestError, External, manifest_too_large, invalid_json,
  unsupported_format, unsupported_version, invalid_package_id, invalid_timestamp, invalid_hash,
  unsafe_integer, invalid_target_slice_size, invalid_slice_count, too_many_slices,
  slice_table_length, duplicate_index, duplicate_filename, invalid_index, invalid_offset,
  invalid_slice_size, invalid_slice_filename, incomplete_coverage, format_identifier,
  format_version, max_safe_integer, max_manifest_bytes, max_slice_count,
}
use cake_splitter.Format.Decimal.{to_decimal}
use cake_splitter.Format.Slicing.{expected_slice_count, slice_index_width, slice_filename}
use cake_splitter.Format.Filename.{validate_portable_filename}
use cake_splitter.Format.Nesting.{validate_json_nesting}

-- `byte.is_ascii_digit() || (b'a'..=b'f').contains(&byte)`
unfoldable pub is_lower_hex : ℕ → Bool
is_lower_hex byte = (leb b'0' byte && leb byte b'9') || (leb b'a' byte && leb byte b'f')

unfoldable pub validate_hash : Text → Text → Result ManifestError (Unit {0})
validate_hash label value =
    reject_if (not (byte_len value == 64) || not (all is_lower_hex value)) (invalid_hash label)

-- `HashSet::insert` fails on what was inserted before
abbrev pub index_mem : ℕ → List ℕ → Bool
index_mem i [] = false
index_mem i (j ∷ js) = i == j || index_mem i js

-- the `for` loop over the slices; it returns the final `expected_offset`
unfoldable pub validate_slices :
    External
    → CakeManifest
    → ℕ
    → ℕ
    → ℕ
    → List ℕ
    → List Text
    → List SliceEntry
    → Result ManifestError ℕ
validate_slices x m width position expected_offset indexes filenames [] = ok expected_offset
validate_slices x m width position expected_offset indexes filenames (slice ∷ rest) = do
  reject_if
      (ltb max_safe_integer slice.index
        || ltb max_safe_integer slice.offset
        || ltb max_safe_integer slice.size)
      unsafe_integer
  reject_if (index_mem slice.index indexes) (duplicate_index slice.index)
  reject_if (text_mem slice.filename filenames) (duplicate_filename slice.filename)
  let expected_index = position + 1
  reject_if (not (slice.index == expected_index)) (invalid_index expected_index slice.index)
  validate_portable_filename x slice.filename
  validate_hash (codes "slice " ++ to_decimal slice.index) slice.sha256
  reject_if (not (slice.offset == expected_offset))
      (invalid_offset slice.index expected_offset slice.offset)
  let remaining = m.original.size - expected_offset
  let expected_size = min remaining m.target_slice_size
  reject_if (not (slice.size == expected_size))
      (invalid_slice_size slice.index expected_size slice.size)
  let expected_filename = slice_filename m.original.filename slice.index width
  reject_if (not (text_eq slice.filename expected_filename))
      (invalid_slice_filename slice.index expected_filename slice.filename)
  next_offset ← ok_or (checked_add expected_offset slice.size) unsafe_integer
  validate_slices x m width (position + 1) next_offset (slice.index ∷ indexes)
      (slice.filename ∷ filenames) rest

-- the tests that stand before the loop
unfoldable pub validate_header : External → CakeManifest → Result ManifestError (Unit {0})
validate_header x m = do
  reject_if (not (text_eq m.format format_identifier)) (unsupported_format m.format)
  reject_if (not (text_eq m.version format_version)) (unsupported_version m.version)
  reject_if (not (x.uuid_parses m.package_id)) invalid_package_id
  reject_if (not (x.rfc3339_parses m.created_at)) invalid_timestamp
  validate_portable_filename x m.original.filename
  validate_hash (codes "original file") m.original.sha256
  reject_if
      (ltb max_safe_integer m.original.size
        || ltb max_safe_integer m.target_slice_size
        || ltb max_safe_integer m.slice_count)
      unsafe_integer
  reject_if (m.target_slice_size == 0) invalid_target_slice_size
  reject_if (ltb max_slice_count m.slice_count || ltb max_slice_count (length m.slices))
      too_many_slices
  reject_if (not (m.slice_count == expected_slice_count m.original.size m.target_slice_size))
      invalid_slice_count
  reject_if (not (length m.slices == m.slice_count)) slice_table_length

unfoldable pub validate : External → CakeManifest → Result ManifestError (Unit {0})
validate x m = do
  validate_header x m
  covered ← validate_slices x m (slice_index_width m.slice_count) 0 0 [] [] m.slices
  reject_if (not (covered == m.original.size)) incomplete_coverage

unfoldable pub manifest_filename : CakeManifest → Text
manifest_filename m = m.original.filename ++ codes ".cake.json"

-- `json` is the text's bytes
unfoldable pub parse_manifest_json : External → List ℕ → Result ManifestError CakeManifest
parse_manifest_json x json = do
  reject_if (ltb max_manifest_bytes (length json)) manifest_too_large
  validate_json_nesting json
  manifest ← map_err invalid_json (x.manifest_from_json json)
  validate x manifest
  ok manifest
