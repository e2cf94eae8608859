-- ===== src/Format/Manifest.antt =====
-- The constants, structs and errors of crates/cakesplitter-format/src/lib.rs, and what that crate
-- takes from others (`uuid`, `chrono`, `serde_json`, and Unicode's upper-case table).
use cake_splitter.Prelude.{ℕ, Text, codes, List, Bool, Result}

abbrev pub format_identifier : Text
format_identifier = codes "cakesplitter"

abbrev pub format_version : Text
format_version = codes "1.0"

abbrev pub max_safe_integer : ℕ
max_safe_integer = 9_007_199_254_740_991

abbrev pub max_manifest_bytes : ℕ
max_manifest_bytes = 16_777_216

abbrev pub max_slice_count : ℕ
max_slice_count = 50_000

abbrev pub max_filename_bytes : ℕ
max_filename_bytes = 200

abbrev pub max_json_nesting : ℕ
max_json_nesting = 16

pub record OriginalFile : Type 0 where
  pub filename : Text
  pub size : ℕ  -- u64
  pub sha256 : Text

pub record SliceEntry : Type 0 where
  pub index : ℕ  -- u64
  pub filename : Text
  pub offset : ℕ  -- u64
  pub size : ℕ  -- u64
  pub sha256 : Text

pub record CakeManifest : Type 0 where
  pub format : Text
  pub version : Text
  pub package_id : Text
  pub created_at : Text
  pub original : OriginalFile
  pub target_slice_size : ℕ  -- u64
  pub slice_count : ℕ  -- u64
  pub slices : List SliceEntry

pub data ManifestError : Type 0 where
  manifest_too_large json_nesting_too_deep : ManifestError
  invalid_json unsupported_format unsupported_version : Text → ManifestError
  invalid_package_id invalid_timestamp : ManifestError
  unsafe_filename : Text → ManifestError
  filename_too_long : ℕ → ℕ → ManifestError  -- actual, maximum
  invalid_hash : Text → ManifestError
  unsafe_integer invalid_target_slice_size invalid_slice_count too_many_slices : ManifestError
  slice_table_length : ManifestError
  duplicate_index : ℕ → ManifestError
  duplicate_filename : Text → ManifestError
  invalid_index : ℕ → ℕ → ManifestError  -- expected, actual
  invalid_offset invalid_slice_size : ℕ → ℕ → ℕ → ManifestError  -- index, expected, actual
  invalid_slice_filename : ℕ → Text → Text → ManifestError  -- index, expected, actual
  incomplete_coverage : ManifestError

-- What the crate calls and does not implement.
pub record External : Type 0 where
  -- `char::to_uppercase`, which may give several characters
  pub to_uppercase : ℕ → Text
  -- `Uuid::parse_str(s).is_ok()`
  pub uuid_parses : Text → Bool
  -- `DateTime::parse_from_rfc3339(s).is_ok()`
  pub rfc3339_parses : Text → Bool
  -- `serde_json::from_str::<CakeManifest>`, over the bytes of the text
  pub manifest_from_json : List ℕ → Result Text CakeManifest
