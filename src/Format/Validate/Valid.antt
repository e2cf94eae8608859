-- ===== src/Format/Validate/Valid.antt =====
-- The valid manifests, described without the order of the tests: a header, and one planned entry
-- for each position.
use cake_splitter.Prelude.{
  ℕ, ◌+◌, ◌-◌, ◌*◌, min, ◌≤◌, ◌<◌, ◌≡◌, true, List, [], ◌∷◌, Text, byte_len, length, All,
}
use cake_splitter.Format.Manifest.{
  SliceEntry, CakeManifest, External, format_identifier, format_version, max_safe_integer,
  max_slice_count,
}
use cake_splitter.Format.Slicing.{expected_slice_count, slice_index_width, slice_filename}
use cake_splitter.Format.Filename.Portable.{IsPortable}
use cake_splitter.Format.Validate.{is_lower_hex}

pub record IsSha256Hex (value : Text) : Type 0 where
  pub long : byte_len value ≡ 64
  pub digits : All (λ c. is_lower_hex c ≡ true) value

pub record IsPlannedEntry (x : External) (m : CakeManifest) (position : ℕ) (s : SliceEntry)
    : Type 0 where
  pub index : s.index ≡ position + 1
  pub offset : s.offset ≡ position * m.target_slice_size
  pub size : s.size ≡ min (m.original.size - position * m.target_slice_size) m.target_slice_size
  pub filename :
      s.filename
      ≡ slice_filename m.original.filename (position + 1) (slice_index_width m.slice_count)
  pub portable : IsPortable x s.filename
  pub hash : IsSha256Hex s.sha256

-- the entries from a position on
abbrev pub Planned : External → CakeManifest → ℕ → List SliceEntry → Type 0
Planned x m position [] = Unit
Planned x m position (s ∷ rest) = IsPlannedEntry x m position s × Planned x m (position + 1) rest

pub record IsValidHeader (x : External) (m : CakeManifest) : Type 0 where
  pub format : m.format ≡ format_identifier
  pub version : m.version ≡ format_version
  pub package_id : x.uuid_parses m.package_id ≡ true
  pub created_at : x.rfc3339_parses m.created_at ≡ true
  pub portable : IsPortable x m.original.filename
  pub hash : IsSha256Hex m.original.sha256
  pub size_safe : m.original.size ≤ max_safe_integer
  pub target_safe : m.target_slice_size ≤ max_safe_integer
  pub target_pos : 0 < m.target_slice_size
  pub count : m.slice_count ≡ expected_slice_count m.original.size m.target_slice_size
  pub count_bounded : m.slice_count ≤ max_slice_count
  pub table : length m.slices ≡ m.slice_count

pub record IsValidManifest (x : External) (m : CakeManifest) : Type 0 where
  pub header : IsValidHeader x m
  pub planned : Planned x m 0 m.slices
