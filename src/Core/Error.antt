-- ===== src/Core/Error.antt =====
-- `CoreError` and `CoreError::code` of crates/cakesplitter-core/src/lib.rs, and paths as
-- `Path::components` shows them.
use cake_splitter.Prelude.{ℕ, Bool, List, Text, codes}
use cake_splitter.Format.Manifest.{ManifestError}

-- `std::path::Component`
pub data Component : Type 0 where
  prefix normal : Text → Component
  root_dir cur_dir parent_dir : Component

pub record FilePath : Type 0 where
  pub is_absolute : Bool
  pub components : List Component

-- `std::io::Error`, by its text
abbrev pub IoError : Type 0
IoError = Text

pub data CoreError : Type 0 where
  io : FilePath → IoError → CoreError
  invalid_json : Text → CoreError
  invalid_manifest : ManifestError → CoreError
  invalid_input : FilePath → CoreError
  invalid_slice_size : CoreError
  slice_limit : ℕ → ℕ → CoreError  -- actual, maximum
  collision : FilePath → CoreError
  cancelled source_changed : CoreError
  missing_slices unexpected_slices corrupted_slices : List Text → CoreError
  final_hash_mismatch : Text → Text → CoreError  -- expected, actual
  non_utf8_filename : CoreError
  staged_identity_changed staged_content_changed : FilePath → CoreError
  atomic_finalization_unsupported unsafe_filesystem_path : FilePath → CoreError
  destination_identity_changed : FilePath → CoreError
  resume_rejected : Text → CoreError
  package_identity_changed : FilePath → CoreError
  package_enumeration_limit : Text → ℕ → CoreError  -- resource, maximum

unfoldable pub code : CoreError → Text
code (io _ _) = codes "io_error"
code (invalid_json _) = codes "invalid_json"
code (invalid_manifest _) = codes "invalid_manifest"
code (invalid_input _) = codes "invalid_input"
code invalid_slice_size = codes "invalid_slice_size"
code (slice_limit _ _) = codes "resource_limit"
code (collision _) = codes "output_collision"
code cancelled = codes "cancelled"
code source_changed = codes "source_changed"
code (missing_slices _) = codes "missing_slices"
code (unexpected_slices _) = codes "unexpected_slices"
code (corrupted_slices _) = codes "corrupted_slices"
code (final_hash_mismatch _ _) = codes "final_hash_mismatch"
code non_utf8_filename = codes "non_utf8_filename"
code (staged_identity_changed _) = codes "staged_identity_changed"
code (staged_content_changed _) = codes "staged_content_changed"
code (atomic_finalization_unsupported _) = codes "atomic_finalization_unsupported"
code (unsafe_filesystem_path _) = codes "unsafe_filesystem_path"
code (destination_identity_changed _) = codes "destination_identity_changed"
code (resume_rejected _) = codes "resume_rejected"
code (package_identity_changed _) = codes "package_identity_changed"
code (package_enumeration_limit _ _) = codes "package_enumeration_limit"
