-- ===== src/Core/Binding.antt =====
-- The durable identities and bindings of crates/cakesplitter-core/src/package_binding.rs and
-- resumable.rs, and `validate_package_binding_shape`.
use cake_splitter.Prelude.{
  ℕ, not, ◌||◌, List, [], ◌∷◌, Option, Text, codes, byte_len, text_eq, ◌==◌, all, length, Result,
  ok, reject_if, map_err, ◌>>◌,
}
use cake_splitter.Format.Manifest.{SliceEntry, CakeManifest, External}
use cake_splitter.Format.Validate.{is_lower_hex, validate}
use cake_splitter.Core.Error.{CoreError, resume_rejected, invalid_manifest}

pub record NativeFileIdentity : Type 0 where
  pub volume : ℕ  -- u64
  pub file : ℕ  -- u64

pub record SourceFingerprint : Type 0 where
  pub identity : NativeFileIdentity
  pub len : ℕ  -- u64
  pub modified_unix_nanos : ℕ  -- u64

pub record DirectoryFingerprint : Type 0 where
  pub identity : NativeFileIdentity

pub record PackageSliceBinding : Type 0 where
  pub filename : Text
  pub identity : Option SourceFingerprint

pub record PackageBinding : Type 0 where
  pub binding_version : ℕ  -- u32
  pub manifest_identity : SourceFingerprint
  pub manifest_sha256 : Text
  pub package_directory : DirectoryFingerprint
  pub manifest : CakeManifest
  pub slices : List PackageSliceBinding
  pub membership_sha256 : Text

pub record PartialCheckpoint : Type 0 where
  pub filename : Text
  pub identity : NativeFileIdentity
  pub verified_bytes : ℕ

pub record SliceCheckpoint : Type 0 where
  pub entry : SliceEntry
  pub identity : NativeFileIdentity

pub record SplitResumeData : Type 0 where
  pub source : SourceFingerprint
  pub output_directory : DirectoryFingerprint
  pub baseline_sha256 : Text
  pub completed : List SliceCheckpoint
  pub active_partial : Option PartialCheckpoint
  pub published_manifest_sha256 : Option Text

pub record MergeResumeData : Type 0 where
  pub output_directory : DirectoryFingerprint
  pub partial : PartialCheckpoint
  pub completed_slices : ℕ
  pub completed_bytes : ℕ
  pub published_sha256 : Option Text

abbrev pub package_binding_version : ℕ
package_binding_version = 1

-- the loop over `binding.manifest.slices.iter().zip(&binding.slices)`
unfoldable pub validate_binding_order :
    List SliceEntry → List PackageSliceBinding → Result CoreError (Unit {0})
validate_binding_order [] bound = ok tt
validate_binding_order (expected ∷ entries) [] = ok tt
validate_binding_order (expected ∷ entries) (actual ∷ bound) = do
  reject_if (not (text_eq expected.filename actual.filename))
      (resume_rejected (codes "the durable Slice binding order is invalid"))
  validate_binding_order entries bound

unfoldable pub validate_package_binding_shape :
    External → PackageBinding → Result CoreError (Unit {0})
validate_package_binding_shape x binding = do
  reject_if
      (not (binding.binding_version == package_binding_version)
        || not (length binding.slices == length binding.manifest.slices)
        || not (byte_len binding.manifest_sha256 == 64)
        || not (byte_len binding.membership_sha256 == 64)
        || not (all is_lower_hex binding.manifest_sha256)
        || not (all is_lower_hex binding.membership_sha256))
      (resume_rejected (codes "the durable Cake Package binding is invalid"))
  map_err invalid_manifest (validate x binding.manifest)
  validate_binding_order binding.manifest.slices binding.slices
