-- ===== src/Cli/Error.antt =====
-- crates/cakesplitter-cli/src/error.rs, without the two messages, which `redact_text` and its regular
-- expressions make; and the errors of planning.rs.
use cake_splitter.Prelude.{
  ℕ, ◌≡◌, refl, ◌⊎◌, inl, inr, Bool, true, false, Option, none, Text, codes,
}
use cake_splitter.Core.Error
use cake_splitter.Core.Error.{
  CoreError, IoError, io, invalid_json, invalid_manifest, invalid_input, invalid_slice_size,
  slice_limit, collision, cancelled, source_changed, missing_slices, unexpected_slices,
  corrupted_slices, final_hash_mismatch, non_utf8_filename, staged_identity_changed,
  staged_content_changed, atomic_finalization_unsupported, unsafe_filesystem_path,
  destination_identity_changed, resume_rejected, package_identity_changed,
  package_enumeration_limit,
}

abbrev pub exit_internal : ℕ
exit_internal = 1

abbrev pub exit_usage : ℕ
exit_usage = 2

abbrev pub exit_integrity : ℕ
exit_integrity = 3

abbrev pub exit_conflict : ℕ
exit_conflict = 4

abbrev pub exit_source : ℕ
exit_source = 5

abbrev pub exit_destination : ℕ
exit_destination = 6

abbrev pub exit_permission : ℕ
exit_permission = 7

abbrev pub exit_storage : ℕ
exit_storage = 8

abbrev pub exit_recovery : ℕ
exit_recovery = 9

abbrev pub exit_capacity : ℕ
exit_capacity = 10

abbrev pub exit_cancelled : ℕ
exit_cancelled = 130

pub data CliErrorCategory : Type 0 where
  usage source destination package_error integrity permission storage conflict : CliErrorCategory
  recovery capacity cancellation internal : CliErrorCategory

pub record CliError : Type 0 where
  pub code : Text
  pub category : CliErrorCategory
  pub retryable : Bool
  pub suggested_action : Text
  pub operation_id : Option Text
  pub exit_code : ℕ

-- `std::io::ErrorKind`, where the match looks at it
pub data ErrorKind : Type 0 where
  permission_denied not_found other : ErrorKind

unfoldable pub usage_error : Text → CliError
usage_error code = record {
  code = code;
  category = usage;
  retryable = false;
  suggested_action = codes "Correct the command arguments and run it again.";
  operation_id = none;
  exit_code = exit_usage;
}

unfoldable pub internal_error : CliError
internal_error = record {
  code = codes "internal_failure";
  category = internal;
  retryable = false;
  suggested_action = codes "Review the local diagnostic detail and report a reproducible defect.";
  operation_id = none;
  exit_code = exit_internal;
}

abbrev make : Text → CliErrorCategory → Bool → Text → ℕ → CliError
make code category retryable action exit = record {
  code = code;
  category = category;
  retryable = retryable;
  suggested_action = action;
  operation_id = none;
  exit_code = exit;
}

io_action : Text → ErrorKind → CliError
io_action code permission_denied =
    make code permission true (codes "Grant access or choose another local destination.")
      exit_permission
io_action code not_found =
    make code source false (codes "Check the selected path and run the command again.") exit_source
io_action code other =
    make code storage true (codes "Check local storage health and available space before retrying.")
      exit_storage

package_action : Text → CliError
package_action code =
    make code package_error false (codes "Select a valid Cake Package format 1.0 Manifest.")
      exit_usage

source_action : Text → CliError
source_action code =
    make code source false (codes "Reselect the original stable source and retry.") exit_source

capacity_action : Text → CliError
capacity_action code =
    make code capacity false (codes "Reduce the Slice count or package size and plan again.")
      exit_capacity

integrity_action : Text → CliError
integrity_action code =
    make code integrity false
      (codes "Restore the original verified Slices or recreate the package.") exit_integrity

destination_action : Text → CliError
destination_action code =
    make code destination false
      (codes "Choose a stable local destination without links or reparse points.") exit_destination

-- `CliError::from(core_error)`, with the kind of an I/O error
unfoldable pub from_core : (IoError → ErrorKind) → CoreError → CliError
unfolding io_action package_action source_action capacity_action integrity_action destination_action
from_core kind (io p e) = io_action (Error.code (io p e)) (kind e)
from_core kind (invalid_json e) = package_action (Error.code (invalid_json e))
from_core kind (invalid_manifest e) = package_action (Error.code (invalid_manifest e))
from_core kind (invalid_input p) = source_action (Error.code (invalid_input p))
from_core kind source_changed = source_action (Error.code source_changed)
from_core kind invalid_slice_size =
    make (Error.code invalid_slice_size) usage false
      (codes "Use a positive byte size with B, KiB, MiB, or GiB units.") exit_usage
from_core kind (slice_limit a m) = capacity_action (Error.code (slice_limit a m))
from_core kind (package_enumeration_limit r m) =
    capacity_action (Error.code (package_enumeration_limit r m))
from_core kind (collision p) =
    make (Error.code (collision p)) conflict true
      (codes "Choose a new output path or remove the conflicting file explicitly.") exit_conflict
from_core kind cancelled =
    make (Error.code cancelled) cancellation true
      (codes "Run the command again when you are ready.") exit_cancelled
from_core kind (missing_slices names) = integrity_action (Error.code (missing_slices names))
from_core kind (unexpected_slices names) = integrity_action (Error.code (unexpected_slices names))
from_core kind (corrupted_slices names) = integrity_action (Error.code (corrupted_slices names))
from_core kind (final_hash_mismatch e a) = integrity_action (Error.code (final_hash_mismatch e a))
from_core kind non_utf8_filename =
    make (Error.code non_utf8_filename) source false
      (codes "Rename the local file using a portable filename.") exit_source
from_core kind (staged_identity_changed p) =
    destination_action (Error.code (staged_identity_changed p))
from_core kind (staged_content_changed p) =
    destination_action (Error.code (staged_content_changed p))
from_core kind (atomic_finalization_unsupported p) =
    destination_action (Error.code (atomic_finalization_unsupported p))
from_core kind (unsafe_filesystem_path p) =
    destination_action (Error.code (unsafe_filesystem_path p))
from_core kind (destination_identity_changed p) =
    destination_action (Error.code (destination_identity_changed p))
from_core kind (resume_rejected e) =
    make (Error.code (resume_rejected e)) recovery false
      (codes "Start a new operation with the original selected objects.") exit_recovery
from_core kind (package_identity_changed p) =
    make (Error.code (package_identity_changed p)) package_error false
      (codes "Reselect the original package and retry.") exit_integrity

-- the exit code that belongs to a category; a package has a second one
abbrev pub exit_of : CliErrorCategory → ℕ
exit_of usage = exit_usage
exit_of source = exit_source
exit_of destination = exit_destination
exit_of package_error = exit_usage
exit_of integrity = exit_integrity
exit_of permission = exit_permission
exit_of storage = exit_storage
exit_of conflict = exit_conflict
exit_of recovery = exit_recovery
exit_of capacity = exit_capacity
exit_of cancellation = exit_cancelled
exit_of internal = exit_internal

-- the categories after which the same command may succeed
abbrev pub may_retry : CliErrorCategory → Bool
may_retry permission = true
may_retry storage = true
may_retry conflict = true
may_retry cancellation = true
may_retry category = false

abbrev pub IsClassified : Text → CliError → Type 0
IsClassified code e =
    (e.code ≡ code)
    × (e.retryable ≡ may_retry e.category)
    × ((e.exit_code ≡ exit_of e.category)
        ⊎ ((e.category ≡ package_error) × (e.exit_code ≡ exit_integrity)))

io-IsClassified : (code : Text) (k : ErrorKind) → IsClassified code (io_action code k)
unfolding io_action
io-IsClassified code permission_denied = (refl, refl, inl refl)
io-IsClassified code not_found = (refl, refl, inl refl)
io-IsClassified code other = (refl, refl, inl refl)

-- Every error of the core keeps its code, is offered for a retry exactly in the categories permission,
-- storage, conflict and cancellation, and has the exit code of its category, or, in the category
-- package, that of integrity.
pub from_core-IsClassified :
    (kind : IoError → ErrorKind) (e : CoreError) → IsClassified (Error.code e) (from_core kind e)
unfolding from_core
from_core-IsClassified kind (io p e) = io-IsClassified (Error.code (io p e)) (kind e)
from_core-IsClassified kind (package_identity_changed p) = (refl, refl, inr (refl, refl))
from_core-IsClassified kind _ = (refl, refl, inl refl)
