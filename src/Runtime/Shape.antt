-- ===== src/Runtime/Shape.antt =====
-- `validate_record_shape` of crates/cakesplitter-desktop-runtime/src/store.rs.
pub mod Failure
use cake_splitter.Prelude.{
  ℕ, ◌+◌, Bool, true, false, not, ◌&&◌, ◌||◌, List, [], ◌∷◌, Option, none, some, Text, codes,
  byte_len, text_eq, is_empty, ltb, ◌==◌, any, length, Result, ok, err, reject_if, is_err, ◌>>=◌,
  ◌>>◌,
}
use cake_splitter.Format.Manifest.{External, format_version, max_slice_count}
use cake_splitter.Core.Error.{FilePath, Component, prefix, normal, root_dir, cur_dir, parent_dir}
use cake_splitter.Core.Binding.{PackageBinding, validate_package_binding_shape}
use cake_splitter.Runtime.Status.{queued, failed, completed, status_eq}
use cake_splitter.Runtime.Record.{
  TaskOperation, split, merge, inspect, verify, TaskSpec, split_spec, merge_spec, inspect_spec,
  verify_spec, operation_of, RecoveryCheckpoint, split_checkpoint, merge_checkpoint, TaskFailure,
  PreflightResult, TaskRecord, scheduler_version_number, max_failure_history,
  max_preflight_warnings,
}

-- `option.is_some_and(p)`
abbrev pub is_some_and {ℓ} : {A : Type ℓ} → Option A → (A → Bool) → Bool
is_some_and none p = false
is_some_and (some a) p = p a

abbrev pub is_some {ℓ} : {A : Type ℓ} → Option A → Bool
is_some none = false
is_some (some a) = true

abbrev operation_eq : TaskOperation → TaskOperation → Bool
operation_eq split split = true
operation_eq merge merge = true
operation_eq inspect inspect = true
operation_eq verify verify = true
operation_eq _ _ = false

abbrev is_dot_component : Component → Bool
is_dot_component parent_dir = true
is_dot_component cur_dir = true
is_dot_component _ = false

unfoldable pub path_is_safe : FilePath → Bool
path_is_safe path = path.is_absolute && not (any is_dot_component path.components)

abbrev is_split_checkpoint : Option RecoveryCheckpoint → Bool
is_split_checkpoint (some (split_checkpoint _)) = true
is_split_checkpoint _ = false

abbrev is_merge_checkpoint : Option RecoveryCheckpoint → Bool
is_merge_checkpoint (some (merge_checkpoint _)) = true
is_merge_checkpoint _ = false

-- the first test: the plain fields
unfoldable pub has_bad_fields : External → TaskRecord → Bool
has_bad_fields x r =
    not (x.uuid_parses r.id)
    || r.epoch == 0
    || r.revision == 0
    || not (r.scheduler_version == scheduler_version_number)
    || not (operation_eq r.operation (operation_of r.spec))
    || not (text_eq r.format_version format_version)
    || is_empty r.application_version
    || ltb 64 (byte_len r.application_version)
    || ltb 500 (byte_len r.display_name)
    || is_some_and r.destination_name (λ value. ltb 500 (byte_len value))
    || (status_eq r.status queued && r.queue_order == 0)
    || ltb max_failure_history (length r.failure_history)
    || is_some_and r.preflight (λ p. ltb max_preflight_warnings (length p.warnings))
    || ltb r.progress.total_bytes r.progress.bytes_processed
    || ltb r.progress.slice_count r.progress.current_slice
    || (not (r.progress.slice_count == 0) && not (r.progress.slice_count == r.plan.slice_count))
    || (not (r.progress.total_bytes == 0) && not (r.progress.total_bytes == r.plan.total_bytes))
    || not (x.rfc3339_parses r.created_at)
    || not (x.rfc3339_parses r.updated_at)
    || is_some_and r.started_at (λ value. not (x.rfc3339_parses value))
    || is_some_and r.finished_at (λ value. not (x.rfc3339_parses value))

is_bad_failure : External → TaskFailure → Bool
is_bad_failure x f =
    is_empty f.code
    || ltb 80 (byte_len f.code)
    || ltb 2_000 (byte_len f.message)
    || ltb 2_000 (byte_len f.technical_message)
    || (not (is_empty f.occurred_at) && not (x.rfc3339_parses f.occurred_at))

-- `failure.iter().chain(failure_history.iter())`
unfoldable pub has_bad_failure : External → TaskRecord → Bool
unfolding is_bad_failure
has_bad_failure x r =
    is_some_and r.failure (is_bad_failure x) || any (is_bad_failure x) r.failure_history

unfoldable pub has_bad_preflight : External → TaskRecord → Bool
has_bad_preflight x r = is_some_and r.preflight (λ p.
    is_empty p.checked_at
    || not (x.rfc3339_parses p.checked_at)
    || ltb (max_slice_count + 1) p.expected_output_count)

-- the `match` on the specification
unfoldable pub validate_spec : External → TaskRecord → TaskSpec → Result Text (Unit {0})
validate_spec x r (split_spec source_path output_directory slice_size package_id created_at) =
    reject_if
      (not (path_is_safe source_path)
        || not (path_is_safe output_directory)
        || slice_size == 0
        || not (slice_size == r.plan.slice_size)
        || not (x.uuid_parses package_id)
        || not (x.rfc3339_parses created_at)
        || is_merge_checkpoint r.checkpoint)
      (codes "Split recovery metadata is invalid")
validate_spec x r (merge_spec manifest_path output_path package_binding) =
    reject_if
      (not (path_is_safe manifest_path)
        || not (path_is_safe output_path)
        || is_err (validate_package_binding_shape x package_binding)
        || is_split_checkpoint r.checkpoint)
      (codes "Merge recovery binding is invalid")
validate_spec x r (inspect_spec manifest_path verify_hashes package_binding) =
    reject_if
      (not (path_is_safe manifest_path)
        || is_err (validate_package_binding_shape x package_binding)
        || is_some r.checkpoint)
      (codes "inspection recovery binding is invalid")
validate_spec x r (verify_spec manifest_path package_binding) =
    reject_if
      (not (path_is_safe manifest_path)
        || is_err (validate_package_binding_shape x package_binding)
        || is_some r.checkpoint)
      (codes "inspection recovery binding is invalid")

unfoldable pub validate_record_shape : External → TaskRecord → Result Text (Unit {0})
validate_record_shape x r = do
  reject_if (has_bad_fields x r) (codes "task metadata invariants are invalid")
  reject_if (has_bad_failure x r) (codes "task failure metadata is invalid")
  reject_if (has_bad_preflight x r) (codes "task preflight metadata is invalid")
  validate_spec x r r.spec
  reject_if (status_eq r.status completed && not (is_some r.task_result))
      (codes "completed task is missing its result")
  reject_if (status_eq r.status failed && not (is_some r.failure))
      (codes "failed task is missing its structured failure")
