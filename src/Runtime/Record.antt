-- ===== src/Runtime/Record.antt =====
-- The records of crates/cakesplitter-desktop-runtime/src/model.rs, and the methods on them. The time
-- of a call, `now()`, is an argument.
use cake_splitter.Prelude.{
  ℕ, Bool, true, false, not, ◌&&◌, ◌||◌, List, [], Option, none, some, Text, leb, ltb, take, Result,
  ok, err, if◌then◌else◌,
}
use cake_splitter.Format.Manifest.{format_version}
use cake_splitter.Core.Error.{FilePath}
use cake_splitter.Core.Binding.{
  SourceFingerprint, DirectoryFingerprint, PackageBinding, SplitResumeData, MergeResumeData,
}
use cake_splitter.Runtime.Status.{
  TaskStatus, planned, cancelled, interrupted, permission_required, failed, can_transition_to,
  TaskPriority, normal,
}

-- the limits of crates/cakesplitter-desktop-runtime/src/lib.rs
abbrev pub task_state_schema_version : ℕ
task_state_schema_version = 3

abbrev pub scheduler_version_number : ℕ
scheduler_version_number = 1

abbrev pub max_nonterminal_tasks : ℕ
max_nonterminal_tasks = 64

abbrev pub max_task_metadata_bytes : ℕ
max_task_metadata_bytes = 33_554_432

abbrev pub max_task_history : ℕ
max_task_history = 500

abbrev pub max_failure_history : ℕ
max_failure_history = 10

abbrev pub max_preflight_warnings : ℕ
max_preflight_warnings = 20

abbrev pub default_history_retention_days : ℕ
default_history_retention_days = 90

abbrev pub max_history_retention_days : ℕ
max_history_retention_days = 3_650

abbrev pub fairness_admission_window : ℕ
fairness_admission_window = 8

pub record DesktopPreferences : Type 0 where
  pub default_slice_size : ℕ  -- u64
  pub confirm_destructive_actions : Bool
  pub reduce_motion : Bool
  pub maximum_terminal_history : ℕ  -- u32
  pub terminal_history_days : ℕ  -- u32

unfoldable pub default_preferences : DesktopPreferences
default_preferences = record {
  default_slice_size = 536_870_912;
  confirm_destructive_actions = true;
  reduce_motion = false;
  maximum_terminal_history = max_task_history;
  terminal_history_days = default_history_retention_days;
}

unfoldable pub validate_preferences : DesktopPreferences → Bool
validate_preferences p =
    ltb 0 p.default_slice_size
    && ltb 0 p.maximum_terminal_history
    && leb p.maximum_terminal_history max_task_history
    && ltb 0 p.terminal_history_days
    && leb p.terminal_history_days max_history_retention_days

pub data TaskOperation : Type 0 where
  split merge inspect verify : TaskOperation

pub data TaskSpec : Type 0 where
  -- source_path, output_directory, slice_size, package_id, created_at
  split_spec : FilePath → FilePath → ℕ → Text → Text → TaskSpec
  -- manifest_path, output_path, package_binding
  merge_spec : FilePath → FilePath → PackageBinding → TaskSpec
  -- manifest_path, verify_hashes, package_binding
  inspect_spec : FilePath → Bool → PackageBinding → TaskSpec
  -- manifest_path, package_binding
  verify_spec : FilePath → PackageBinding → TaskSpec

unfoldable pub operation_of : TaskSpec → TaskOperation
operation_of (split_spec _ _ _ _ _) = split
operation_of (merge_spec _ _ _) = merge
operation_of (inspect_spec _ _ _) = inspect
operation_of (verify_spec _ _) = verify

pub record ProcessingPlan : Type 0 where
  pub total_bytes : ℕ
  pub slice_size : ℕ
  pub slice_count : ℕ
  pub required_free_bytes : ℕ
  pub minimum_required_bytes : ℕ
  pub recommended_free_bytes : ℕ
  pub available_free_bytes : ℕ
  pub temporary_bytes : ℕ
  pub recovery_overhead_bytes : ℕ
  pub expected_output_count : ℕ

pub record TaskProgress : Type 0 where
  pub bytes_processed : ℕ
  pub total_bytes : ℕ
  pub current_slice : ℕ
  pub slice_count : ℕ
  pub stage : Text

abbrev pub no_progress : TaskProgress
no_progress = record {
  bytes_processed = 0;
  total_bytes = 0;
  current_slice = 0;
  slice_count = 0;
  stage = [];
}

pub data RecoveryCheckpoint : Type 0 where
  split_checkpoint : SplitResumeData → RecoveryCheckpoint
  merge_checkpoint : MergeResumeData → RecoveryCheckpoint

pub data ErrorCategory : Type 0 where
  source destination package_error integrity permission space recovery queue storage : ErrorCategory
  capability internal : ErrorCategory

pub data RecoveryAction : Type 0 where
  retry reselect_source reselect_destination reselect_package free_space : RecoveryAction
  close_conflicting_application remove_conflict no_action : RecoveryAction

pub record TaskFailure : Type 0 where
  pub code : Text
  pub message : Text
  pub technical_message : Text
  pub category : ErrorCategory
  pub retryable : Bool
  pub recovery_action : RecoveryAction
  pub occurred_at : Text
  pub attempt : ℕ  -- u32

-- `truncate`: the first characters
unfoldable pub truncate : Text → ℕ → Text
truncate value maximum = take maximum value

-- `TaskFailure::bounded`, at the time `now`
unfoldable pub bounded_failure : Text → Text → Text → TaskFailure
unfolding truncate
bounded_failure now code message = record {
  code = truncate code 80;
  message = truncate message 2_000;
  technical_message = truncate message 2_000;
  category = internal;
  retryable = false;
  recovery_action = no_action;
  occurred_at = now;
  attempt = 0;
}

pub data PreflightState : Type 0 where
  ready ready_with_warning blocked reselection_required : PreflightState

pub data ConflictClass : Type 0 where
  informational_overlap recoverable_conflict duplicate_task hard_conflict : ConflictClass

pub data ConflictType : Type 0 where
  shared_input same_source same_manifest same_package_directory same_output : ConflictType
  overlapping_output same_package_id source_used_as_destination : ConflictType
  destination_inside_package duplicate_operation : ConflictType

pub record TaskConflict : Type 0 where
  pub conflicting_task_id : Text
  pub class : ConflictClass
  pub conflict_type : ConflictType
  pub affected_resource : Text
  pub recommended_action : Text

pub record PreflightWarning : Type 0 where
  pub code : Text
  pub message : Text

pub record PreflightResult : Type 0 where
  pub state : PreflightState
  pub checked_at : Text
  pub minimum_required_bytes : ℕ
  pub recommended_free_bytes : ℕ
  pub available_free_bytes : ℕ
  pub temporary_bytes : ℕ
  pub recovery_overhead_bytes : ℕ
  pub expected_output_count : ℕ
  pub warnings : List PreflightWarning
  pub conflicts : List TaskConflict

pub record InspectionSummary : Type 0 where
  pub package_id : Text
  pub format_version : Text
  pub original_filename : Text
  pub original_size : ℕ
  pub original_sha256 : Text
  pub expected_slice_count : ℕ
  pub found_slice_count : ℕ
  pub missing : List Text
  pub corrupted : List Text
  pub unexpected : List Text
  pub verified : Bool

pub data TaskResult : Type 0 where
  split_result merge_result : Text → Text → TaskResult  -- filename, SHA-256
  inspection_result : InspectionSummary → TaskResult

pub record TaskRecord : Type 0 where
  pub id : Text
  pub operation : TaskOperation
  pub application_version : Text
  pub schema_version : ℕ
  pub scheduler_version : ℕ
  pub format_version : Text
  pub epoch : ℕ
  pub revision : ℕ
  pub priority : TaskPriority
  pub queue_order : ℕ
  pub display_name : Text
  pub destination_name : Option Text
  pub spec : TaskSpec
  pub plan : ProcessingPlan
  pub preflight : Option PreflightResult
  pub source_identity : Option SourceFingerprint
  pub destination_identity : Option DirectoryFingerprint
  pub checkpoint : Option RecoveryCheckpoint
  pub progress : TaskProgress
  pub status : TaskStatus
  pub failure : Option TaskFailure
  pub failure_history : List TaskFailure
  pub task_result : Option TaskResult
  pub attempt_count : ℕ
  pub started_at : Option Text
  pub finished_at : Option Text
  pub duration_ms : Option ℕ
  pub created_at : Text
  pub updated_at : Text

-- `TaskRecord::new`, at the time `now` and with the fresh UUID `id`
unfoldable pub new_task :
    Text → Text → Text → ℕ → Text → Option Text → TaskSpec → ProcessingPlan → TaskRecord
unfolding operation_of
new_task now id application_version epoch display_name destination_name spec plan = record {
  id = id;
  operation = operation_of spec;
  application_version = application_version;
  schema_version = task_state_schema_version;
  scheduler_version = scheduler_version_number;
  format_version = format_version;
  epoch = epoch;
  revision = 0;
  priority = normal;
  queue_order = 0;
  display_name = display_name;
  destination_name = destination_name;
  spec = spec;
  plan = plan;
  preflight = none;
  source_identity = none;
  destination_identity = none;
  checkpoint = none;
  progress = no_progress;
  status = planned;
  failure = none;
  failure_history = [];
  task_result = none;
  attempt_count = 0;
  started_at = none;
  finished_at = none;
  duration_ms = none;
  created_at = now;
  updated_at = now;
}

pub record InvalidTransition : Type 0 where
  pub current : TaskStatus
  pub requested : TaskStatus

unfoldable pub transition : Text → TaskRecord → TaskStatus → Result InvalidTransition TaskRecord
transition now r next =
    if not (can_transition_to r.status next)
    then err (record { current = r.status; requested = next })
    else ok (record r { status = next; updated_at = now })

abbrev is_recoverable : TaskStatus → Bool
is_recoverable interrupted = true
is_recoverable permission_required = true
is_recoverable failed = true
is_recoverable cancelled = true
is_recoverable _ = false

unfoldable pub recovery_eligible : TaskRecord → Bool
recovery_eligible r =
    is_recoverable r.status
    && (elim r.checkpoint [ some _ ↦ true | none ↦ false ]
        || elim r.failure [ some f ↦ f.retryable | none ↦ false ])
