-- ===== src/Checks/Splits.antt =====
-- The theorems on splitting and on publication at a small file system.
use cake_splitter.Prelude.{◌≡◌, refl, [], ◌∷◌, none, some, ok, if◌then◌else◌}
use cake_splitter.Format.Validate.{parse_manifest_json}
use cake_splitter.Core.Integrity.{Bytes, new}
use cake_splitter.Core.Path.{path_eq, join, parent, partial_path}
use cake_splitter.Core.System.{SplitOptions}
use cake_splitter.Core.Host.{Node, Files, World, new_node}
use cake_splitter.Core.Stream.{Job, Cursor, copy_loop, hash_loop, hash_reader}
use cake_splitter.Core.Publish.{StagedOutput, finalize_staged_output}
use cake_splitter.Core.Publish.Final.{Published, finalize_staged_output_lem}
use cake_splitter.Core.Split.{split_file_with_progress}
use cake_splitter.Core.Split.Published.{SplitInto}
use cake_splitter.Core.Split.Outcome.{split_file_lem}
use cake_splitter.Core.Split.Whole.{split_file-keeps}
use cake_splitter.Checks.Samples.{folder, sha_b}
use cake_splitter.Checks.Files.{sys, file_of, manifest_path, first_slice, output, world_of}

-- a file to split, and one that is staged
abbrev lone_files : Files
lone_files path =
    if path_eq path output
    then some (file_of 4 (1 ∷ 2 ∷ 3 ∷ 4 ∷ 5 ∷ []))
    else if path_eq path (partial_path first_slice)
    then some (file_of 5 (9 ∷ []))
    else none

abbrev lone : World
lone = world_of lone_files

abbrev pub options : SplitOptions
options = record { slice_size = 3; output_dir = folder }

source_there : lone.files output ≡ some (file_of 4 (1 ∷ 2 ∷ 3 ∷ 4 ∷ 5 ∷ []))
unfolding path_eq join
source_there = refl

split_file-keeps_example :
    (split_file_with_progress sys output options lone).1.files output
    ≡ some (file_of 4 (1 ∷ 2 ∷ 3 ∷ 4 ∷ 5 ∷ []))
split_file-keeps_example =
    split_file-keeps sys output options lone output (file_of 4 (1 ∷ 2 ∷ 3 ∷ 4 ∷ 5 ∷ []))
      source_there

abbrev staged : StagedOutput
staged = record {
  partial_path = partial_path first_slice;
  final_path = first_slice;
  identity = (new_node 5).identity;
  expected_size = 1;
  expected_sha256 = sha_b;
}

staged_is_published : (finalize_staged_output sys.sha256 staged lone).0 ≡ ok tt
unfolding cake_splitter.Core.Stream.hash_reader cake_splitter.Core.Stream.hash_loop
    cake_splitter.Core.Host.check_cancelled cake_splitter.Core.Host.next_event
    cake_splitter.Core.Host.read_at cake_splitter.Core.Integrity.new
    cake_splitter.Core.Integrity.update cake_splitter.Core.Integrity.finish
    cake_splitter.Core.Path.path_eq cake_splitter.Core.Path.join
    cake_splitter.Core.Publish.finalize_staged_output cake_splitter.Core.Publish.check_staged
    cake_splitter.Core.Publish.identity_eq cake_splitter.Core.Host.open_file
    cake_splitter.Core.Host.call cake_splitter.Core.Host.rename_no_replace
    cake_splitter.Core.Path.partial_path
staged_is_published = refl

finalize_staged_output_lem_example :
    Published sys.sha256 [] staged lone tt (finalize_staged_output sys.sha256 staged lone).1
finalize_staged_output_lem_example =
    finalize_staged_output_lem sys.sha256 staged lone staged_is_published

abbrev pub source_files : Files
source_files path = if path_eq path output then some (file_of 4 (1 ∷ 2 ∷ 3 ∷ 4 ∷ 5 ∷ [])) else none

split_succeeds :
    (split_file_with_progress sys output options (world_of source_files)).0 ≡ ok manifest_path
unfolding split_file_with_progress cake_splitter.Core.Split.split_prepared
    cake_splitter.Core.Split.baseline cake_splitter.Core.Split.check_streamed
    cake_splitter.Core.Split.stage_manifest cake_splitter.Core.Split.publish
    cake_splitter.Core.Split.confirm cake_splitter.Core.Split.confirm_or_rollback
    cake_splitter.Core.Split.manifest_of cake_splitter.Core.Split.Prepare.prepare
    cake_splitter.Core.Split.Prepare.check_source cake_splitter.Core.Split.Prepare.plan_paths
    cake_splitter.Core.Split.Stage.stage_slices cake_splitter.Core.Split.Stage.stage_slice
    cake_splitter.Core.Split.Stage.job_of cake_splitter.Core.Split.Stage.staged_of
    cake_splitter.Core.Split.Stage.entry_of cake_splitter.Core.Split.Stage.expected_size
    cake_splitter.Core.Publish.ensure_source_unchanged cake_splitter.Core.Publish.source_state
    cake_splitter.Core.Publish.state_eq cake_splitter.Core.Path.file_name
    cake_splitter.Core.Host.open_file cake_splitter.Core.Path.path_eq cake_splitter.Core.Path.join
    cake_splitter.Format.Validate.parse_manifest_json
    cake_splitter.Format.Nesting.validate_json_nesting cake_splitter.Format.Validate.validate
    cake_splitter.Format.Validate.validate_header
    cake_splitter.Format.Filename.validate_portable_filename
    cake_splitter.Format.Filename.is_unsafe_filename cake_splitter.Format.Filename.char_mem
    cake_splitter.Format.Filename.is_control cake_splitter.Format.Filename.is_whitespace
    cake_splitter.Format.Filename.contains_str cake_splitter.Format.Filename.starts_with
    cake_splitter.Format.Filename.is_windows_reserved_name
    cake_splitter.Format.Validate.validate_hash cake_splitter.Core.Host.call
    cake_splitter.Core.Host.check_cancelled cake_splitter.Core.Host.create_new
    cake_splitter.Core.Host.ensure_absent cake_splitter.Core.Host.next_event
    cake_splitter.Core.Host.read_at cake_splitter.Core.Host.rename_no_replace
    cake_splitter.Core.Host.write_all cake_splitter.Core.Integrity.finish
    cake_splitter.Core.Integrity.new cake_splitter.Core.Integrity.update
    cake_splitter.Core.Path.has_parent cake_splitter.Core.Path.parent
    cake_splitter.Core.Path.partial_path cake_splitter.Core.Publish.check_staged
    cake_splitter.Core.Publish.finalize_staged_output cake_splitter.Core.Publish.identity_eq
    cake_splitter.Core.Stream.advance cake_splitter.Core.Stream.copy
    cake_splitter.Core.Stream.copy_loop cake_splitter.Core.Stream.hash_loop
    cake_splitter.Core.Stream.hash_reader cake_splitter.Format.Decimal.to_decimal
    cake_splitter.Format.Decimal.zero_padded cake_splitter.Format.Filename.before_dot
    cake_splitter.Format.Filename.uppercase cake_splitter.Format.Nesting.nesting_loop
    cake_splitter.Format.Slicing.expected_slice_count cake_splitter.Format.Slicing.slice_filename
    cake_splitter.Format.Slicing.slice_index_width cake_splitter.Format.Validate.is_lower_hex
    cake_splitter.Format.Validate.validate_slices
split_succeeds = refl

split_file_lem_example :
    (src : Node) × (source_files output ≡ some src)
    × SplitInto sys src manifest_path
        (split_file_with_progress sys output options (world_of source_files)).1
split_file_lem_example =
    split_file_lem sys output options (world_of source_files) manifest_path split_succeeds
