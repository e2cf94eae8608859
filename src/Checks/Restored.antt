-- ===== src/Checks/Restored.antt =====
-- A split of five bytes and a merge of its package.
use cake_splitter.Prelude.{◌≡◌, refl, codes, ok}
use cake_splitter.Core.Error.{FilePath}
use cake_splitter.Core.Path.{join}
use cake_splitter.Core.Host.{World}
use cake_splitter.Core.Split.{split_file_with_progress}
use cake_splitter.Core.Merge.{merge_package_with_progress}
use cake_splitter.Core.RoundTrip.{Restored, split_file-merge_package}
use cake_splitter.Checks.Samples.{folder}
use cake_splitter.Checks.Files.{manifest_path, output, world_of}
use cake_splitter.Checks.Splits.{options, source_files}
use cake_splitter.Checks.Encoded.{
  put_text, put_slices, put, get_text, get_number, get_slices, get, encoding, encoding-IsReadBack,
}

abbrev copy : FilePath
copy = join folder (codes "copy.bin")

abbrev after_split : World
after_split = (split_file_with_progress encoding output options (world_of source_files)).1

split_first :
    (split_file_with_progress encoding output options (world_of source_files)).0 ≡ ok manifest_path
unfolding split_file_with_progress cake_splitter.Core.Split.split_prepared
    cake_splitter.Core.Split.baseline cake_splitter.Core.Split.check_streamed
    cake_splitter.Core.Split.stage_manifest cake_splitter.Core.Split.publish
    cake_splitter.Core.Split.confirm cake_splitter.Core.Split.confirm_or_rollback
    cake_splitter.Core.Split.manifest_of cake_splitter.Core.Split.Prepare.prepare
    cake_splitter.Core.Split.Prepare.check_source cake_splitter.Core.Split.Prepare.plan_paths
    cake_splitter.Core.Split.Stage.stage_slices cake_splitter.Core.Split.Stage.stage_slice
    cake_splitter.Core.Split.Stage.job_of cake_splitter.Core.Split.Stage.staged_of
    cake_splitter.Core.Split.Stage.entry_of cake_splitter.Core.Split.Stage.expected_size
    cake_splitter.Core.Publish.ensure_source_unchanged cake_splitter.Core.Publish.source_state
    cake_splitter.Core.Publish.state_eq cake_splitter.Core.Path.file_name
    cake_splitter.Core.Host.open_file cake_splitter.Core.Path.path_eq cake_splitter.Core.Path.join
    cake_splitter.Format.Validate.parse_manifest_json
    cake_splitter.Format.Nesting.validate_json_nesting cake_splitter.Format.Validate.validate
    cake_splitter.Format.Validate.validate_header
    cake_splitter.Format.Filename.validate_portable_filename
    cake_splitter.Format.Filename.is_unsafe_filename cake_splitter.Format.Filename.char_mem
    cake_splitter.Format.Filename.is_control cake_splitter.Format.Filename.is_whitespace
    cake_splitter.Format.Filename.contains_str cake_splitter.Format.Filename.starts_with
    cake_splitter.Format.Filename.is_windows_reserved_name
    cake_splitter.Format.Validate.validate_hash cake_splitter.Core.Host.call
    cake_splitter.Core.Host.check_cancelled cake_splitter.Core.Host.create_new
    cake_splitter.Core.Host.ensure_absent cake_splitter.Core.Host.next_event
    cake_splitter.Core.Host.read_at cake_splitter.Core.Host.rename_no_replace
    cake_splitter.Core.Host.write_all cake_splitter.Core.Integrity.finish
    cake_splitter.Core.Integrity.new cake_splitter.Core.Integrity.update
    cake_splitter.Core.Path.has_parent cake_splitter.Core.Path.parent
    cake_splitter.Core.Path.partial_path cake_splitter.Core.Publish.check_staged
    cake_splitter.Core.Publish.finalize_staged_output cake_splitter.Core.Publish.identity_eq
    cake_splitter.Core.Stream.advance cake_splitter.Core.Stream.copy
    cake_splitter.Core.Stream.copy_loop cake_splitter.Core.Stream.hash_loop
    cake_splitter.Core.Stream.hash_reader cake_splitter.Format.Decimal.to_decimal
    cake_splitter.Format.Decimal.zero_padded cake_splitter.Format.Filename.before_dot
    cake_splitter.Format.Filename.uppercase cake_splitter.Format.Nesting.nesting_loop
    cake_splitter.Format.Slicing.expected_slice_count cake_splitter.Format.Slicing.slice_filename
    cake_splitter.Format.Slicing.slice_index_width cake_splitter.Format.Validate.is_lower_hex
    cake_splitter.Format.Validate.validate_slices put put_text put_slices
split_first = refl

merge_next : (merge_package_with_progress encoding manifest_path copy after_split).0 ≡ ok tt
unfolding split_file_with_progress cake_splitter.Core.Split.split_prepared
    cake_splitter.Core.Split.baseline cake_splitter.Core.Split.check_streamed
    cake_splitter.Core.Split.stage_manifest cake_splitter.Core.Split.publish
    cake_splitter.Core.Split.confirm cake_splitter.Core.Split.confirm_or_rollback
    cake_splitter.Core.Split.manifest_of cake_splitter.Core.Split.Prepare.prepare
    cake_splitter.Core.Split.Prepare.check_source cake_splitter.Core.Split.Prepare.plan_paths
    cake_splitter.Core.Split.Stage.stage_slices cake_splitter.Core.Split.Stage.stage_slice
    cake_splitter.Core.Split.Stage.job_of cake_splitter.Core.Split.Stage.staged_of
    cake_splitter.Core.Split.Stage.entry_of cake_splitter.Core.Split.Stage.expected_size
    cake_splitter.Core.Publish.ensure_source_unchanged cake_splitter.Core.Publish.source_state
    cake_splitter.Core.Publish.state_eq cake_splitter.Core.Path.file_name
    cake_splitter.Core.Host.open_file cake_splitter.Core.Path.path_eq cake_splitter.Core.Path.join
    cake_splitter.Format.Validate.parse_manifest_json
    cake_splitter.Format.Nesting.validate_json_nesting cake_splitter.Format.Validate.validate
    cake_splitter.Format.Validate.validate_header
    cake_splitter.Format.Filename.validate_portable_filename
    cake_splitter.Format.Filename.is_unsafe_filename cake_splitter.Format.Filename.char_mem
    cake_splitter.Format.Filename.is_control cake_splitter.Format.Filename.is_whitespace
    cake_splitter.Format.Filename.contains_str cake_splitter.Format.Filename.starts_with
    cake_splitter.Format.Filename.is_windows_reserved_name
    cake_splitter.Format.Validate.validate_hash cake_splitter.Core.Host.call
    cake_splitter.Core.Host.check_cancelled cake_splitter.Core.Host.create_new
    cake_splitter.Core.Host.ensure_absent cake_splitter.Core.Host.next_event
    cake_splitter.Core.Host.read_at cake_splitter.Core.Host.rename_no_replace
    cake_splitter.Core.Host.write_all cake_splitter.Core.Integrity.finish
    cake_splitter.Core.Integrity.new cake_splitter.Core.Integrity.update
    cake_splitter.Core.Path.has_parent cake_splitter.Core.Path.parent
    cake_splitter.Core.Path.partial_path cake_splitter.Core.Publish.check_staged
    cake_splitter.Core.Publish.finalize_staged_output cake_splitter.Core.Publish.identity_eq
    cake_splitter.Core.Stream.advance cake_splitter.Core.Stream.copy
    cake_splitter.Core.Stream.copy_loop cake_splitter.Core.Stream.hash_loop
    cake_splitter.Core.Stream.hash_reader cake_splitter.Format.Decimal.to_decimal
    cake_splitter.Format.Decimal.zero_padded cake_splitter.Format.Filename.before_dot
    cake_splitter.Format.Filename.uppercase cake_splitter.Format.Nesting.nesting_loop
    cake_splitter.Format.Slicing.expected_slice_count cake_splitter.Format.Slicing.slice_filename
    cake_splitter.Format.Slicing.slice_index_width cake_splitter.Format.Validate.is_lower_hex
    cake_splitter.Format.Validate.validate_slices merge_package_with_progress
    cake_splitter.Core.Merge.Inspect.load_manifest cake_splitter.Core.Enumeration.enumerate_entries
    cake_splitter.Core.Enumeration.enumerate_package_directory cake_splitter.Core.Enumeration.sort
    cake_splitter.Core.Enumeration.unexpected_from_names
    cake_splitter.Core.Enumeration.unexpected_loop
    cake_splitter.Core.Merge.Inspect.bounded_unexpected_slice_names
    cake_splitter.Core.Merge.Inspect.check_found cake_splitter.Core.Merge.Inspect.check_hash
    cake_splitter.Core.Merge.Inspect.check_size cake_splitter.Core.Merge.Inspect.hash_file
    cake_splitter.Core.Merge.Inspect.inspect_package cake_splitter.Core.Merge.Inspect.inspect_slice
    cake_splitter.Core.Merge.Inspect.inspect_slices cake_splitter.Core.Merge.Inspect.is_file
    cake_splitter.Core.Merge.Inspect.names_beyond cake_splitter.Core.Merge.Inspect.note_hash
    cake_splitter.Core.Merge.append_slice cake_splitter.Core.Merge.append_slices
    cake_splitter.Core.Merge.create_if cake_splitter.Core.Merge.create_parent
    cake_splitter.Core.Merge.merge_job cake_splitter.Core.Merge.require_intact
    cake_splitter.Core.Merge.write_output put put_text put_slices get get_text get_number get_slices
merge_next = refl

split_file-merge_package_example :
    Restored
      (world_of source_files)
      output
      (merge_package_with_progress encoding manifest_path copy after_split).1
      copy
split_file-merge_package_example =
    split_file-merge_package encoding output manifest_path copy options (world_of source_files)
      after_split encoding-IsReadBack split_first (λ path node here. here) merge_next
