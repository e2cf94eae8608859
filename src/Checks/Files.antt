-- ===== src/Checks/Files.antt =====
-- The theorems of Core at a small file system: the sample package, and a file to split.
use cake_splitter.Prelude.{
  ℕ, ◌+◌, ◌≡◌, refl, true, List, [], ◌∷◌, arith, none, some, codes, ok, if◌then◌else◌,
}
use cake_splitter.Format.Validate.{parse_manifest_json}
use cake_splitter.Core.Error.{FilePath, source_changed}
use cake_splitter.Core.Integrity.{Bytes, new}
use cake_splitter.Core.Path.{path_eq, join, parent, partial_path}
use cake_splitter.Core.System.{System}
use cake_splitter.Core.Host.{Node, Files, World, new_node}
use cake_splitter.Core.Stream.{Job, Cursor, copy_loop, hash_loop, hash_reader}
use cake_splitter.Core.Stream.Hashed.{hash_reader_lem}
use cake_splitter.Core.Stream.Fuel.{copy_loop-fuel, hash_reader-fuel}
use cake_splitter.Core.Publish.{StagedOutput, finalize_staged_output}
use cake_splitter.Core.Merge.{merge_package_with_progress}
use cake_splitter.Core.Merge.Inspect.{PackageInspection, inspect_package}
use cake_splitter.Core.Merge.Verified.{OnDisk}
use cake_splitter.Core.Merge.Seen.{inspect_package-intact}
use cake_splitter.Core.Merge.Whole.{MergedFrom, merge_package_lem, merge_package-keeps}
use cake_splitter.Checks.Samples.{archive, ascii_external, folder, sha_b}

abbrev pub sys : System
sys = record {
  external = ascii_external;
  sha256 = λ bytes. sha_b;
  manifest_to_json = λ manifest. ok (codes "{}");
  new_uuid = codes "550e8400-e29b-41d4-a716-446655440000";
  now = codes "2026-07-18T12:00:00Z";
  is_utf8 = λ bytes. true;
  existing = λ path files. ok tt;
  turns = λ path files. [];
}

abbrev pub file_of : ℕ → Bytes → Node
file_of n content = record (new_node n) { content = content }

abbrev pub manifest_path : FilePath
manifest_path = join folder (codes "archive.tar.bin.cake.json")

abbrev pub first_slice : FilePath
first_slice = join folder (codes "archive.tar.bin.001.slice")

abbrev second_slice : FilePath
second_slice = join folder (codes "archive.tar.bin.002.slice")

abbrev pub output : FilePath
output = join folder (codes "archive.tar.bin")

abbrev package_files : Files
package_files path =
    if path_eq path manifest_path
    then some (file_of 1 (codes "{}"))
    else if path_eq path first_slice
    then some (file_of 2 (1 ∷ 2 ∷ 3 ∷ []))
    else if path_eq path second_slice
    then some (file_of 3 (4 ∷ 5 ∷ []))
    else none

abbrev pub world_of : Files → World
world_of files = record { files = files; reports = []; next_file = 10; tape = [] }

abbrev sample : World
sample = world_of package_files

merge_succeeds : (merge_package_with_progress sys manifest_path output sample).0 ≡ ok tt
unfolding merge_package_with_progress cake_splitter.Core.Merge.Inspect.load_manifest
    cake_splitter.Core.Host.open_file cake_splitter.Core.Path.path_eq cake_splitter.Core.Path.join
    cake_splitter.Format.Validate.parse_manifest_json
    cake_splitter.Format.Nesting.validate_json_nesting cake_splitter.Format.Validate.validate
    cake_splitter.Format.Validate.validate_header
    cake_splitter.Format.Filename.validate_portable_filename
    cake_splitter.Format.Filename.is_unsafe_filename cake_splitter.Format.Filename.char_mem
    cake_splitter.Format.Filename.is_control cake_splitter.Format.Filename.is_whitespace
    cake_splitter.Format.Filename.contains_str cake_splitter.Format.Filename.starts_with
    cake_splitter.Format.Filename.is_windows_reserved_name
    cake_splitter.Format.Validate.validate_hash cake_splitter.Core.Enumeration.enumerate_entries
    cake_splitter.Core.Enumeration.enumerate_package_directory cake_splitter.Core.Enumeration.sort
    cake_splitter.Core.Enumeration.unexpected_from_names
    cake_splitter.Core.Enumeration.unexpected_loop cake_splitter.Core.Host.call
    cake_splitter.Core.Host.check_cancelled cake_splitter.Core.Host.create_new
    cake_splitter.Core.Host.ensure_absent cake_splitter.Core.Host.next_event
    cake_splitter.Core.Host.read_at cake_splitter.Core.Host.rename_no_replace
    cake_splitter.Core.Host.write_all cake_splitter.Core.Integrity.finish
    cake_splitter.Core.Integrity.new cake_splitter.Core.Integrity.update
    cake_splitter.Core.Merge.Inspect.bounded_unexpected_slice_names
    cake_splitter.Core.Merge.Inspect.check_found cake_splitter.Core.Merge.Inspect.check_hash
    cake_splitter.Core.Merge.Inspect.check_size cake_splitter.Core.Merge.Inspect.hash_file
    cake_splitter.Core.Merge.Inspect.inspect_package cake_splitter.Core.Merge.Inspect.inspect_slice
    cake_splitter.Core.Merge.Inspect.inspect_slices cake_splitter.Core.Merge.Inspect.is_file
    cake_splitter.Core.Merge.Inspect.names_beyond cake_splitter.Core.Merge.Inspect.note_hash
    cake_splitter.Core.Merge.append_slice cake_splitter.Core.Merge.append_slices
    cake_splitter.Core.Merge.create_if cake_splitter.Core.Merge.create_parent
    cake_splitter.Core.Merge.merge_job cake_splitter.Core.Merge.require_intact
    cake_splitter.Core.Merge.write_output cake_splitter.Core.Path.has_parent
    cake_splitter.Core.Path.parent cake_splitter.Core.Path.partial_path
    cake_splitter.Core.Publish.check_staged cake_splitter.Core.Publish.finalize_staged_output
    cake_splitter.Core.Publish.identity_eq cake_splitter.Core.Stream.advance
    cake_splitter.Core.Stream.copy cake_splitter.Core.Stream.copy_loop
    cake_splitter.Core.Stream.hash_loop cake_splitter.Core.Stream.hash_reader
    cake_splitter.Format.Decimal.to_decimal cake_splitter.Format.Decimal.zero_padded
    cake_splitter.Format.Filename.before_dot cake_splitter.Format.Filename.uppercase
    cake_splitter.Format.Nesting.nesting_loop cake_splitter.Format.Slicing.expected_slice_count
    cake_splitter.Format.Slicing.slice_filename cake_splitter.Format.Slicing.slice_index_width
    cake_splitter.Format.Validate.is_lower_hex cake_splitter.Format.Validate.validate_slices
merge_succeeds = refl

merge_package_lem_example :
    MergedFrom sys manifest_path output sample tt
      (merge_package_with_progress sys manifest_path output sample).1
merge_package_lem_example = merge_package_lem sys manifest_path output sample merge_succeeds

first_slice_there : sample.files first_slice ≡ some (file_of 2 (1 ∷ 2 ∷ 3 ∷ []))
unfolding path_eq join
first_slice_there = refl

merge_package-keeps_example :
    (merge_package_with_progress sys manifest_path output sample).1.files first_slice
    ≡ some (file_of 2 (1 ∷ 2 ∷ 3 ∷ []))
merge_package-keeps_example =
    merge_package-keeps sys manifest_path output sample first_slice (file_of 2 (1 ∷ 2 ∷ 3 ∷ []))
      first_slice_there

abbrev inspected : PackageInspection
inspected = record {
  manifest = archive;
  expected_slice_count = 2;
  found_slice_count = 2;
  missing = [];
  corrupted = [];
  unexpected = [];
  verified = true;
}

inspection_succeeds : (inspect_package sys manifest_path true sample).0 ≡ ok inspected
unfolding cake_splitter.Core.Merge.Inspect.load_manifest cake_splitter.Core.Host.open_file
    cake_splitter.Core.Path.path_eq cake_splitter.Core.Path.join
    cake_splitter.Format.Validate.parse_manifest_json
    cake_splitter.Format.Nesting.validate_json_nesting cake_splitter.Format.Validate.validate
    cake_splitter.Format.Validate.validate_header
    cake_splitter.Format.Filename.validate_portable_filename
    cake_splitter.Format.Filename.is_unsafe_filename cake_splitter.Format.Filename.char_mem
    cake_splitter.Format.Filename.is_control cake_splitter.Format.Filename.is_whitespace
    cake_splitter.Format.Filename.contains_str cake_splitter.Format.Filename.starts_with
    cake_splitter.Format.Filename.is_windows_reserved_name
    cake_splitter.Format.Validate.validate_hash cake_splitter.Core.Enumeration.enumerate_entries
    cake_splitter.Core.Enumeration.enumerate_package_directory cake_splitter.Core.Enumeration.sort
    cake_splitter.Core.Enumeration.unexpected_from_names
    cake_splitter.Core.Enumeration.unexpected_loop cake_splitter.Core.Host.call
    cake_splitter.Core.Host.check_cancelled cake_splitter.Core.Host.create_new
    cake_splitter.Core.Host.ensure_absent cake_splitter.Core.Host.next_event
    cake_splitter.Core.Host.read_at cake_splitter.Core.Host.rename_no_replace
    cake_splitter.Core.Host.write_all cake_splitter.Core.Integrity.finish
    cake_splitter.Core.Integrity.new cake_splitter.Core.Integrity.update
    cake_splitter.Core.Merge.Inspect.bounded_unexpected_slice_names
    cake_splitter.Core.Merge.Inspect.check_found cake_splitter.Core.Merge.Inspect.check_hash
    cake_splitter.Core.Merge.Inspect.check_size cake_splitter.Core.Merge.Inspect.hash_file
    cake_splitter.Core.Merge.Inspect.inspect_package cake_splitter.Core.Merge.Inspect.inspect_slice
    cake_splitter.Core.Merge.Inspect.inspect_slices cake_splitter.Core.Merge.Inspect.is_file
    cake_splitter.Core.Merge.Inspect.names_beyond cake_splitter.Core.Merge.Inspect.note_hash
    cake_splitter.Core.Merge.append_slice cake_splitter.Core.Merge.append_slices
    cake_splitter.Core.Merge.create_if cake_splitter.Core.Merge.create_parent
    cake_splitter.Core.Merge.merge_job cake_splitter.Core.Merge.require_intact
    cake_splitter.Core.Merge.write_output cake_splitter.Core.Path.has_parent
    cake_splitter.Core.Path.parent cake_splitter.Core.Path.partial_path
    cake_splitter.Core.Publish.check_staged cake_splitter.Core.Publish.finalize_staged_output
    cake_splitter.Core.Publish.identity_eq cake_splitter.Core.Stream.advance
    cake_splitter.Core.Stream.copy cake_splitter.Core.Stream.copy_loop
    cake_splitter.Core.Stream.hash_loop cake_splitter.Core.Stream.hash_reader
    cake_splitter.Format.Decimal.to_decimal cake_splitter.Format.Decimal.zero_padded
    cake_splitter.Format.Filename.before_dot cake_splitter.Format.Filename.uppercase
    cake_splitter.Format.Nesting.nesting_loop cake_splitter.Format.Slicing.expected_slice_count
    cake_splitter.Format.Slicing.slice_filename cake_splitter.Format.Slicing.slice_index_width
    cake_splitter.Format.Validate.is_lower_hex cake_splitter.Format.Validate.validate_slices
inspection_succeeds = refl

inspect_package-intact_example :
    (file : Node) × (nodes : List Node) × (sample.files manifest_path ≡ some file)
    × (parse_manifest_json ascii_external file.content ≡ ok archive)
    × OnDisk (λ bytes. sha_b) (parent manifest_path) sample.files archive.slices nodes
inspect_package-intact_example =
    inspect_package-intact sys manifest_path inspected sample inspection_succeeds refl refl

-- a package's digest is that of its first slice
first_digest : (hash_reader sys.sha256 first_slice sample).0 ≡ ok sha_b
unfolding cake_splitter.Core.Stream.hash_reader cake_splitter.Core.Stream.hash_loop
    cake_splitter.Core.Host.check_cancelled cake_splitter.Core.Host.next_event
    cake_splitter.Core.Host.read_at cake_splitter.Core.Integrity.new
    cake_splitter.Core.Integrity.update cake_splitter.Core.Integrity.finish
    cake_splitter.Core.Path.path_eq cake_splitter.Core.Path.join
first_digest = refl

hash_reader_lem_example : sha_b ≡ sys.sha256 (1 ∷ 2 ∷ 3 ∷ [])
hash_reader_lem_example =
    hash_reader_lem sys.sha256 first_slice (file_of 2 (1 ∷ 2 ∷ 3 ∷ [])) sha_b sample
      first_slice_there first_digest

hash_reader-fuel_example :
    hash_loop sys.sha256 (4 + 6) first_slice 0 new sample
    ≡ hash_reader sys.sha256 first_slice sample
hash_reader-fuel_example =
    hash_reader-fuel sys.sha256 6 first_slice (file_of 2 (1 ∷ 2 ∷ 3 ∷ [])) sample first_slice_there

abbrev copy_job : Job
copy_job = record {
  source = first_slice;
  target = output;
  at_end = source_changed;
  operation = codes "split";
  total_bytes = 3;
  current_slice = 1;
  slice_count = 1;
}

abbrev at_start : Cursor
at_start = record { position = 0; bytes_processed = 0; original_hasher = new; slice_hasher = new }

copy_loop-fuel_example :
    copy_loop 5 copy_job 3 at_start sample ≡ copy_loop 3 copy_job 3 at_start sample
copy_loop-fuel_example = copy_loop-fuel 5 3 copy_job 3 at_start sample (omega arith) (omega arith)
