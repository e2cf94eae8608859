-- ===== src/Lib.antt =====
-- Verification of CakeSplitter: splitting a file into verified slices described by a manifest, merging
-- them again, and the durable queue of tasks of the desktop application.
--
-- Format models crates/cakesplitter-format/src/lib.rs. Manifest has its constants, structs and errors,
-- and as parameters what it calls of other crates (uuid, chrono, serde_json, Unicode's upper-case
-- table); Filename has validate_portable_filename; Slicing has expected_slice_count,
-- slice_index_width and slice_filename; Nesting has validate_json_nesting; Validate has
-- CakeManifest::validate, with its loop over the slices, and parse_manifest_json. A text is the list
-- of its Unicode scalar values, a JSON text the list of its bytes, a u64 a native natural number: each
-- sum that the code checks is checked against 2^64 - 1 here.
--
-- Core models crates/cakesplitter-core/src and crates/cakesplitter-integrity/src/lib.rs. Error has
-- CoreError; Integrity has Sha256State, with the sha2 crate as a parameter; Path has what std::path
-- does with components. Host is the file system: an operation takes a World and returns a result and
-- a World, also when it fails. The World has the files by path, the reports made to the progress
-- callback, and a tape of events, which decide for each call whether the token is cancelled, whether
-- the call fails, and how many bytes a read gives. Host/Sound and Host/Rules have the reasoning: which
-- files a call keeps, and what holds after a success. System has what the operations take from other
-- crates. Stream has hash_reader and the copy loop; Publish has finalize_staged_output,
-- ensure_source_unchanged and rollback_owned_published_outputs; Split has split_file_with_progress,
-- in Prepare up to the checks of the paths, in Stage the loop over the
-- slices, in Split itself the manifest, the publication and the confirmation; Merge has
-- merge_package_with_progress, and in Inspect load_manifest and inspect_package. Control has
-- CancellationToken, with the steps of checkpoint and of the threads that cancel, pause and resume.
-- RoundTrip takes a
-- split and a later merge of its package together. Range has
-- planned_slice_range of resumable.rs; Binding has the durable records of package_binding.rs and
-- resumable.rs with validate_package_binding_shape; Enumeration has enumerate_package_directory and
-- unexpected_from_names.
--
-- Runtime models crates/cakesplitter-desktop-runtime/src. Status has TaskStatus and
-- can_transition_to; Record has the records of model.rs and their methods; Shape has
-- validate_record_shape of store.rs; Store has the tables as lists of rows, decode_row, quarantine and
-- the retention of history, and in Store/Methods the methods of TaskStore, each from a database to a
-- result and a database; Store/Reach has the histories of calls as an inductive family; Scheduler has
-- list_validated, queued_in_scheduler_order and next_scheduled_task; Reorder has move_queued with
-- write_record; Recovery has recover_after_restart; Summary has storage_summary.
--
-- Cli models crates/cakesplitter-cli/src. Error has CliError and its conversion from CoreError; Planning
-- has slice_size_for_count; Parse has parse_size and parse_slice_count; Terminal has terminal_safe.
--
-- The parts meet in the manifest: a split makes one and validates it, an inspection and a merge parse
-- one and read the files that it names, the range planner recomputes its entries, and a stored task
-- holds the plan of a split. Checks applies the theorems at concrete inputs. Prelude has comparisons,
-- lists over the native numbers, Rust's Result, texts and checked u64 arithmetic.
--
-- Fuel: the copy loop takes as fuel the number of bytes left, and hash_reader one more than the length
-- of the file; each turn that goes on has read a byte, and a loop that ran out would fail with an
-- error of its own. Decimal digits take the number as fuel, which each division by ten lowers.
--
-- Not modelled: other processes that change files during a call, so a handle is its path; directories
-- other than by their listing; wait_until_paused of a CancellationToken; the capture and the guarded opening
-- of a package binding; resumable splits and merges; opening and migrating the SQLite file,
-- integers above 2^63 - 1 in it, and the failure of an SQL statement whose json_extract meets a text
-- that is not JSON; the worker of
-- engine.rs, exports.rs and redaction.rs; the messages of a CliError, and of the command line all but its
-- errors, terminal.rs, slice_size_for_count and the two parsers of Parse; the desktop shell and the web application.
pub mod Prelude
pub mod Format
pub mod Core
pub mod Runtime
pub mod Cli
pub mod Checks
