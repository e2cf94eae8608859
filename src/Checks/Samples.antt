-- ===== src/Checks/Samples.antt =====
-- Concrete values: the library functions over ASCII, the package of the format crate's tests, a codec
-- that stores one task, and that task.
use cake_splitter.Prelude.{
  ℕ, ◌-◌, true, false, not, ◌&&◌, [], ◌∷◌, none, some, Text, codes, leb, is_empty, ok, err,
  if◌then◌else◌,
}
use cake_splitter.Format.Manifest.{CakeManifest, External}
use cake_splitter.Core.Error
use cake_splitter.Core.Error.{FilePath, root_dir}
use cake_splitter.Runtime.Status.{TaskPriority, normal, queued}
use cake_splitter.Runtime.Record.{
  TaskRecord, split, split_spec, ProcessingPlan, no_progress, default_preferences,
}
use cake_splitter.Runtime.Store.{Codec, Database, StoredRow}
use cake_splitter.Runtime.Store.Methods.{row_of}

abbrev pub sha_b : Text
sha_b = codes "bbbbbbbbbbbbbbbbbbbbbbbbbbbbbbbbbbbbbbbbbbbbbbbbbbbbbbbbbbbbbbbb"

-- five bytes in slices of three
abbrev pub archive : CakeManifest
archive = record {
  format = codes "cakesplitter";
  version = codes "1.0";
  package_id = codes "550e8400-e29b-41d4-a716-446655440000";
  created_at = codes "2026-07-18T12:00:00.000Z";
  original = record { filename = codes "archive.tar.bin"; size = 5; sha256 = sha_b };
  target_slice_size = 3;
  slice_count = 2;
  slices =
      record {
        index = 1;
        filename = codes "archive.tar.bin.001.slice";
        offset = 0;
        size = 3;
        sha256 = sha_b;
      }
      ∷ record {
        index = 2;
        filename = codes "archive.tar.bin.002.slice";
        offset = 3;
        size = 2;
        sha256 = sha_b;
      }
      ∷ [];
}

abbrev pub ascii_external : External
ascii_external = record {
  to_uppercase = λ ch. (if leb b'a' ch && leb ch b'z' then ch - 32 else ch) ∷ [];
  uuid_parses = λ s. not (is_empty s);
  rfc3339_parses = λ s. not (is_empty s);
  manifest_from_json = λ bytes. if is_empty bytes then err (codes "EOF") else ok archive;
}

abbrev pub folder : FilePath
folder = record { is_absolute = true; components = root_dir ∷ Error.normal (codes "work") ∷ [] }

abbrev pub noon : Text
noon = codes "2026-07-18T12:00:00.000Z"

abbrev pub sample_plan : ProcessingPlan
sample_plan = record {
  total_bytes = 5;
  slice_size = 3;
  slice_count = 2;
  required_free_bytes = 10;
  minimum_required_bytes = 10;
  recommended_free_bytes = 20;
  available_free_bytes = 100;
  temporary_bytes = 5;
  recovery_overhead_bytes = 5;
  expected_output_count = 3;
}

-- a task that splits a file, queued at a place in the epoch
abbrev pub task_at : ℕ → TaskPriority → TaskRecord
task_at order priority = record {
  id = codes "task";
  operation = split;
  application_version = codes "1.2.0";
  schema_version = 3;
  scheduler_version = 1;
  format_version = codes "1.0";
  epoch = 1;
  revision = 1;
  priority = priority;
  queue_order = order;
  display_name = codes "archive";
  destination_name = none;
  spec = split_spec folder folder 3 (codes "550e8400") noon;
  plan = sample_plan;
  preflight = none;
  source_identity = none;
  destination_identity = none;
  checkpoint = none;
  progress = no_progress;
  status = queued;
  failure = none;
  failure_history = [];
  task_result = none;
  attempt_count = 0;
  started_at = none;
  finished_at = none;
  duration_ms = none;
  created_at = noon;
  updated_at = noon;
}

-- a codec that knows one task
abbrev pub one_task : Codec (Unit {0})
one_task = record {
  value_from_text = λ s. ok tt;
  schema_version = λ v. some 3;
  is_object = λ v. true;
  insert_number = λ key n v. v;
  record_from_value = λ v. ok (task_at 1 normal);
  record_to_text = λ r. ok (codes "{}");
  preferences_from_text = λ s. ok default_preferences;
  preferences_to_text = λ p. ok (codes "{}");
  sha256_hex = λ s. s;
  has_checkpoint = λ s. false;
  queue_order = λ s. 1;
  cutoff = λ now days. [];
}

-- tasks with their number as id and place, and a codec that knows them by it
abbrev pub numbered : ℕ → TaskRecord
numbered n = record (task_at n normal) { id = n ∷ [] }

abbrev head_or_zero : Text → ℕ
head_or_zero [] = 0
head_or_zero (n ∷ s) = n

abbrev pub numbering : Codec ℕ
numbering = record {
  value_from_text = λ s. ok (head_or_zero s);
  schema_version = λ v. some 3;
  is_object = λ v. true;
  insert_number = λ key n v. v;
  record_from_value = λ v. ok (numbered v);
  record_to_text = λ r. ok (r.queue_order ∷ []);
  preferences_from_text = λ s. ok default_preferences;
  preferences_to_text = λ p. ok (codes "{}");
  sha256_hex = λ s. s;
  has_checkpoint = λ s. false;
  queue_order = λ s. head_or_zero s;
  cutoff = λ now days. [];
}

abbrev numbered_row : ℕ → StoredRow
numbered_row n = row_of (numbered n) (n ∷ [], n ∷ [])

abbrev pub two_tasks : Database
two_tasks = record {
  tasks = numbered_row 1 ∷ numbered_row 2 ∷ [];
  quarantine = [];
  epoch = 1;
  settings = none;
}

abbrev pub first_epoch : Database
first_epoch = record { tasks = []; quarantine = []; epoch = 1; settings = none }
