-- ===== src/Checks/Packages.antt =====
-- The theorems of Core at a small directory and the sample package.
use mathlib.Core.List.{Perm}
use cake_splitter.Prelude.{
  ◌≤◌, ◌≡◌, refl, true, false, List, [], ◌∷◌, arith, none, some, Text, codes, ok, err, length, leb,
  if◌then◌else◌,
}
use cake_splitter.Core.Range.{planned_slice_range}
use cake_splitter.Core.Range.Plan.{planned_slice_range_lem, planned_slice_range-entry}
use cake_splitter.Core.Enumeration.{
  Turn, DirEntry, PackageInventory, enumerate_package_directory, max_slice_candidates,
  max_directory_entries, max_diagnostic_entries, unexpected_from_names,
}
use cake_splitter.Core.Enumeration.Ordered.{IsAscending}
use cake_splitter.Core.Enumeration.Bounds.{candidates, enumerate-perm}
use cake_splitter.Core.Enumeration.Unexpected.{not_expected, too_many, unexpected_from_names_lem}
use cake_splitter.Checks.Samples.{archive, ascii_external, folder}
use cake_splitter.Checks.Formats.{archive-accepted}

planned_slice_range_lem_example : planned_slice_range 5 3 2 ≡ ok (3, 2)
planned_slice_range_lem_example =
    planned_slice_range_lem 5 3 1 (omega arith) (omega arith) (omega arith)
      (unfold cake_splitter.Format.Slicing.expected_slice_count in omega arith)
      (unfold cake_splitter.Format.Slicing.expected_slice_count in omega arith)

planned_slice_range-entry_example : planned_slice_range 5 3 2 ≡ ok (3, 2)
planned_slice_range-entry_example =
    planned_slice_range-entry ascii_external archive 1
      (record {
        index = 2;
        filename = codes "archive.tar.bin.002.slice";
        offset = 3;
        size = 2;
        sha256 = cake_splitter.Checks.Samples.sha_b;
      })
      archive-accepted refl

abbrev file_turn : Text → Turn
file_turn name = record {
  is_cancelled = false;
  entry = ok (record {
    path = folder;
    name = some name;
    metadata_error = none;
    is_file = true;
    is_link = false;
  });
}

abbrev three_files : List Turn
three_files =
    file_turn (codes "b.slice") ∷ file_turn (codes "b.cake.json") ∷ file_turn (codes "a.slice") ∷ []

abbrev found_files : PackageInventory
found_files = record {
  slice_names = codes "a.slice" ∷ codes "b.slice" ∷ [];
  manifest_names = codes "b.cake.json" ∷ [];
}

enumerated : enumerate_package_directory folder (ok tt) three_files ≡ ok found_files
unfolding enumerate_package_directory cake_splitter.Core.Enumeration.enumerate_entries
    cake_splitter.Core.Enumeration.visit_entry cake_splitter.Core.Enumeration.record_entry
    cake_splitter.Core.Enumeration.ends_with cake_splitter.Core.Enumeration.sort
enumerated = refl

enumerate-perm_example :
    Perm found_files.slice_names (candidates three_files)
    × IsAscending found_files.slice_names
    × (length (candidates three_files) ≤ max_slice_candidates)
    × (length three_files ≤ max_directory_entries)
enumerate-perm_example = enumerate-perm folder (ok tt) three_files found_files enumerated

unexpected_from_names_lem_example :
    unexpected_from_names found_files.slice_names (codes "b.slice" ∷ []) ≡ (
      if leb
        (length (not_expected (codes "b.slice" ∷ []) found_files.slice_names))
        max_diagnostic_entries
      then ok (not_expected (codes "b.slice" ∷ []) found_files.slice_names)
      else err too_many)
unexpected_from_names_lem_example =
    unexpected_from_names_lem found_files.slice_names (codes "b.slice" ∷ [])
