-- ===== src/Core/Merge/Seen.antt =====
-- `inspect_package`, and so `verify_package`: what a success says of the files.
use cake_splitter.Prelude.{◌≡◌, refl, ◌∙◌, true, List, [], map, some, ok, subst, Text}
use cake_splitter.Format.Manifest.{SliceEntry}
use cake_splitter.Format.Validate.{parse_manifest_json}
use cake_splitter.Core.Error.{FilePath}
use cake_splitter.Core.Path.{parent}
use cake_splitter.Core.System.{System}
use cake_splitter.Core.Host.{Node, World}
use cake_splitter.Core.Host.Sound.{Held, Kept, Sound, Sound-bind, Sound-ok, Same}
use cake_splitter.Core.Host.Rules.{Sound-Same, Sound-last_lift}
use cake_splitter.Core.Merge.Inspect.{
  PackageInspection, load_manifest, inspect_slices, bounded_unexpected_slice_names, inspect_package,
}
use cake_splitter.Core.Merge.Loaded.{Loaded, load_manifest-Sound}
use cake_splitter.Core.Merge.Verified.{OnDisk, IsClean, Inspected, inspect_slices-Sound, no_tally}

-- An inspection that found nothing wrong has seen the file of every slice.
abbrev pub Seen : System → FilePath → World → PackageInspection → World → Type 0
Seen sys path w inspection w' =
    Loaded sys path w inspection.manifest w'
    × (inspection.missing ≡ []
        → inspection.corrupted ≡ []
        → (nodes : List Node) × OnDisk sys.sha256 (parent path) w.files inspection.manifest.slices
            nodes)

unexpected-Sound :
    (sys : System) (held : Held) (directory : FilePath) (expected : List Text) (w : World)
    → Kept held w.files
    → Sound held (λ _ w'. Same w w') (bounded_unexpected_slice_names sys directory expected w)
unfolding bounded_unexpected_slice_names
unexpected-Sound sys held directory expected w kept =
    Sound-last_lift held (λ _ w'. Same w w') w _ kept λ _ _. refl

pub inspect_package-Sound :
    (sys : System) (held : Held) (path : FilePath) (w : World)
    → Kept held w.files
    → Sound held (Seen sys path w) (inspect_package sys path true w)
unfolding inspect_package IsClean
inspect_package-Sound sys held path w kept =
    Sound-bind held (Loaded sys path w) (Seen sys path w) (load_manifest sys path w) _
      (load_manifest-Sound sys held path w kept)
      λ manifest w1 kept1 (same1, file, here, parsed).
        Sound-bind held (Inspected sys.sha256 held (parent path) manifest.slices no_tally w1)
          (Seen sys path w)
          (inspect_slices sys.sha256 (parent path) true manifest.slices no_tally w1) _
          (inspect_slices-Sound sys.sha256 held (parent path) manifest.slices no_tally w1 kept1)
          λ tally w2 kept2 (same2, seen).
            Sound-Same held (Seen sys path w) w2 kept2
              (bounded_unexpected_slice_names sys (parent path)
                (map (λ s. SliceEntry.filename s) manifest.slices))
              _ (unexpected-Sound sys held (parent path) _ w2 kept2)
              λ unexpected w3 kept3 same3. (
                kept3,
                (
                  (same3 ∙ same2 ∙ same1, file, here, parsed),
                  λ missing corrupted.
                      let clean = seen (missing, corrupted) in
                      (
                        clean.1,
                        subst
                            (λ files. OnDisk sys.sha256 (parent path) files manifest.slices clean.1)
                            same1 clean.2,
                      ),
                ),
              )

-- If an inspection with hashes reports no missing and no corrupted slice, then the manifest it reports
-- is the one in the manifest's file, and each slice has a file of the size and the digest of its
-- entry.
pub inspect_package-intact :
    (sys : System) (path : FilePath) (inspection : PackageInspection) (w : World)
    → (inspect_package sys path true w).0 ≡ ok inspection
    → inspection.missing ≡ []
    → inspection.corrupted ≡ []
    → (file : Node) × (nodes : List Node) × (w.files path ≡ some file)
      × (parse_manifest_json sys.external file.content ≡ ok inspection.manifest)
      × OnDisk sys.sha256 (parent path) w.files inspection.manifest.slices nodes
inspect_package-intact sys path inspection w success missing corrupted =
    let seen =
      Sound-ok [] (Seen sys path w) (inspect_package sys path true w) inspection
        (inspect_package-Sound sys [] path w tt) success in
    let on_disk = seen.1 missing corrupted in (seen.0.1, on_disk.0, seen.0.2, seen.0.3, on_disk.1)
