-- ===== src/Core/Merge/Whole.antt =====
-- `merge_package_with_progress` as a whole.
use cake_splitter.Prelude.{
  ◌≡◌, refl, sym, ap, ◌∙◌, subst, Bool, true, false, not, List, [], ◌∷◌, some, Text, is_empty, ok,
  ok_injective, reject_if,
}
use cake_splitter.Format.Manifest.{CakeManifest}
use cake_splitter.Format.Validate.{parse_manifest_json}
use cake_splitter.Core.Error.{FilePath, missing_slices, corrupted_slices, unexpected_slices}
use cake_splitter.Core.Path.{parent, has_parent, partial_path}
use cake_splitter.Core.System.{System}
use cake_splitter.Core.Host.{Node, World, lift}
use cake_splitter.Core.Host.Sound.{
  Held, Kept, Sound, Sound-bind, Sound-map, Same, Sound-ok, Sound-Kept, call-Sound,
}
use cake_splitter.Core.Host.Rules.{Sound-Same, Sound-reject, Sound-last_reject, Sound-ensure_absent}
use cake_splitter.Core.Stream.Hashed.{some_injective}
use cake_splitter.Core.Publish.Final.{same-at}
use cake_splitter.Core.Merge.{
  require_intact, create_if, create_parent, write_output, merge_package_with_progress,
}
use cake_splitter.Core.Merge.Inspect.{PackageInspection, load_manifest, inspect_package}
use cake_splitter.Core.Merge.Loaded.{Loaded, load_manifest-Sound}
use cake_splitter.Core.Merge.Verified.{OnDisk}
use cake_splitter.Core.Merge.Seen.{Seen, inspect_package-Sound}
use cake_splitter.Core.Merge.Output.{Merged, write_output-Sound}

is_empty-eq-nil : (xs : List Text) → not (is_empty xs) ≡ false → xs ≡ []
is_empty-eq-nil [] h = refl
is_empty-eq-nil (x ∷ xs) h = cc

-- the manifest that the package was merged by
abbrev pub MergedFrom : System → FilePath → FilePath → World → Unit {0} → World → Type 0
MergedFrom sys manifest_path output_path w done w' =
    (manifest : CakeManifest) × (file : Node) × (nodes : List Node) × (w.files manifest_path
      ≡ some file)
    × (parse_manifest_json sys.external file.content ≡ ok manifest)
    × OnDisk sys.sha256 (parent manifest_path) w.files manifest.slices nodes
    × Merged sys output_path manifest nodes done w'

module _ (held : Held) where
  require_intact-Sound :
      (inspection : PackageInspection) (w : World)
      → Kept held w.files
      → Sound held
          (λ _ w'. Same w w' × (inspection.missing ≡ []) × (inspection.corrupted ≡ []))
          (require_intact inspection w)
  unfolding require_intact
  require_intact-Sound inspection w kept =
      let R : Unit {0} → World → Type 0 =
        (λ _ w'. Same w w' × (inspection.missing ≡ []) × (inspection.corrupted ≡ [])) in
      Sound-reject held R w kept _ (missing_slices inspection.missing) _ λ missing.
        Sound-reject held R w kept (not (is_empty inspection.corrupted))
          (corrupted_slices inspection.corrupted)
          (lift (
            reject_if (not (is_empty inspection.unexpected))
              (unexpected_slices inspection.unexpected)))
          λ corrupted.
            Sound-last_reject held R w _ (unexpected_slices inspection.unexpected) kept λ _. (
              refl,
              is_empty-eq-nil inspection.missing missing,
              is_empty-eq-nil inspection.corrupted corrupted,
            )

  create_if-Sound :
      (path : FilePath) (has : Bool) (w : World)
      → Kept held w.files
      → Sound held (λ _ w'. Same w w') (create_if path has w)
  unfolding create_if
  create_if-Sound path true w kept = call-Sound held w kept (parent path)
  create_if-Sound path false w kept = (kept, refl)

  create_parent-Sound :
      (path : FilePath) (w : World)
      → Kept held w.files
      → Sound held (λ _ w'. Same w w') (create_parent path w)
  unfolding create_parent
  create_parent-Sound path w kept = create_if-Sound path (has_parent path) w kept

parsed_unique :
    (sys : System) (f g : Node) (m n : CakeManifest)
    → f ≡ g
    → parse_manifest_json sys.external f.content ≡ ok m
    → parse_manifest_json sys.external g.content ≡ ok n
    → m ≡ n
parsed_unique sys f g m n same read_f read_g =
    ok_injective
      (sym read_f ∙ ap (λ k. parse_manifest_json sys.external (Node.content k)) same ∙ read_g)

module _ (sys : System) (held : Held) (manifest_path output_path : FilePath) where
  merge_package-Sound :
      (w : World)
      → Kept held w.files
      → Sound held
          (MergedFrom sys manifest_path output_path w)
          (merge_package_with_progress sys manifest_path output_path w)
  unfolding merge_package_with_progress
  merge_package-Sound w kept =
      let R = MergedFrom sys manifest_path output_path w in
      Sound-bind held (Loaded sys manifest_path w) R (load_manifest sys manifest_path w) _
        (load_manifest-Sound sys held manifest_path w kept)
        λ manifest w1 kept1 (same1, file, here, parsed).
          Sound-bind held (Seen sys manifest_path w1) R (inspect_package sys manifest_path true w1)
            _ (inspect_package-Sound sys held manifest_path w1 kept1)
            λ inspection w2 kept2 ((same2, again, there, reparsed), seen).
              Sound-bind held
                (λ _ w'. Same w2 w' × (inspection.missing ≡ []) × (inspection.corrupted ≡ [])) R
                (require_intact inspection w2) _ (require_intact-Sound held inspection w2 kept2)
                λ _ w3 kept3 (same3, missing, corrupted).
                  Sound-ensure_absent held R w3 kept3 output_path _ λ w4 kept4 same4 _.
                    Sound-ensure_absent held R w4 kept4 (partial_path output_path) _
                      λ w5 kept5 same5 _.
                        Sound-Same held R w5 kept5 (create_parent output_path) _
                          (create_parent-Sound held output_path w5 kept5)
                          λ _ w6 kept6 same6.
                            let one =
                              some_injective (sym there ∙ same-at manifest_path same1 ∙ here) in
                            let agree =
                              parsed_unique sys again file inspection.manifest manifest one reparsed
                                parsed in
                            let (nodes, on_disk) = seen missing corrupted in
                            let on_disk_first =
                              subst
                                (λ m.
                                  OnDisk sys.sha256 (parent manifest_path) w1.files
                                    (CakeManifest.slices m) nodes)
                                agree on_disk in
                            Sound-map held (Merged sys output_path manifest nodes) R
                              (write_output sys manifest_path output_path manifest w6)
                              (write_output-Sound sys held manifest_path output_path manifest nodes
                                w6
                                (subst
                                  (λ f.
                                    OnDisk sys.sha256 (parent manifest_path) f manifest.slices
                                      nodes)
                                  (sym (same6 ∙ same5 ∙ same4 ∙ same3 ∙ same2)) on_disk_first)
                                kept6)
                              λ done w7 merged. (
                                manifest,
                                file,
                                nodes,
                                here,
                                parsed,
                                subst
                                    (λ f.
                                      OnDisk sys.sha256 (parent manifest_path) f manifest.slices
                                        nodes)
                                    same1 on_disk_first,
                                merged,
                              )

-- If a merge succeeds, then the manifest's file parses to a manifest, the file of each of its slices
-- is there with the size and the digest of its entry, and the output is the concatenation of the
-- slices in their order, of the size and the digest of the original.
pub merge_package_lem :
    (sys : System) (manifest_path output_path : FilePath) (w : World)
    → (merge_package_with_progress sys manifest_path output_path w).0 ≡ ok tt
    → MergedFrom sys manifest_path output_path w tt
        (merge_package_with_progress sys manifest_path output_path w).1
merge_package_lem sys manifest_path output_path w success =
    Sound-ok [] (MergedFrom sys manifest_path output_path w)
      (merge_package_with_progress sys manifest_path output_path w) tt
      (merge_package-Sound sys [] manifest_path output_path w tt) success

-- Whether it succeeds or fails at any point, a merge leaves every file that was there before as it
-- was.
pub merge_package-keeps :
    (sys : System) (manifest_path output_path : FilePath) (w : World) (path : FilePath)
    (node : Node)
    → w.files path ≡ some node
    → (merge_package_with_progress sys manifest_path output_path w).1.files path ≡ some node
merge_package-keeps sys manifest_path output_path w path node here =
    (Sound-Kept ((path, node) ∷ []) (MergedFrom sys manifest_path output_path w)
      (merge_package_with_progress sys manifest_path output_path w)
      (merge_package-Sound sys ((path, node) ∷ []) manifest_path output_path w (here, tt))).0
