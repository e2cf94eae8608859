-- ===== src/Core/Split/Outcome.antt =====
-- `split_file_with_progress` as a whole: what a success leaves.
use cake_splitter.Prelude.{◌≡◌, refl, sym, ap, ◌∙◌, subst, List, [], ◌∷◌, ◌++◌, some, map, ok, All}
use cake_splitter.Core.Error.{FilePath}
use cake_splitter.Core.Path.{parent}
use cake_splitter.Core.System.{System, SplitOptions}
use cake_splitter.Core.Host.{Node, World, pure}
use cake_splitter.Core.Host.Sound.{Held, Kept, Sound, Sound-bind, Sound-map, Sound-ok, Same}
use cake_splitter.Core.Publish.{SourceState, source_state, ensure_source_unchanged}
use cake_splitter.Core.Publish.Final.{same-at}
use cake_splitter.Core.Split.{
  start, manifest_of, baseline, check_streamed, stage_manifest, publish, confirm, split_prepared,
  split_file_with_progress,
}
use cake_splitter.Core.Split.Prepare.{Plan, prepare}
use cake_splitter.Core.Split.Stage.{stage_slices}
use cake_splitter.Core.Split.Untouched.{ensure_source_unchanged-Sound}
use cake_splitter.Core.Split.Sources.{
  IsInside, Prepared, prepare-Sound, baseline-Sound, check_streamed-Sound,
}
use cake_splitter.Core.Split.Separate.{partials, finals, publish-finals}
use cake_splitter.Core.Split.Content.{outputs_of, StagedPieces, stage_slices-Content}
use cake_splitter.Core.Split.Published.{
  Sound-only, Separate-snoc, Kept-snoc, finals-unsnoc, ManifestStaged, stage_manifest-Content,
  confirm-Same, SplitInto,
}

split_prepared-Content :
    (sys : System) (plan : Plan) (paths : List (FilePath × FilePath)) (src : Node) (w : World)
    → All (IsInside (parent plan.manifest_path)) paths
    → w.files plan.input ≡ some src
    → plan.state ≡ source_state src
    → Sound [] (SplitInto sys src) (split_prepared sys plan paths w)
unfolding split_prepared manifest_of source_state
split_prepared-Content sys plan paths src w inside here state =
    let R = SplitInto sys src in
    let directory = parent plan.manifest_path in
    let source : Held = (plan.input, src) ∷ [] in
    Sound-bind [] (λ d w1. (Same w w1 × (d ≡ sys.sha256 src.content)) × Kept source w1.files) R
      (baseline sys plan w) _
      (Sound-only source (λ d w1. Same w w1 × (d ≡ sys.sha256 src.content)) (baseline sys plan w)
        (baseline-Sound sys source plan src w (here, tt) here))
      λ sha256 w1 _ ((_, digest), kept1).
        Sound-bind []
          (λ r w2. StagedPieces sys.sha256 plan directory src source r w2 × Kept source w2.files) R
          (stage_slices sys.sha256 plan 1 paths start w1) _
          (Sound-only source (StagedPieces sys.sha256 plan directory src source)
            (stage_slices sys.sha256 plan 1 paths start w1)
            (stage_slices-Content sys.sha256 plan directory src source (λ files k. k.0) 1 paths
              start w1 inside refl kept1))
          λ staged w2 _ ((nodes, pieces, all, separate), _).
            let os = outputs_of staged.0 in
            let held = partials os nodes ++ source in
            let manifest = manifest_of sys plan sha256 (map (λ s. s.1) staged.0) in
            Sound-bind [] (λ _ w3. Same w2 w3 × Kept held w3.files) R
              (check_streamed sys plan sha256 staged.1 w2) _
              (Sound-only held (λ _ w3. Same w2 w3) (check_streamed sys plan sha256 staged.1 w2)
                (check_streamed-Sound sys held plan sha256 staged.1 w2 all))
              λ _ w3 _ (_, kept3).
                Sound-bind []
                  (λ m w4. ManifestStaged sys plan manifest held m w4 × Kept held w4.files) R
                  (stage_manifest sys plan manifest w3) _
                  (Sound-only held (ManifestStaged sys plan manifest held)
                    (stage_manifest sys plan manifest w3)
                    (stage_manifest-Content sys held plan manifest w3 kept3))
                  λ output w4 _ ((node, encoded, there, fresh, final, valid, json, text), kept4).
                    Sound-bind [] (λ _ w5. Same w4 w5 × Kept held w5.files) R
                      (ensure_source_unchanged plan.input plan.state w4) _
                      (Sound-only held (λ _ w5. Same w4 w5)
                        (ensure_source_unchanged plan.input plan.state w4)
                        (ensure_source_unchanged-Sound held plan.input plan.state w4 kept4))
                      λ _ w5 _ (same5, kept5).
                        let outs = os ++ output ∷ [] in
                        let ns = nodes ++ node ∷ [] in
                        Sound-bind []
                          (λ _ w6. Kept (finals outs ns) w6.files × Kept source w6.files) R
                          (publish sys.sha256 outs w5) _
                          (Sound-only source (λ _ w6. Kept (finals outs ns) w6.files)
                            (publish sys.sha256 outs w5)
                            (publish-finals sys.sha256 source outs ns w5
                              (Kept-snoc output node source os nodes w5.files separate kept5
                                (same-at output.partial_path same5 ∙ there))
                              (Separate-snoc output node source os nodes separate fresh)))
                          λ _ w6 _ (published, _).
                            Sound-bind [] (λ _ w7. Same w6 w7) R (confirm plan outs w6)
                              (λ _. pure plan.manifest_path) (confirm-Same plan outs w6)
                              λ _ w7 _ same7.
                                let parts =
                                  finals-unsnoc output node source os nodes w7.files separate
                                    (subst (λ f. Kept (finals outs ns) f) (sym same7) published) in
                                (
                                  tt,
                                  (
                                    manifest,
                                    encoded,
                                    node,
                                    staged.0,
                                    nodes,
                                    valid,
                                    ap (λ s. SourceState.len s) state,
                                    digest,
                                    refl,
                                    pieces,
                                    parts.0,
                                    json,
                                    text,
                                    ap w7.files (sym final) ∙ parts.1,
                                  ),
                                )

-- If a split succeeds, then the manifest whose path it returns is valid and has the size and the
-- digest of the source; each of its entries belongs to an output whose final path is that of the
-- entry's filename beside the manifest, whose file holds the bytes of the source from the entry's offset on, as many as its size,
-- and whose digest the entry has; and the manifest's file holds its JSON text and a newline.
pub split_file_lem :
    (sys : System) (input : FilePath) (options : SplitOptions) (w : World) (path : FilePath)
    → (split_file_with_progress sys input options w).0 ≡ ok path
    → (src : Node) × (w.files input ≡ some src)
      × SplitInto sys src path (split_file_with_progress sys input options w).1
unfolding split_file_with_progress
split_file_lem sys input options w path success =
    let R : FilePath → World → Type 0 =
      (λ p w'. (src : Node) × (w.files input ≡ some src) × SplitInto sys src p w') in
    Sound-ok [] R (split_file_with_progress sys input options w) path
      (Sound-bind [] (Prepared sys [] input options.output_dir w) R (prepare sys input options w) _
        (prepare-Sound sys [] input options w tt)
        λ prepared w1 _ (same1, input_same, src, here, state, folder, inside).
          Sound-map [] (SplitInto sys src) R (split_prepared sys prepared.0 prepared.1 w1)
            (split_prepared-Content sys prepared.0 prepared.1 src w1
              (subst (λ d. All (IsInside d) prepared.1) (sym folder) inside)
              (ap w1.files input_same ∙ same-at input same1 ∙ here) state)
            λ p w2 result. (src, here, result))
      success
