-- ===== src/Core/Split/Whole.antt =====
-- `split_file_with_progress` as a whole: the files that were there before.
use cake_splitter.Prelude.{
  ◌+◌, ◌≡◌, refl, ap, ◌∙◌, List, [], ◌∷◌, ◌++◌, some, codes, All, map, ok, map_err, length,
}
use cake_splitter.Format.Manifest.{CakeManifest}
use cake_splitter.Format.Validate.{validate}
use cake_splitter.Core.Error.{FilePath, invalid_json}
use cake_splitter.Core.Integrity.{finish, new, update}
use cake_splitter.Core.Path.{path_eq_refl, partial_path}
use cake_splitter.Core.System.{System, SplitOptions, in_core}
use cake_splitter.Core.Host.{Node, Files, World, pure, new_node}
use cake_splitter.Core.Host.Sound.{
  Held, Kept, Fresh-of_absent, Sound, Sound-bind, Sound-map, Sound-tail, Sound-Kept, Same,
}
use cake_splitter.Core.Host.Rules.{
  Sound-Same, Sound-lift, Sound-call, Sound-open_file, Sound-create_new,
}
use cake_splitter.Core.Stream.Copied.{Sound-write_all}
use cake_splitter.Core.Publish.{ensure_source_unchanged, StagedOutput}
use cake_splitter.Core.Publish.Final.{same-at}
use cake_splitter.Core.Split.Prepare.{Plan, prepare}
use cake_splitter.Core.Split.Stage.{stage_slices}
use cake_splitter.Core.Split.{
  start, manifest_of, baseline, check_streamed, stage_manifest, publish, confirm,
  confirm_or_rollback, split_prepared, split_file_with_progress,
}
use cake_splitter.Core.Split.Untouched.{
  ensure_source_unchanged-Sound, FreshFinal, FreshPartial, publish-Sound, confirm_or_rollback-Sound,
}
use cake_splitter.Core.Split.Staging.{Staged, stage_slices-Sound}
use cake_splitter.Core.Split.Sources.{Prepared, prepare-Sound, baseline-Sound, check_streamed-Sound}

All-snoc :
    {A : Type 0} (P : A → Type 0) (xs : List A) (x : A) → All P xs → P x → All P (xs ++ x ∷ [])
All-snoc P [] x all last = (last, tt)
All-snoc P (y ∷ ys) x (first, all) last = (first, All-snoc P ys x all last)

module _ (sys : System) (held : Held) where
  stage_manifest-Sound :
      (plan : Plan) (manifest : CakeManifest) (w : World)
      → Kept held w.files
      → Sound held (λ staged _. FreshPartial held staged) (stage_manifest sys plan manifest w)
  unfolding stage_manifest
  stage_manifest-Sound plan manifest w kept =
      let R : StagedOutput → World → Type 0 = (λ staged _. FreshPartial held staged) in
      let partial = partial_path plan.manifest_path in
      Sound-lift held R w kept (in_core (validate sys.external manifest)) _ λ _ _.
        Sound-lift held R w kept (map_err invalid_json (sys.manifest_to_json manifest)) _
          λ encoded _. Sound-create_new held R w kept partial _ λ w1 n kept1 free made.
            let fresh = Fresh-of_absent partial held w.files kept free in
            let there = same-at partial made ∙ rw (path_eq_refl partial) refl in
            Sound-write_all held R _ partial encoded (new_node n) w1 kept1 fresh there
              λ w2 kept2 there2.
                Sound-write_all held R _ partial (codes "\n") _ w2 kept2 fresh there2 λ w3 kept3 _.
                  Sound-call held R w3 kept3 partial _ λ w4 kept4 _.
                    Sound-call held R w4 kept4 partial _ λ w5 kept5 _.
                      Sound-open_file held R w5 kept5 partial
                        (λ node. pure (record {
                          partial_path = partial;
                          final_path = plan.manifest_path;
                          identity = node.identity;
                          expected_size = length encoded + 1;
                          expected_sha256 =
                              finish sys.sha256 (update (update new encoded) (codes "\n"));
                        }))
                        λ node w6 kept6 _ _. (kept6, fresh)

  confirm-Sound :
      (plan : Plan) (published : List StagedOutput) (w : World)
      → Kept held w.files
      → All (FreshFinal held) published
      → Sound held (λ _ _. Unit) (confirm plan published w)
  unfolding confirm
  confirm-Sound plan published w kept finals =
      let r = ensure_source_unchanged plan.input plan.state w in
      Sound-map held (λ _ w'. (r.0 ≡ ok tt) × (w' ≡ r.1)) (λ _ _. Unit)
        (confirm_or_rollback published r)
        (confirm_or_rollback-Sound held published r
          (Sound-Kept held (λ _ w'. Same w w') r
            (ensure_source_unchanged-Sound held plan.input plan.state w kept))
          finals)
        λ _ _ _. tt

  -- from the first reading of the source on
  split_rest-Sound :
      (plan : Plan) (paths : List (FilePath × FilePath)) (src : Node) (w : World)
      → ((files : Files) → Kept held files → files plan.input ≡ some src)
      → Kept held w.files
      → Sound held (λ _ _. Unit) (split_prepared sys plan paths w)
  unfolding split_prepared
  split_rest-Sound plan paths src w reads kept =
      let R : FilePath → World → Type 0 = (λ _ _. Unit) in
      Sound-bind held (λ digest w'. Same w w' × (digest ≡ sys.sha256 src.content)) R
        (baseline sys plan w) _ (baseline-Sound sys held plan src w kept (reads w.files kept))
        λ sha256 w1 kept1 _.
          Sound-bind held (Staged held) R (stage_slices sys.sha256 plan 1 paths start w1) _
            (stage_slices-Sound sys.sha256 held plan src reads 1 paths start w1 kept1)
            λ staged w2 kept2 fresh.
              Sound-Same held R w2 kept2 (check_streamed sys plan sha256 staged.1) _
                (check_streamed-Sound sys held plan sha256 staged.1 w2 kept2)
                λ _ w3 kept3 _.
                  let manifest = manifest_of sys plan sha256 (map (λ s. s.1) staged.0) in
                  Sound-bind held (λ output _. FreshPartial held output) R
                    (stage_manifest sys plan manifest w3) _
                    (stage_manifest-Sound plan manifest w3 kept3)
                    λ output w4 kept4 fresh_output.
                      Sound-Same held R w4 kept4 (ensure_source_unchanged plan.input plan.state) _
                        (ensure_source_unchanged-Sound held plan.input plan.state w4 kept4)
                        λ _ w5 kept5 _.
                          let outputs = map (λ s. s.0) staged.0 ++ output ∷ [] in
                          Sound-bind held (λ _ _. All (FreshFinal held) outputs) R
                            (publish sys.sha256 outputs w5) _
                            (publish-Sound held sys.sha256 outputs w5 kept5 (
                              All-snoc (FreshPartial held) (map (λ s. s.0) staged.0) output fresh
                                fresh_output))
                            λ _ w6 kept6 finals.
                              Sound-bind held (λ _ _. Unit) R (confirm plan outputs w6)
                                (λ _. pure plan.manifest_path)
                                (confirm-Sound plan outputs w6 kept6 finals)
                                λ _ w7 kept7 _. (kept7, tt)

split-Sound :
    (sys : System) (held : Held) (input : FilePath) (options : SplitOptions) (w : World)
    → Kept held w.files
    → Sound held (λ _ _. Unit) (split_file_with_progress sys input options w)
unfolding split_file_with_progress
split-Sound sys held input options w kept =
    Sound-bind held (Prepared sys held input options.output_dir w) (λ _ _. Unit)
      (prepare sys input options w) _ (prepare-Sound sys held input options w kept)
      λ prepared w1 kept1 (same1, input_same, src, here, _, _, _).
        Sound-tail input src held (λ _ _. Unit) (split_prepared sys prepared.0 prepared.1 w1)
          (split_rest-Sound sys ((input, src) ∷ held) prepared.0 prepared.1 src w1
            (λ files k. ap files input_same ∙ k.0) (same-at input same1 ∙ here, kept1))

-- Whether it succeeds or fails at any point, a split leaves every file that was there before as it
-- was, the source among them.
pub split_file-keeps :
    (sys : System) (input : FilePath) (options : SplitOptions) (w : World) (path : FilePath)
    (node : Node)
    → w.files path ≡ some node
    → (split_file_with_progress sys input options w).1.files path ≡ some node
split_file-keeps sys input options w path node here =
    (Sound-Kept ((path, node) ∷ []) (λ _ _. Unit) (split_file_with_progress sys input options w)
      (split-Sound sys ((path, node) ∷ []) input options w (here, tt))).0
