-- ===== src/Core/Split/Sources.antt =====
-- The phases of a split that only read.
use cake_splitter.Prelude.{
  ℕ, zero, suc, ◌≡◌, refl, sym, ◌∙◌, not, ◌||◌, List, ◌∷◌, ◌++◌, some, Text, codes, is_empty, ltb,
  ◌==◌, ok_or, reject_if, length, All,
}
use cake_splitter.Format.Manifest.{max_safe_integer, max_slice_count, unsafe_integer}
use cake_splitter.Format.Slicing.{expected_slice_count, slice_index_width, slice_filename}
use cake_splitter.Format.Filename.{validate_portable_filename}
use cake_splitter.Core.Error.{
  FilePath, source_changed, invalid_slice_size, invalid_input, slice_limit, invalid_manifest,
  non_utf8_filename,
}
use cake_splitter.Core.Path.{partial_path, join, parent, parent-join, file_name}
use cake_splitter.Core.System.{System, SplitOptions, in_core}
use cake_splitter.Core.Host.{Node, World, pure, read_at}
use cake_splitter.Core.Host.Sound.{Held, Kept, Sound, Sound-bind, Sound-map, Same, read_at-Sound}
use cake_splitter.Core.Host.Rules.{
  Sound-Same, Sound-lift, Sound-last_reject, Sound-call, Sound-open_file, Sound-ensure_absent,
}
use cake_splitter.Core.Stream.{Cursor, hash_reader}
use cake_splitter.Core.Stream.Hashed.{hash_reader-Sound}
use cake_splitter.Core.Publish.{ensure_source_unchanged, SourceState, source_state}
use cake_splitter.Core.Publish.Final.{same-at}
use cake_splitter.Core.Split.Prepare.{Plan, check_source, plan_paths, prepare}
use cake_splitter.Core.Split.{baseline, check_streamed}
use cake_splitter.Core.Split.Untouched.{opened-bind, ensure_source_unchanged-Sound}

-- the final path is that of an entry of the directory
abbrev pub IsInside : FilePath → FilePath × FilePath → Type 0
IsInside directory paths = (name : Text) × (paths.1 ≡ join directory name)

module _ (sys : System) (held : Held) where
  plan_paths-Sound :
      (directory : FilePath) (filename : Text) (width index n : ℕ) (w : World)
      → Kept held w.files
      → Sound held
          (λ paths w'. Same w w' × All (IsInside directory) paths)
          (plan_paths sys directory filename width index n w)
  unfolding plan_paths
  plan_paths-Sound directory filename width index zero w kept = (kept, (refl, tt))
  plan_paths-Sound directory filename width index (suc n) w kept =
      let R : List (FilePath × FilePath) → World → Type 0 =
        (λ paths w'. Same w w' × All (IsInside directory) paths) in
      let final_path = join directory (slice_filename filename index width) in
      Sound-lift held R w kept
        (in_core (validate_portable_filename sys.external (slice_filename filename index width))) _
        λ _ _. Sound-ensure_absent held R w kept final_path _ λ w1 kept1 same1 _.
          Sound-ensure_absent held R w1 kept1 (partial_path final_path) _ λ w2 kept2 same2 _.
            Sound-bind held (λ paths w'. Same w2 w' × All (IsInside directory) paths) R
              (plan_paths sys directory filename width (suc index) n w2)
              (λ paths. pure ((partial_path final_path, final_path) ∷ paths))
              (plan_paths-Sound directory filename width (suc index) n w2 kept2)
              λ _ w3 kept3 (same3, inside). (
                kept3,
                (same3 ∙ same2 ∙ same1, ((slice_filename filename index width, refl), inside)),
              )

  check_source-Sound :
      (input : FilePath) (options : SplitOptions) (w : World)
      → Kept held w.files
      → Sound held
          (λ source w'.
            Same w w' × (src : Node) × (w.files input ≡ some src) × (source.1 ≡ source_state src))
          (check_source sys input options w)
  unfolding check_source source_state
  check_source-Sound input options w kept =
      let R : Text × SourceState → World → Type 0 = (λ source w'.
        Same w w' × (src : Node) × (w.files input ≡ some src) × (source.1 ≡ source_state src)) in
      Sound-lift held R w kept
        (reject_if (options.slice_size == 0 || ltb max_safe_integer options.slice_size)
          invalid_slice_size)
        _
        λ _ _. Sound-open_file held R w kept input _ λ node w1 kept1 same1 _.
          Sound-lift held R w1 kept1 (reject_if (not node.is_regular) (invalid_input input)) _
            λ _ _. opened-bind held R input _ w1 kept1 λ src w2 kept2 same2 here.
              Sound-call held R w2 kept2 options.output_dir _ λ w3 kept3 same3.
                Sound-lift held R w3 kept3 (ok_or (file_name input) non_utf8_filename) _
                  λ filename _.
                    Sound-lift held R w3 kept3
                      (in_core (validate_portable_filename sys.external filename)) _
                      λ _ _.
                        Sound-lift held R w3 kept3
                          (reject_if (ltb max_safe_integer (length src.content))
                            (invalid_manifest unsafe_integer))
                          (λ _. pure (filename, source_state src))
                          λ _ _. (
                            kept3,
                            (same3 ∙ same2 ∙ same1, src, sym (same-at input same1) ∙ here, refl),
                          )

  -- the plan is that of the source
  abbrev pub Prepared :
      FilePath → FilePath → World → Plan × List (FilePath × FilePath) → World → Type 0
  Prepared input directory w prepared w' =
      Same w w'
      × (prepared.0.input ≡ input)
      × (src : Node) × (w.files input ≡ some src)
      × (prepared.0.state ≡ source_state src)
      × (parent prepared.0.manifest_path ≡ directory)
      × All (IsInside directory) prepared.1

  pub prepare-Sound :
      (input : FilePath) (options : SplitOptions) (w : World)
      → Kept held w.files
      → Sound held (Prepared input options.output_dir w) (prepare sys input options w)
  unfolding prepare
  prepare-Sound input options w kept =
      let R = Prepared input options.output_dir w in
      Sound-bind held
        (λ source w'.
          Same w w' × (src : Node) × (w.files input ≡ some src) × (source.1 ≡ source_state src))
        R (check_source sys input options w) _ (check_source-Sound input options w kept)
        λ source w1 kept1 (same1, src, here, state).
          let count = expected_slice_count source.1.len options.slice_size in
          let name = source.0 ++ codes ".cake.json" in
          let manifest_path = join options.output_dir name in
          let width = slice_index_width count in
          Sound-lift held R w1 kept1
            (reject_if (ltb max_slice_count count) (slice_limit count max_slice_count)) _
            λ _ _.
              Sound-lift held R w1 kept1 (in_core (validate_portable_filename sys.external name)) _
                λ _ _. Sound-ensure_absent held R w1 kept1 manifest_path _ λ w2 kept2 same2 _.
                  Sound-ensure_absent held R w2 kept2 (partial_path manifest_path) _
                    λ w3 kept3 same3 _.
                      Sound-bind held
                        (λ paths w'. Same w3 w' × All (IsInside options.output_dir) paths) R
                        (plan_paths sys options.output_dir source.0 width 1 count w3)
                        (λ paths. pure (
                          record {
                            input = input;
                            filename = source.0;
                            state = source.1;
                            slice_size = options.slice_size;
                            slice_count = count;
                            manifest_path = manifest_path;
                          },
                          paths,
                        ))
                        (plan_paths-Sound options.output_dir source.0 width 1 count w3 kept3)
                        λ paths w4 kept4 (same4, inside). (
                          kept4,
                          (
                            same4 ∙ same3 ∙ same2 ∙ same1,
                            refl,
                            src,
                            here,
                            state,
                            parent-join options.output_dir name,
                            inside,
                          ),
                        )

  -- the digest of the source
  pub baseline-Sound :
      (plan : Plan) (src : Node) (w : World)
      → Kept held w.files
      → w.files plan.input ≡ some src
      → Sound held
          (λ digest w'. Same w w' × (digest ≡ sys.sha256 src.content))
          (baseline sys plan w)
  unfolding baseline
  baseline-Sound plan src w kept here =
      let R : Text → World → Type 0 =
        (λ digest w'. Same w w' × (digest ≡ sys.sha256 src.content)) in
      Sound-Same held R w kept (ensure_source_unchanged plan.input plan.state) _
        (ensure_source_unchanged-Sound held plan.input plan.state w kept)
        λ _ w1 kept1 same1.
          Sound-bind held (λ digest w'. Same w1 w' × (digest ≡ sys.sha256 src.content)) R
            (hash_reader sys.sha256 plan.input w1) _
            (hash_reader-Sound sys.sha256 held plan.input src w1 kept1
              (same-at plan.input same1 ∙ here))
            λ digest w2 kept2 (same2, whole).
              Sound-Same held R w2 kept2 (ensure_source_unchanged plan.input plan.state) _
                (ensure_source_unchanged-Sound held plan.input plan.state w2 kept2)
                λ _ w3 kept3 same3.
                  Sound-call held R w3 kept3 plan.input (pure digest)
                    λ w4 kept4 same4. (kept4, (same4 ∙ same3 ∙ same2 ∙ same1, whole))

  pub check_streamed-Sound :
      (plan : Plan) (sha256 : Text) (cursor : Cursor) (w : World)
      → Kept held w.files
      → Sound held (λ _ w'. Same w w') (check_streamed sys plan sha256 cursor w)
  unfolding check_streamed
  check_streamed-Sound plan sha256 cursor w kept =
      let R : Unit {0} → World → Type 0 = (λ _ w'. Same w w') in
      Sound-Same held R w kept (read_at plan.input cursor.position 1) _
        (Sound-map held _ (λ _ w'. Same w w') (read_at plan.input cursor.position 1 w)
          (read_at-Sound held w kept plan.input cursor.position 1)
          λ _ _ (same, _, _, _, _, _). same)
        λ probe w1 kept1 same1.
          Sound-lift held R w1 kept1 (reject_if (not (is_empty probe)) source_changed) _ λ _ _.
            Sound-Same held R w1 kept1 (ensure_source_unchanged plan.input plan.state) _
              (ensure_source_unchanged-Sound held plan.input plan.state w1 kept1)
              λ _ w2 kept2 same2.
                Sound-last_reject held R w2 _ source_changed kept2 λ _. same2 ∙ same1
