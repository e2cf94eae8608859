-- ===== src/Core/Split/Staging.antt =====
-- `stage_slices`: the files that staging writes to.
use cake_splitter.Prelude.{ℕ, suc, ◌≡◌, refl, ◌∙◌, List, [], ◌∷◌, some, Text, All, map, ok_or}
use cake_splitter.Format.Manifest.{SliceEntry}
use cake_splitter.Core.Error.{FilePath, non_utf8_filename}
use cake_splitter.Core.Integrity.{Bytes, new}
use cake_splitter.Core.Path.{path_eq_refl, file_name}
use cake_splitter.Core.Host.{Node, Files, World, pure, new_node}
use cake_splitter.Core.Host.Sound.{Held, Kept, Fresh-of_absent, Sound, Sound-bind}
use cake_splitter.Core.Host.Rules.{
  Sound-lift, Sound-check_cancelled, Sound-call, Sound-open_file, Sound-create_new,
}
use cake_splitter.Core.Stream.{Cursor, copy}
use cake_splitter.Core.Stream.Copied.{Copied, copy_loop-Sound}
use cake_splitter.Core.Publish.{StagedOutput}
use cake_splitter.Core.Publish.Final.{same-at}
use cake_splitter.Core.Split.Prepare.{Plan}
use cake_splitter.Core.Split.Stage.{
  job_of, expected_size, staged_of, entry_of, stage_slice, stage_slices,
}
use cake_splitter.Core.Split.Untouched.{FreshPartial}

-- what staging leaves for the publication
abbrev pub Staged : Held → List (StagedOutput × SliceEntry) × Cursor → World → Type 0
Staged held result w = All (FreshPartial held) (map (λ s. s.0) result.0)

module _ (sha256 : Bytes → Text) (held : Held) (plan : Plan) (src : Node)
    (reads : (files : Files) → Kept held files → files plan.input ≡ some src) where
  stage_slice-Sound :
      (index : ℕ) (paths : FilePath × FilePath) (cursor : Cursor) (w : World)
      → Kept held w.files
      → Sound held
          (λ result _. FreshPartial held result.0.0)
          (stage_slice sha256 plan index paths cursor w)
  unfolding stage_slice job_of copy staged_of
  stage_slice-Sound index paths cursor w kept =
      let R : (StagedOutput × SliceEntry) × Cursor → World → Type 0 =
        (λ result _. FreshPartial held result.0.0) in
      let job = job_of plan index paths.0 in
      let size = expected_size plan cursor in
      let begin = record cursor { slice_hasher = new } in
      Sound-check_cancelled held R w kept _ λ w1 kept1 same1.
        Sound-create_new held R w1 kept1 paths.0 _ λ w2 n kept2 free made.
          let fresh = Fresh-of_absent paths.0 held w1.files kept1 free in
          Sound-bind held (Copied job src (new_node n) size begin) R (copy job size begin w2) _
            (copy_loop-Sound held job src reads fresh size size begin (new_node n) w2 kept2
              (same-at paths.0 made ∙ rw (path_eq_refl paths.0) refl))
            λ after w3 kept3 _. Sound-call held R w3 kept3 paths.0 _ λ w4 kept4 _.
              Sound-call held R w4 kept4 paths.0 _ λ w5 kept5 _.
                Sound-open_file held R w5 kept5 paths.0 _ λ node w6 kept6 _ _.
                  Sound-lift held R w6 kept6 (ok_or (file_name paths.1) non_utf8_filename)
                    (λ filename. pure (
                      (
                        staged_of sha256 plan paths cursor after node,
                        entry_of sha256 plan index filename cursor after,
                      ),
                      after,
                    ))
                    λ filename _. (kept6, fresh)

  pub stage_slices-Sound :
      (index : ℕ) (paths : List (FilePath × FilePath)) (cursor : Cursor) (w : World)
      → Kept held w.files
      → Sound held (Staged held) (stage_slices sha256 plan index paths cursor w)
  unfolding stage_slices
  stage_slices-Sound index [] cursor w kept = (kept, tt)
  stage_slices-Sound index (first ∷ rest) cursor w kept =
      Sound-bind held (λ result _. FreshPartial held result.0.0) (Staged held)
        (stage_slice sha256 plan index first cursor w) _
        (stage_slice-Sound index first cursor w kept)
        λ staged w1 kept1 fresh.
          Sound-bind held (Staged held) (Staged held)
            (stage_slices sha256 plan (suc index) rest staged.1 w1) _
            (stage_slices-Sound (suc index) rest staged.1 w1 kept1)
            λ later w2 kept2 others. (kept2, (fresh, others))
