-- ===== src/Core/Publish/Final.antt =====
-- `finalize_staged_output`: the file that gets the final name.
use cake_splitter.Prelude.{
  ◌≡◌, sym, ap, ◌∙◌, Bool, true, false, not, arith, none, some, Text, text_eq→eq, length, ==_iff,
  subst, ok, [],
}
use cake_splitter.Core.Error.{FilePath, staged_identity_changed, staged_content_changed}
use cake_splitter.Core.Integrity.{Bytes}
use cake_splitter.Core.Host.{Node, Files, World, update, open_file, call, rename_no_replace}
use cake_splitter.Core.Host.Sound.{
  Held, Kept, Fresh, Sound, Sound-bind, Sound-map, Sound-ok, Same, rename_no_replace-Sound,
}
use cake_splitter.Core.Host.Rules.{
  Sound-check_cancelled, Sound-open_file, Sound-reject, Sound-last_reject,
}
use cake_splitter.Core.Stream.{hash_reader}
use cake_splitter.Core.Stream.Hashed.{hash_reader-Sound, some_injective}
use cake_splitter.Core.Publish.{
  StagedOutput, attempt, identity_eq, check_staged, finalize_staged_output,
}

-- what the staged output is known by
abbrev pub IsStaged : (Bytes → Text) → StagedOutput → Node → Type 0
IsStaged sha256 staged node =
    (identity_eq node.identity staged.identity ≡ true)
    × (length node.content ≡ staged.expected_size)
    × (sha256 node.content ≡ staged.expected_sha256)

pub not-eq-false : (b : Bool) → not b ≡ false → b ≡ true
not-eq-false b h = ground arith

pub same-at : {f g : Files} (path : FilePath) → g ≡ f → g path ≡ f path
same-at path same = ap (λ files. files path) same

pub attempt-open_file-Sound :
    (held : Held) (path : FilePath) (w : World)
    → Kept held w.files
    → Sound held (λ _ w'. Same w w') (attempt (open_file path) w)
unfolding open_file call
attempt-open_file-Sound held path w kept = ground arith

module _ (sha256 : Bytes → Text) (held : Held) where
  -- the file at a path is the staged one
  abbrev Checked : FilePath → StagedOutput → World → Unit {0} → World → Type 0
  Checked path staged w _ w' =
      Same w w' × (node : Node) × (w.files path ≡ some node) × IsStaged sha256 staged node

  check_staged-Sound :
      (path : FilePath) (staged : StagedOutput) (w : World)
      → Kept held w.files
      → Sound held (Checked path staged w) (check_staged sha256 path staged w)
  unfolding check_staged
  check_staged-Sound path staged w kept =
      Sound-open_file held (Checked path staged w) w kept path _ λ node w1 kept1 same1 here.
        Sound-reject held (Checked path staged w) w1 kept1 _ (staged_identity_changed path) _
          λ owned.
            Sound-reject held (Checked path staged w) w1 kept1 _ (staged_content_changed path) _
              λ sized.
                Sound-bind held (λ digest w2. Same w1 w2 × (digest ≡ sha256 node.content))
                  (Checked path staged w) (hash_reader sha256 path w1) _
                  (hash_reader-Sound sha256 held path node w1 kept1 (same-at path same1 ∙ here))
                  λ digest w2 kept2 (same2, whole).
                    Sound-last_reject held (Checked path staged w) w2 _
                      (staged_content_changed path) kept2
                      λ hashed. (
                        same2 ∙ same1,
                        node,
                        here,
                        (
                          not-eq-false _ owned,
                          (==_iff _ _).0 (not-eq-false _ sized),
                          sym whole ∙ text_eq→eq _ _ (not-eq-false _ hashed),
                        ),
                      )

  abbrev Renamed : StagedOutput → World → Unit {0} → World → Type 0
  Renamed staged w _ w' =
      (node : Node) × (w.files staged.partial_path ≡ some node)
      × (w.files staged.final_path ≡ none)
      × (w'.files ≡ update (update w.files staged.partial_path none) staged.final_path (some node))

  -- the rename that a success has done
  abbrev pub Published : StagedOutput → World → Unit {0} → World → Type 0
  Published staged w _ w' =
      (node : Node) × (w.files staged.partial_path ≡ some node)
      × (w.files staged.final_path ≡ none)
      × IsStaged sha256 staged node
      × (w'.files ≡ update (update w.files staged.partial_path none) staged.final_path (some node))

  pub finalize_staged_output-Sound :
      (staged : StagedOutput) (w : World)
      → Kept held w.files
      → Fresh staged.partial_path held
      → Sound held (Published staged w) (finalize_staged_output sha256 staged w)
  unfolding finalize_staged_output
  finalize_staged_output-Sound staged w kept fresh =
      Sound-check_cancelled held (Published staged w) w kept _ λ w1 kept1 same1.
        Sound-bind held (Checked staged.partial_path staged w1) (Published staged w)
          (check_staged sha256 staged.partial_path staged w1) _
          (check_staged-Sound staged.partial_path staged w1 kept1)
          λ _ w2 kept2 (same2, checked, there, is_staged).
            Sound-bind held (Renamed staged w2) (Published staged w)
              (rename_no_replace staged.partial_path staged.final_path w2) _
              (rename_no_replace-Sound held w2 kept2 staged.partial_path staged.final_path fresh)
              λ _ w3 kept3 (node, here, free, wrote).
                Sound-map held (Checked staged.final_path staged w3) (Published staged w)
                  (check_staged sha256 staged.final_path staged w3)
                  (check_staged-Sound staged.final_path staged w3 kept3)
                  λ _ w4 (same4, again, _, _).
                    let one =
                      some_injective (sym there ∙ sym (same-at staged.partial_path same2) ∙ here) in
                    (
                      node,
                      sym (same-at staged.partial_path (same2 ∙ same1)) ∙ here,
                      sym (same-at staged.final_path (same2 ∙ same1)) ∙ free,
                      subst (λ n. IsStaged sha256 staged n) one is_staged,
                      same4
                          ∙ wrote
                          ∙ ap
                              (λ files.
                                update (update files staged.partial_path none) staged.final_path
                                  (some node))
                              (same2 ∙ same1),
                    )

-- If the publication of a staged output succeeds, then its `.partial` file had the recorded identity,
-- size and digest, the final name was free, and the only change to the files is that this file moved
-- from the one name to the other.
pub finalize_staged_output_lem :
    (sha256 : Bytes → Text) (staged : StagedOutput) (w : World)
    → (finalize_staged_output sha256 staged w).0 ≡ ok tt
    → Published sha256 [] staged w tt (finalize_staged_output sha256 staged w).1
finalize_staged_output_lem sha256 staged w success =
    Sound-ok [] (Published sha256 [] staged w) (finalize_staged_output sha256 staged w) tt
      (finalize_staged_output-Sound sha256 [] staged w tt tt) success
