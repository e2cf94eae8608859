-- ===== src/Core/Split/Untouched.antt =====
-- The phases of a split that change files: publication, confirmation and rollback.
use cake_splitter.Prelude.{
  ◌≡◌, refl, ◌∙◌, Bool, true, false, List, [], ◌∷◌, Option, none, some, Text, All, Result, ok, err,
}
use cake_splitter.Core.Error.{CoreError, FilePath, source_changed}
use cake_splitter.Core.Integrity.{Bytes}
use cake_splitter.Core.Host.{Node, World, M, ◌>>=◌, open_file}
use cake_splitter.Core.Host.Sound.{
  Held, Kept, Fresh, Fresh-of_absent, Sound, Sound-bind, Sound-map, Same, open_file-Sound,
  remove_file-Sound,
}
use cake_splitter.Core.Host.Rules.{Sound-last_reject}
use cake_splitter.Core.Publish.{
  StagedOutput, SourceState, or_changed, ensure_source_unchanged, attempt, remove_if, remove_owned,
  rollback_owned_published_outputs, finalize_staged_output, identity_eq,
}
use cake_splitter.Core.Publish.Final.{
  attempt-open_file-Sound, Published, finalize_staged_output-Sound,
}
use cake_splitter.Core.Split.{publish, confirm_or_rollback}

changed-Sound :
    {A : Type 0} (held : Held) (Q : A → World → Type 0) (r : Result CoreError A × World) (w : World)
    → Sound held Q r
    → Sound held Q (or_changed (λ _. r) w)
changed-Sound held Q (ok a, w1) w sound = sound
changed-Sound held Q (err e, w1) w kept = kept

opened-Sound :
    (held : Held) (path : FilePath) (w : World)
    → Kept held w.files
    → Sound held (λ node w'. Same w w' × (w.files path ≡ some node)) (or_changed (open_file path) w)
opened-Sound held path w kept =
    changed-Sound held (λ node w'. Same w w' × (w.files path ≡ some node)) (open_file path w) w
      (open_file-Sound held w kept path)

pub opened-bind :
    {B : Type 0} (held : Held) (R : B → World → Type 0) (path : FilePath) (f : Node → M B)
    (w : World)
    → Kept held w.files
    → ((node : Node) (w' : World)
        → Kept held w'.files
        → Same w w'
        → w.files path ≡ some node
        → Sound held R (f node w'))
    → Sound held R ((or_changed (open_file path) >>= f) w)
opened-bind held R path f w kept next =
    Sound-bind held (λ node w'. Same w w' × (w.files path ≡ some node)) R
      (or_changed (open_file path) w) f (opened-Sound held path w kept)
      λ node w1 kept1 (same1, here). next node w1 kept1 same1 here

pub ensure_source_unchanged-Sound :
    (held : Held) (path : FilePath) (expected : SourceState) (w : World)
    → Kept held w.files
    → Sound held (λ _ w'. Same w w') (ensure_source_unchanged path expected w)
unfolding ensure_source_unchanged
ensure_source_unchanged-Sound held path expected w kept =
    let R : Unit {0} → World → Type 0 = (λ _ w'. Same w w') in
    opened-bind held R path _ w kept λ handle w1 kept1 same1 _.
      opened-bind held R path _ w1 kept1 λ rebound w2 kept2 same2 _.
        Sound-last_reject held R w2 _ source_changed kept2 λ _. same2 ∙ same1

-- what is taken back is none of the held files
module _ (held : Held) where
  remove_if-Sound :
      (path : FilePath) (owned : Bool) (w : World)
      → Kept held w.files
      → Fresh path held
      → Sound held (λ _ _. Unit) (remove_if path owned w)
  unfolding remove_if
  remove_if-Sound path true w kept fresh = remove_file-Sound held w kept path fresh
  remove_if-Sound path false w kept fresh = (kept, tt)

  remove_owned-Sound :
      (staged : StagedOutput) (node : Option Node) (w : World)
      → Kept held w.files
      → Fresh staged.final_path held
      → Sound held (λ _ _. Unit) (remove_owned staged node w)
  unfolding remove_owned
  remove_owned-Sound staged none w kept fresh = (kept, tt)
  remove_owned-Sound staged (some node) w kept fresh =
      remove_if-Sound staged.final_path (identity_eq node.identity staged.identity) w kept fresh

  abbrev pub FreshFinal : StagedOutput → Type 0
  FreshFinal staged = Fresh staged.final_path held

  rollback-Sound :
      (published : List StagedOutput) (w : World)
      → Kept held w.files
      → All FreshFinal published
      → Sound held (λ _ _. Unit) (rollback_owned_published_outputs published w)
  unfolding rollback_owned_published_outputs
  rollback-Sound [] w kept fresh = (kept, tt)
  rollback-Sound (staged ∷ rest) w kept (fresh, others) =
      Sound-bind held (λ _ _. Unit) (λ _ _. Unit) (rollback_owned_published_outputs rest w) _
        (rollback-Sound rest w kept others)
        λ _ w1 kept1 _.
          Sound-bind held (λ _ w'. Same w1 w') (λ _ _. Unit)
            (attempt (open_file staged.final_path) w1) _
            (attempt-open_file-Sound held staged.final_path w1 kept1)
            λ node w2 kept2 _. remove_owned-Sound staged node w2 kept2 fresh

  pub confirm_or_rollback-Sound :
      (published : List StagedOutput) (r : Result CoreError (Unit {0}) × World)
      → Kept held r.1.files
      → All FreshFinal published
      → Sound held (λ _ w'. (r.0 ≡ ok tt) × (w' ≡ r.1)) (confirm_or_rollback published r)
  unfolding confirm_or_rollback
  confirm_or_rollback-Sound published (ok a, w) kept fresh = (kept, (refl, refl))
  confirm_or_rollback-Sound published (err e, w) kept fresh =
      Sound-bind held (λ _ _. Unit) _ (rollback_owned_published_outputs published w) _
        (rollback-Sound published w kept fresh) λ _ w1 kept1 _. kept1

  abbrev pub FreshPartial : StagedOutput → Type 0
  FreshPartial staged = Fresh staged.partial_path held

  pub publish-Sound :
      (sha256 : Bytes → Text) (staged : List StagedOutput) (w : World)
      → Kept held w.files
      → All FreshPartial staged
      → Sound held (λ _ _. All FreshFinal staged) (publish sha256 staged w)
  unfolding publish
  publish-Sound sha256 [] w kept fresh = (kept, tt)
  publish-Sound sha256 (staged ∷ rest) w kept (fresh, others) =
      Sound-bind held (Published sha256 held staged w) (λ _ _. All FreshFinal (staged ∷ rest))
        (finalize_staged_output sha256 staged w) _
        (finalize_staged_output-Sound sha256 held staged w kept fresh)
        λ _ w1 kept1 (node, found, free, _, wrote).
          Sound-map held (λ _ _. All FreshFinal rest) (λ _ _. All FreshFinal (staged ∷ rest))
            (publish sha256 rest w1) (publish-Sound sha256 rest w1 kept1 others)
            λ _ _ later. (Fresh-of_absent staged.final_path held w.files kept free, later)
