-- ===== src/Core/Publish.antt =====
-- Staged outputs of crates/cakesplitter-core/src/lib.rs: how a finished `.partial` file gets its
-- final name, how published files are taken back, and how a changed source is noticed. A file's
-- handle is its path, since only the program changes files.
pub mod Final
use cake_splitter.Prelude.{
  ℕ, Bool, true, false, not, ◌&&◌, ◌||◌, List, [], ◌∷◌, Option, none, some, Text, text_eq, length,
  ◌==◌, Result, ok, err, reject_if,
}
use cake_splitter.Core.Binding.{NativeFileIdentity}
use cake_splitter.Core.Error.{
  CoreError, FilePath, source_changed, staged_identity_changed, staged_content_changed,
}
use cake_splitter.Core.Integrity.{Bytes}
use cake_splitter.Core.Host.{
  Node, World, M, pure, and_then, ◌>>=◌, ◌>>◌, lift, check_cancelled, open_file, rename_no_replace,
  remove_file,
}
use cake_splitter.Core.Stream.{hash_reader}

pub record StagedOutput : Type 0 where
  pub partial_path : FilePath
  pub final_path : FilePath
  pub identity : NativeFileIdentity
  pub expected_size : ℕ
  pub expected_sha256 : Text

unfoldable pub identity_eq : NativeFileIdentity → NativeFileIdentity → Bool
identity_eq a b = a.volume == b.volume && a.file == b.file

pub record SourceState : Type 0 where
  pub identity : NativeFileIdentity
  pub len : ℕ
  pub times : ℕ  -- `modified` and `ctime`

unfoldable pub source_state : Node → SourceState
source_state node = record {
  identity = node.identity;
  len = length node.content;
  times = node.times;
}

unfoldable pub state_eq : SourceState → SourceState → Bool
unfolding identity_eq
state_eq a b = identity_eq a.identity b.identity && a.len == b.len && a.times == b.times

-- `.map_err(|_| CoreError::SourceChanged)`
abbrev changed : {A : Type 0} → Result CoreError A × World → Result CoreError A × World
changed (ok a, w) = (ok a, w)
changed (err e, w) = (err source_changed, w)

abbrev pub or_changed : {A : Type 0} → M A → M A
or_changed m w = changed (m w)

unfoldable pub ensure_source_unchanged : FilePath → SourceState → M (Unit {0})
unfolding source_state state_eq
ensure_source_unchanged path expected = do
  handle ← or_changed (open_file path)
  rebound ← or_changed (open_file path)
  lift (
      reject_if
        (not (state_eq (source_state handle) expected)
          || not (state_eq (source_state rebound) expected))
        source_changed)

-- `let Ok(a) = ... else`
abbrev attempted : {A : Type 0} → Result CoreError A × World → Result CoreError (Option A) × World
attempted (ok a, w) = (ok (some a), w)
attempted (err e, w) = (ok none, w)

abbrev pub attempt : {A : Type 0} → M A → M (Option A)
attempt m w = attempted (m w)

-- `if owned { let _ = fs::remove_file(..); }`
unfoldable pub remove_if : FilePath → Bool → M (Unit {0})
remove_if path true = remove_file path
remove_if path false = pure tt

unfoldable pub remove_owned : StagedOutput → Option Node → M (Unit {0})
unfolding remove_if identity_eq
remove_owned staged none = pure tt
remove_owned staged (some node) =
    remove_if staged.final_path (identity_eq node.identity staged.identity)

-- the outputs in the order of publication; the last is taken back first
unfoldable pub rollback_owned_published_outputs : List StagedOutput → M (Unit {0})
unfolding remove_owned
rollback_owned_published_outputs [] = pure tt
rollback_owned_published_outputs (staged ∷ rest) = do
  rollback_owned_published_outputs rest
  node ← attempt (open_file staged.final_path)
  remove_owned staged node

module _ (sha256 : Bytes → Text) where
  -- the test before the rename and the same test after it
  unfoldable pub check_staged : FilePath → StagedOutput → M (Unit {0})
  unfolding identity_eq
  check_staged path staged = do
    node ← open_file path
    lift
        (reject_if (not (identity_eq node.identity staged.identity)) (staged_identity_changed path))
    lift (
        reject_if (not (length node.content == staged.expected_size)) (staged_content_changed path))
    digest ← hash_reader sha256 path
    lift (reject_if (not (text_eq digest staged.expected_sha256)) (staged_content_changed path))

  unfoldable pub finalize_staged_output : StagedOutput → M (Unit {0})
  unfolding check_staged
  finalize_staged_output staged = do
    check_cancelled
    check_staged staged.partial_path staged
    rename_no_replace staged.partial_path staged.final_path
    check_staged staged.final_path staged
