-- ===== src/Core/Host.antt =====
-- What crates/cakesplitter-core/src/lib.rs uses of `std::fs` and of its cancellation token: a file
-- system, and a tape of what happens at each call. Other processes leave the files alone.
pub mod Sound
pub mod Rules
use cake_splitter.Prelude.{
  ℕ, suc, ◌+◌, ◌-◌, min, max, Bool, true, false, List, [], ◌∷◌, ◌++◌, Option, none, some, Text,
  codes, text_eq, take, drop, length, Result, ok, err, if◌then◌else◌,
}
use cake_splitter.Core.Binding.{NativeFileIdentity}
use cake_splitter.Core.Error.{
  CoreError, FilePath, IoError, io, cancelled, collision, atomic_finalization_unsupported,
}
use cake_splitter.Core.Integrity.{Bytes}
use cake_splitter.Core.Path.{path_eq}

-- a file: its identity, its times as one number, its content
pub record Node : Type 0 where
  pub identity : NativeFileIdentity
  pub times : ℕ
  pub is_regular : Bool
  pub content : Bytes

abbrev pub Files : Type 0
Files = FilePath → Option Node

abbrev pub update : Files → FilePath → Option Node → Files
update files p node q = if path_eq p q then node else files q

-- what the system decides at one call: whether the token is cancelled, whether the call fails, and
-- how many bytes a read gives at most or a failing write has written
pub record Event : Type 0 where
  pub is_cancelled : Bool
  pub failure : Option IoError
  pub amount : ℕ

pub record Progress : Type 0 where
  pub operation : Text
  pub bytes_processed : ℕ
  pub total_bytes : ℕ
  pub current_slice : ℕ
  pub slice_count : ℕ

pub record World : Type 0 where
  pub files : Files
  pub reports : List Progress  -- what the progress callback was given
  pub next_file : ℕ  -- the number of the next new file
  pub tape : List Event

abbrev pub default_buffer_size : ℕ
default_buffer_size = 1_048_576

-- past the end of the tape all calls succeed
abbrev pub calm : Event
calm = record { is_cancelled = false; failure = none; amount = default_buffer_size }

-- a call returns, and leaves the world changed also when it fails
abbrev pub M : Type 0 → Type 0
M A = World → Result CoreError A × World

abbrev pub pure : {A : Type 0} → A → M A
pure a w = (ok a, w)

abbrev pub fail : {A : Type 0} → CoreError → M A
fail e w = (err e, w)

abbrev pub and_then :
    {A B : Type 0} → Result CoreError A × World → (A → M B) → Result CoreError B × World
and_then (ok a, w) f = f a w
and_then (err e, w) f = (err e, w)

infixl 5 ◌>>=◌ ◌>>◌
abbrev pub ◌>>=◌ : {A B : Type 0} → M A → (A → M B) → M B
◌>>=◌ m f w = and_then (m w) f

abbrev pub ◌>>◌ : {B : Type 0} → M (Unit {0}) → M B → M B
m >> k = m >>= λ _. k

-- `on_progress(progress)`
abbrev pub report : Progress → M (Unit {0})
report progress w = (ok tt, record w { reports = w.reports ++ progress ∷ [] })

-- a step that uses no file
abbrev pub lift : {A : Type 0} → Result CoreError A → M A
lift r w = (r, w)

abbrev pub head_event : List Event → Event
head_event [] = calm
head_event (e ∷ es) = e

abbrev rest_events : List Event → List Event
rest_events [] = []
rest_events (e ∷ es) = es

unfoldable pub next_event : M Event
next_event w = (ok (head_event w.tape), record w { tape = rest_events w.tape })

abbrev failed : FilePath → Option IoError → Result CoreError (Unit {0})
failed path none = ok tt
failed path (some e) = err (io path e)

-- `check_cancelled`; waiting while the token is paused changes nothing
unfoldable pub check_cancelled : M (Unit {0})
unfolding next_event
check_cancelled = do e ← next_event; lift (if e.is_cancelled then err cancelled else ok tt)

-- a call at a path that only succeeds or fails: `flush`, `sync_all`, `seek`, `create_dir_all`
unfoldable pub call : FilePath → M (Unit {0})
unfolding next_event
call path = do e ← next_event; lift (failed path e.failure)

abbrev not_found : IoError
not_found = codes "No such file or directory"

abbrev found : FilePath → Option Node → Result CoreError Node
found path none = err (io path not_found)
found path (some node) = ok node

-- `File::open`, `metadata` and `file_identity`, as far as they tell of the file
unfoldable pub open_file : FilePath → M Node
unfolding call
open_file path = do call path; (λ w. (found path (w.files path), w))

abbrev absent : FilePath → Option Node → Result CoreError (Unit {0})
absent path none = ok tt
absent path (some node) = err (collision path)

unfoldable pub ensure_absent : FilePath → M (Unit {0})
unfolding call
ensure_absent path = do call path; (λ w. (absent path (w.files path), w))

-- the identity of a new file, on a volume of its own
abbrev pub new_node : ℕ → Node
new_node n = record {
  identity = record { volume = 0; file = n };
  times = n;
  is_regular = true;
  content = [];
}

abbrev created : FilePath → World → World
created path w = record w {
  files = update w.files path (some (new_node w.next_file));
  next_file = suc w.next_file;
}

-- the texts of `ErrorKind::AlreadyExists` and `ErrorKind::Unsupported`
already_exists : IoError → Bool
already_exists e = text_eq e (codes "entity already exists")

is_unsupported : IoError → Bool
is_unsupported e = text_eq e (codes "unsupported")

abbrev create_failed : FilePath → Option IoError → Result CoreError (Unit {0})
create_failed path none = ok tt
create_failed path (some e) = err (if already_exists e then collision path else io path e)

unfoldable pub create_new : FilePath → M (Unit {0})
unfolding next_event already_exists
create_new path = do
  e ← next_event
  lift (create_failed path e.failure)
  (λ w. (absent path (w.files path), w))
  (λ w. (ok tt, created path w))

abbrev appended : FilePath → Bytes → World → Node → World
appended path bytes w node = record w {
  files = update w.files path (some (record node { content = node.content ++ bytes }));
}

-- a write at the end; a write that fails has written a part
write_to : FilePath → Bytes → Event → World → Option Node → Result CoreError (Unit {0}) × World
write_to path bytes e w none = (err (io path not_found), w)
write_to path bytes e w (some node) = elim e.failure [
  | none ↦ (ok tt, appended path bytes w node)
  | some failure ↦ (err (io path failure), appended path (take e.amount bytes) w node)
]

unfoldable pub write_all : FilePath → Bytes → M (Unit {0})
unfolding next_event write_to
write_all path bytes = do e ← next_event; (λ w. write_to path bytes e w (w.files path))

-- the bytes of one `read` at a position, at least one of those that are left
unfoldable pub read_at : FilePath → ℕ → ℕ → M Bytes
unfolding next_event
read_at path position limit = do
  e ← next_event
  lift (failed path e.failure)
  (λ w. (
    elim (w.files path) [
      | none ↦ err (io path not_found)
      | some node ↦ ok (take (min limit (max 1 e.amount)) (drop position node.content))
    ],
    w,
  ))

rename_to :
    FilePath → FilePath → World → Option Node → Option Node → Result CoreError (Unit {0}) × World
rename_to from to w none target = (err (io to not_found), w)
rename_to from to w (some node) (some other) = (err (collision to), w)
rename_to from to w (some node) none =
    (ok tt, record w { files = update (update w.files from none) to (some node) })

-- `atomic_rename_no_replace`, with its errors as `finalize_staged_output` maps them
abbrev rename_failed : FilePath → Option IoError → Result CoreError (Unit {0})
rename_failed to none = ok tt
rename_failed to (some e) = err (
    if already_exists e
    then collision to
    else if is_unsupported e
    then atomic_finalization_unsupported to
    else io to e)

unfoldable pub rename_no_replace : FilePath → FilePath → M (Unit {0})
unfolding next_event rename_to already_exists is_unsupported
rename_no_replace from to = do
  e ← next_event
  lift (rename_failed to e.failure)
  (λ w. rename_to from to w (w.files from) (w.files to))

without_file : FilePath → World → Option IoError → World
without_file path w none = record w { files = update w.files path none }
without_file path w (some failure) = w

-- `let _ = fs::remove_file(path)`
unfoldable pub remove_file : FilePath → M (Unit {0})
unfolding next_event without_file
remove_file path = do e ← next_event; (λ w. (ok tt, without_file path w e.failure))
