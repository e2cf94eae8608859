-- ===== src/Runtime/Status.antt =====
-- `TaskStatus` and `TaskPriority` of crates/cakesplitter-desktop-runtime/src/model.rs, and
-- `status_name` of store.rs.
pub mod Graph
use cake_splitter.Prelude.{
  ℕ, Bool, true, false, ◌==◌, [], ◌∷◌, Text, text_mem, codes, if◌then◌else◌,
}

pub data TaskStatus : Type 0 where
  planned queued running pausing paused resuming cancelling cancelled : TaskStatus
  interrupted permission_required failed completed : TaskStatus

unfoldable pub is_terminal : TaskStatus → Bool
is_terminal cancelled = true
is_terminal failed = true
is_terminal completed = true
is_terminal _ = false

-- the discriminant, which the derived `PartialEq` compares
unfoldable pub discriminant : TaskStatus → ℕ
discriminant planned = 0
discriminant queued = 1
discriminant running = 2
discriminant pausing = 3
discriminant paused = 4
discriminant resuming = 5
discriminant cancelling = 6
discriminant cancelled = 7
discriminant interrupted = 8
discriminant permission_required = 9
discriminant failed = 10
discriminant completed = 11

unfoldable pub status_eq : TaskStatus → TaskStatus → Bool
unfolding discriminant
status_eq s t = discriminant s == discriminant t

-- the pairs of the `matches!`
unfoldable pub is_listed : TaskStatus → TaskStatus → Bool
is_listed planned queued = true
is_listed planned cancelled = true
is_listed queued running = true
is_listed queued cancelled = true
is_listed running pausing = true
is_listed running cancelling = true
is_listed running interrupted = true
is_listed running permission_required = true
is_listed running failed = true
is_listed running completed = true
is_listed pausing paused = true
is_listed pausing cancelling = true
is_listed pausing interrupted = true
is_listed paused resuming = true
is_listed paused cancelling = true
is_listed paused interrupted = true
is_listed resuming running = true
is_listed resuming cancelling = true
is_listed resuming interrupted = true
is_listed cancelling cancelled = true
is_listed cancelling interrupted = true
is_listed cancelling failed = true
is_listed interrupted queued = true
is_listed interrupted cancelled = true
is_listed permission_required queued = true
is_listed permission_required cancelled = true
is_listed failed queued = true
is_listed failed cancelled = true
is_listed cancelled queued = true
is_listed _ _ = false

unfoldable pub status_name : TaskStatus → Text
status_name planned = codes "planned"
status_name queued = codes "queued"
status_name running = codes "running"
status_name pausing = codes "pausing"
status_name paused = codes "paused"
status_name resuming = codes "resuming"
status_name cancelling = codes "cancelling"
status_name cancelled = codes "cancelled"
status_name interrupted = codes "interrupted"
status_name permission_required = codes "permission-required"
status_name failed = codes "failed"
status_name completed = codes "completed"

unfoldable pub can_transition_to : TaskStatus → TaskStatus → Bool
unfolding is_listed status_eq
can_transition_to self next = if status_eq self next then true else is_listed self next

-- the SQL test `status IN ('cancelled', 'failed', 'completed')`
unfoldable pub sql_terminal : Text → Bool
sql_terminal name = text_mem name (codes "cancelled" ∷ codes "failed" ∷ codes "completed" ∷ [])

pub data TaskPriority : Type 0 where
  high normal low : TaskPriority

unfoldable pub rank : TaskPriority → ℕ
rank high = 0
rank normal = 1
rank low = 2
