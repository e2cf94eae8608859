-- ===== src/Core/Control.antt =====
-- `CancellationToken` of crates/cakesplitter-core/src/lib.rs: the flags that its methods share, one
-- thread in `checkpoint`, and the others that call `cancel`, `pause` and `resume`. Each step is one
-- access to a flag, or one call of the condition variable.
pub mod Flags
pub mod Cancel
pub mod Wake
use cake_splitter.Prelude.{ℕ, zero, suc, ◌+◌, ◌-◌, ◌<◌, ◌≡◌, Bool, true, false, if◌then◌else◌}

-- where the thread stands in `checkpoint`: what it does next
pub data Place : Type 0 where
  outside : Place
  checking : Place  -- the first `is_cancelled()`
  asking : Place  -- the first `is_pause_requested()`
  marking : Place  -- `paused.store(true)`
  announcing : Place  -- `notify_all()` after it
  testing_pause : Place  -- `is_pause_requested()` of the `while`
  testing_cancel : Place  -- `!is_cancelled()` of the `while`
  waiting : Place  -- the call of `wait(guard)`
  asleep : Place  -- in that call
  unmarking : Place  -- `paused.store(false)`
  leaving : Place  -- `notify_all()` after it
  answering : Place  -- the last `is_cancelled()`
  passed : Place  -- returned `Ok(())`
  stopped : Place  -- returned `Err(CoreError::Cancelled)`

-- the flags, the thread, and how many `notify_all` calls of the other threads are still to come
pub record Control : Type 0 where
  pub cancelled : Bool
  pub pause_requested : Bool
  pub paused : Bool
  pub place : Place
  pub pending : ℕ

-- `CancellationToken::new()`
unfoldable pub new_token : Control
new_token = record {
  cancelled = false;
  pause_requested = false;
  paused = false;
  place = outside;
  pending = 0;
}

-- what `checkpoint` does next from a place
unfoldable pub advance_from : Place → Control → Control
advance_from outside s = s
advance_from checking s = record s { place = if s.cancelled then stopped else asking }
advance_from asking s = record s { place = if s.pause_requested then marking else passed }
advance_from marking s = record s { paused = true; place = announcing }
advance_from announcing s = record s { place = testing_pause }
advance_from testing_pause s = record s {
  place = if s.pause_requested then testing_cancel else unmarking;
}
advance_from testing_cancel s = record s { place = if s.cancelled then unmarking else waiting }
advance_from waiting s = record s { place = asleep }
advance_from asleep s = s
advance_from unmarking s = record s { paused = false; place = leaving }
advance_from leaving s = record s { place = answering }
advance_from answering s = record s { place = if s.cancelled then stopped else passed }
advance_from passed s = s
advance_from stopped s = s

unfoldable pub checkpoint_step : Control → Control
unfolding advance_from
checkpoint_step s = advance_from s.place s

-- the thread's steps with nothing in between
unfoldable pub run_alone : ℕ → Control → Control
unfolding checkpoint_step
run_alone zero s = s
run_alone (suc n) s = run_alone n (checkpoint_step s)

-- the store of `cancel`, of `pause` and of `resume`; the first and the last call `notify_all` later
unfoldable pub store_cancel : Control → Control
store_cancel s = record s { cancelled = true; pending = suc s.pending }

unfoldable pub store_pause : Control → Control
store_pause s = record s { pause_requested = true }

unfoldable pub store_resume : Control → Control
store_resume s = record s { pause_requested = false; pending = suc s.pending }

-- who sleeps wakes up, and tests again
abbrev pub woken : Place → Place
woken asleep = testing_pause
woken place = place

unfoldable pub notify_all : Control → Control
notify_all s = record s { place = woken s.place; pending = s.pending - 1 }

-- whether a next call of `checkpoint` may begin
abbrev pub is_outside : Place → Bool
is_outside outside = true
is_outside passed = true
is_outside stopped = true
is_outside place = false

abbrev pub begun : Control → Control
begun s = record s { place = checking }

infix 40 ◌⟶◌ ◌⟶*◌
pub data ◌⟶◌ : Control → Control → Type 0 where
  work : {s : Control} → s ⟶ checkpoint_step s
  begin : {s : Control} → is_outside s.place ≡ true → s ⟶ begun s
  cancel : {s : Control} → s ⟶ store_cancel s
  pause : {s : Control} → s ⟶ store_pause s
  resume : {s : Control} → s ⟶ store_resume s
  notify : {s : Control} → 0 < s.pending → s ⟶ notify_all s
  -- `wait` may return without a notification
  wake_up : {s : Control} → s.place ≡ asleep → s ⟶ record s { place = testing_pause }

pub data ◌⟶*◌ : Control → Control → Type 0 where
  here : {s : Control} → s ⟶* s
  after : {s t u : Control} → s ⟶* t → t ⟶ u → s ⟶* u
