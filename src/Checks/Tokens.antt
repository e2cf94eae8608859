-- ===== src/Checks/Tokens.antt =====
-- The theorems on the cancellation token at concrete runs.
use cake_splitter.Prelude.{arith, ℕ, ◌≡◌, ◌≢◌, refl, true, false}
use cake_splitter.Core.Control.{
  asleep, stopped, passed, Control, new_token, checkpoint_step, run_alone, store_cancel,
  store_pause, store_resume, notify_all, is_outside, begun, ◌⟶*◌, work, begin, pause, notify, here,
  after,
}
use cake_splitter.Core.Control.Flags.{is_held, reachable-paused}
use cake_splitter.Core.Control.Cancel.{cancelled-refuses}
use cake_splitter.Core.Control.Wake.{run_alone-returns, notify_all-wakes, resume-lost}

-- a checkpoint that finds a pause asked for, up to its call of `wait`
abbrev paused_token : Control
paused_token = run_alone 6 (begun (store_pause new_token))

paused_token_reached : new_token ⟶* paused_token
unfolding run_alone new_token store_pause
paused_token_reached =
    after
      (after
        (after (after (after (after (after (after here pause) (begin refl)) work) work) work) work)
        work)
      work

reachable-paused_example : paused_token.paused ≡ is_held paused_token.place
reachable-paused_example = reachable-paused paused_token_reached

-- the same thread asleep, the token cancelled meanwhile
abbrev cancelled_token : Control
cancelled_token = store_cancel (checkpoint_step paused_token)

cancelled_later : cancelled_token ⟶* run_alone 6 (notify_all cancelled_token)
unfolding run_alone store_cancel new_token store_pause checkpoint_step
cancelled_later =
    after
      (after (after (after (after (after (after here (notify (omega arith))) work) work) work) work)
        work)
      work

cancelled-refuses_example : (run_alone 6 (notify_all cancelled_token)).place ≢ passed
unfolding run_alone store_cancel new_token store_pause checkpoint_step
cancelled-refuses_example =
    cancelled-refuses cancelled_token (run_alone 6 (notify_all cancelled_token)) cancelled_later
      refl refl

run_alone-returns_example : is_outside (run_alone 8 (begun new_token)).place ≡ true
unfolding new_token
run_alone-returns_example = run_alone-returns (begun new_token) refl

notify_all-wakes_example :
    ((run_alone 6 (notify_all cancelled_token)).place ≡ stopped)
    × ((run_alone 6 (notify_all cancelled_token)).paused ≡ false)
unfolding run_alone store_cancel new_token store_pause checkpoint_step
notify_all-wakes_example = notify_all-wakes cancelled_token refl refl

resume-lost_example :
    let t = checkpoint_step (notify_all (store_resume paused_token)) in
    (new_token ⟶* t)
    × (t.pause_requested ≡ false)
    × (t.pending ≡ 0)
    × ((n : ℕ) → (run_alone n t).place ≡ asleep)
unfolding run_alone new_token store_pause checkpoint_step
resume-lost_example = resume-lost paused_token_reached refl
