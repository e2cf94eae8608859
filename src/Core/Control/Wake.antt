-- ===== src/Core/Control/Wake.antt =====
-- The end of a pause: the wait of `checkpoint`, and the notification of `resume` and `cancel`.
use cake_splitter.Prelude.{
  ℕ, zero, suc, ◌-◌, ◌≡◌, refl, Bool, true, false, not, ◌||◌, ap, subst, ◌∙◌, sym, arith,
  if◌then◌else◌,
}
use cake_splitter.Core.Control.{
  Place, testing_cancel, waiting, asleep, passed, stopped, Control, new_token, advance_from,
  checkpoint_step, run_alone, store_resume, notify_all, woken, is_outside, work, resume, notify,
  ◌⟶*◌, after,
}

-- no pause is asked for, or the token is cancelled
abbrev pub is_released : Control → Bool
is_released s = s.cancelled || not s.pause_requested

-- the thread waits, or will without another look at `pause_requested`
abbrev pub is_at_wait : Place → Bool → Bool
is_at_wait testing_cancel cancelled = not cancelled
is_at_wait waiting cancelled = true
is_at_wait asleep cancelled = true
is_at_wait place cancelled = false

abbrev control_at : Place → Bool → Bool → Bool → ℕ → Control
control_at place cancelled pause_requested paused pending = record {
  cancelled = cancelled;
  pause_requested = pause_requested;
  paused = paused;
  place = place;
  pending = pending;
}

returns_from :
    (place : Place) (cancelled pause_requested paused : Bool) (pending : ℕ)
    → cancelled || not pause_requested ≡ true
    → is_outside (run_alone 8 (control_at place cancelled pause_requested paused pending)).place
      ≡ not (is_at_wait place cancelled)
unfolding run_alone checkpoint_step
returns_from place false true paused pending h = absurd (cc h)
returns_from waiting cancelled pause_requested paused pending h = refl
returns_from asleep cancelled pause_requested paused pending h = refl
returns_from _ true true paused pending h = refl
returns_from _ true false paused pending h = refl
returns_from _ false false paused pending h = refl

-- Once no pause is asked for any more, or the token is cancelled, the thread in `checkpoint` returns
-- within eight steps of its own exactly when it does not wait yet, and is
-- not about to wait with its last look at `pause_requested` behind it.
pub run_alone-returns :
    (s : Control)
    → is_released s ≡ true
    → is_outside (run_alone 8 s).place ≡ not (is_at_wait s.place s.cancelled)
run_alone-returns s released =
    returns_from s.place s.cancelled s.pause_requested s.paused s.pending released

wakes_from :
    (cancelled pause_requested paused : Bool) (pending : ℕ)
    → cancelled || not pause_requested ≡ true
    → let t =
        run_alone 6 (notify_all (control_at asleep cancelled pause_requested paused pending)) in
      (t.place ≡ (if cancelled then stopped else passed)) × (t.paused ≡ false)
unfolding run_alone checkpoint_step notify_all
wakes_from true true paused pending h = (refl, refl)
wakes_from true false paused pending h = (refl, refl)
wakes_from false false paused pending h = (refl, refl)
wakes_from false true paused pending h = absurd (cc h)

-- A notification that comes to a thread asleep in `checkpoint`, when no pause is asked for any more or
-- the token is cancelled, makes it return within six steps of its own, with `Err(Cancelled)` exactly
-- if the token is cancelled, and `is_paused` answers false then.
pub notify_all-wakes :
    (s : Control)
    → s.place ≡ asleep
    → is_released s ≡ true
    → ((run_alone 6 (notify_all s)).place ≡ (if s.cancelled then stopped else passed))
      × ((run_alone 6 (notify_all s)).paused ≡ false)
notify_all-wakes s e released =
    subst
      (λ place.
        let t = run_alone 6 (notify_all (record s { place = place })) in
        (t.place ≡ (if s.cancelled then stopped else passed)) × (t.paused ≡ false))
      (sym e) (wakes_from s.cancelled s.pause_requested s.paused s.pending released)

stays_asleep : (n : ℕ) (s : Control) → s.place ≡ asleep → (run_alone n s).place ≡ asleep
unfolding run_alone checkpoint_step
stays_asleep zero s e = e
stays_asleep (suc n) s e =
    ap (λ t. (run_alone n t).place) {x = checkpoint_step s} (ap (λ place. advance_from place s) e)
    ∙ stays_asleep n s e

lost_step :
    (s : Control)
    → s.place ≡ waiting
    → checkpoint_step (notify_all (store_resume s))
      ≡ control_at asleep s.cancelled false s.paused s.pending
unfolding checkpoint_step notify_all store_resume
lost_step s e =
    ap
      (λ place.
        advance_from (woken place)
          (control_at (woken place) s.cancelled false s.paused (suc s.pending - 1)))
      e
    ∙ ap (control_at asleep s.cancelled false s.paused) (omega arith)

-- If the thread in `checkpoint` has tested the flags and not yet called `wait`, then the whole of
-- `resume` may run in between, and its notification is lost: a reachable state follows in which no
-- pause is asked for, no notification is left to come but those before, and the thread sleeps and
-- never returns on its own.
pub resume-lost :
    {s : Control}
    → new_token ⟶* s
    → s.place ≡ waiting
    → let t = checkpoint_step (notify_all (store_resume s)) in
      (new_token ⟶* t)
      × (t.pause_requested ≡ false)
      × (t.pending ≡ s.pending)
      × ((n : ℕ) → (run_alone n t).place ≡ asleep)
resume-lost {s} reached e = (
  after
      (after (after reached resume)
        (notify {s = store_resume s} (unfold store_resume in omega arith)))
      work,
  ap (λ t. t.pause_requested) (lost_step s e),
  ap (λ t. t.pending) (lost_step s e),
  λ n. stays_asleep n _ (ap (λ t. t.place) (lost_step s e)),
)
