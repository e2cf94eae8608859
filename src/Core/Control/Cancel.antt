-- ===== src/Core/Control/Cancel.antt =====
-- `cancel` of `CancellationToken`, and the checkpoints after it.
use cake_splitter.Prelude.{◌≡◌, ◌≢◌, refl, Bool, true, false, ap, ◌∙◌, arith}
use cake_splitter.Core.Control.{
  Place, outside, asking, asleep, passed, stopped, Control, advance_from, checkpoint_step,
  store_cancel, store_pause, store_resume, notify_all, woken, ◌⟶◌, work, begin, cancel, pause,
  resume, notify, wake_up, ◌⟶*◌, here, after,
}

-- from here `checkpoint` may return `Ok` without another look at `cancelled`
abbrev pub may_pass : Place → Bool
may_pass asking = true
may_pass passed = true
may_pass place = false

abbrev IsRefused : Control → Type 0
IsRefused s = (s.cancelled ≡ true) × (may_pass s.place ≡ false)

advance-IsRefused :
    (place : Place) (s : Control)
    → s.place ≡ place
    → s.cancelled ≡ true
    → may_pass place ≡ false
    → IsRefused (advance_from place s)
unfolding advance_from
advance-IsRefused outside s e c h = (c, rw e h)
advance-IsRefused asleep s e c h = (c, rw e h)
advance-IsRefused stopped s e c h = (c, rw e h)
advance-IsRefused passed s e c h = absurd (cc h)
advance-IsRefused asking s e c h = absurd (cc h)
advance-IsRefused _ s e c h = (c, ground arith)

woken_lem : (place : Place) → may_pass (woken place) ≡ may_pass place
woken_lem asleep = refl
woken_lem _ = refl

step-IsRefused : {s t : Control} → s ⟶ t → IsRefused s → IsRefused t
unfolding checkpoint_step store_cancel store_pause store_resume notify_all
step-IsRefused (work {s}) (c, h) = advance-IsRefused s.place s refl c h
step-IsRefused (begin idle) (c, h) = (c, refl)
step-IsRefused cancel (c, h) = (refl, h)
step-IsRefused pause h = h
step-IsRefused resume h = h
step-IsRefused (notify {s} some) (c, h) = (c, woken_lem s.place ∙ h)
step-IsRefused (wake_up e) (c, h) = (c, refl)

steps-IsRefused : {s t : Control} → s ⟶* t → IsRefused s → IsRefused t
steps-IsRefused here h = h
steps-IsRefused (after before next) h = step-IsRefused next (steps-IsRefused before h)

-- Once `cancelled` is stored, no `checkpoint` returns `Ok`, whatever the threads do, except one that
-- has passed its first look at the flag, or returned, by then.
pub cancelled-refuses :
    (s t : Control) → s ⟶* t → s.cancelled ≡ true → may_pass s.place ≡ false → t.place ≢ passed
cancelled-refuses s t steps c h e =
    let refused = steps-IsRefused steps (c, h) in cc (ap may_pass e, refused.1)
