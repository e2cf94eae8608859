-- ===== src/Core/Control/Flags.antt =====
-- The flag `paused` of `CancellationToken`.
use cake_splitter.Prelude.{◌≡◌, refl, Bool, true, false, ap, ◌∙◌, sym, arith}
use cake_splitter.Core.Control.{
  Place, outside, announcing, testing_pause, testing_cancel, waiting, asleep, unmarking, passed,
  stopped, Control, new_token, advance_from, checkpoint_step, store_cancel, store_pause,
  store_resume, notify_all, woken, is_outside, ◌⟶◌, work, begin, cancel, pause, resume, notify,
  wake_up, ◌⟶*◌, here, after,
}

-- between the two stores of the flag
abbrev pub is_held : Place → Bool
is_held announcing = true
is_held testing_pause = true
is_held testing_cancel = true
is_held waiting = true
is_held asleep = true
is_held unmarking = true
is_held place = false

abbrev IsMarked : Control → Type 0
IsMarked s = s.paused ≡ is_held s.place

advance-IsMarked :
    (place : Place) (s : Control)
    → s.place ≡ place
    → s.paused ≡ is_held place
    → IsMarked (advance_from place s)
unfolding advance_from
advance-IsMarked outside s e h = rw e h
advance-IsMarked asleep s e h = rw e h
advance-IsMarked passed s e h = rw e h
advance-IsMarked stopped s e h = rw e h
advance-IsMarked _ s e h = ground arith

woken_lem : (place : Place) → is_held (woken place) ≡ is_held place
woken_lem asleep = refl
woken_lem _ = refl

outside_lem : (place : Place) → is_outside place ≡ true → is_held place ≡ false
outside_lem outside h = refl
outside_lem passed h = refl
outside_lem stopped h = refl
outside_lem _ h = absurd (cc h)

step-IsMarked : {s t : Control} → s ⟶ t → IsMarked s → IsMarked t
unfolding checkpoint_step store_cancel store_pause store_resume notify_all
step-IsMarked (work {s}) h = advance-IsMarked s.place s refl h
step-IsMarked (begin {s} idle) h = h ∙ outside_lem s.place idle
step-IsMarked cancel h = h
step-IsMarked pause h = h
step-IsMarked resume h = h
step-IsMarked (notify {s} some) h = h ∙ sym (woken_lem s.place)
step-IsMarked (wake_up {s} e) h = h ∙ ap is_held e

-- Whatever the threads do, `is_paused` answers true exactly while the thread in `checkpoint` stands
-- between its two stores of the flag, its wait among them.
pub reachable-paused : {s : Control} → new_token ⟶* s → s.paused ≡ is_held s.place
unfolding new_token
reachable-paused here = refl
reachable-paused (after before next) = step-IsMarked next (reachable-paused before)
