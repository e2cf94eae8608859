-- ===== src/Runtime/Status/Graph.antt =====
-- What the transition table allows over any number of steps.
use cake_splitter.Prelude.{
  ◌≡◌, ◌≢◌, ◌↔◌, subst, refl, ◌⊎◌, inl, inr, true, sym, ap, ◌∙◌, List, [], ◌∷◌, Text, text_eq,
  if◌then◌else◌,
}
use cake_splitter.Runtime.Status.{
  TaskStatus, planned, queued, running, pausing, paused, resuming, cancelling, cancelled,
  sql_terminal, interrupted, permission_required, failed, completed, is_terminal, status_name,
  can_transition_to,
}

infixr 20 ◌▹◌
-- a run of permitted transitions
pub data Run : TaskStatus → TaskStatus → Type 0 where
  stay : {s : TaskStatus} → Run s s
  ◌▹◌ : {s t u : TaskStatus} → can_transition_to s t ≡ true → Run t u → Run s u

Run-trans : {s t u : TaskStatus} → Run s t → Run t u → Run s u
Run-trans stay r = r
Run-trans (h ▹ q) r = h ▹ Run-trans q r

leave :
    {s u : TaskStatus} (t : TaskStatus)
    → can_transition_to s t ≡ true
    → can_transition_to t u ≡ true
    → Run s u
leave t h k = h ▹ k ▹ stay

completed_stays : (s : TaskStatus) → can_transition_to completed s ≡ true → s ≡ completed
unfolding can_transition_to
completed_stays completed h = refl
completed_stays _ h = cc

planned_stays : (s : TaskStatus) → can_transition_to s planned ≡ true → s ≡ planned
unfolding can_transition_to
planned_stays planned h = refl
planned_stays _ h = cc

-- every task but a completed one can come back to the queue
to_queued : (s : TaskStatus) → s ≢ completed → Run s queued
unfolding can_transition_to
to_queued completed h = absurd (h refl)
to_queued planned h = refl ▹ stay
to_queued queued h = stay
to_queued running h = leave interrupted refl refl
to_queued pausing h = leave interrupted refl refl
to_queued paused h = leave interrupted refl refl
to_queued resuming h = leave interrupted refl refl
to_queued cancelling h = leave interrupted refl refl
to_queued _ h = refl ▹ stay

-- from the queue every status but `planned` can be reached, through `running`
from_queued : (t : TaskStatus) → t ≢ planned → Run queued t
unfolding can_transition_to
from_queued planned h = absurd (h refl)
from_queued queued h = stay
from_queued running h = refl ▹ stay
from_queued paused h = ◌▹◌ {t = running} refl (leave pausing refl refl)
from_queued resuming h = ◌▹◌ {t = running} refl (◌▹◌ {t = pausing} refl (leave paused refl refl))
from_queued cancelled h = refl ▹ stay
from_queued _ h = leave running refl refl

from_completed : {s t : TaskStatus} → Run s t → s ≡ completed → t ≡ completed
from_completed stay e = e
from_completed (◌▹◌ {t = u} h r) e =
    from_completed r (completed_stays u (subst (λ v. can_transition_to v u ≡ true) e h))

to_planned : {s t : TaskStatus} → Run s t → t ≡ planned → s ≡ planned
to_planned stay e = e
to_planned {s} (◌▹◌ {t = u} h r) e =
    planned_stays s (subst (λ v. can_transition_to s v ≡ true) (to_planned r e) h)

TaskStatus-discrete : Discrete TaskStatus
TaskStatus-discrete = hlevel

Run-ends : {s t : TaskStatus} → Run s t → (s ≡ t) ⊎ ((s ≢ completed) × (t ≢ planned))
Run-ends {s} {t} r = elim (TaskStatus-discrete s completed) [
  | yes e ↦ inl (e ∙ sym (from_completed r e))
  | no not_completed ↦ elim (TaskStatus-discrete t planned) [
    | yes e ↦ inl (to_planned r e ∙ sym e)
    | no not_planned ↦ inr (not_completed, not_planned)
  ]
]

-- One status can follow another over some run of permitted transitions exactly when they are the
-- same, or the first is not `completed` and the second is not `planned`: `completed` is final,
-- `planned` is never entered again, and every other pair is connected.
pub Run-iff : (s t : TaskStatus) → Run s t ↔ ((s ≡ t) ⊎ ((s ≢ completed) × (t ≢ planned)))
Run-iff s t = (
  Run-ends,
  λ c. elim c [
    | inl e ↦ subst (λ u. Run s u) e stay
    | inr (nc, np) ↦ Run-trans (to_queued s nc) (from_queued t np)
  ],
)

-- the first status of a list that has the name
named : List TaskStatus → Text → TaskStatus
named [] name = planned
named (s ∷ ss) name = let rest = named ss name in if text_eq (status_name s) name then s else rest

statuses : List TaskStatus
statuses =
    planned ∷ queued ∷ running ∷ pausing ∷ paused ∷ resuming ∷ cancelling ∷ cancelled ∷ interrupted
    ∷ permission_required ∷ failed ∷ completed ∷ []

named-status_name : (s : TaskStatus) → named statuses (status_name s) ≡ s
unfolding named statuses status_name
named-status_name completed = refl
named-status_name _ = refl

name_decides : (s t : TaskStatus) → (status_name s ≡ status_name t) ↔ (s ≡ t)
name_decides s t = (
  λ e. sym (named-status_name s) ∙ ap (named statuses) e ∙ named-status_name t,
  λ e. ap status_name e,
)

terminal_by_name : (s : TaskStatus) → sql_terminal (status_name s) ≡ is_terminal s
unfolding sql_terminal status_name is_terminal
terminal_by_name completed = refl
terminal_by_name _ = refl

-- The status column tells the statuses apart, and its test for terminal rows is `is_terminal`.
pub sql_terminal-status_name :
    (s t : TaskStatus)
    → (sql_terminal (status_name s) ≡ is_terminal s) × ((status_name s ≡ status_name t) ↔ (s ≡ t))
sql_terminal-status_name s t = (terminal_by_name s, name_decides s t)
