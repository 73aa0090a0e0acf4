-- ===== src/Response/Duties/Closing.antt =====
-- When an event closes, and what a closed event refuses.
use flood_agent.Base.{
  ℕ, ◌≡◌, refl, inl, inr, Bool-cases, Option-cases, length, arith, Bool, true, false, not, ◌&&◌,
  some, none, Option, List, [], ◌∷◌, Ident, all, is_empty,
}
use flood_agent.Response.Enums.{OperatorRole}
use flood_agent.Response.Transitions.{is_terminal}
use flood_agent.Response.Task.{ResponseTask}
use flood_agent.Response.Requests.{
  TaskActionRequest, TaskUpdateRequest, TaskAssignmentRequest, ApprovalRequest, FeedbackRequest,
}
use flood_agent.Response.Records.{ResponseEvent}
use flood_agent.Response.Store.{Env, Store, find_task, find_event, put_event, list_tasks}
use flood_agent.Response.Exec.{ok, err, Result, pure, continue, ◌>>=◌}
use flood_agent.Response.Guards.{get_task, get_event, is_closed, approval_roles, transition}
use flood_agent.Response.Drafting.{update_task, submit_task}
use flood_agent.Response.Approval.{decide_task}
use flood_agent.Response.Execution.{acknowledge_task, start_task, assign_task}
use flood_agent.Response.Feedback.{submit_feedback}
use flood_agent.Response.Review.{review_roles, generate_review_draft}
use flood_agent.Response.Sweep.{finish_closing, close_event}
use flood_agent.Response.Timeline.{record_entry}

abbrev pub returns : {A : Type 0} → Result A → Bool
returns (ok a) = true
returns (err e) = false

abbrev pub is_open : Option ResponseEvent → Bool
is_open none = false
is_open (some e) = not (is_closed e.status)

find_event-key :
    (k : Ident) (es : List ResponseEvent) {e : ResponseEvent}
    → find_event k es ≡ some e
    → e.event_id ≡ k
find_event-key k [] h = ground arith
find_event-key k (x ∷ es) {e} h = ground (arith, find_event-key k es {e = e})

find_event-put_event :
    (k : Ident) (u : ResponseEvent) (es : List ResponseEvent)
    → u.event_id ≡ k
    → find_event k (put_event u es) ≡ some u
find_event-put_event k u [] h = ground arith
find_event-put_event k u (x ∷ es) h = ground (arith, find_event-put_event k u es)

-- The event that closing stores is the one that the review draft looks up.
review_returns :
    (env : Env) (k : Ident) (r : TaskActionRequest) (s : Store) (u : ResponseEvent)
    (es : List ResponseEvent)
    → u.event_id ≡ k
    → s.events ≡ put_event u es
    → review_roles r.operator_role ≡ true
    → returns (generate_review_draft env k r s).0 ≡ true
unfolding generate_review_draft ◌>>=◌ get_event record_entry
review_returns env k r s u es key stored granted = ground (arith, find_event-put_event k u es key)

approval-review : (o : OperatorRole) → approval_roles o ≡ true → review_roles o ≡ true
unfolding approval_roles review_roles
approval-review o h = ground arith

then_pure :
    {A B : Type 0} (a : Result A) (b : B) (s : Store)
    → returns a ≡ true
    → returns (continue a (λ _. pure b) s).0 ≡ true
unfolding ◌>>=◌
then_pure (ok a) b s h = refl
then_pure (err e) b s h = absurd (ground arith)

finish_returns :
    (env : Env) (k : Ident) (r : TaskActionRequest) (s : Store) (old : ResponseEvent) (n : ℕ)
    → old.event_id ≡ k
    → approval_roles r.operator_role ≡ true
    → returns (finish_closing env k r old n s).0 ≡ true
unfolding finish_closing ◌>>=◌ record_entry
finish_returns env k r s old n key granted =
    then_pure _ _ _
      (review_returns env k _ _ _ s.events key refl (approval-review r.operator_role granted))

-- Closing an event returns exactly when the role may approve, the event is there and open, it has
-- tasks, and all of them are terminal; otherwise it raises.
pub close_event-returns_iff :
    (env : Env) (k : Ident) (r : TaskActionRequest) (s : Store)
    → returns (close_event env k r s).0 ≡ (
        approval_roles r.operator_role
        && is_open (find_event k s.events)
        && not (is_empty (list_tasks k s.tasks))
        && all (λ t. is_terminal t.status) (list_tasks k s.tasks))
unfolding close_event ◌>>=◌ get_event
close_event-returns_iff env k r s = elim (Option-cases (find_event k s.events)) [
  | inl e ↦ ground arith
  | inr (old, e) ↦ elim (Bool-cases (approval_roles r.operator_role)) [
    | inr refused ↦ rw refused refl
    | inl granted ↦ elim (Bool-cases (is_closed old.status)) [
      | inl over ↦ rw (granted, e, over) refl
      | inr going ↦ elim (Bool-cases (is_empty (list_tasks k s.tasks))) [
        | inl idle ↦ rw (granted, e, going, idle) refl
        | inr tasked ↦ elim (Bool-cases (all (λ t. is_terminal t.status) (list_tasks k s.tasks))) [
          | inr unfinished ↦ rw (granted, e, going, tasked, unfinished) refl
          | inl ended ↦
              rw (granted, e, going, tasked, ended)
                (finish_returns env k r s old (length (list_tasks k s.tasks))
                  (find_event-key k s.events e) granted)
        ]
      ]
    ]
  ]
]

module _ (env : Env) (k : Ident) (s : Store) (t : ResponseTask) (e : ResponseEvent)
    (stored : find_task k s.tasks ≡ some t) (found : find_event t.event_id s.events ≡ some e)
    (over : is_closed e.status ≡ true) where
  update_refused : (r : TaskUpdateRequest) → returns (update_task env k r s).0 ≡ false
  unfolding update_task ◌>>=◌ get_task get_event
  update_refused r = ground arith

  submit_refused : (r : TaskActionRequest) → returns (submit_task env k r s).0 ≡ false
  unfolding submit_task ◌>>=◌ get_task get_event
  submit_refused r = ground arith

  decide_refused : (r : ApprovalRequest) → returns (decide_task env k r s).0 ≡ false
  unfolding decide_task ◌>>=◌ get_task get_event
  decide_refused r = ground arith

  acknowledge_refused : (r : TaskActionRequest) → returns (acknowledge_task env k r s).0 ≡ false
  unfolding acknowledge_task transition ◌>>=◌ get_task get_event
  acknowledge_refused r = ground arith

  start_refused : (r : TaskActionRequest) → returns (start_task env k r s).0 ≡ false
  unfolding start_task transition ◌>>=◌ get_task get_event
  start_refused r = ground arith

  assign_refused : (r : TaskAssignmentRequest) → returns (assign_task env k r s).0 ≡ false
  unfolding assign_task ◌>>=◌ get_task get_event
  assign_refused r = ground arith

  feedback_refused : (r : FeedbackRequest) → returns (submit_feedback env k r s).0 ≡ false
  unfolding submit_feedback ◌>>=◌ get_task get_event
  feedback_refused r = ground arith

-- On a task of a closed event, updating, submitting, deciding, acknowledging, starting, assigning
-- and sending in feedback all raise.
pub closed_event-refuses :
    (env : Env) (k : Ident) (s : Store) (t : ResponseTask) (e : ResponseEvent)
    (edit : TaskUpdateRequest) (act : TaskActionRequest) (decision : ApprovalRequest)
    (assignment : TaskAssignmentRequest) (feedback : FeedbackRequest)
    → find_task k s.tasks ≡ some t
    → find_event t.event_id s.events ≡ some e
    → is_closed e.status ≡ true
    → (returns (update_task env k edit s).0 ≡ false)
      × (returns (submit_task env k act s).0 ≡ false)
      × (returns (decide_task env k decision s).0 ≡ false)
      × (returns (acknowledge_task env k act s).0 ≡ false)
      × (returns (start_task env k act s).0 ≡ false)
      × (returns (assign_task env k assignment s).0 ≡ false)
      × (returns (submit_feedback env k feedback s).0 ≡ false)
closed_event-refuses env k s t e edit act decision assignment feedback stored found over = (
  update_refused env k s t e stored found over edit,
  submit_refused env k s t e stored found over act,
  decide_refused env k s t e stored found over decision,
  acknowledge_refused env k s t e stored found over act,
  start_refused env k s t e stored found over act,
  assign_refused env k s t e stored found over assignment,
  feedback_refused env k s t e stored found over feedback,
)
