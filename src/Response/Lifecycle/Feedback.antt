-- ===== src/Response/Lifecycle/Feedback.antt =====
-- Feedback and deadline extensions are steps of the life of a task.
use flood_agent.Response.Exec.{◌>>=◌}
use flood_agent.Response.Guards.{get_event, get_task, save_escalation_of}
use flood_agent.Response.Feedback.{finish_feedback}
use flood_agent.Response.Feedback.{store_feedback}
use flood_agent.Base.{
  ◌≡◌, ◌⊎◌, inl, inr, refl, Bool, true, false, Option, some, none, arith, Ident, Text, Option-cases,
  ◌∙◌,
}
use flood_agent.Response.Enums.{
  TaskStatus, pending_verification, partially_completed, FeedbackCategory,
}
use flood_agent.Response.Task.{ResponseTask}
use flood_agent.Response.Requests.{
  FeedbackRequest, DeadlineExtensionRequest, DeadlineExtensionDecisionRequest,
}
use flood_agent.Response.Records.{TaskFeedback, DeadlineExtensionRecord}
use flood_agent.Response.Store.{fdb, Env, Store, find_task, find_extension}
use flood_agent.Response.Feedback.{
  submit_feedback, take_feedback, accept_feedback, apply_feedback, merge_duplicate,
  classify_feedback,
}
use flood_agent.Response.Feedback.{feedback_dedupe_key, duplicate_of, escalation_text}
use flood_agent.Response.Store.{list_feedback}
use flood_agent.Response.Extensions.{
  request_deadline_extension, decide_deadline_extension, settle_extension, extended_task,
}
use flood_agent.Response.Timeline.{task_event}
use flood_agent.Response.Lifecycle.{
  Effect, untouched, Effect-of_task, Outcome, Outcome-of_progress, amended,
}

merge_duplicate_same :
    (env : Env) (r : FeedbackRequest) (t : ResponseTask) (f : TaskFeedback) (key : Ident)
    (s : Store)
    → (merge_duplicate env t r f key s).1.tasks ≡ s.tasks
unfolding merge_duplicate ◌>>=◌ task_event
merge_duplicate_same env r t f key s = refl

-- Either the checks fail, or the feedback is saved and the branches follow.
accept_feedback_cases :
    (env : Env) (r : FeedbackRequest) (t : ResponseTask) (c : FeedbackCategory) (key : Ident)
    (s : Store)
    → ((accept_feedback env t r c key s).1.tasks ≡ s.tasks)
      ⊎ ((accept_feedback env t r c key s).1.tasks ≡ (store_feedback env t r c key s).1.tasks)
unfolding accept_feedback ◌>>=◌
accept_feedback_cases env r t c key s = ground arith

module _ (env : Env) (r : FeedbackRequest) (t : ResponseTask) where
  apply_feedback-Outcome :
      (fid : Ident) (c : FeedbackCategory) (reason : Option Text) (s : Store)
      → Outcome env s (apply_feedback env t r fid c reason s).1 t
  unfolding apply_feedback ◌>>=◌ finish_feedback save_escalation_of task_event
  apply_feedback-Outcome fid c (some x) s =
      Outcome-of_progress env s (apply_feedback env t r fid c (some x) s).1 t TaskStatus.blocked
        (env.clock s.ticks) refl (ground arith)
  apply_feedback-Outcome fid FeedbackCategory.completion none s =
      Outcome-of_progress env s (apply_feedback env t r fid FeedbackCategory.completion none s).1 t
        pending_verification (env.clock s.ticks) refl (ground arith)
  apply_feedback-Outcome fid FeedbackCategory.partial_completion none s =
      Outcome-of_progress env s
        (apply_feedback env t r fid FeedbackCategory.partial_completion none s).1 t
        partially_completed (env.clock s.ticks) refl (ground arith)
  apply_feedback-Outcome fid _ none s = inr (
    t,
    amended (record { task_id = refl; event_id = refl; object_id = refl }) refl (refl, refl, refl),
    refl,
  )

  store_feedback-Outcome :
      (c : FeedbackCategory) (key : Ident) (s : Store)
      → Outcome env s (store_feedback env t r c key s).1 t
  unfolding store_feedback ◌>>=◌
  store_feedback-Outcome c key s =
      apply_feedback-Outcome (env.uuid fdb s.minted) c (escalation_text c r) _

  accept_feedback-Outcome :
      (c : FeedbackCategory) (key : Ident) (s : Store)
      → Outcome env s (accept_feedback env t r c key s).1 t
  accept_feedback-Outcome c key s = elim (accept_feedback_cases env r t c key s) [
    | inl same ↦ inl same
    | inr ends ↦ elim (store_feedback-Outcome c key s) [
      | inl kept ↦ inl (ends ∙ kept)
      | inr (u, step, write) ↦ inr (u, step, ends ∙ write)
    ]
  ]

  take_feedback-Outcome :
      (key : Ident) (earlier : Option TaskFeedback) (s : Store)
      → Outcome env s (take_feedback env t r key earlier s).1 t
  unfolding take_feedback
  take_feedback-Outcome key none s = accept_feedback-Outcome (classify_feedback r) key s
  take_feedback-Outcome key (some f) s = inl (merge_duplicate_same env r t f key s)

module _ (env : Env) (k : Ident) (r : FeedbackRequest) (s : Store) where
  -- Either the checks fail, or the feedback is taken on the store as it was.
  submit_feedback_cases :
      (t : ResponseTask)
      → find_task k s.tasks ≡ some t
      → let key = feedback_dedupe_key env r in
        let earlier = duplicate_of key (list_feedback k s.feedback) in
        ((submit_feedback env k r s).1.tasks ≡ s.tasks)
        ⊎ ((submit_feedback env k r s).1.tasks ≡ (take_feedback env t r key earlier s).1.tasks)
  unfolding submit_feedback ◌>>=◌ get_event get_task
  submit_feedback_cases t e = ground arith

  submit_feedback_missing :
      find_task k s.tasks ≡ none → (submit_feedback env k r s).1.tasks ≡ s.tasks
  unfolding submit_feedback ◌>>=◌ get_event get_task
  submit_feedback_missing e = ground arith

  pub submit_feedback-Effect : Effect env s (submit_feedback env k r s).1
  submit_feedback-Effect =
      Effect-of_task env k s (submit_feedback env k r s).1 submit_feedback_missing λ t e.
        elim (submit_feedback_cases t e) [
          | inl same ↦ inl same
          | inr ends ↦
              elim (take_feedback-Outcome env r t (feedback_dedupe_key env r)
                (duplicate_of (feedback_dedupe_key env r) (list_feedback k s.feedback)) s) [
                  | inl kept ↦ inl (ends ∙ kept)
                  | inr (u, step, write) ↦ inr (u, step, ends ∙ write)
                ]
        ]

module _ (env : Env) (k : Ident) (r : DeadlineExtensionRequest) (s : Store) where
  request_deadline_extension_same : (request_deadline_extension env k r s).1.tasks ≡ s.tasks
  unfolding request_deadline_extension ◌>>=◌ get_task task_event
  request_deadline_extension_same = ground arith

  pub request_deadline_extension-Effect : Effect env s (request_deadline_extension env k r s).1
  request_deadline_extension-Effect = untouched request_deadline_extension_same

module _ (env : Env) (k : Ident) (r : DeadlineExtensionDecisionRequest) (s : Store) where
  settle_extension-Outcome :
      (t : ResponseTask) (a : DeadlineExtensionRecord) (b : Bool)
      → Outcome env s (settle_extension env t a r b s).1 t
  unfolding settle_extension ◌>>=◌ task_event
  settle_extension-Outcome t a true = inr (
    extended_task t a (env.clock s.ticks),
    amended (record { task_id = refl; event_id = refl; object_id = refl }) refl (refl, refl, refl),
    refl,
  )
  settle_extension-Outcome t a false = inl refl

  decide_deadline_extension_unknown :
      find_extension k s.extensions ≡ none → (decide_deadline_extension env k r s).1.tasks ≡ s.tasks
  unfolding decide_deadline_extension ◌>>=◌ get_task
  decide_deadline_extension_unknown e = ground arith

  module _ (a : DeadlineExtensionRecord) (known : find_extension k s.extensions ≡ some a) where
    decide_deadline_extension_missing :
        find_task a.task_id s.tasks ≡ none → (decide_deadline_extension env k r s).1.tasks ≡ s.tasks
    unfolding decide_deadline_extension ◌>>=◌ get_task
    decide_deadline_extension_missing e = ground arith

    decide_deadline_extension_cases :
        (t : ResponseTask)
        → find_task a.task_id s.tasks ≡ some t
        → ((decide_deadline_extension env k r s).1.tasks ≡ s.tasks)
          ⊎ ((decide_deadline_extension env k r s).1.tasks
              ≡ (settle_extension env t a r r.approved s).1.tasks)
    unfolding decide_deadline_extension ◌>>=◌ get_task
    decide_deadline_extension_cases t e = ground arith

    decide_deadline_extension_known : Effect env s (decide_deadline_extension env k r s).1
    decide_deadline_extension_known =
        Effect-of_task env a.task_id s (decide_deadline_extension env k r s).1
          decide_deadline_extension_missing
          λ t e. elim (decide_deadline_extension_cases t e) [
            | inl same ↦ inl same
            | inr ends ↦ elim (settle_extension-Outcome t a r.approved) [
              | inl kept ↦ inl (ends ∙ kept)
              | inr (u, step, write) ↦ inr (u, step, ends ∙ write)
            ]
          ]

  pub decide_deadline_extension-Effect : Effect env s (decide_deadline_extension env k r s).1
  decide_deadline_extension-Effect = elim (Option-cases (find_extension k s.extensions)) [
    | inl e ↦ untouched (decide_deadline_extension_unknown e)
    | inr (a, e) ↦ decide_deadline_extension_known a e
  ]
