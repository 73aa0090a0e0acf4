-- ===== src/Response/Feedback/Refused.antt =====
-- What becomes of a feedback that `submit_feedback` stores before the transition is refused.
use mathlib.Core.Path.{sym}
use flood_agent.Base.{
  ◌≡◌, ◌≢◌, inl, inr, refl, ◌∙◌, ap, arith, Bool, true, ◌==◌, Option, some, none, Ident, Text, [],
  ◌∷◌, ◌++◌, any, Option-cases, any-sort_on, any-filter_by-append, find-any,
}
use flood_agent.Response.Enums.{
  FeedbackCategory, completion, partial_completion, resource_shortage, coordination_request,
  situation_update,
}
use flood_agent.Response.Task.{ResponseTask}
use flood_agent.Response.Requests.{FeedbackRequest}
use flood_agent.Response.Records.{TaskFeedback}
use flood_agent.Response.Store.{Env, Store, find_task, find_task, list_feedback}
use flood_agent.Response.Store.Laws.{find_task-key}
use flood_agent.Response.Exec.{err, bad_transition, ◌>>=◌}
use flood_agent.Response.Guards.{get_task, get_event, save_escalation_of}
use flood_agent.Response.Feedback.{
  feedback_dedupe_key, classify_feedback, duplicate_of, finish_feedback, apply_feedback,
  escalation_text, store_feedback, accept_feedback, merge_duplicate, take_feedback, submit_feedback,
}
use flood_agent.Response.Timeline.{task_event, record_entry}

module _ (env : Env) (r : FeedbackRequest) where
  apply_keeps_feedback :
      (s : Store) (t : ResponseTask) (i : Ident) (c : FeedbackCategory) (o : Option Text)
      → (apply_feedback env t r i c o s).1.feedback ≡ s.feedback
  unfolding apply_feedback finish_feedback save_escalation_of ◌>>=◌ task_event record_entry
  apply_keeps_feedback s t i c (some x) = ground arith
  apply_keeps_feedback s t i completion none = ground arith
  apply_keeps_feedback s t i partial_completion none = ground arith
  apply_keeps_feedback s t i FeedbackCategory.blocked none = refl
  apply_keeps_feedback s t i resource_shortage none = refl
  apply_keeps_feedback s t i coordination_request none = refl
  apply_keeps_feedback s t i situation_update none = refl

  -- Whatever the branches then do, the feedback is stored.
  store_adds :
      (s : Store) (t : ResponseTask) (c : FeedbackCategory) (key : Ident)
      → (f : TaskFeedback) × ((store_feedback env t r c key s).1.feedback ≡ s.feedback ++ f ∷ [])
        × (f.task_id ≡ t.task_id)
        × (f.dedupe_key ≡ key)
  unfolding store_feedback ◌>>=◌
  store_adds s t c key = (_, apply_keeps_feedback _ t _ c (escalation_text c r), refl, refl)

  accept_refused :
      (s : Store) (t : ResponseTask) (c : FeedbackCategory) (key : Ident)
      → (accept_feedback env t r c key s).0 ≡ err bad_transition
      → accept_feedback env t r c key s ≡ store_feedback env t r c key s
  unfolding accept_feedback ◌>>=◌
  accept_refused s t c key h = ground arith

  merge_returns :
      (s : Store) (t : ResponseTask) (f : TaskFeedback) (key : Ident)
      → ((merge_duplicate env t r f key s).0 ≢ err bad_transition)
        × ((merge_duplicate env t r f key s).1.tasks ≡ s.tasks)
  unfolding merge_duplicate ◌>>=◌ task_event record_entry
  merge_returns s t f key = (λ h. ground arith, refl)

  take_refused :
      (s : Store) (t : ResponseTask) (key : Ident) (o : Option TaskFeedback)
      → (take_feedback env t r key o s).0 ≡ err bad_transition
      → (f : TaskFeedback) × ((take_feedback env t r key o s).1.feedback ≡ s.feedback ++ f ∷ [])
        × (f.task_id ≡ t.task_id)
        × (f.dedupe_key ≡ key)
  unfolding take_feedback
  take_refused s t key none h =
      rw (accept_refused s t (classify_feedback r) key h) (store_adds s t (classify_feedback r) key)
  take_refused s t key (some f) h = absurd ((merge_returns s t f key).0 h)

  abbrev key_found : Ident → Store → Option TaskFeedback
  key_found k s = duplicate_of (feedback_dedupe_key env r) (list_feedback k s.feedback)

  submit_refused :
      (k : Ident) (s : Store) (t : ResponseTask)
      → find_task k s.tasks ≡ some t
      → (submit_feedback env k r s).0 ≡ err bad_transition
      → submit_feedback env k r s
        ≡ take_feedback env t r (feedback_dedupe_key env r) (key_found k s) s
  unfolding submit_feedback ◌>>=◌ get_task get_event
  submit_refused k s t e h = ground arith

  submit_unknown :
      (k : Ident) (s : Store)
      → find_task k s.tasks ≡ none
      → (submit_feedback env k r s).0 ≢ err bad_transition
  unfolding submit_feedback ◌>>=◌ get_task
  submit_unknown k s e = ground arith

  submit_adds :
      (k : Ident) (s : Store)
      → (submit_feedback env k r s).0 ≡ err bad_transition
      → (f : TaskFeedback) × ((submit_feedback env k r s).1.feedback ≡ s.feedback ++ f ∷ [])
        × (f.task_id ≡ k)
        × (f.dedupe_key ≡ feedback_dedupe_key env r)
  submit_adds k s h = elim (Option-cases (find_task k s.tasks)) [
    | inl e ↦ absurd (submit_unknown k s e h)
    | inr (t, e) ↦
        let same = submit_refused k s t e h in
        let (f, adds, task, key) =
          take_refused s t (feedback_dedupe_key env r) (key_found k s)
            (sym (ap (λ x. x.0) same) ∙ h) in
        (f, ap (λ x. x.1.feedback) same ∙ adds, task ∙ find_task-key k s.tasks e, key)
  ]

  submit_merged :
      (k : Ident) (s : Store) (f : TaskFeedback)
      → key_found k s ≡ some f
      → (submit_feedback env k r s).1.tasks ≡ s.tasks
  unfolding submit_feedback take_feedback ◌>>=◌ get_task get_event
  submit_merged k s f e = elim (Option-cases (find_task k s.tasks)) [
    | inl none_found ↦ ground arith
    | inr (t, found) ↦ ground (arith, (merge_returns s t f (feedback_dedupe_key env r)).1)
  ]

-- Where `submit_feedback` refuses the transition that a feedback asks for, sending the same
-- feedback in again, in any store with the feedback that the first call left and whatever tasks,
-- changes no task: the first call had stored it, and the second one takes it for a duplicate.
pub submit_feedback-lost :
    (env : Env) (k : Ident) (r : FeedbackRequest) (s later : Store)
    → (submit_feedback env k r s).0 ≡ err bad_transition
    → later.feedback ≡ (submit_feedback env k r s).1.feedback
    → (submit_feedback env k r later).1.tasks ≡ later.tasks
submit_feedback-lost env k r s later h same =
    let has_key : TaskFeedback → Bool = λ x. x.dedupe_key == feedback_dedupe_key env r in
    let (f, adds, task, key) = submit_adds env r k s h in
    let known : any has_key (list_feedback k later.feedback) ≡ true =
      rw (same, adds)
        (any-sort_on {A = TaskFeedback} (λ x. x.created_at) has_key _
          ∙ any-filter_by-append has_key (λ x. x.task_id == k) s.feedback f (ground arith)
              (ground arith)) in
    let (g, e) = find-any has_key (list_feedback k later.feedback) known in
    submit_merged env r k later g e
