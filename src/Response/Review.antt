-- ===== src/Response/Review.antt =====
-- The review draft of an event: `generate_review_draft` of flood_system/response_workflow/service.py,
-- with `build_review_recommendations` of feedback_policy.py.
use flood_agent.Base.{
  ℕ, Bool, true, false, not, ◌&&◌, none, some, List, [], ◌∷◌, ◌++◌, ◌==◌, if◌then◌else◌, Ident, any,
  find, filter_by, map, length, is_empty,
}
use flood_agent.Response.Enums.{
  OperatorRole, duty_officer, reviewer, commander, auditor, TaskStatus, FeedbackCategory,
  resource_shortage,
}
use flood_agent.Response.Transitions.{is_terminal}
use flood_agent.Response.Task.{ResponseTask}
use flood_agent.Response.Requests.{TaskActionRequest}
use flood_agent.Response.Records.{
  TaskFeedback, Recommendation, review_deadlines, update_resources, keep_deduplication,
  settle_tasks, keep_practice, EventReviewDraft,
}
use flood_agent.Response.Entry.{
  EntryType, Action, duplicate_feedback_merged, task_approved_and_issued, task_rejected_to_draft,
  task_waived, event_closed, event_review_draft_generated, no_state, review_detail,
}
use flood_agent.Response.Store.{Env, Store, IdPrefix, list_tasks, list_timeline}
use flood_agent.Response.Store.Tables.{
  list_alerts, list_objects, list_event_feedback, list_escalations,
}
use flood_agent.Response.Exec.{M, pure, gets, now, new_id, save_review, ◌>>=◌, ◌>>◌}
use flood_agent.Response.Guards.{require_role, get_event}
use flood_agent.Response.Rules.{is_confirmed}
use flood_agent.Response.Feedback.{is_completion_category, missing_evidence_types}
use flood_agent.Response.Timeline.{record_entry}

-- The roles that may generate a review draft.
unfoldable pub review_roles : OperatorRole → Bool
review_roles duty_officer = true
review_roles reviewer = true
review_roles commander = true
review_roles auditor = true
review_roles _ = false

abbrev is_merge : Action → Bool
is_merge duplicate_feedback_merged = true
is_merge _ = false

-- The four actions that are key decisions.
abbrev is_key_decision : Action → Bool
is_key_decision task_approved_and_issued = true
is_key_decision task_rejected_to_draft = true
is_key_decision task_waived = true
is_key_decision event_closed = true
is_key_decision _ = false

abbrev is_resolved : TaskStatus → Bool
is_resolved TaskStatus.completed = true
is_resolved TaskStatus.waived = true
is_resolved _ = false

abbrev is_shortage : FeedbackCategory → Bool
is_shortage resource_shortage = true
is_shortage _ = false

-- A completion whose task is among these, with all the evidence that the task requires.
abbrev is_evidence_complete : List ResponseTask → TaskFeedback → Bool
is_evidence_complete tasks f = elim (find (λ t. t.task_id == f.task_id) tasks) [
  | none ↦ false
  | some t ↦ is_completion_category f.category && is_empty (missing_evidence_types t f.evidence)
]

abbrev advise : Bool → Recommendation → List Recommendation
advise b advice = if b then advice ∷ [] else []

-- `build_review_recommendations`
abbrev pub build_review_recommendations :
    List TaskFeedback → Bool → Bool → Bool → List Recommendation
build_review_recommendations feedback has_escalations has_duplicates has_unresolved_tasks =
    let found =
      advise has_escalations review_deadlines
      ++ advise (any (λ f. is_shortage f.category) feedback) update_resources
      ++ advise has_duplicates keep_deduplication
      ++ advise has_unresolved_tasks settle_tasks in
    if is_empty found then keep_practice ∷ [] else found

-- The draft over the rows of an event.
unfoldable pub review_of : Ident → Store → Ident → Ident → ℕ → EventReviewDraft
review_of event_id s operator_id review_id moment =
    let tasks = list_tasks event_id s.tasks in
    let objects = list_objects event_id s.objects in
    let feedback = list_event_feedback event_id s.feedback in
    let escalations = list_escalations event_id s.escalations in
    let timeline = list_timeline event_id s.timeline in
    let completed = filter_by (λ t. is_terminal t.status) tasks in
    let duplicates = filter_by (λ e. is_merge e.action) timeline in
    let unresolved = filter_by (λ t. not (is_resolved t.status)) tasks in
    record {
      review_id = review_id;
      event_id = event_id;
      process_metrics = record {
        alert_versions = length (list_alerts event_id s.alerts);
        candidate_objects = length objects;
        confirmed_objects = length (filter_by (λ o. is_confirmed (some o)) objects);
        task_count = length tasks;
        completed_tasks = length completed;
        feedback_count = length feedback;
        duplicates_merged = length duplicates;
        escalation_count = length escalations;
        evidence_complete_feedback = length (filter_by (is_evidence_complete tasks) feedback);
      };
      key_decisions = map (λ e. e.entry_id) (filter_by (λ e. is_key_decision e.action) timeline);
      delays_and_escalations = map (λ e. e.escalation_id) escalations;
      sourced_tasks = length (filter_by (λ t. not (is_empty t.source_evidence)) tasks);
      unresolved_issues = map (λ t. (t.task_id, t.status)) unresolved;
      improvement_recommendations =
          build_review_recommendations feedback (not (is_empty escalations))
            (not (is_empty duplicates)) (not (is_empty unresolved));
      source_timeline_entry_ids = map (λ e. e.entry_id) timeline;
      generated_by = operator_id;
      created_at = moment;
    }

unfoldable pub generate_review_draft : Env → Ident → TaskActionRequest → M EventReviewDraft
generate_review_draft env event_id request = do
  require_role request.operator_role review_roles
  get_event event_id false
  review_id ← new_id env IdPrefix.review
  moment ← now env
  drafted ← gets (λ s. review_of event_id s request.operator_id review_id moment)
  save_review drafted
  record_entry env (record {
    event_id = event_id;
    task_id = none;
    object_id = none;
    entry_type = EntryType.review;
    action = event_review_draft_generated;
    actor_id = request.operator_id;
    actor_role = request.operator_role;
    terminal_id = request.terminal_id;
    before_state = no_state;
    after_state = no_state;
    detail =
        review_detail drafted.review_id (length drafted.source_timeline_entry_ids) request.note;
  })
  pure drafted
