-- ===== src/Response/Feedback.antt =====
-- Feedback from the field: `classify_feedback`, `feedback_dedupe_key` and `missing_evidence_types`
-- of flood_system/response_workflow/feedback_policy.py, and `submit_feedback` of service.py.
pub mod Verdict
pub mod Refused
use flood_agent.Base.{
  ℕ, Bool, true, false, not, ◌&&◌, ◌||◌, Option, none, some, List, [], ◌∷◌, ◌++◌, map, ◌==◌, ltb,
  if◌then◌else◌, Ident, Text, text_eq, strip, remove_spaces, contains, any, find, filter_by,
  is_empty, or_else, with_default, length,
}
use flood_agent.Response.Enums.{
  OperatorRole, field_operator, duty_officer, TaskStatus, in_progress, pending_verification,
  partially_completed, FeedbackCategory, completion, partial_completion, resource_shortage,
  coordination_request, situation_update,
}
use flood_agent.Response.Enums
use flood_agent.Response.Task.{ResponseTask}
use flood_agent.Response.Requests.{EvidenceItem, FeedbackRequest}
use flood_agent.Response.Records.{FeedbackPayload, TaskFeedback, EscalationReason, reported}
use flood_agent.Response.Entry.{
  Action, duplicate_feedback_merged, task_blocked_and_escalated, completion_submitted,
  task_partially_completed, situation_feedback_recorded, duplicate_detail, feedback_detail,
}
use flood_agent.Response.Store.{Env, fdb, list_feedback}
use flood_agent.Response.Exec.{
  not_assigned_operator, bad_status, evidence_missing, M, pure, gets, require, now, new_id,
  save_task, save_feedback, ◌>>=◌, ◌>>◌,
}
use flood_agent.Response.Guards.{
  require_role, get_event, get_task, ensure_transition, execution_roles, is_field_operator,
  is_ident, is_truthy, save_escalation_of,
}
use flood_agent.Response.Execution.{in_execution}
use flood_agent.Response.Timeline.{task_event}

-- An optional text that is given and not empty; such a text is truthy.
abbrev pub given : Option Text → Bool
given none = false
given (some s) = not (is_empty s)

-- The words 协同, 支援, 增援 and 协调.
abbrev pub coordination_words : List Text
coordination_words =
    (0x534f ∷ 0x540c ∷ [])
    ∷ (0x652f ∷ 0x63f4 ∷ [])
    ∷ (0x589e ∷ 0x63f4 ∷ [])
    ∷ (0x534f ∷ 0x8c03 ∷ [])
    ∷ []

-- `" ".join(filter(None, [...]))`
abbrev join_given : List (Option Text) → Text
join_given [] = []
join_given (o ∷ os) =
    let rest = join_given os in
    if given o
    then (if is_empty rest then with_default o [] else with_default o [] ++ 0x20 ∷ rest)
    else rest

abbrev pub below_hundred : Option ℕ → Bool
below_hundred none = false
below_hundred (some p) = ltb p 100

unfoldable pub asks_for_help : FeedbackRequest → Bool
asks_for_help r =
    let text = join_given (some r.summary ∷ r.blocked_reason ∷ r.resource_gap ∷ []) in
    any (λ word. contains word text) coordination_words

-- `classify_feedback`; the reason that it returns is a function of the category, and is left out.
unfoldable pub classify_feedback : FeedbackRequest → FeedbackCategory
classify_feedback r =
    if given r.resource_gap
    then resource_shortage
    else (if given r.blocked_reason
        then FeedbackCategory.blocked
        else (if asks_for_help r
            then coordination_request
            else (if below_hundred r.completion_percent
                then partial_completion
                else (if is_empty r.evidence then situation_update else completion))))

abbrev text_le : Text → Text → Bool
text_le [] t = true
text_le (a ∷ s) [] = false
text_le (a ∷ s) (b ∷ t) = ltb a b || a == b && text_le s t

-- The order of tuples of texts.
abbrev pair_le : Text × Text → Text × Text → Bool
pair_le p q = if text_eq p.0 q.0 then text_le p.1 q.1 else text_le p.0 q.0

abbrev insert_pair : Text × Text → List (Text × Text) → List (Text × Text)
insert_pair p [] = p ∷ []
insert_pair p (q ∷ qs) = if pair_le p q then p ∷ q ∷ qs else q ∷ insert_pair p qs

-- `sorted(...)`
abbrev sort_pairs : List (Text × Text) → List (Text × Text)
sort_pairs [] = []
sort_pairs (p ∷ ps) = insert_pair p (sort_pairs ps)

abbrev evidence_pair : EvidenceItem → Text × Text
evidence_pair i =
    (strip (with_default i.type_text []), strip (with_default (or_else i.value_text i.url_text) []))

-- The dictionary that `feedback_dedupe_key` digests.
unfoldable pub feedback_payload : Env → FeedbackRequest → FeedbackPayload
feedback_payload env r = record {
  summary = env.lower (remove_spaces r.summary);
  blocked_reason = env.lower (remove_spaces (with_default r.blocked_reason []));
  resource_gap = env.lower (remove_spaces (with_default r.resource_gap []));
  completion_percent = r.completion_percent;
  evidence = sort_pairs (map evidence_pair r.evidence);
}

-- `feedback_dedupe_key`
abbrev pub feedback_dedupe_key : Env → FeedbackRequest → Ident
feedback_dedupe_key env r = env.feedback_digest (feedback_payload env r)

-- `missing_evidence_types`
unfoldable pub missing_evidence_types : ResponseTask → List EvidenceItem → List Text
missing_evidence_types task evidence =
    filter_by
      (λ wanted. not (any (λ i. text_eq wanted (strip (with_default i.type_text []))) evidence))
      task.required_evidence

-- `escalation_reason`, when it is truthy.
unfoldable pub escalation_text : FeedbackCategory → FeedbackRequest → Option Text
escalation_text category r =
    let text : Option Text = elim category [
      | coordination_request ↦ some r.summary
      | _ ↦ (if given r.blocked_reason then r.blocked_reason else r.resource_gap)
    ] in
    if given text then text else none

unfoldable pub is_completion_category : FeedbackCategory → Bool
is_completion_category completion = true
is_completion_category _ = false

-- The earlier feedback of the task with this key.
abbrev pub duplicate_of : Ident → List TaskFeedback → Option TaskFeedback
duplicate_of key l = find (λ f. f.dedupe_key == key) l

-- The end of `submit_feedback`: save the task and record the action.
unfoldable pub finish_feedback :
    Env
    → ResponseTask
    → ResponseTask
    → FeedbackRequest
    → FeedbackCategory
    → Ident
    → Action
    → Option Ident
    → M ResponseTask
finish_feedback env task changed request category feedback_id action escalation_id = do
  save_task changed
  task_event env changed action request.base (some task.status)
      (feedback_detail feedback_id request.summary category escalation_id)
  pure changed

-- The branches on the escalation reason and the category, after the feedback was saved.
unfoldable pub apply_feedback :
    Env → ResponseTask → FeedbackRequest → Ident → FeedbackCategory → Option Text → M ResponseTask
apply_feedback env task request feedback_id category (some reason) = do
  ensure_transition task.status TaskStatus.blocked
  moment ← now env
  let changed = record task { status = TaskStatus.blocked; updated_at = moment }
  escalation_id ← save_escalation_of env changed task.status (reported reason) duty_officer
  finish_feedback env task changed request category feedback_id task_blocked_and_escalated
      (some escalation_id)
apply_feedback env task request feedback_id completion none = do
  ensure_transition task.status pending_verification
  moment ← now env
  finish_feedback env task (record task { status = pending_verification; updated_at = moment })
      request completion feedback_id completion_submitted none
apply_feedback env task request feedback_id partial_completion none = do
  ensure_transition task.status partially_completed
  moment ← now env
  finish_feedback env task (record task { status = partially_completed; updated_at = moment })
      request partial_completion feedback_id task_partially_completed none
apply_feedback env task request feedback_id category none =
    finish_feedback env task task request category feedback_id situation_feedback_recorded none

-- The feedback is saved, and the branches follow.
unfoldable pub store_feedback :
    Env → ResponseTask → FeedbackRequest → FeedbackCategory → Ident → M ResponseTask
store_feedback env task request category key = do
  feedback_id ← new_id env fdb
  moment ← now env
  save_feedback (record {
    feedback_id = feedback_id;
    event_id = task.event_id;
    task_id = task.task_id;
    object_id = task.object_id;
    summary = request.summary;
    evidence = request.evidence;
    blocked_reason = request.blocked_reason;
    resource_gap = request.resource_gap;
    category = category;
    dedupe_key = key;
    operator_id = request.operator_id;
    operator_role = request.operator_role;
    created_at = moment;
  })
  apply_feedback env task request feedback_id category (escalation_text category request)

-- `submit_feedback` from the test of the status on.
unfoldable pub accept_feedback :
    Env → ResponseTask → FeedbackRequest → FeedbackCategory → Ident → M ResponseTask
accept_feedback env task request category key = do
  require (in_execution task.status) bad_status
  require
      (not (is_completion_category category)
        || is_empty (missing_evidence_types task request.evidence))
      evidence_missing
  store_feedback env task request category key

-- The early return on a duplicate.
unfoldable pub merge_duplicate :
    Env → ResponseTask → FeedbackRequest → TaskFeedback → Ident → M ResponseTask
merge_duplicate env task request earlier key = do
  task_event env task duplicate_feedback_merged request.base none
      (duplicate_detail earlier.feedback_id earlier.category key)
  pure task

unfoldable pub take_feedback :
    Env → ResponseTask → FeedbackRequest → Ident → Option TaskFeedback → M ResponseTask
take_feedback env task request key (some earlier) = merge_duplicate env task request earlier key
take_feedback env task request key none =
    accept_feedback env task request (classify_feedback request) key

unfoldable pub submit_feedback : Env → Ident → FeedbackRequest → M ResponseTask
submit_feedback env task_id request = do
  require_role request.operator_role execution_roles
  task ← get_task task_id
  require
      (not (
        is_truthy task.assignee_id
        && is_field_operator request.operator_role
        && not (is_ident task.assignee_id request.operator_id)))
      not_assigned_operator
  get_event task.event_id true
  earlier ← gets (λ s. list_feedback task_id s.feedback)
  let key = feedback_dedupe_key env request
  take_feedback env task request key (duplicate_of key earlier)
