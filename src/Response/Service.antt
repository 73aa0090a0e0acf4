-- ===== src/Response/Service.antt =====
-- The calls that a client makes of `ResponseWorkflowService`, one after the other, whether they
-- return or raise (flood_system/response_workflow/service.py).
pub mod Growth
pub mod Changes
pub mod Life
pub mod Moves
pub mod Fixed
pub mod Kept
pub mod Audit
pub mod Append
pub mod Stale
pub mod Marked
pub mod Restored
use flood_agent.Base.{Bool, List, [], ◌∷◌, Ident, Option, Time}
use flood_agent.Response.Requests.{
  TaskActionRequest, TaskAssignmentRequest, TaskUpdateRequest, ApprovalRequest, FeedbackRequest,
  DeadlineExtensionRequest, DeadlineExtensionDecisionRequest,
}
use flood_agent.Response.Requests.{
  TaskCreateRequest, CandidateObjectListFreezeRequest, EventCreateRequest, AlertAppendRequest,
  FeatureFlagUpdateRequest, RiskObjectBatchRequest, RiskObjectVerificationRequest,
}
use flood_agent.Response.Creation.{create_task}
use flood_agent.Response.Alerts.{create_event, append_alert}
use flood_agent.Response.Candidates.{freeze_candidate_object_list}
use flood_agent.Response.Objects.{add_risk_objects, verify_risk_object}
use flood_agent.Response.Flags.Update.{update_feature_flag}
use flood_agent.Response.Store.{Env, Store}
use flood_agent.Response.Execution.{acknowledge_task, start_task, assign_task}
use flood_agent.Response.Ending.{cancel_task, take_over_task, waive_task, verify_completion}
use flood_agent.Response.Drafting.{update_task, submit_task}
use flood_agent.Response.Approval.{decide_task}
use flood_agent.Response.Feedback.{submit_feedback}
use flood_agent.Response.Extensions.{request_deadline_extension, decide_deadline_extension}
use flood_agent.Response.Review.{generate_review_draft}
use flood_agent.Response.Sweep.{run_deadline_sweep, close_event}
use flood_agent.Response.Outbox.{
  OutboxProcessRequest, DispatchCallbackRequest, process_outbox, ingest_simulated_dispatch_callback,
}

-- A call with its arguments.
pub data Call : Type 0 where
  update : Ident → TaskUpdateRequest → Call
  submit : Ident → TaskActionRequest → Call
  decide : Ident → ApprovalRequest → Call
  acknowledge : Ident → TaskActionRequest → Call
  start : Ident → TaskActionRequest → Call
  assign : Ident → TaskAssignmentRequest → Call
  feedback : Ident → FeedbackRequest → Call
  verify : Ident → Bool → TaskActionRequest → Call
  ask_extension : Ident → DeadlineExtensionRequest → Call
  decide_extension : Ident → DeadlineExtensionDecisionRequest → Call
  cancel : Ident → TaskActionRequest → Call
  take_over : Ident → TaskActionRequest → Call
  waive : Ident → TaskActionRequest → Call
  sweep : Ident → TaskActionRequest → Option Time → Call
  close : Ident → TaskActionRequest → Call
  draft_review : Ident → TaskActionRequest → Call
  process : OutboxProcessRequest → Call
  ingest : DispatchCallbackRequest → Call
  create_draft : Ident → TaskCreateRequest → Call
  freeze : Ident → CandidateObjectListFreezeRequest → Call
  create : EventCreateRequest → Call
  append : Ident → AlertAppendRequest → Call
  add_objects : Ident → RiskObjectBatchRequest → Call
  verify_object : Ident → Ident → RiskObjectVerificationRequest → Call
  set_flag : FeatureFlagUpdateRequest → Call

-- The store that a call leaves.
unfoldable pub serve : Env → Call → Store → Store
serve env (update k r) s = (update_task env k r s).1
serve env (submit k r) s = (submit_task env k r s).1
serve env (decide k r) s = (decide_task env k r s).1
serve env (acknowledge k r) s = (acknowledge_task env k r s).1
serve env (start k r) s = (start_task env k r s).1
serve env (assign k r) s = (assign_task env k r s).1
serve env (feedback k r) s = (submit_feedback env k r s).1
serve env (verify k b r) s = (verify_completion env k b r s).1
serve env (ask_extension k r) s = (request_deadline_extension env k r s).1
serve env (decide_extension k r) s = (decide_deadline_extension env k r s).1
serve env (cancel k r) s = (cancel_task env k r s).1
serve env (take_over k r) s = (take_over_task env k r s).1
serve env (waive k r) s = (waive_task env k r s).1
serve env (sweep k r moment) s = (run_deadline_sweep env k r moment s).1
serve env (close k r) s = (close_event env k r s).1
serve env (draft_review k r) s = (generate_review_draft env k r s).1
serve env (process r) s = (process_outbox env r s).1
serve env (ingest r) s = (ingest_simulated_dispatch_callback env r s).1
serve env (create_draft k r) s = (create_task env k r s).1
serve env (freeze k r) s = (freeze_candidate_object_list env k r s).1
serve env (create r) s = (create_event env r s).1
serve env (append k r) s = (append_alert env k r s).1
serve env (add_objects k r) s = (add_risk_objects env k r s).1
serve env (verify_object k i r) s = (verify_risk_object env k i r s).1
serve env (set_flag r) s = (update_feature_flag env r s).1

unfoldable pub serve_all : Env → List Call → Store → Store
serve_all env [] s = s
serve_all env (c ∷ cs) s = serve_all env cs (serve env c s)
