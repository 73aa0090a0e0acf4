-- ===== src/Response/Duties/Stale.antt =====
-- Optimistic locking: a call that expects another version of the task than the stored one.
use flood_agent.Base.{◌≡◌, arith, ℕ, false, some, Ident, ◌==◌}
use flood_agent.Response.Task.{ResponseTask}
use flood_agent.Response.Requests.{
  TaskActionRequest, TaskUpdateRequest, ApprovalRequest, DeadlineExtensionRequest,
}
use flood_agent.Response.Store.{Env, Store, find_task}
use flood_agent.Response.Exec.{◌>>=◌}
use flood_agent.Response.Guards.{get_task, get_event, version_fits}
use flood_agent.Response.Drafting.{update_task, submit_task}
use flood_agent.Response.Approval.{decide_task}
use flood_agent.Response.Execution.{acknowledge_task}
use flood_agent.Response.Ending.{cancel_task, take_over_task}
use flood_agent.Response.Extensions.{request_deadline_extension}
use flood_agent.Response.Duties.Closing.{returns}

module _ (env : Env) (k : Ident) (s : Store) (t : ResponseTask) (n : ℕ)
    (stored : find_task k s.tasks ≡ some t) (stale : (n == t.version) ≡ false) where
  update_stale :
      (r : TaskUpdateRequest)
      → r.expected_version ≡ some n
      → returns (update_task env k r s).0 ≡ false
  unfolding update_task ◌>>=◌ get_task get_event version_fits
  update_stale r e = ground arith

  submit_stale :
      (r : TaskActionRequest)
      → r.expected_version ≡ some n
      → returns (submit_task env k r s).0 ≡ false
  unfolding submit_task ◌>>=◌ get_task get_event version_fits
  submit_stale r e = ground arith

  decide_stale :
      (r : ApprovalRequest)
      → r.expected_version ≡ some n
      → returns (decide_task env k r s).0 ≡ false
  unfolding decide_task ◌>>=◌ get_task get_event version_fits
  decide_stale r e = ground arith

  acknowledge_stale :
      (r : TaskActionRequest)
      → r.expected_version ≡ some n
      → returns (acknowledge_task env k r s).0 ≡ false
  unfolding acknowledge_task ◌>>=◌ get_task version_fits
  acknowledge_stale r e = ground arith

  cancel_stale :
      (r : TaskActionRequest)
      → r.expected_version ≡ some n
      → returns (cancel_task env k r s).0 ≡ false
  unfolding cancel_task ◌>>=◌ get_task version_fits
  cancel_stale r e = ground arith

  take_over_stale :
      (r : TaskActionRequest)
      → r.expected_version ≡ some n
      → returns (take_over_task env k r s).0 ≡ false
  unfolding take_over_task ◌>>=◌ get_task version_fits
  take_over_stale r e = ground arith

  extension_stale :
      (r : DeadlineExtensionRequest)
      → r.expected_version ≡ some n
      → returns (request_deadline_extension env k r s).0 ≡ false
  unfolding request_deadline_extension ◌>>=◌ get_task version_fits
  extension_stale r e = ground arith

-- Optimistic locking: updating, submitting, acknowledging, cancelling, taking over, deciding and
-- asking for an extension all raise where the request expects another version than that of the
-- stored task.
pub stale_version-refused :
    (env : Env) (k : Ident) (s : Store) (t : ResponseTask) (n : ℕ) (edit : TaskUpdateRequest)
    (act : TaskActionRequest) (decision : ApprovalRequest) (extension : DeadlineExtensionRequest)
    → find_task k s.tasks ≡ some t
    → (n == t.version) ≡ false
    → edit.expected_version ≡ some n
    → act.expected_version ≡ some n
    → decision.expected_version ≡ some n
    → extension.expected_version ≡ some n
    → (returns (update_task env k edit s).0 ≡ false)
      × (returns (submit_task env k act s).0 ≡ false)
      × (returns (acknowledge_task env k act s).0 ≡ false)
      × (returns (cancel_task env k act s).0 ≡ false)
      × (returns (take_over_task env k act s).0 ≡ false)
      × (returns (decide_task env k decision s).0 ≡ false)
      × (returns (request_deadline_extension env k extension s).0 ≡ false)
stale_version-refused env k s t n edit act decision extension stored stale e a d x = (
  update_stale env k s t n stored stale edit e,
  submit_stale env k s t n stored stale act a,
  acknowledge_stale env k s t n stored stale act a,
  cancel_stale env k s t n stored stale act a,
  take_over_stale env k s t n stored stale act a,
  decide_stale env k s t n stored stale decision d,
  extension_stale env k s t n stored stale extension x,
)
