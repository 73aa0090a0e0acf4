-- ===== src/Response/Duties.antt =====
-- Who may do what, and when: what the success of a call says of the caller and of the stored task.
pub mod Closing
pub mod Stale
use flood_agent.Base.{
  ℕ, ◌≡◌, ◌≢◌, ◌⊎◌, ◌↔◌, inl, inr, refl, arith, Bool, true, false, not, ◌&&◌, ◌||◌, some, none,
  Option, Option-cases, List, [], ◌∷◌, Ident, ◌==◌, ltb, if◌then◌else◌, all, any, is_empty, map,
  mem,
}
use flood_agent.Response.Enums.{
  TaskStatus, draft, pending_approval, pending_verification, completed, in_progress, requested,
  DeadlineExtensionStatus,
}
use flood_agent.Response.Enums
use flood_agent.Response.Transitions.{is_terminal, can_transition}
use flood_agent.Response.Task.{ResponseTask}
use flood_agent.Response.Requests.{
  TaskActionRequest, ApprovalRequest, DeadlineExtensionDecisionRequest,
}
use flood_agent.Response.Records.{DeadlineExtensionRecord, ResponseEvent, RuleEvaluationRecord}
use flood_agent.Response.Store.{
  Env, Store, find_task, find_event, find_extension, list_feedback, list_tasks,
}
use flood_agent.Response.Exec.{ok, err, M, ◌>>=◌}
use flood_agent.Response.Guards.{
  get_task, get_event, is_ident, is_truthy, is_commander, is_closed, edit_roles, approval_roles,
  version_fits,
}
use flood_agent.Response.Rules.{
  evaluate_task_rules, evaluate_task_rules_lem, evaluation_of, current_checks, is_hard_block,
  overall_outcome,
}
use flood_agent.Response.Drafting.{
  submit_task, submit_draft, dependencies_known, hand_in, is_draft_lem, is_draft, is_blocking,
}
use flood_agent.Response.Approval.{
  decide_task, pending_lem, approve, send_back, is_pending_approval, needs_commander, is_approval,
}
use flood_agent.Response.Ending.{verify_completion, is_pending_verification, last_submitter}
use flood_agent.Response.Extensions.{decide_deadline_extension, settle_extension, is_requested}
use flood_agent.Response.Timeline.{task_event, record_entry}

verify_cases :
    (env : Env) (k : Ident) (b : Bool) (r : TaskActionRequest) (s : Store) (u t : ResponseTask)
    → find_task k s.tasks ≡ some t
    → (verify_completion env k b r s).0 ≡ ok u
    → (edit_roles r.operator_role ≡ true)
      × (is_pending_verification t.status ≡ true)
      × (is_ident (last_submitter (list_feedback k s.feedback)) r.operator_id ≡ false)
      × ((is_truthy t.assignee_id && is_ident t.assignee_id r.operator_id) ≡ false)
      × (u.status ≡ (if b then completed else in_progress))
unfolding verify_completion ◌>>=◌ get_task task_event
verify_cases env k b r s u t e h = ground arith

verify_completion_missing :
    (env : Env) (k : Ident) (b : Bool) (r : TaskActionRequest) (s : Store) (u : ResponseTask)
    → find_task k s.tasks ≡ none
    → (verify_completion env k b r s).0 ≢ ok u
unfolding verify_completion ◌>>=◌ get_task
verify_completion_missing env k b r s u e = ground arith

-- A verification of completion that returns found the task pending verification, was made in an
-- edit role by someone who neither sent in the last completion feedback nor is the assignee of the
-- task, and it leaves the task completed if it approves and in progress if it does not.
pub verify_completion-two_people :
    (env : Env) (k : Ident) (b : Bool) (r : TaskActionRequest) (s : Store) (u : ResponseTask)
    → (verify_completion env k b r s).0 ≡ ok u
    → (t : ResponseTask) × (find_task k s.tasks ≡ some t)
      × (edit_roles r.operator_role ≡ true)
      × (t.status ≡ pending_verification)
      × (is_ident (last_submitter (list_feedback k s.feedback)) r.operator_id ≡ false)
      × ((is_truthy t.assignee_id && is_ident t.assignee_id r.operator_id) ≡ false)
      × (u.status ≡ (if b then completed else in_progress))
unfolding is_pending_verification
verify_completion-two_people env k b r s u h = elim (Option-cases (find_task k s.tasks)) [
  | inl e ↦ absurd (verify_completion_missing env k b r s u e h)
  | inr (t, e) ↦
      let (role, was, sent, own, status) = verify_cases env k b r s u t e h in
      (t, e, role, ground arith, sent, own, status)
]

module _ (env : Env) (k : Ident) (r : ApprovalRequest) (s : Store) where
  decide_known :
      (t : ResponseTask) (u : ResponseTask)
      → find_task k s.tasks ≡ some t
      → (decide_task env k r s).0 ≡ ok u
      → (approval_roles r.operator_role ≡ true)
        × (is_pending_approval t.status ≡ true)
        × ((not (needs_commander t.approval_policy)
              || is_commander r.operator_role && not (t.drafted_by == r.operator_id))
            ≡ true)
        × ((is_approval r.decision && is_blocking (overall_outcome (current_checks t s))) ≡ false)
  unfolding decide_task ◌>>=◌ get_task get_event evaluation_of
  decide_known t u e h = ground (arith, (evaluate_task_rules_lem env t r.base s).0)

module _ (env : Env) (k : Ident) (r : TaskActionRequest) (s : Store) (u : ResponseTask) where
  handed_in_status :
      (t : ResponseTask) (v : RuleEvaluationRecord) (s' : Store)
      → (hand_in env t r v s').0 ≡ ok u
      → u.status ≡ pending_approval
  unfolding hand_in ◌>>=◌ task_event
  handed_in_status t v s' h = ground arith

  submit_checked :
      (t : ResponseTask)
      → (submit_draft env t r s).0 ≡ ok u
      → (dependencies_known t s ≡ true)
        × (is_blocking (evaluation_of env t r s).overall_outcome ≡ false)
        × (u.status ≡ pending_approval)
  unfolding submit_draft ◌>>=◌
  submit_checked t h = ground (
    arith,
    (evaluate_task_rules_lem env t r s).0,
    handed_in_status t (evaluation_of env t r s) (evaluate_task_rules env t r s).1,
  )

  submit_known :
      (t : ResponseTask)
      → find_task k s.tasks ≡ some t
      → (submit_task env k r s).0 ≡ ok u
      → (edit_roles r.operator_role ≡ true)
        × (is_draft t.status ≡ true)
        × (version_fits t.version r.expected_version ≡ true)
        × ((submit_draft env t r s).0 ≡ ok u)
  unfolding submit_task ◌>>=◌ get_task get_event
  submit_known t e h = ground arith

  submit_missing : find_task k s.tasks ≡ none → (submit_task env k r s).0 ≢ ok u
  unfolding submit_task ◌>>=◌ get_task
  submit_missing e = ground arith

  -- A submission that returns was made in an edit role, found a draft of the version that it
  -- expects, whose dependencies are all tasks of its event and which no rule blocks, and returns it
  -- pending approval.
  pub submit_task-passed :
      (submit_task env k r s).0 ≡ ok u
      → (t : ResponseTask) × (find_task k s.tasks ≡ some t)
        × (edit_roles r.operator_role ≡ true)
        × (t.status ≡ draft)
        × (version_fits t.version r.expected_version ≡ true)
        × (dependencies_known t s ≡ true)
        × (is_blocking (overall_outcome (current_checks t s)) ≡ false)
        × (u.status ≡ pending_approval)
  unfolding evaluation_of
  submit_task-passed h = elim (Option-cases (find_task k s.tasks)) [
    | inl e ↦ absurd (submit_missing e h)
    | inr (t, e) ↦
        let (role, was, version, rest) = submit_known t e h in
        let (known, checks, status) = submit_checked t rest in
        (t, e, role, is_draft_lem t.status was, version, known, checks, status)
  ]

module _ (env : Env) (k : Ident) (r : ApprovalRequest) (s : Store) (u : ResponseTask) where
  decide_missing : find_task k s.tasks ≡ none → (decide_task env k r s).0 ≢ ok u
  unfolding decide_task ◌>>=◌ get_task
  decide_missing e = ground arith

  -- A decision on a task that returns found the task pending approval, was made in an approval
  -- role, was made by a commander who did not draft the task where the policy asks for a commander,
  -- and, where it approves, no rule blocked the task.
  pub decide_task-two_people :
      (decide_task env k r s).0 ≡ ok u
      → (t : ResponseTask) × (find_task k s.tasks ≡ some t)
        × (approval_roles r.operator_role ≡ true)
        × (t.status ≡ pending_approval)
        × ((not (needs_commander t.approval_policy)
              || is_commander r.operator_role && not (t.drafted_by == r.operator_id))
            ≡ true)
        × ((is_approval r.decision && is_blocking (overall_outcome (current_checks t s))) ≡ false)
  decide_task-two_people h = elim (Option-cases (find_task k s.tasks)) [
    | inl e ↦ absurd (decide_missing e h)
    | inr (t, e) ↦
        let (role, was, people, checks) = decide_known env k r s t u e h in
        (t, e, role, pending_lem t.status was, people, checks)
  ]

module _ (env : Env) (k : Ident) (r : DeadlineExtensionDecisionRequest) (s : Store)
    (c : DeadlineExtensionRecord) where
  settled_status :
      (t : ResponseTask) (a : DeadlineExtensionRecord) (b : Bool) (s' : Store)
      → (settle_extension env t a r b s').0 ≡ ok c
      → (c.extension_id ≡ a.extension_id)
        × (c.status
            ≡ (if b then DeadlineExtensionStatus.approved else DeadlineExtensionStatus.rejected))
        × (c.decided_by ≡ some r.operator_id)
  unfolding settle_extension ◌>>=◌ task_event
  settled_status t a true s' h = ground arith
  settled_status t a false s' h = ground arith

  extension_known :
      (a : DeadlineExtensionRecord) (t : ResponseTask)
      → find_extension k s.extensions ≡ some a
      → find_task a.task_id s.tasks ≡ some t
      → (decide_deadline_extension env k r s).0 ≡ ok c
      → (approval_roles r.operator_role ≡ true)
        × (is_requested a.status ≡ true)
        × ((a.requested_by == r.operator_id) ≡ false)
        × ((settle_extension env t a r r.approved s).0 ≡ ok c)
  unfolding decide_deadline_extension ◌>>=◌ get_task
  extension_known a t e f h = ground arith

  extension_missing :
      find_extension k s.extensions ≡ none → (decide_deadline_extension env k r s).0 ≢ ok c
  unfolding decide_deadline_extension ◌>>=◌ get_task
  extension_missing e = ground arith

  task_missing :
      (a : DeadlineExtensionRecord)
      → find_extension k s.extensions ≡ some a
      → find_task a.task_id s.tasks ≡ none
      → (decide_deadline_extension env k r s).0 ≢ ok c
  unfolding decide_deadline_extension ◌>>=◌ get_task
  task_missing a e f = ground arith

  -- A decision on a deadline extension that returns found the extension undecided, was made in an
  -- approval role by someone other than who asked for it, and returns the extension with the
  -- decision and the name of who made it.
  pub decide_deadline_extension-two_people :
      (decide_deadline_extension env k r s).0 ≡ ok c
      → (a : DeadlineExtensionRecord) × (find_extension k s.extensions ≡ some a)
        × (approval_roles r.operator_role ≡ true)
        × (is_requested a.status ≡ true)
        × ((a.requested_by == r.operator_id) ≡ false)
        × (c.status ≡ (
            if r.approved
            then DeadlineExtensionStatus.approved
            else DeadlineExtensionStatus.rejected))
        × (c.decided_by ≡ some r.operator_id)
  decide_deadline_extension-two_people h = elim (Option-cases (find_extension k s.extensions)) [
    | inl e ↦ absurd (extension_missing e h)
    | inr (a, e) ↦ elim (Option-cases (find_task a.task_id s.tasks)) [
      | inl f ↦ absurd (task_missing a e f h)
      | inr (t, f) ↦
          let (role, was, people, rest) = extension_known a t e f h in
          let (id, status, by) = settled_status t a r.approved s rest in
          (a, e, role, was, people, status, by)
    ]
  ]
