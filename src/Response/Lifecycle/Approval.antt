-- ===== src/Response/Lifecycle/Approval.antt =====
-- The decision on a task is a step of its life, and sending a message is none.
use flood_agent.Base.{
  ◌≡◌, ◌⊎◌, inl, inr, refl, ◌+◌, ◌||◌, ap, true, some, none, is_some, List, arith, Ident, Time,
  Bool-cases,
}
use flood_agent.Response.Enums.{draft, pending_approval, issued}
use flood_agent.Response.Task.{ResponseTask}
use flood_agent.Response.Requests.{ApprovalRequest}
use flood_agent.Response.Records.{ApprovalRecord, OutboxMessage}
use flood_agent.Response.Store.{
  Env, Store, apr, find_task, put_task, find_message, find_message_key,
}
use flood_agent.Response.Exec.{ok, ◌>>=◌}
use flood_agent.Response.Exec.Keeps.{keeps_rules}
use flood_agent.Response.Exec.Leads.{
  Leads, Leads-then, Leads-first, Leads-known, Leads-require, Leads-choose,
}
use flood_agent.Response.Guards.{get_task}
use flood_agent.Response.Rules.{current_rule_set}
use flood_agent.Response.Execution.{task_payload_hash}
use flood_agent.Response.Approval.{
  pending_lem, commit_with_message, commit_decision, approve, send_back, decide_task,
}
use flood_agent.Response.Lifecycle.Tables.{
  clock_only, uuid_only, event_only, snapshot_only, rules_only, event_lookup_only, enabled_only,
  built_only,
}
use flood_agent.Response.Lifecycle.{Effect, Effect-of_task, TaskStep, approved, returned}

module _ (env : Env) (l : List ResponseTask) where
  -- What a decision on the task `t` may leave of the task table `l`.
  abbrev Decided : ResponseTask → List ResponseTask → Type 0
  Decided t m = (m ≡ l) ⊎ ((u : ResponseTask) × TaskStep env t u × (m ≡ put_task u l))

  abbrev Before : ResponseTask → Store → Type 0
  Before t s = s.tasks ≡ l

  abbrev After : ResponseTask → Store → Type 0
  After t s = Decided t s.tasks

  nothing_yet : (t : ResponseTask) (s : Store) → Before t s → After t s
  nothing_yet t s h = inl h

  commit_with_message-Leads :
      (t u : ResponseTask) (a : ApprovalRecord) (m : OutboxMessage)
      → TaskStep env t u
      → Leads (Before t) (commit_with_message a u m) (After t)
  unfolding commit_with_message
  commit_with_message-Leads t u a m step = record {
    at = λ s h.
        elim (Bool-cases (
          is_some (find_message m.message_id s.outbox_messages)
          || is_some (find_message_key m.idempotency_key s.outbox_messages))) [
            | inl e ↦ rw e (inl h)
            | inr e ↦ rw e (inr (u, step, ap (put_task u) h))
          ];
  }

  commit_decision-Leads :
      (t u : ResponseTask) (a : ApprovalRecord)
      → TaskStep env t u
      → Leads (Before t) (commit_decision a u) (After t)
  unfolding commit_decision
  commit_decision-Leads t u a step = record { at = λ s h. inr (u, step, ap (put_task u) h) }

  -- The approved task, which keeps its payload.
  approved_step :
      (t : ResponseTask) (a : ApprovalRecord) (m : OutboxMessage) (moment : Time)
      → t.status ≡ pending_approval
      → a.task_payload_hash ≡ task_payload_hash env t
      → TaskStep env t (record t {
        status = issued;
        approved_version = some t.version;
        approval_payload_hash = some a.task_payload_hash;
        evidence_package_hash = some a.evidence_package_hash;
        rule_set_version = current_rule_set;
        dispatch_message_id = some m.message_id;
        updated_at = moment;
      })
  approved_step t a m moment was hash =
      approved (record { task_id = refl; event_id = refl; object_id = refl })
        (was, refl, refl, ap some hash, refl)

  approve-Leads :
      (t : ResponseTask) (r : ApprovalRequest) (a : ApprovalRecord)
      → t.status ≡ pending_approval
      → a.task_payload_hash ≡ task_payload_hash env t
      → Leads (Before t) (approve env t r a) (After t)
  unfolding approve
  approve-Leads t r a was hash = Leads-require _ _ _ (nothing_yet t) λ can.
      Leads-then _ _ (nothing_yet t) (built_only env (λ m. m ≡ l) t a) λ m.
        Leads-then _ _ (nothing_yet t) (clock_only env (λ m. m ≡ l)) λ moment.
          Leads-first _ _ (commit_with_message-Leads t _ a m (approved_step t a m moment was hash))
            λ _.
              search (keeps_rules, enabled_only env (Decided t), event_only env (Decided t)) depth
                12

  returned_step :
      (t : ResponseTask) (moment : Time)
      → t.status ≡ pending_approval
      → TaskStep env t (record t { status = draft; version = t.version + 1; updated_at = moment })
  returned_step t moment was =
      returned (record { task_id = refl; event_id = refl; object_id = refl })
        (was, refl, omega arith, refl, refl)

  send_back-Leads :
      (t : ResponseTask) (r : ApprovalRequest) (a : ApprovalRecord)
      → t.status ≡ pending_approval
      → Leads (Before t) (send_back env t r a) (After t)
  unfolding send_back
  send_back-Leads t r a was = Leads-require _ _ _ (nothing_yet t) λ can.
      Leads-then _ _ (nothing_yet t) (clock_only env (λ m. m ≡ l)) λ moment.
        Leads-first _ _ (commit_decision-Leads t _ a (returned_step t moment was)) λ _.
          search (keeps_rules, snapshot_only env (Decided t), event_only env (Decided t)) depth 12

  find-Leads :
      (k : Ident) (t : ResponseTask)
      → find_task k l ≡ some t
      → (s : Store) → Before t s
      → get_task k s ≡ (ok t, s)
  unfolding get_task ◌>>=◌
  find-Leads k t e s h = rw (h, e) refl

  decide_task-Leads :
      (k : Ident) (r : ApprovalRequest) (t : ResponseTask)
      → find_task k l ≡ some t
      → Leads (Before t) (decide_task env k r) (After t)
  unfolding decide_task
  decide_task-Leads k r t e = Leads-require _ _ _ (nothing_yet t) λ role.
      Leads-known _ _ t (find-Leads k t e) (
        Leads-then _ _ (nothing_yet t) (event_lookup_only env (λ m. m ≡ l) t.event_id true) λ event.
          Leads-require _ _ _ (nothing_yet t) λ was. Leads-require _ _ _ (nothing_yet t) λ version.
            Leads-require _ _ _ (nothing_yet t) λ command.
              Leads-require _ _ _ (nothing_yet t) λ own.
                Leads-then _ _ (nothing_yet t) (rules_only env (λ m. m ≡ l) t r.base) λ evaluation.
                  Leads-require _ _ _ (nothing_yet t) λ passed.
                    Leads-then _ _ (nothing_yet t) (uuid_only env (λ m. m ≡ l) apr) λ approval_id.
                      Leads-then _ _ (nothing_yet t) (clock_only env (λ m. m ≡ l)) λ moment.
                        Leads-choose _ _ _ (approve-Leads t r _ (pending_lem t.status was) refl)
                          (send_back-Leads t r _ (pending_lem t.status was)))

decide_task_missing :
    (env : Env) (k : Ident) (r : ApprovalRequest) (s : Store)
    → find_task k s.tasks ≡ none
    → (decide_task env k r s).1.tasks ≡ s.tasks
unfolding decide_task ◌>>=◌ get_task
decide_task_missing env k r s e = ground arith

pub decide_task-Effect :
    (env : Env) (k : Ident) (r : ApprovalRequest) (s : Store)
    → Effect env s (decide_task env k r s).1
decide_task-Effect env k r s =
    Effect-of_task env k s (decide_task env k r s).1 (decide_task_missing env k r s)
      λ t e. (decide_task-Leads env s.tasks k r t e).at s refl
