-- ===== src/Response/Rules.antt =====
-- The rules that a task must pass before it is submitted and approved: `_evaluate_task_rules` of
-- flood_system/response_workflow/service.py, with the field names of evidence_governance.py.
pub mod Verdict
use flood_agent.Base.{
  ◌≡◌, refl, ℕ, Bool, true, false, not, ◌&&◌, ◌||◌, Option, none, some, List, [], ◌∷◌, ◌++◌, ◌==◌,
  leb, if◌then◌else◌, Ident, Time, mem, any, all, find, filter_by, is_empty, strip, with_default,
  last?, map,
}
use flood_agent.Response.Enums.{
  ObjectVerificationStatus, confirmed, RuleOutcome, pass, soft_warning, hard_block,
}
use flood_agent.Response.Task.{
  FieldName, trigger_condition, risk_object, responsible_party, action, deadline,
  feedback_requirement, escalation_condition, field_eq, ResponseTask, TaskEvidenceRef,
}
use flood_agent.Response.Requests.{TaskActionRequest}
use flood_agent.Response.Records.{
  EventRiskObject, EvidencePackageVersion, EvidenceConflict, PackageStatus, frozen, RuleId,
  object_confirmed, deadlines_ordered, required_fields, evidence_package_frozen, evidence_bound,
  no_self_dependency, cooperation_defined, RuleCheckResult, RuleEvaluationRecord,
}
use flood_agent.Response.Entry.{task_rules_evaluated, rules_detail}
use flood_agent.Response.Store.{Env, Store, ruleeval, find_object, list_packages}
use flood_agent.Response.Exec.{ok, M, pure, gets, now, new_id, save_evaluation, ◌>>=◌, ◌>>◌}
use flood_agent.Response.Timeline.{task_event}

-- `REQUIRED_TASK_FIELDS`
abbrev pub required_task_fields : List FieldName
required_task_fields =
    trigger_condition ∷ risk_object ∷ responsible_party ∷ action ∷ deadline ∷ feedback_requirement
    ∷ escalation_condition ∷ []

unfoldable pub is_confirmed : Option EventRiskObject → Bool
is_confirmed none = false
is_confirmed (some o) = elim o.verification_status [ confirmed ↦ true | _ ↦ false ]

unfoldable pub deadline_valid : ResponseTask → Bool
deadline_valid t =
    let start = with_default t.start_deadline_at t.deadline_at in
    let verification = with_default t.verification_deadline_at t.deadline_at in
    leb t.acknowledge_deadline_at start && leb start t.deadline_at && leb t.deadline_at verification

unfoldable pub required_complete : ResponseTask → Bool
required_complete t =
    not (is_empty (strip t.title))
    && not (is_empty (strip t.action))
    && not (is_empty t.required_evidence)
    && not (is_empty t.plan_basis)

unfoldable pub is_frozen : PackageStatus → Bool
is_frozen frozen = true
is_frozen _ = false

abbrev is_hash : Option Ident → Ident → Bool
is_hash none h = false
is_hash (some a) h = h == a

-- `package_ok`
abbrev pub package_ok : ResponseTask → Option EvidencePackageVersion → Bool
package_ok t none = false
package_ok t (some p) =
    is_frozen p.status
    && all (λ c. c.is_resolved) p.conflicts
    && is_empty p.blocking_missing_fields
    && is_hash t.evidence_package_hash p.content_hash

-- `package.field_evidence_map.get(field)`
abbrev field_sources : FieldName → List (FieldName × List Ident) → List Ident
field_sources f [] = []
field_sources f ((g, ids) ∷ m) = if field_eq f g then ids else field_sources f m

-- `field_support.get(field, 0)`
abbrev support_of : FieldName → List (FieldName × ℕ) → ℕ
support_of f [] = 0
support_of f ((g, score) ∷ m) = if field_eq f g then score else support_of f m

-- `evidence_by_id.get(source_id)`: a later entry of the same key has replaced an earlier one.
abbrev evidence_of : Ident → List TaskEvidenceRef → Option TaskEvidenceRef
evidence_of k l = last? (filter_by (λ e. e.source_id == k) l)

-- The entry has a locator, and supports the field by at least 0.18.
abbrev supports : FieldName → Option TaskEvidenceRef → Bool
supports f none = false
supports f (some e) = not (e.source_locator == 0) && leb 1800 (support_of f e.field_support)

abbrev package_sources : Option EvidencePackageVersion → List (FieldName × List Ident)
package_sources none = []
package_sources (some p) = p.field_evidence_map

-- `bound`
unfoldable pub is_bound : ResponseTask → Option EvidencePackageVersion → Bool
is_bound t p =
    not (is_empty t.source_evidence)
    && all
        (λ f.
          any (λ k. supports f (evidence_of k t.source_evidence))
            (field_sources f (package_sources p)))
        required_task_fields

abbrev block_unless : Bool → RuleId → RuleCheckResult
block_unless b rule = record { rule_id = rule; outcome = if b then pass else hard_block }

-- The list `checks`, in the order of the calls of `add`.
unfoldable pub rule_checks :
    ResponseTask → Option EventRiskObject → Option EvidencePackageVersion → List RuleCheckResult
unfolding deadline_valid required_complete is_bound
rule_checks t object bundle =
    let package_checks : List RuleCheckResult =
      if t.generated_by_ai
      then block_unless (package_ok t bundle) evidence_package_frozen
        ∷ block_unless (is_bound t bundle) evidence_bound
        ∷ []
      else [] in
    block_unless (is_confirmed object) object_confirmed
    ∷ block_unless (deadline_valid t) deadlines_ordered
    ∷ block_unless (required_complete t) required_fields
    ∷ (package_checks
        ++ block_unless (not (mem t.task_id t.dependencies)) no_self_dependency
          ∷ record {
            rule_id = cooperation_defined;
            outcome = if is_empty t.cooperate_roles then soft_warning else pass;
          }
          ∷ [])

abbrev pub is_hard_block : RuleCheckResult → Bool
is_hard_block c = elim c.outcome [ hard_block ↦ true | _ ↦ false ]

abbrev pub is_soft_warning : RuleCheckResult → Bool
is_soft_warning c = elim c.outcome [ soft_warning ↦ true | _ ↦ false ]

-- `overall`
abbrev pub overall_outcome : List RuleCheckResult → RuleOutcome
overall_outcome checks =
    if any is_hard_block checks
    then hard_block
    else (if any is_soft_warning checks then soft_warning else pass)

-- `next(item for item in reversed(packages) if item.package_id == task.evidence_package_id)`
abbrev pub package_of : ResponseTask → List EvidencePackageVersion → Option EvidencePackageVersion
package_of t l = last? (filter_by (λ p. is_hash t.evidence_package_id p.package_id) l)

abbrev rules_of : (RuleCheckResult → Bool) → List RuleCheckResult → List RuleId
rules_of p checks = map (λ c. c.rule_id) (filter_by p checks)

-- The checks against the tables as they stand.
unfoldable pub current_checks : ResponseTask → Store → List RuleCheckResult
current_checks task s =
    rule_checks task (find_object task.event_id task.object_id s.objects)
      (package_of task (list_packages task.event_id task.object_id s.packages))

-- `RULE_SET_VERSION`, the text "response-rules-v2"
abbrev pub current_rule_set : Ident
current_rule_set = 6

-- The record that the evaluation stores.
unfoldable pub evaluation_of : Env → ResponseTask → TaskActionRequest → Store → RuleEvaluationRecord
evaluation_of env task request s = record {
  evaluation_id = env.uuid ruleeval s.minted;
  event_id = task.event_id;
  task_id = task.task_id;
  task_version = task.version;
  rule_set_version = current_rule_set;
  overall_outcome = overall_outcome (current_checks task s);
  checks = current_checks task s;
  evaluated_by = request.operator_id;
  terminal_id = request.terminal_id;
  created_at = env.clock s.ticks;
}

-- `_evaluate_task_rules`
unfoldable pub evaluate_task_rules : Env → ResponseTask → TaskActionRequest → M RuleEvaluationRecord
evaluate_task_rules env task request = do
  evaluation ← gets (evaluation_of env task request)
  new_id env ruleeval
  now env
  save_evaluation evaluation
  task_event env task task_rules_evaluated request none (
      rules_detail evaluation.evaluation_id evaluation.overall_outcome
        (rules_of is_hard_block evaluation.checks) (rules_of is_soft_warning evaluation.checks))
  pure evaluation

pub evaluate_task_rules_lem :
    (env : Env) (t : ResponseTask) (r : TaskActionRequest) (s : Store)
    → ((evaluate_task_rules env t r s).0 ≡ ok (evaluation_of env t r s))
      × ((evaluate_task_rules env t r s).1.tasks ≡ s.tasks)
unfolding evaluate_task_rules ◌>>=◌ task_event
evaluate_task_rules_lem env t r s = (refl, refl)
