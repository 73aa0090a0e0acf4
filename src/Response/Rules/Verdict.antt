-- ===== src/Response/Rules/Verdict.antt =====
-- What the rules decide, told without the list of checks.
use flood_agent.Base.{◌≡◌, arith, not, ◌&&◌, ◌||◌, Option, mem}
use flood_agent.Response.Task.{ResponseTask}
use flood_agent.Response.Records.{EventRiskObject, EvidencePackageVersion}
use flood_agent.Response.Rules.{
  is_confirmed, deadline_valid, required_complete, package_ok, is_bound, rule_checks,
  overall_outcome,
}
use flood_agent.Response.Drafting.{is_blocking}

-- The list of checks blocks a task exactly when one of these fails: the risk object is confirmed,
-- the deadlines are in order, the required fields are filled in, a draft of the model has an intact
-- frozen evidence package that binds its critical fields, and the task does not depend on itself.
pub rule_checks-blocking_iff :
    (t : ResponseTask) (o : Option EventRiskObject) (p : Option EvidencePackageVersion)
    → is_blocking (overall_outcome (rule_checks t o p))
      ≡ not (
          is_confirmed o
          && deadline_valid t
          && required_complete t
          && (not t.generated_by_ai || package_ok t p && is_bound t p)
          && not (mem t.task_id t.dependencies))
unfolding rule_checks is_blocking
rule_checks-blocking_iff t o p = ground arith
