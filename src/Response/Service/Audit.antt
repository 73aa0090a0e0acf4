-- ===== src/Response/Service/Audit.antt =====
-- The audit ledger over a whole run of the service.
use flood_agent.Base.{arith, ◌≡◌, refl, true, List, Ident, Time}
use flood_agent.Response.Store.{Env, Store, list_timeline}
use mathlib.Core.Path.{subst, sym}
use flood_agent.Response.Enums.{OperatorRole}
use flood_agent.Response.Exec.{ok, save_object, ◌>>=◌}
use flood_agent.Response.Guards.{get_event}
use flood_agent.Response.Timeline.{TimelineIntegrityReport, genesis, integrity_report}
use flood_agent.Response.Integrity.{verify_timeline_integrity}
use flood_agent.Response.Timeline.Chain.{
  IsLinked, IsChained, ClockMonotone, DigestsNonempty, list_timeline-IsChained, tick-IsChained,
  record_entry-IsChained,
}
use flood_agent.Response.Timeline.Verified.{integrity_report-verified_iff}
use flood_agent.Response.Service.{Call, serve_all}
use flood_agent.Response.Service.Kept.{serve_all-Keeps_always}
use flood_agent.Response.Ledger.{LedgerLaw}

-- The hash chains stand when the clock is read and when an entry is recorded.
recording_chains :
    (env : Env) → ClockMonotone env → DigestsNonempty env → LedgerLaw env (IsChained env)
recording_chains env mono nonempty = record {
  waits = λ s t same objects later more h. tick-IsChained env s t mono h same later;
  records = λ a s h. record_entry-IsChained env a s mono nonempty h;
}

pub serve_all-IsChained :
    (env : Env) (cs : List Call) (s : Store)
    → ClockMonotone env
    → DigestsNonempty env
    → IsChained env s
    → IsChained env (serve_all env cs s)
unfolding save_object
serve_all-IsChained env cs s mono nonempty h =
    serve_all-Keeps_always env (IsChained env) (recording_chains env mono nonempty)
      (λ o. record { at = λ t h. tick-IsChained env t _ mono h refl (omega arith) }) cs s h

report_of :
    (env : Env) (k : Ident) (role : OperatorRole) (s : Store) (report : TimelineIntegrityReport)
    → (verify_timeline_integrity env k role s).0 ≡ ok report
    → integrity_report env k (list_timeline k s.timeline) (env.clock s.ticks) ≡ report
unfolding verify_timeline_integrity ◌>>=◌ get_event
report_of env k role s report h = ground arith

chained_report :
    (env : Env) (k : Ident) (s : Store) (moment : Time)
    → DigestsNonempty env
    → IsChained env s
    → let report = integrity_report env k (list_timeline k s.timeline) moment in
      (report.is_verified ≡ true) × (report.verified_entries ≡ report.total_entries)
unfolding integrity_report
chained_report env k s moment nonempty h =
    let fine = integrity_report-verified_iff env k (list_timeline k s.timeline) moment nonempty in
    let verified =
      fine.0.1
        (subst (IsLinked env genesis) (sym (list_timeline-IsChained env k s h)) (h.linked k)) in
    (verified, fine.1 verified)

-- The audit ledger stays verifiable: where the clock does not run backwards and no digest is empty,
-- from a store whose ledgers are hash chains, after any sequence of calls, every report that
-- `verify_timeline_integrity` returns says that the ledger is verified and counts all of its
-- entries as verified.
pub serve_all-verified :
    (env : Env) (cs : List Call) (s : Store) (k : Ident) (role : OperatorRole)
    (report : TimelineIntegrityReport)
    → ClockMonotone env
    → DigestsNonempty env
    → IsChained env s
    → (verify_timeline_integrity env k role (serve_all env cs s)).0 ≡ ok report
    → (report.is_verified ≡ true) × (report.verified_entries ≡ report.total_entries)
serve_all-verified env cs s k role report mono nonempty h result =
    let s' = serve_all env cs s in
    subst (λ x. (x.is_verified ≡ true) × (x.verified_entries ≡ x.total_entries))
      (report_of env k role s' report result)
      (chained_report env k s' (env.clock s'.ticks) nonempty
        (serve_all-IsChained env cs s mono nonempty h))
