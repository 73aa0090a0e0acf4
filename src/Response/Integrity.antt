-- ===== src/Response/Integrity.antt =====
-- `verify_timeline_integrity` of flood_system/response_workflow/service.py.
use flood_agent.Base.{Bool, true, false, Ident}
use flood_agent.Response.Enums.{OperatorRole, reviewer, commander, auditor, admin}
use flood_agent.Response.Store.{Env, list_timeline}
use flood_agent.Response.Exec.{M, pure, gets, now, ◌>>=◌, ◌>>◌}
use flood_agent.Response.Guards.{require_role, get_event}
use flood_agent.Response.Timeline.{TimelineIntegrityReport, integrity_report}

unfoldable pub verifying_roles : OperatorRole → Bool
verifying_roles reviewer = true
verifying_roles commander = true
verifying_roles auditor = true
verifying_roles admin = true
verifying_roles _ = false

unfoldable pub verify_timeline_integrity : Env → Ident → OperatorRole → M TimelineIntegrityReport
verify_timeline_integrity env event_id role = do
  require_role role verifying_roles
  get_event event_id false
  entries ← gets (λ s. list_timeline event_id s.timeline)
  moment ← now env
  pure (integrity_report env event_id entries moment)
