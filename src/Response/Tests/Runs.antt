-- ===== src/Response/Tests/Runs.antt =====
-- Runs of the service from small stores.
use flood_agent.Base.{
  none, ◌≡◌, ◌≢◌, ◌↔◌, refl, arith, true, some, List, [], ◌∷◌, ◌++◌, length, All, filter_by,
}
use flood_agent.Response.Enums.{
  duty_officer, commander, liaison, auditor, draft, issued, acknowledged, completed, active,
}
use flood_agent.Response.Transitions.{is_terminal, can_transition}
use flood_agent.Response.Task.{ResponseTask, payload_of}
use flood_agent.Response.Store.{Store, find_task, list_timeline}
use flood_agent.Response.Exec.{err, payload_mismatch, ◌>>=◌}
use flood_agent.Response.Guards.{
  get_task, get_event, transition, is_truthy, is_ident, execution_roles, version_fits, is_closed,
  is_commander,
}
use flood_agent.Response.Execution.{
  acknowledge_task, acknowledgeable, payload_intact, task_payload_hash,
}
use flood_agent.Response.Ending.{waive_task, waive_open, already_over}
use flood_agent.Response.Timeline.{
  task_event, record_entry, integrity_report, TimelineIntegrityReport, genesis,
}
use flood_agent.Response.Entry.{TimelineEntry}
use flood_agent.Response.Timeline.Verified.{integrity_report_unique, integrity_report-verified_iff}
use flood_agent.Response.Timeline.Chain.{
  IsChained, ClockMonotone, DigestsNonempty, IsLinked, in_event,
}
use flood_agent.Response.Integrity.{verify_timeline_integrity, verifying_roles}
use flood_agent.Response.Service.{Call, sweep, submit, acknowledge, cancel, waive, serve, serve_all}
use flood_agent.Response.Service.Life.{Descends, serve_all-Descends}
use flood_agent.Response.Service.Moves.{Moves, statuses, statuses-Moves}
use flood_agent.Response.Service.Growth.{NoRepeat, FreshIds}
use flood_agent.Response.Service.Fixed.{
  AllFixed, is_released, serve_all-payload_intact, serve_all-terminal,
}
use flood_agent.Response.Service.Audit.{serve_all-verified}
use flood_agent.Response.Service.Append.{IsSealed, serve_all-append_only}
use flood_agent.Response.Tests.{test_env, task_in, holding, act_as}

test_NoRepeat : NoRepeat test_env
test_NoRepeat m n e = ground arith

draft-FreshIds : FreshIds test_env (holding active (task_in draft ∷ []))
draft-FreshIds = (test_NoRepeat, λ n h. ground arith)

completed-FreshIds : FreshIds test_env (holding active (task_in completed ∷ []))
completed-FreshIds = (test_NoRepeat, λ n h. ground arith)

abbrev draft_calls : List Call
draft_calls =
    submit 5 (act_as duty_officer)
    ∷ acknowledge 5 (act_as liaison)
    ∷ sweep 1 (act_as duty_officer) none
    ∷ []

serve_all-Descends_example :
    (u : ResponseTask) × (find_task 5
        (serve_all test_env draft_calls (holding active (task_in draft ∷ []))).tasks
      ≡ some u)
    × Descends test_env (task_in draft) u
serve_all-Descends_example =
    serve_all-Descends test_env 5 (task_in draft) draft_calls (holding active (task_in draft ∷ []))
      (tt, tt) draft-FreshIds refl

statuses-Moves_example :
    Moves draft (statuses test_env 5 draft_calls (holding active (task_in draft ∷ [])))
statuses-Moves_example =
    statuses-Moves test_env 5 (task_in draft) draft_calls (holding active (task_in draft ∷ []))
      (tt, tt) draft-FreshIds refl

abbrev late_calls : List Call
late_calls = cancel 5 (act_as commander) ∷ waive 5 (act_as commander) ∷ []

serve_all-terminal_example :
    (u : ResponseTask) × (find_task 5
        (serve_all test_env late_calls (holding active (task_in completed ∷ []))).tasks
      ≡ some u)
    × (u.status ≡ completed)
    × (payload_of u ≡ payload_of (task_in completed))
unfolding is_terminal
serve_all-terminal_example =
    serve_all-terminal test_env 5 (task_in completed) late_calls
      (holding active (task_in completed ∷ [])) (tt, tt) completed-FreshIds refl refl

issued_fixed : AllFixed test_env (task_in issued ∷ [])
issued_fixed k t found released = ground arith

abbrev issued_store : Store
issued_store = holding active (task_in issued ∷ [])

issued-FreshIds : FreshIds test_env issued_store
issued-FreshIds = (test_NoRepeat, λ n h. ground arith)

abbrev one_call : List Call
one_call = acknowledge 5 (act_as liaison) ∷ []

abbrev acknowledged_task : ResponseTask
acknowledged_task = record (task_in acknowledged) { updated_at = 100 }

serve_all-payload_intact_example :
    (acknowledged_task.approval_payload_hash ≡ some (task_payload_hash test_env acknowledged_task))
    × (acknowledged_task.approved_version ≡ some 3)
    × ((acknowledge_task test_env 5 (act_as liaison) (serve_all test_env one_call issued_store)).0
        ≢ err payload_mismatch)
unfolding serve_all serve acknowledge_task transition get_task get_event payload_intact is_truthy
    is_ident acknowledgeable execution_roles version_fits is_closed can_transition task_event
    record_entry ◌>>=◌ is_released
serve_all-payload_intact_example =
    serve_all-payload_intact test_env one_call issued_store 5 acknowledged_task (act_as liaison)
      (tt, tt) issued-FreshIds issued_fixed refl refl

test_clock : ClockMonotone test_env
test_clock m n h = omega arith

test_digest : DigestsNonempty test_env
test_digest b = ground arith

issued-IsChained : IsChained test_env issued_store
issued-IsChained = record { linked = λ k. tt; ordered = tt; past = tt }

abbrev waive_call : List Call
waive_call = waive 5 (act_as commander) ∷ []

abbrev waived_store : Store
waived_store = serve_all test_env waive_call issued_store

abbrev waived_report : TimelineIntegrityReport
waived_report =
    integrity_report test_env 1 (list_timeline 1 waived_store.timeline)
      (test_env.clock waived_store.ticks)

serve_all-verified_example :
    (waived_report.is_verified ≡ true)
    × (waived_report.verified_entries ≡ waived_report.total_entries)
unfolding serve_all serve waive_task waive_open already_over is_commander get_task version_fits
    is_terminal can_transition task_event record_entry ◌>>=◌ verify_timeline_integrity
    verifying_roles get_event is_closed
serve_all-verified_example =
    serve_all-verified test_env waive_call issued_store 1 auditor waived_report test_clock
      test_digest issued-IsChained refl

serve_all-append_only_example :
    (l : List TimelineEntry) × (waived_store.timeline ≡ issued_store.timeline ++ l)
    × All (IsSealed test_env) l
    × (list_timeline 1 waived_store.timeline
        ≡ list_timeline 1 issued_store.timeline ++ filter_by (in_event 1) l)
serve_all-append_only_example =
    serve_all-append_only test_env waive_call issued_store 1 test_clock test_digest issued-IsChained

-- The ledger that the call leaves.
abbrev waived_ledger : List TimelineEntry
waived_ledger = list_timeline 1 waived_store.timeline

integrity_report_unique_example : waived_ledger ≡ waived_ledger
unfolding serve_all serve waive_task waive_open already_over is_commander get_task version_fits
    is_terminal can_transition task_event record_entry ◌>>=◌ integrity_report
integrity_report_unique_example =
    integrity_report_unique test_env 1 waived_ledger waived_ledger 200 test_digest (λ e. refl, tt)
      refl refl refl refl

integrity_report-verified_iff_example :
    ((integrity_report test_env 1 waived_ledger 200).is_verified ≡ true
      ↔ IsLinked test_env genesis waived_ledger)
    × ((integrity_report test_env 1 waived_ledger 200).is_verified ≡ true
        → (integrity_report test_env 1 waived_ledger 200).verified_entries ≡ length waived_ledger)
integrity_report-verified_iff_example =
    integrity_report-verified_iff test_env 1 waived_ledger 200 test_digest
