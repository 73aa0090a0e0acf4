-- ===== src/Response/Service/Kept.antt =====
-- What every method keeps, a whole run of calls keeps.
use flood_agent.Base.{List, [], ◌∷◌, All}
use flood_agent.Response.Store.{Env, Store}
use flood_agent.Response.Records.{EventRiskObject}
use flood_agent.Response.Exec.{save_object}
use flood_agent.Response.Exec.Keeps.{Keeps}
use flood_agent.Response.Alerts.{append_alert}
use flood_agent.Response.Objects.{add_risk_objects, verify_risk_object}
use flood_agent.Response.Revisions.{
  create_event-Keeps, freeze-Keeps, append_alert-Keeps, update_feature_flag-Keeps,
  add_risk_objects-Keeps, verify_risk_object-Keeps,
}
use flood_agent.Response.Ledger.Revisions.{LedgerLaw-Allows}
use flood_agent.Response.Ledger.{LedgerLaw}
use flood_agent.Response.Ledger.Methods.{
  acknowledge_task-Keeps, start_task-Keeps, assign_task-Keeps, cancel_task-Keeps,
  take_over_task-Keeps, waive_task-Keeps, verify_completion-Keeps, create_task-Keeps,
  update_task-Keeps, submit_task-Keeps, request_deadline_extension-Keeps,
  decide_deadline_extension-Keeps,
}
use flood_agent.Response.Ledger.Closing.{
  submit_feedback-Keeps, decide_task-Keeps, close_event-Keeps, generate_review_draft-Keeps,
  run_deadline_sweep-Keeps, process_outbox-Keeps, ingest_simulated_dispatch_callback-Keeps,
}
use flood_agent.Response.Service.{
  Call, update, submit, decide, acknowledge, start, assign, feedback, verify, ask_extension,
  decide_extension, cancel, take_over, waive, sweep, close, draft_review, process, ingest,
  create_draft, freeze, create, append, add_objects, verify_object, set_flag, serve, serve_all,
}

module _ (env : Env) (P : Store → Type 0) (law : LedgerLaw env P) where
  -- What a call that writes risk objects has to satisfy.
  abbrev pub OwnKeeps : Call → Type 0
  OwnKeeps (append k r) = (s : Store) → P s → P (append_alert env k r s).1
  OwnKeeps (add_objects k r) = (s : Store) → P s → P (add_risk_objects env k r s).1
  OwnKeeps (verify_object k i r) = (s : Store) → P s → P (verify_risk_object env k i r s).1
  OwnKeeps _ = Unit

  serve-Keeps : (c : Call) → OwnKeeps c → (s : Store) → P s → P (serve env c s)
  unfolding serve
  serve-Keeps (update k r) own s h = (update_task-Keeps env P law k r).at s h
  serve-Keeps (submit k r) own s h = (submit_task-Keeps env P law k r).at s h
  serve-Keeps (decide k r) own s h = (decide_task-Keeps env P law k r).at s h
  serve-Keeps (acknowledge k r) own s h = (acknowledge_task-Keeps env P law k r).at s h
  serve-Keeps (start k r) own s h = (start_task-Keeps env P law k r).at s h
  serve-Keeps (assign k r) own s h = (assign_task-Keeps env P law k r).at s h
  serve-Keeps (feedback k r) own s h = (submit_feedback-Keeps env P law k r).at s h
  serve-Keeps (verify k b r) own s h = (verify_completion-Keeps env P law k b r).at s h
  serve-Keeps (ask_extension k r) own s h = (request_deadline_extension-Keeps env P law k r).at s h
  serve-Keeps (decide_extension k r) own s h =
      (decide_deadline_extension-Keeps env P law k r).at s h
  serve-Keeps (cancel k r) own s h = (cancel_task-Keeps env P law k r).at s h
  serve-Keeps (take_over k r) own s h = (take_over_task-Keeps env P law k r).at s h
  serve-Keeps (waive k r) own s h = (waive_task-Keeps env P law k r).at s h
  serve-Keeps (sweep k r moment) own s h = (run_deadline_sweep-Keeps env P law k r moment).at s h
  serve-Keeps (close k r) own s h = (close_event-Keeps env P law k r).at s h
  serve-Keeps (draft_review k r) own s h = (generate_review_draft-Keeps env P law k r).at s h
  serve-Keeps (process r) own s h = (process_outbox-Keeps env P law r).at s h
  serve-Keeps (ingest r) own s h = (ingest_simulated_dispatch_callback-Keeps env P law r).at s h
  serve-Keeps (create_draft k r) own s h = (create_task-Keeps env P law k r).at s h
  serve-Keeps (freeze k r) own s h = (freeze-Keeps env P (LedgerLaw-Allows env P law) k r).at s h
  serve-Keeps (create r) own s h = (create_event-Keeps env P (LedgerLaw-Allows env P law) r).at s h
  serve-Keeps (append k r) own s h = own s h
  serve-Keeps (add_objects k r) own s h = own s h
  serve-Keeps (verify_object k i r) own s h = own s h
  serve-Keeps (set_flag r) own s h =
      (update_feature_flag-Keeps env P (LedgerLaw-Allows env P law) r).at s h

  pub serve_all-Keeps :
      (cs : List Call) → All OwnKeeps cs → (s : Store) → P s → P (serve_all env cs s)
  unfolding serve_all
  serve_all-Keeps [] own s h = h
  serve_all-Keeps (c ∷ cs) own s h =
      serve_all-Keeps cs own.1 (serve env c s) (serve-Keeps c own.0 s h)

  module _ (writes : (o : EventRiskObject) → Keeps P (save_object o)) where
    -- Where the writes of risk objects keep `P`, so do the calls that write them.
    own_kept : (c : Call) → OwnKeeps c
    own_kept (append k r) =
        (append_alert-Keeps env P (LedgerLaw-Allows env P law) (λ o e. writes o) k r).at
    own_kept (add_objects k r) =
        (add_risk_objects-Keeps env P (LedgerLaw-Allows env P law) k (λ o e. writes o) r).at
    own_kept (verify_object k i r) =
        (verify_risk_object-Keeps env P (LedgerLaw-Allows env P law) k i r writes).at
    own_kept _ = tt

    all_kept : (cs : List Call) → All OwnKeeps cs
    all_kept [] = tt
    all_kept (c ∷ cs) = (own_kept c, all_kept cs)

    pub serve_all-Keeps_always : (cs : List Call) (s : Store) → P s → P (serve_all env cs s)
    serve_all-Keeps_always cs s h = serve_all-Keeps cs (all_kept cs) s h
