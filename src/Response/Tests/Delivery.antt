-- ===== src/Response/Tests/Delivery.antt =====
-- Sending, sweeping and feedback on small stores.
use flood_agent.Base.{
  Text, ◌&&◌, text_eq, false, true, not, ◌≡◌, ◌⊎◌, ◌↔◌, refl, some, none, is_some, List, [], ◌∷◌,
  map, filter_by, All, strip,
}
use flood_agent.Response.Enums.{
  liaison, duty_officer, external_service, TaskStatus, issued, acknowledged, escalated, active,
  OutboxStatus, completion,
}
use flood_agent.Response.Enums
use flood_agent.Response.Transitions.{can_transition}
use flood_agent.Response.Task.{ResponseTask}
use flood_agent.Response.Requests.{simulated_dispatch, FeedbackRequest}
use flood_agent.Response.Records.{
  FeatureFlagSetting, OutboxMessage, CallbackPayload, DispatchCallbackRecord, dispatch_key,
  external_key, normal, timeout,
}
use flood_agent.Response.Store.{list_tasks, Store}
use flood_agent.Response.Exec.{ok, ◌>>=◌}
use flood_agent.Response.Guards.{
  edit_roles, get_task, get_event, execution_roles, is_closed, is_truthy, is_ident,
  is_field_operator,
}
use flood_agent.Response.Execution.{in_execution}
use flood_agent.Response.Dispatch.{
  gateway_actor, dispatch_outbox_message, record_dispatch_callback, is_settled, send_message,
  in_production, reach_gateway, receive_reply, record_callbacks, store_callback,
}
use flood_agent.Response.Gateway.{gateway_dispatch}
use flood_agent.Response.Dispatch.Once.{
  IsWaiting, dispatch_outbox_message-once, record_dispatch_callback-once,
}
use flood_agent.Response.Feedback.{
  asks_for_help, classify_feedback, is_completion_category, missing_evidence_types, submit_feedback,
  take_feedback, accept_feedback, store_feedback, apply_feedback, escalation_text,
}
use flood_agent.Response.Feedback.Verdict.{IsCompletion, classify_feedback-completion_iff}
use flood_agent.Response.Feedback.Refused.{submit_feedback-lost}
use flood_agent.Response.Sweep.{overdue_type, run_deadline_sweep}
use flood_agent.Response.Sweep.Complete.{run_deadline_sweep_complete}
use flood_agent.Response.Timeline.{record_entry}
use flood_agent.Response.Flags.{applies, is_feature_enabled, on_by_default}
use flood_agent.Response.Flags.Precedence.{Unbeaten, is_feature_enabled_cases}
use flood_agent.Response.Dispatch.{production}
use flood_agent.Response.Tests.{event_in, test_env, task_in, holding, act_as, returned_or}

abbrev waiting_message : OutboxMessage
waiting_message = record {
  message_id = 61;
  event_id = 1;
  task_id = 5;
  idempotency_key = dispatch_key 5 3 4;
  payload_hash = 4;
  approval_id = 62;
  task_version = 3;
  status = OutboxStatus.pending;
  attempts = 0;
  last_error = none;
  simulation_scenario = normal;
  gateway_status = none;
  external_request_id = none;
  trace_id = none;
  callback_count = 0;
  created_at = 90;
  updated_at = 90;
  sent_at = none;
}

abbrev outbox_store : Store
outbox_store = record (holding active (task_in issued ∷ [])) {
  outbox_messages = waiting_message ∷ [];
}

abbrev sent_message : OutboxMessage
sent_message =
    returned_or waiting_message
      (dispatch_outbox_message test_env waiting_message normal outbox_store).0

dispatch_outbox_message-once_example :
    (dispatch_outbox_message test_env sent_message timeout outbox_store
      ≡ (ok sent_message, outbox_store))
    ⊎ IsWaiting sent_message
unfolding dispatch_outbox_message is_settled send_message get_task in_production reach_gateway
    receive_reply gateway_dispatch record_callbacks record_dispatch_callback store_callback strip
    record_entry ◌>>=◌
dispatch_outbox_message-once_example =
    dispatch_outbox_message-once test_env waiting_message sent_message normal outbox_store
      outbox_store timeout refl

abbrev payload : CallbackPayload
payload = record {
  external_id = 71;
  source = 75;
  version = 1;
  event_time = 95;
  received_time = none;
  request_id = 72;
  trace_id = 73;
  idempotency_key = external_key 74;
  status = Enums.DispatchCallbackStatus.delivered;
  error_code = none;
}

record_dispatch_callback-once_example :
    let after =
      (record_dispatch_callback test_env waiting_message payload gateway_actor outbox_store).1 in
    (c : DispatchCallbackRecord) × ((record_dispatch_callback test_env waiting_message payload
        gateway_actor outbox_store).0
      ≡ ok c)
    × ((record_dispatch_callback test_env waiting_message payload gateway_actor after).0 ≡ ok c)
    × ((record_dispatch_callback test_env waiting_message payload gateway_actor after).1.callbacks
        ≡ after.callbacks)
record_dispatch_callback-once_example =
    record_dispatch_callback-once test_env waiting_message payload gateway_actor gateway_actor
      outbox_store

abbrev swept : List ResponseTask
swept = task_in issued ∷ record (task_in acknowledged) { task_id = 6 } ∷ []

abbrev swept_store : Store
swept_store = holding active swept

run_deadline_sweep_complete_example :
    (us : List ResponseTask) × ((run_deadline_sweep test_env 1
        (act_as duty_officer)
        (some 110)
        swept_store).0
      ≡ ok us)
    × (map (λ u. u.task_id) us
        ≡ map
            (λ t. t.task_id)
            (filter_by (λ t. is_some (overdue_type t 110)) (list_tasks 1 swept_store.tasks)))
    × All (λ u. u.status ≡ escalated) us
unfolding edit_roles is_closed
run_deadline_sweep_complete_example =
    run_deadline_sweep_complete test_env 1 (act_as duty_officer) 110 swept_store (event_in active)
      refl refl refl

-- A completion report with its one piece of evidence.
abbrev completion_report : FeedbackRequest
completion_report = record {
  base = act_as liaison;
  summary = 0x61 ∷ [];
  evidence = record { type_text = some (0x70 ∷ []); value_text = none; url_text = none } ∷ [];
  blocked_reason = none;
  resource_gap = none;
  completion_percent = none;
}

classify_feedback-completion_iff_example :
    (classify_feedback completion_report ≡ completion) ↔ IsCompletion completion_report
classify_feedback-completion_iff_example = classify_feedback-completion_iff completion_report

abbrev early_store : Store
early_store = holding active (task_in acknowledged ∷ [])

-- The store after the refused report, with the task started in the meantime.
abbrev started_store : Store
started_store = record (submit_feedback test_env 5 completion_report early_store).1 {
  tasks = task_in Enums.TaskStatus.in_progress ∷ [];
}

submit_feedback-lost_example :
    (submit_feedback test_env 5 completion_report started_store).1.tasks ≡ started_store.tasks
unfolding submit_feedback take_feedback accept_feedback store_feedback apply_feedback get_task
    get_event is_closed execution_roles is_truthy is_ident is_field_operator in_execution
    classify_feedback asks_for_help is_completion_category missing_evidence_types escalation_text
    can_transition strip ◌>>=◌
submit_feedback-lost_example =
    submit_feedback-lost test_env 5 completion_report early_store started_store refl refl

-- A setting for every event turns the dispatch off, and one for the event 1 turns it on.
abbrev two_settings : List FeatureFlagSetting
two_settings =
    record {
      flag_key = simulated_dispatch;
      enabled = false;
      environment = 0x64 ∷ 0x65 ∷ 0x76 ∷ [];
      event_id = none;
      role = none;
      scenario = none;
      version = 4;
      reason = [];
      updated_by = 2;
      terminal_id = 9;
      updated_at = 10;
    }
    ∷ record {
      flag_key = simulated_dispatch;
      enabled = true;
      environment = 0x64 ∷ 0x65 ∷ 0x76 ∷ [];
      event_id = some 1;
      role = none;
      scenario = none;
      version = 1;
      reason = [];
      updated_by = 2;
      terminal_id = 9;
      updated_at = 10;
    }
    ∷ []

is_feature_enabled_cases_example :
    let place : Text = 0x64 ∷ 0x65 ∷ 0x76 ∷ [] in
    let candidates = filter_by (applies simulated_dispatch place (some 1) none none) two_settings in
    let enabled = is_feature_enabled two_settings simulated_dispatch place (some 1) none none in
    ((candidates ≡ [])
      × (enabled ≡ (not (text_eq place production) && on_by_default simulated_dispatch)))
    ⊎ ((f : FeatureFlagSetting) × (applies simulated_dispatch place (some 1) none none f ≡ true)
        × Unbeaten f candidates
        × (enabled ≡ f.enabled))
is_feature_enabled_cases_example =
    is_feature_enabled_cases two_settings simulated_dispatch (0x64 ∷ 0x65 ∷ 0x76 ∷ []) (some 1) none
      none
