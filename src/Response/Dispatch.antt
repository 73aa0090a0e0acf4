-- ===== src/Response/Dispatch.antt =====
-- The outbox: `_dispatch_outbox_message`, `_record_dispatch_callback`, `process_outbox`,
-- `ingest_simulated_dispatch_callback` and `is_feature_enabled` of
-- flood_system/response_workflow/service.py.
pub mod Keeps
pub mod Once
use flood_agent.Base.{
  ℕ, zero, suc, ◌+◌, Bool, true, false, not, ◌&&◌, ◌||◌, Option, none, some, List, [], ◌∷◌, ◌==◌,
  leb, ltb, if◌then◌else◌, Ident, Time, Text, text_eq, strip, any, filter_by, length, is_empty,
  or_else,
}
use flood_agent.Response.Enums.{
  OperatorRole, external_service, admin, liaison, commander, OutboxStatus, sent, partially_sent,
  manual_takeover, CallbackSequenceState, in_order, out_of_order, DispatchCallbackStatus,
}
use flood_agent.Response.Enums
use flood_agent.Response.Task.{ResponseTask}
use flood_agent.Response.Requests.{TaskActionRequest}
use flood_agent.Response.Records.{
  Scenario, DispatchError, payload_hash_mismatch, gateway_disabled, gateway_timeout, OutboxMessage,
  CallbackPayload, DispatchCallbackRecord, FeatureFlagSetting, GatewayStatus,
}
use flood_agent.Response.Records
use flood_agent.Response.Entry.{
  dispatch, dispatch_callback, Action, simulated_dispatch_timeout, simulated_dispatch_status,
  duplicate_dispatch_callback_ignored, out_of_order_dispatch_callback_recorded,
  dispatch_callback_recorded, StateNote, no_state, outbox_note, Detail, timeout_detail,
  dispatch_detail, ignored_detail, callback_detail,
}
use flood_agent.Response.Store.{
  Env, callback, TransportPayload, Store, find_message, find_callback, list_callbacks,
}
use flood_agent.Response.Exec.{
  Error, disabled_in_production, bad_token, message_not_found, not_simulated, unknown_scenario_name,
  M, choose, pure, raise, gets, or_raise, require, now, new_id, save_message, save_callback, ◌>>=◌,
  ◌>>◌,
}
use flood_agent.Response.Guards.{require_role, get_task}
use flood_agent.Response.Execution.{task_payload_hash}
use flood_agent.Response.Gateway.{
  Transport, Reply, answered, timed_out, no_such_scenario, GatewayResult, gateway_dispatch,
}
use flood_agent.Response.Timeline.{record_entry}

-- "production"
abbrev pub production : Text
production = b'p' ∷ b'r' ∷ b'o' ∷ b'd' ∷ b'u' ∷ b'c' ∷ b't' ∷ b'i' ∷ b'o' ∷ b'n' ∷ []

-- `os.getenv("FLOOD_ENVIRONMENT", "development").strip().lower() == "production"`
unfoldable pub in_production : Env → Bool
in_production env = text_eq (env.lower (strip env.environment)) production

-- Who a callback comes from: `actor_id`, `actor_role`, `terminal_id`.
pub record Actor : Type 0 where
  pub id : Ident
  pub role : OperatorRole
  pub terminal : Ident

-- "simulated-gateway" at the terminal "simulation-gateway"
abbrev pub gateway_actor : Actor
gateway_actor = record { id = 4; role = external_service; terminal = 5 }

-- "simulated-gateway" at the default of `_record`, "unknown-terminal"
abbrev pub dispatch_actor : Actor
dispatch_actor = record { id = 4; role = external_service; terminal = 8 }

-- `_record` for an outbox message.
abbrev message_entry :
    Env → OutboxMessage → Bool → Actor → Action → StateNote → StateNote → Detail → M (Unit {0})
message_entry env m about_callback actor action before after detail = record_entry env (record {
  event_id = m.event_id;
  task_id = some m.task_id;
  object_id = none;
  entry_type = if about_callback then dispatch_callback else dispatch;
  action = action;
  actor_id = actor.id;
  actor_role = actor.role;
  terminal_id = actor.terminal;
  before_state = before;
  after_state = after;
  detail = detail;
})

abbrev ignore_callback :
    Env
    → OutboxMessage
    → CallbackPayload
    → Actor
    → DispatchCallbackRecord
    → Bool
    → M DispatchCallbackRecord
ignore_callback env m payload actor existing is_during_insert = do
  message_entry env m true actor duplicate_dispatch_callback_ignored no_state no_state
      (ignored_detail m.message_id existing.callback_id payload.idempotency_key is_during_insert)
  pure existing

-- `previous and version <= max(item.version for item in previous)`
abbrev pub sequence_of : CallbackPayload → List DispatchCallbackRecord → CallbackSequenceState
sequence_of payload known =
    if any (λ c. c.external_id == payload.external_id && leb payload.version c.version) known
    then out_of_order
    else in_order

abbrev sequence_action : CallbackSequenceState → Action
sequence_action in_order = dispatch_callback_recorded
sequence_action out_of_order = out_of_order_dispatch_callback_recorded

-- What follows the insert: was the row that is stored now written by this call?
abbrev pub announce_callback :
    Env
    → OutboxMessage
    → CallbackPayload
    → Actor
    → DispatchCallbackRecord
    → Bool
    → M DispatchCallbackRecord
announce_callback env m payload actor saved false = ignore_callback env m payload actor saved true
announce_callback env m payload actor saved true = do
  message_entry env m true actor (sequence_action saved.sequence_state) no_state no_state
      (callback_detail m.message_id saved.callback_id payload saved.sequence_state)
  pure saved

-- `payload.get("received_time") or self._now()`
abbrev pub received_or_now : Env → Option Time → M Time
received_or_now env none = now env
received_or_now env (some moment) = pure moment

-- `_record_dispatch_callback` for a key that is not stored yet.
unfoldable pub store_callback :
    Env → OutboxMessage → CallbackPayload → Actor → M DispatchCallbackRecord
store_callback env m payload actor = do
  known ← gets (λ s. list_callbacks m.message_id s.callbacks)
  callback_id ← new_id env callback
  received ← received_or_now env payload.received_time
  created ← now env
  saved ← save_callback (record {
    callback_id = callback_id;
    message_id = m.message_id;
    event_id = m.event_id;
    task_id = m.task_id;
    payload = payload;
    received_time = received;
    sequence_state = sequence_of payload known;
    created_at = created;
  })
  announce_callback env m payload actor saved (saved.callback_id == callback_id)

abbrev pub callback_cases :
    Env
    → OutboxMessage
    → CallbackPayload
    → Actor
    → Option DispatchCallbackRecord
    → M DispatchCallbackRecord
callback_cases env m payload actor none = store_callback env m payload actor
callback_cases env m payload actor (some existing) =
    ignore_callback env m payload actor existing false

-- `_record_dispatch_callback`
unfoldable pub record_dispatch_callback :
    Env → OutboxMessage → CallbackPayload → Actor → M DispatchCallbackRecord
record_dispatch_callback env m payload actor = do
  existing ← gets (λ s. find_callback payload.idempotency_key s.callbacks)
  callback_cases env m payload actor existing

-- The loop over `result.get("callbacks", [])`.
unfoldable pub record_callbacks : Env → OutboxMessage → List CallbackPayload → M (Unit {0})
record_callbacks env m [] = pure tt
record_callbacks env m (payload ∷ rest) =
    record_dispatch_callback env m payload gateway_actor >> record_callbacks env m rest

-- The statuses of a message that is not sent again.
unfoldable pub is_settled : OutboxStatus → Bool
is_settled OutboxStatus.pending = false
is_settled _ = true

abbrev outbox_status_of : GatewayStatus → OutboxStatus
outbox_status_of GatewayStatus.rejected = OutboxStatus.failed
outbox_status_of GatewayStatus.partial_success = partially_sent
outbox_status_of _ = sent

abbrev is_out : OutboxStatus → Bool
is_out sent = true
is_out partially_sent = true
is_out _ = false

-- A message that ends without the gateway.
abbrev give_up : Env → OutboxMessage → OutboxStatus → DispatchError → M OutboxMessage
give_up env m status error = do
  moment ← now env
  let changed = record m {
    status = status;
    attempts = m.attempts + 1;
    last_error = some error;
    updated_at = moment;
  }
  save_message changed
  pure changed

abbrev transport_of : Env → ResponseTask → OutboxMessage → Time → Transport
transport_of env task m moment = record {
  external_id = env.dispatch_digest (record {
    event_id = task.event_id;
    task_id = task.task_id;
    task_version = task.version;
    approval_id = m.approval_id;
    delivery_targets = task.responsible_organization ∷ task.cooperate_roles;
    approved_payload_hash = m.payload_hash;
  });
  event_time = moment;
  request_id = env.request_tag m.message_id;
  trace_id = env.trace_tag m.event_id;
  idempotency_key = m.idempotency_key;
}

-- The handler of `SimulatedGatewayTimeout`, and what follows an answer.
unfoldable pub receive_reply :
    Env → OutboxMessage → Scenario → Transport → GatewayResult → M OutboxMessage
receive_reply env m scenario x no_such_scenario = raise unknown_scenario_name
receive_reply env m scenario x timed_out = do
  let waiting = record m {
    status = OutboxStatus.pending;
    attempts = m.attempts + 1;
    simulation_scenario = scenario;
    gateway_status = some GatewayStatus.timed_out;
    last_error = some gateway_timeout;
    updated_at = x.event_time;
  }
  save_message waiting
  message_entry env m false dispatch_actor simulated_dispatch_timeout no_state no_state
      (timeout_detail m.message_id scenario)
  pure waiting
receive_reply env m scenario x (answered reply) = do
  record_callbacks env m reply.callbacks
  known ← gets (λ s. list_callbacks m.message_id s.callbacks)
  let dispatched = record m {
    status = outbox_status_of reply.status;
    attempts = m.attempts + 1;
    simulation_scenario = scenario;
    gateway_status = some reply.status;
    external_request_id = some x.request_id;
    trace_id = some x.trace_id;
    callback_count = length known;
    last_error = reply.error_code;
    updated_at = x.event_time;
    sent_at = if is_out (outbox_status_of reply.status) then some x.event_time else none;
  }
  save_message dispatched
  message_entry env m false dispatch_actor (simulated_dispatch_status reply.status)
      (outbox_note m.status) (outbox_note dispatched.status)
      (dispatch_detail m.message_id scenario reply.accepted_count reply.rejected_count
        (length known))
  pure dispatched

-- The call of the gateway.
unfoldable pub reach_gateway : Env → ResponseTask → OutboxMessage → Scenario → M OutboxMessage
reach_gateway env task m scenario = do
  moment ← now env
  let x = transport_of env task m moment
  receive_reply env m scenario x (gateway_dispatch x scenario)

unfoldable pub send_message : Env → OutboxMessage → Scenario → M OutboxMessage
send_message env m scenario = do
  task ← get_task m.task_id
  choose (not (task_payload_hash env task == m.payload_hash))
      (give_up env m OutboxStatus.failed payload_hash_mismatch)
      (choose (in_production env) (give_up env m manual_takeover gateway_disabled)
        (reach_gateway env task m scenario))

-- `_dispatch_outbox_message`
unfoldable pub dispatch_outbox_message : Env → OutboxMessage → Scenario → M OutboxMessage
dispatch_outbox_message env m scenario =
    choose (is_settled m.status) (pure m) (send_message env m scenario)
