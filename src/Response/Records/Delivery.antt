-- ===== src/Response/Records/Delivery.antt =====
-- The records of the outbox and the callbacks of flood_system/response_workflow/models.py.
use flood_agent.Base.{ℕ, Option, Ident, Time}
use flood_agent.Response.Enums.{OutboxStatus, DispatchCallbackStatus, CallbackSequenceState}

pub data MessageKey : Type 0 where
  -- f"dispatch:{task_id}:v{version}:{hash}"
  dispatch_key : Ident → ℕ → Ident → MessageKey

pub data CallbackKey : Type 0 where
  -- f"{message_key}:callback:v{version}", as the gateway writes it
  gateway_key : MessageKey → ℕ → CallbackKey
  -- any other key that comes in from outside
  external_key : Ident → CallbackKey

-- `SimulationDispatchScenario` of simulation_dataset.py, and any other text.
pub data Scenario : Type 0 where
  normal timeout reject partial_success duplicate_callback out_of_order_callback : Scenario
  unknown_scenario : Ident → Scenario

-- The status that the gateway reports, and "timeout".
pub data GatewayStatus : Type 0 where
  accepted rejected partial_success timed_out : GatewayStatus

-- `last_error`: the texts that the service and the gateway write there.
pub data DispatchError : Type 0 where
  payload_hash_mismatch gateway_disabled gateway_timeout simulated_rejected : DispatchError

pub record OutboxMessage : Type 0 where
  pub message_id : Ident
  pub event_id : Ident
  pub task_id : Ident
  pub idempotency_key : MessageKey
  pub payload_hash : Ident
  pub approval_id : Ident
  pub task_version : ℕ
  pub status : OutboxStatus
  pub attempts : ℕ
  pub last_error : Option DispatchError
  pub simulation_scenario : Scenario
  pub gateway_status : Option GatewayStatus
  pub external_request_id : Option Ident
  pub trace_id : Option Ident
  pub callback_count : ℕ
  pub created_at : Time
  pub updated_at : Time
  pub sent_at : Option Time

-- The entries of a callback's payload.
pub record CallbackPayload : Type 0 where
  pub external_id : Ident
  pub source : Ident
  pub version : ℕ
  pub event_time : Time
  pub received_time : Option Time
  pub request_id : Ident
  pub trace_id : Ident
  pub idempotency_key : CallbackKey
  pub status : DispatchCallbackStatus
  pub error_code : Option DispatchError

pub record DispatchCallbackRecord : Type 0 where
  pub callback_id : Ident
  pub message_id : Ident
  pub event_id : Ident
  pub task_id : Ident
  pub payload : CallbackPayload
  pub open payload use {external_id, version, idempotency_key, status}
  pub received_time : Time
  pub sequence_state : CallbackSequenceState
  pub created_at : Time
