-- ===== src/Response/Gateway.antt =====
-- `SimulatedExternalGateway.dispatch` of flood_system/simulation_dataset.py, for the destination
-- "simulated://member-unit" of every outbox message.
use flood_agent.Base.{ℕ, Option, none, some, List, [], ◌∷◌, Ident, Time}
use flood_agent.Response.Enums.{
  DispatchCallbackStatus, accepted, delivered, partial_success, rejected,
}
use flood_agent.Response.Records.{
  MessageKey, gateway_key, Scenario, GatewayStatus, DispatchError, simulated_rejected,
  CallbackPayload,
}

-- The keyword arguments of `dispatch` that its answer repeats.
pub record Transport : Type 0 where
  pub external_id : Ident
  pub event_time : Time
  pub request_id : Ident
  pub trace_id : Ident
  pub idempotency_key : MessageKey

pub record Reply : Type 0 where
  pub status : GatewayStatus
  pub error_code : Option DispatchError
  pub accepted_count : ℕ
  pub rejected_count : ℕ
  pub callbacks : List CallbackPayload

-- "deterministic_simulation_gateway"
abbrev gateway_source : Ident
gateway_source = 9

-- The inner function `callback`.
abbrev pub callback_of :
    Transport → ℕ → DispatchCallbackStatus → Option DispatchError → CallbackPayload
callback_of x version status error = record {
  external_id = x.external_id;
  source = gateway_source;
  version = version;
  event_time = x.event_time;
  received_time = some x.event_time;
  request_id = x.request_id;
  trace_id = x.trace_id;
  idempotency_key = gateway_key x.idempotency_key version;
  status = status;
  error_code = error;
}

-- A dispatch answers, raises `SimulatedGatewayTimeout`, or raises for a scenario of no such name.
pub data GatewayResult : Type 0 where
  answered : Reply → GatewayResult
  timed_out no_such_scenario : GatewayResult

abbrev accepting : List CallbackPayload → GatewayResult
accepting callbacks = answered (record {
  status = GatewayStatus.accepted;
  error_code = none;
  accepted_count = 1;
  rejected_count = 0;
  callbacks = callbacks;
})

unfoldable pub gateway_dispatch : Transport → Scenario → GatewayResult
gateway_dispatch x Scenario.timeout = timed_out
gateway_dispatch x Scenario.reject = answered (record {
  status = GatewayStatus.rejected;
  error_code = some simulated_rejected;
  accepted_count = 0;
  rejected_count = 1;
  callbacks = callback_of x 1 rejected (some simulated_rejected) ∷ [];
})
gateway_dispatch x Scenario.partial_success = answered (record {
  status = GatewayStatus.partial_success;
  error_code = none;
  accepted_count = 1;
  rejected_count = 1;
  callbacks = callback_of x 1 partial_success none ∷ [];
})
gateway_dispatch x Scenario.duplicate_callback = accepting (
    callback_of x 1 accepted none
    ∷ callback_of x 1 accepted none
    ∷ callback_of x 2 delivered none
    ∷ [])
gateway_dispatch x Scenario.out_of_order_callback =
    accepting (callback_of x 2 delivered none ∷ callback_of x 1 accepted none ∷ [])
gateway_dispatch x Scenario.normal =
    accepting (callback_of x 1 accepted none ∷ callback_of x 2 delivered none ∷ [])
gateway_dispatch x (Scenario.unknown_scenario name) = no_such_scenario
