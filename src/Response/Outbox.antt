-- ===== src/Response/Outbox.antt =====
-- `process_outbox` and `ingest_simulated_dispatch_callback` of
-- flood_system/response_workflow/service.py.
use flood_agent.Base.{
  ℕ, zero, suc, Bool, true, false, not, Option, none, some, List, [], ◌∷◌, ◌==◌, Ident, filter_by,
  sort_on, length, with_default,
}
use flood_agent.Response.Enums.{OperatorRole, external_service, admin, liaison, commander}
use flood_agent.Response.Requests.{TaskActionRequest}
use flood_agent.Response.Records.{Scenario, OutboxMessage, CallbackPayload, DispatchCallbackRecord}
use flood_agent.Response.Store.{Env, find_message, list_callbacks}
use flood_agent.Response.Exec.{
  disabled_in_production, bad_token, message_not_found, not_simulated, M, pure, gets, or_raise,
  require, now, save_message, ◌>>=◌, ◌>>◌,
}
use flood_agent.Response.Guards.{require_role}
use flood_agent.Response.Dispatch.{
  is_settled, in_production, record_dispatch_callback, dispatch_outbox_message,
}

unfoldable pub processing_roles : OperatorRole → Bool
processing_roles admin = true
processing_roles liaison = true
processing_roles commander = true
processing_roles _ = false

abbrev take_at_most : ℕ → List OutboxMessage → List OutboxMessage
take_at_most zero ms = []
take_at_most (suc n) [] = []
take_at_most (suc n) (m ∷ ms) = m ∷ take_at_most n ms

-- `list_outbox_messages(status=PENDING, limit=...)`: `ORDER BY created_at LIMIT ?`.
abbrev pub pending_messages : ℕ → List OutboxMessage → List OutboxMessage
pending_messages limit ms =
    take_at_most limit (sort_on (λ m. m.created_at) (filter_by (λ m. not (is_settled m.status)) ms))

abbrev push_message : OutboxMessage → List OutboxMessage → M (List OutboxMessage)
push_message m ms = pure (m ∷ ms)

unfoldable pub dispatch_all : Env → Scenario → List OutboxMessage → M (List OutboxMessage)
dispatch_all env scenario [] = pure []
dispatch_all env scenario (m ∷ ms) = do
  sent ← dispatch_outbox_message env m scenario
  rest ← dispatch_all env scenario ms
  push_message sent rest

pub record OutboxProcessRequest : Type 0 where
  pub base : TaskActionRequest
  pub open base use *
  pub message_id : Option Ident
  pub max_messages : ℕ
  pub simulation_scenario : Scenario

-- The messages that a request asks to send; an empty message id is none.
unfoldable pub asked_messages : OutboxProcessRequest → Option Ident → M (List OutboxMessage)
asked_messages request none = gets (λ s. pending_messages request.max_messages s.outbox_messages)
asked_messages request (some zero) =
    gets (λ s. pending_messages request.max_messages s.outbox_messages)
asked_messages request (some (suc k)) = do
  found ← gets (λ s. find_message (suc k) s.outbox_messages)
  m ← or_raise found message_not_found
  pure (m ∷ [])

unfoldable pub process_outbox : Env → OutboxProcessRequest → M (List OutboxMessage)
process_outbox env request = do
  require_role request.operator_role processing_roles
  messages ← asked_messages request request.message_id
  dispatch_all env request.simulation_scenario messages

pub record DispatchCallbackRequest : Type 0 where
  pub base : TaskActionRequest
  pub open base use *
  pub message_id : Ident
  pub payload : CallbackPayload
  pub mock_token : Ident
  pub is_simulated : Bool

unfoldable pub is_external : OperatorRole → Bool
is_external external_service = true
is_external _ = false

unfoldable pub ingest_simulated_dispatch_callback :
    Env → DispatchCallbackRequest → M DispatchCallbackRecord
ingest_simulated_dispatch_callback env request = do
  require_role request.operator_role is_external
  require (not (in_production env)) disabled_in_production
  require (request.mock_token == env.mock_token) bad_token
  require request.is_simulated not_simulated
  found ← gets (λ s. find_message request.message_id s.outbox_messages)
  m ← or_raise found message_not_found
  saved ← record_dispatch_callback env m request.payload (record {
    id = request.operator_id;
    role = request.operator_role;
    terminal = request.terminal_id;
  })
  again ← gets (λ s. find_message m.message_id s.outbox_messages)
  known ← gets (λ s. list_callbacks m.message_id s.callbacks)
  moment ← now env
  let current = with_default again m
  save_message (record current { callback_count = length known; updated_at = moment })
  pure saved
