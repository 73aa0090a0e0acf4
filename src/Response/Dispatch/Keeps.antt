-- ===== src/Response/Dispatch/Keeps.antt =====
-- What sending a message cannot break: any condition on the store that the reads of the clock and of
-- `uuid4`, the writes of messages and callbacks and the entries of the ledger keep.
use flood_agent.Base.{Bool, true, false, Option, none, some, List, [], ◌∷◌, Ident, Time}
use flood_agent.Response.Task.{ResponseTask}
use flood_agent.Response.Records.{Scenario, OutboxMessage, CallbackPayload, DispatchCallbackRecord}
use flood_agent.Response.Store.{Env, Store, IdPrefix}
use flood_agent.Response.Exec.{now, new_id, save_message, save_callback}
use flood_agent.Response.Exec.Keeps.{Keeps, keeps_rules, Keeps-bind, Keeps-pure}
use flood_agent.Response.Guards.{get_task}
use flood_agent.Response.Gateway.{Transport, GatewayResult, no_such_scenario, timed_out, answered}
use flood_agent.Response.Dispatch.{
  Actor, gateway_actor, store_callback, received_or_now, announce_callback, callback_cases,
  record_dispatch_callback, record_callbacks, receive_reply, reach_gateway, send_message,
  dispatch_outbox_message,
}
use flood_agent.Response.Timeline.{EntryArgs, record_entry}

module _ (env : Env) (P : Store → Type 0) (clock-k : Keeps P (now env))
    (uuid-k : (p : IdPrefix) → Keeps P (new_id env p))
    (message-k : (m : OutboxMessage) → Keeps P (save_message m))
    (callback-k : (c : DispatchCallbackRecord) → Keeps P (save_callback c))
    (entry-k : (a : EntryArgs) → Keeps P (record_entry env a))
    (task-k : (k : Ident) → Keeps P (get_task k)) where
  announce-k :
      (m : OutboxMessage) (p : CallbackPayload) (a : Actor) (c : DispatchCallbackRecord) (b : Bool)
      → Keeps P (announce_callback env m p a c b)
  announce-k m p a c true = search keeps_rules depth 12
  announce-k m p a c false = search keeps_rules depth 12

  received-k : (o : Option Time) → Keeps P (received_or_now env o)
  received-k none = clock-k
  received-k (some moment) = Keeps-pure moment

  store-k :
      (m : OutboxMessage) (p : CallbackPayload) (a : Actor) → Keeps P (store_callback env m p a)
  unfolding store_callback
  store-k m p a = search (keeps_rules, announce-k, received-k) depth 20

  cases-k :
      (m : OutboxMessage) (p : CallbackPayload) (a : Actor) (o : Option DispatchCallbackRecord)
      → Keeps P (callback_cases env m p a o)
  cases-k m p a none = store-k m p a
  cases-k m p a (some c) = search keeps_rules depth 12

  pub record_dispatch_callback-Keeps :
      (m : OutboxMessage) (p : CallbackPayload) (a : Actor)
      → Keeps P (record_dispatch_callback env m p a)
  unfolding record_dispatch_callback
  record_dispatch_callback-Keeps m p a = search (keeps_rules, cases-k) depth 12

  record_callbacks-Keeps :
      (m : OutboxMessage) (ps : List CallbackPayload) → Keeps P (record_callbacks env m ps)
  unfolding record_callbacks
  record_callbacks-Keeps m [] = Keeps-pure _
  record_callbacks-Keeps m (p ∷ ps) =
      Keeps-bind _ _ (record_dispatch_callback-Keeps m p gateway_actor)
        (λ _. record_callbacks-Keeps m ps)

  reply-k :
      (m : OutboxMessage) (sc : Scenario) (x : Transport) (g : GatewayResult)
      → Keeps P (receive_reply env m sc x g)
  unfolding receive_reply
  reply-k m sc x no_such_scenario = search keeps_rules
  reply-k m sc x timed_out = search keeps_rules depth 12
  reply-k m sc x (answered r) = search (keeps_rules, record_callbacks-Keeps) depth 20

  reach-k :
      (t : ResponseTask) (m : OutboxMessage) (sc : Scenario) → Keeps P (reach_gateway env t m sc)
  unfolding reach_gateway
  reach-k t m sc = search (keeps_rules, reply-k) depth 12

  send-k : (m : OutboxMessage) (sc : Scenario) → Keeps P (send_message env m sc)
  unfolding send_message
  send-k m sc = search (keeps_rules, reach-k) depth 24

  pub dispatch_outbox_message-Keeps :
      (m : OutboxMessage) (sc : Scenario) → Keeps P (dispatch_outbox_message env m sc)
  unfolding dispatch_outbox_message
  dispatch_outbox_message-Keeps m sc = search (keeps_rules, send-k) depth 12
