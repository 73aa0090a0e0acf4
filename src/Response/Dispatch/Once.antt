-- ===== src/Response/Dispatch/Once.antt =====
-- A message is sent once, and a callback is stored once.
use flood_agent.Base.{
  ◌≡◌, ◌⊎◌, inl, inr, arith, ◌+◌, true, if◌then◌else◌, is_some, with_default, some, none, List, [],
  ◌∷◌, ◌++◌, Option-cases, Bool-cases,
}
use flood_agent.Response.Task.{ResponseTask}
use flood_agent.Response.Records.{
  Scenario, MessageKey, dispatch_key, CallbackKey, gateway_key, external_key, OutboxMessage,
  CallbackPayload, DispatchCallbackRecord, GatewayStatus,
}
use flood_agent.Response.Store.{
  Env, Store, find_task, find_callback, callback_key_eq, message_key_eq, callback, list_callbacks,
}
use flood_agent.Response.Exec.{ok, ◌>>=◌}
use flood_agent.Response.Guards.{get_task}
use flood_agent.Response.Gateway.{GatewayResult, Transport, no_such_scenario, timed_out, answered}
use flood_agent.Response.Dispatch.{
  Actor, is_settled, receive_reply, reach_gateway, send_message, dispatch_outbox_message,
  store_callback, record_dispatch_callback, sequence_of,
}
use flood_agent.Response.Timeline.{record_entry}

-- The gateway timed out on the message.
abbrev pub IsWaiting : OutboxMessage → Type 0
IsWaiting x = x.gateway_status ≡ some GatewayStatus.timed_out

module _ (env : Env) (m sent : OutboxMessage) (sc : Scenario) where
  reply_settled :
      (s : Store) (x : Transport) (g : GatewayResult)
      → (receive_reply env m sc x g s).0 ≡ ok sent
      → (is_settled sent.status ≡ true) ⊎ IsWaiting sent
  unfolding receive_reply is_settled ◌>>=◌
  reply_settled s x no_such_scenario h = ground arith
  reply_settled s x timed_out h = ground arith
  reply_settled s x (answered r) h = ground arith

  reach_settled :
      (s : Store) (t : ResponseTask)
      → (reach_gateway env t m sc s).0 ≡ ok sent
      → (is_settled sent.status ≡ true) ⊎ IsWaiting sent
  unfolding reach_gateway ◌>>=◌
  reach_settled s t h = reply_settled _ _ _ h

  send_settled :
      (s : Store)
      → (send_message env m sc s).0 ≡ ok sent
      → (is_settled sent.status ≡ true) ⊎ IsWaiting sent
  unfolding send_message ◌>>=◌ get_task is_settled
  send_settled s h = elim (Option-cases (find_task m.task_id s.tasks)) [
    | inl e ↦ ground arith
    | inr (t, e) ↦ ground (arith, reach_settled s t)
  ]

  -- A message is sent once: if a dispatch returns a message, then dispatching that message again,
  -- in any store and scenario, returns it and changes nothing, unless the gateway had timed out on
  -- it.
  pub dispatch_outbox_message-once :
      (s later : Store) (again : Scenario)
      → (dispatch_outbox_message env m sc s).0 ≡ ok sent
      → (dispatch_outbox_message env sent again later ≡ (ok sent, later)) ⊎ IsWaiting sent
  unfolding dispatch_outbox_message ◌>>=◌
  dispatch_outbox_message-once s later again h = elim (Bool-cases (is_settled m.status)) [
    | inl e ↦ inl (ground arith)
    | inr e ↦ elim (send_settled s (ground arith)) [
      | inl settled ↦ inl (ground arith)
      | inr waiting ↦ inr waiting
    ]
  ]

message_key_refl : (k : MessageKey) → message_key_eq k k ≡ true
message_key_refl (dispatch_key a n h) = ground arith

callback_key_refl : (k : CallbackKey) → callback_key_eq k k ≡ true
callback_key_refl (gateway_key a n) = ground (arith, message_key_refl a)
callback_key_refl (external_key a) = ground arith

find_callback-append :
    (k : CallbackKey) (l : List DispatchCallbackRecord) (c : DispatchCallbackRecord)
    → find_callback k l ≡ none
    → callback_key_eq c.idempotency_key k ≡ true
    → find_callback k (l ++ c ∷ []) ≡ some c
find_callback-append k [] c e h = ground arith
find_callback-append k (x ∷ l) c e h = ground (arith, find_callback-append k l c)

module _ (env : Env) (m : OutboxMessage) (p : CallbackPayload) (a : Actor) (s : Store) where
  -- The row that `_record_dispatch_callback` inserts.
  abbrev inserted : DispatchCallbackRecord
  inserted = record {
    callback_id = env.uuid callback s.minted;
    message_id = m.message_id;
    event_id = m.event_id;
    task_id = m.task_id;
    payload = p;
    sequence_state = sequence_of p (list_callbacks m.message_id s.callbacks);
    received_time = with_default p.received_time (env.clock s.ticks);
    created_at = env.clock (if is_some p.received_time then s.ticks else s.ticks + 1);
  }

  store_callback_found :
      find_callback p.idempotency_key s.callbacks ≡ none
      → ((store_callback env m p a s).0 ≡ ok inserted)
        × ((store_callback env m p a s).1.callbacks ≡ s.callbacks ++ inserted ∷ [])
  unfolding store_callback ◌>>=◌ record_entry
  store_callback_found e = (ground arith, ground arith)

  -- A key that is stored already gives the row that is stored.
  record_known :
      (c : DispatchCallbackRecord)
      → find_callback p.idempotency_key s.callbacks ≡ some c
      → ((record_dispatch_callback env m p a s).0 ≡ ok c)
        × ((record_dispatch_callback env m p a s).1.callbacks ≡ s.callbacks)
  unfolding record_dispatch_callback ◌>>=◌ record_entry
  record_known c e = (ground arith, ground arith)

  record_new :
      find_callback p.idempotency_key s.callbacks ≡ none
      → ((record_dispatch_callback env m p a s).0 ≡ ok inserted)
        × ((record_dispatch_callback env m p a s).1.callbacks ≡ s.callbacks ++ inserted ∷ [])
  unfolding record_dispatch_callback ◌>>=◌
  record_new e = ground (arith, (store_callback_found e).0, (store_callback_found e).1)

  record_finds :
      (c : DispatchCallbackRecord) × ((record_dispatch_callback env m p a s).0 ≡ ok c)
      × (find_callback p.idempotency_key (record_dispatch_callback env m p a s).1.callbacks
          ≡ some c)
  record_finds = elim (Option-cases (find_callback p.idempotency_key s.callbacks)) [
    | inl e ↦
        let (result, rows) = record_new e in
        (
          inserted,
          result,
          rw rows (
              find_callback-append p.idempotency_key s.callbacks inserted e
                (callback_key_refl p.idempotency_key)),
        )
    | inr (c, e) ↦ let (result, rows) = record_known c e in (c, result, rw rows e)
  ]

-- Recording a callback always returns a row, and recording it again returns the same row and stores
-- no further one.
pub record_dispatch_callback-once :
    (env : Env) (m : OutboxMessage) (p : CallbackPayload) (a b : Actor) (s : Store)
    → let after = (record_dispatch_callback env m p a s).1 in
      (c : DispatchCallbackRecord) × ((record_dispatch_callback env m p a s).0 ≡ ok c)
      × ((record_dispatch_callback env m p b after).0 ≡ ok c)
      × ((record_dispatch_callback env m p b after).1.callbacks ≡ after.callbacks)
record_dispatch_callback-once env m p a b s =
    let (c, result, found) = record_finds env m p a s in
    let (again, rows) = record_known env m p b (record_dispatch_callback env m p a s).1 c found in
    (c, result, again, rows)
