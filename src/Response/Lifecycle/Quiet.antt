-- ===== src/Response/Lifecycle/Quiet.antt =====
-- Closing an event, sending messages and taking in callbacks change no task.
use flood_agent.Base.{ℕ, ◌≡◌, zero, suc, refl, Option, none, some, List, [], ◌∷◌, Ident}
use flood_agent.Response.Task.{ResponseTask}
use flood_agent.Response.Requests.{TaskActionRequest}
use flood_agent.Response.Records.{
  ResponseEvent, EventReviewDraft, Scenario, OutboxMessage, CallbackPayload,
}
use flood_agent.Response.Store.{Env, Store}
use flood_agent.Response.Exec.{save_event, save_review}
use flood_agent.Response.Exec.Keeps.{Keeps, keeps_rules, Keeps-bind, Keeps-pure}
use flood_agent.Response.Dispatch.{Actor, record_dispatch_callback}
use flood_agent.Response.Dispatch.Keeps.{record_dispatch_callback-Keeps}
use flood_agent.Response.Outbox.{
  dispatch_all, OutboxProcessRequest, asked_messages, process_outbox, DispatchCallbackRequest,
  ingest_simulated_dispatch_callback,
}
use flood_agent.Response.Review.{generate_review_draft}
use flood_agent.Response.Sweep.{finish_closing, close_event}
use flood_agent.Response.Lifecycle.Tables.{
  OnTasks, clock_only, uuid_only, message_only, callback_only, entry_only, lookup_only,
  event_lookup_only, dispatch_only,
}
use flood_agent.Response.Lifecycle.{Effect, untouched}

module _ (env : Env) (P : List ResponseTask → Type 0) where
  event_only : (e : ResponseEvent) → Keeps (OnTasks P) (save_event e)
  unfolding save_event
  event_only e = record { at = λ s h. h }

  review_only : (r : EventReviewDraft) → Keeps (OnTasks P) (save_review r)
  unfolding save_review
  review_only r = record { at = λ s h. h }

  generate_only :
      (k : Ident) (r : TaskActionRequest) → Keeps (OnTasks P) (generate_review_draft env k r)
  unfolding generate_review_draft
  generate_only k r =
      search (keeps_rules, clock_only, uuid_only, review_only, entry_only, event_lookup_only) depth
        30

  finish_only :
      (k : Ident) (r : TaskActionRequest) (e : ResponseEvent) (n : ℕ)
      → Keeps (OnTasks P) (finish_closing env k r e n)
  unfolding finish_closing
  finish_only k r e n =
      search (keeps_rules, event_only, clock_only, entry_only, generate_only) depth 30

  close_only : (k : Ident) (r : TaskActionRequest) → Keeps (OnTasks P) (close_event env k r)
  unfolding close_event
  close_only k r = search (keeps_rules, event_lookup_only, finish_only) depth 30

  dispatch_all_only :
      (sc : Scenario) (ms : List OutboxMessage) → Keeps (OnTasks P) (dispatch_all env sc ms)
  unfolding dispatch_all
  dispatch_all_only sc [] = Keeps-pure _
  dispatch_all_only sc (m ∷ ms) =
      Keeps-bind _ _ (dispatch_only env P m sc)
        λ x. Keeps-bind _ _ (dispatch_all_only sc ms) λ xs. Keeps-pure _

  asked_only :
      (r : OutboxProcessRequest) (o : Option Ident) → Keeps (OnTasks P) (asked_messages r o)
  unfolding asked_messages
  asked_only r none = search keeps_rules
  asked_only r (some zero) = search keeps_rules
  asked_only r (some (suc k)) = search keeps_rules depth 12

  process_only : (r : OutboxProcessRequest) → Keeps (OnTasks P) (process_outbox env r)
  unfolding process_outbox
  process_only r = search (keeps_rules, asked_only, dispatch_all_only) depth 12

  record_only :
      (m : OutboxMessage) (p : CallbackPayload) (a : Actor)
      → Keeps (OnTasks P) (record_dispatch_callback env m p a)
  record_only =
      record_dispatch_callback-Keeps env (OnTasks P) (clock_only env P) (uuid_only env P)
        (message_only env P) (callback_only env P) (entry_only env P) (lookup_only env P)

  ingest_only :
      (r : DispatchCallbackRequest) → Keeps (OnTasks P) (ingest_simulated_dispatch_callback env r)
  unfolding ingest_simulated_dispatch_callback
  ingest_only r = search (keeps_rules, record_only, clock_only, message_only) depth 30

module _ (env : Env) (s : Store) where
  pub close_event-Effect :
      (k : Ident) (r : TaskActionRequest) → Effect env s (close_event env k r s).1
  close_event-Effect k r = untouched ((close_only env (λ l. l ≡ s.tasks) k r).at s refl)

  pub generate_review_draft-Effect :
      (k : Ident) (r : TaskActionRequest) → Effect env s (generate_review_draft env k r s).1
  generate_review_draft-Effect k r =
      untouched ((generate_only env (λ l. l ≡ s.tasks) k r).at s refl)

  pub process_outbox-Effect : (r : OutboxProcessRequest) → Effect env s (process_outbox env r s).1
  process_outbox-Effect r = untouched ((process_only env (λ l. l ≡ s.tasks) r).at s refl)

  pub ingest_simulated_dispatch_callback-Effect :
      (r : DispatchCallbackRequest) → Effect env s (ingest_simulated_dispatch_callback env r s).1
  ingest_simulated_dispatch_callback-Effect r =
      untouched ((ingest_only env (λ l. l ≡ s.tasks) r).at s refl)
