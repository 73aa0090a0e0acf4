-- ===== src/Response/Ledger/Revisions.antt =====
-- The calls on events, alerts, flags and risk objects keep a property of the ledger, where the writes
-- of risk objects do.
use flood_agent.Response.Store.{Store, Env}
use flood_agent.Response.Revisions.{Allows}
use flood_agent.Response.Ledger.{
  LedgerLaw, now-Keeps, new_id-Keeps, save_event-Keeps, save_alert-Keeps, save_object_version-Keeps,
  save_flag-Keeps, save_list-Keeps, record_entry-Keeps,
}

pub LedgerLaw-Allows : (env : Env) (P : Store → Type 0) → LedgerLaw env P → Allows env P
LedgerLaw-Allows env P law = record {
  clock = now-Keeps env P law;
  uuid = new_id-Keeps env P law;
  event = save_event-Keeps env P law;
  alert = save_alert-Keeps env P law;
  object_version = save_object_version-Keeps env P law;
  flag = save_flag-Keeps env P law;
  list = save_list-Keeps env P law;
  entry = record_entry-Keeps env P law;
}
