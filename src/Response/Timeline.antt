-- ===== src/Response/Timeline.antt =====
-- The audit ledger of an event: `_record`, `_timeline_entry_hash`, `_task_event` and
-- `verify_timeline_integrity` of flood_system/response_workflow/service.py.
pub mod Chain
pub mod Verified
use flood_agent.Base.{
  ℕ, ◌+◌, ◌≡◌, Bool, true, false, not, Option, none, some, List, [], ◌∷◌, ◌++◌, ◌==◌, if◌then◌else◌,
  Ident, Time, Text, last?, length, is_empty,
}
use flood_agent.Response.Enums.{
  OperatorRole, reviewer, commander, auditor, admin, EventStatus, TaskStatus,
}
use flood_agent.Response.Task.{ResponseTask}
use flood_agent.Response.Requests.{TaskActionRequest}
use flood_agent.Response.Entry.{
  EntryType, task_status, Action, StateNote, no_state, status_note, status_version, Detail,
  EntryBody, TimelineEntry,
}
use flood_agent.Response.Store.{Env, log, Store, list_timeline}
use flood_agent.Response.Exec.{M, ok}

-- The text "GENESIS", which no digest is.
abbrev pub genesis : Ident
genesis = 1

-- The keyword arguments of `_record`.
pub record EntryArgs : Type 0 where
  pub event_id : Ident
  pub task_id : Option Ident
  pub object_id : Option Ident
  pub entry_type : EntryType
  pub action : Action
  pub actor_id : Ident
  pub actor_role : OperatorRole
  pub terminal_id : Ident
  pub before_state : StateNote
  pub after_state : StateNote
  pub detail : Detail

-- The hash that the next entry of an event refers to.
abbrev pub previous_hash_of : List TimelineEntry → Ident
previous_hash_of l = elim (last? l) [
  | none ↦ genesis
  | some e ↦ if e.record_hash == 0 then genesis else e.record_hash
]

-- `_record`
unfoldable pub record_entry : Env → EntryArgs → M (Unit {0})
record_entry env a s =
    let body : EntryBody = record {
      entry_id = env.uuid log s.minted;
      event_id = a.event_id;
      task_id = a.task_id;
      object_id = a.object_id;
      entry_type = a.entry_type;
      action = a.action;
      actor_id = a.actor_id;
      actor_role = a.actor_role;
      terminal_id = a.terminal_id;
      before_state = a.before_state;
      after_state = a.after_state;
      detail = a.detail;
      previous_hash = previous_hash_of (list_timeline a.event_id s.timeline);
      created_at = env.clock s.ticks;
    } in
    let entry : TimelineEntry = record { body = body; record_hash = env.entry_digest body } in
    (
      ok tt,
      record s { timeline = s.timeline ++ entry ∷ []; ticks = s.ticks + 1; minted = s.minted + 1 },
    )

abbrev pub before_note : Option TaskStatus → StateNote
before_note none = no_state
before_note (some p) = status_note p

-- `_task_event`; the key `previous_status` of the detail is an argument of its own.
unfoldable pub task_event :
    Env → ResponseTask → Action → TaskActionRequest → Option TaskStatus → Detail → M (Unit {0})
unfolding record_entry
task_event env t action request previous detail = record_entry env (record {
  event_id = t.event_id;
  task_id = some t.task_id;
  object_id = some t.object_id;
  entry_type = task_status;
  action = action;
  actor_id = request.operator_id;
  actor_role = request.operator_role;
  terminal_id = request.terminal_id;
  before_state = before_note previous;
  after_state = status_version t.status t.version;
  detail = detail;
})

pub data TimelineIntegrityIssue : Type 0 where
  previous_hash_mismatch record_hash_missing record_hash_failed : Ident → TimelineIntegrityIssue

-- The variables of the loop over the entries.
pub record Scan : Type 0 where
  pub expected_previous : Ident
  pub verified_entries : ℕ
  pub issues : List TimelineIntegrityIssue

abbrev pub entry_issues : Env → Ident → TimelineEntry → List TimelineIntegrityIssue
entry_issues env expected e =
    (if e.previous_hash == expected then [] else previous_hash_mismatch e.entry_id ∷ [])
    ++ (if e.record_hash == 0
        then record_hash_missing e.entry_id ∷ []
        else (if env.entry_digest e.body == e.record_hash
            then []
            else record_hash_failed e.entry_id ∷ []))

-- One round of the loop.
scan_entry : Env → TimelineEntry → Scan → Scan
scan_entry env e scan =
    let found = entry_issues env scan.expected_previous e in
    record {
      expected_previous = if e.record_hash == 0 then env.entry_digest e.body else e.record_hash;
      verified_entries =
          if is_empty found then scan.verified_entries + 1 else scan.verified_entries;
      issues = scan.issues ++ found;
    }

scan_entries : Env → List TimelineEntry → Scan → Scan
scan_entries env [] scan = scan
scan_entries env (e ∷ es) scan = scan_entries env es (scan_entry env e scan)

pub record TimelineIntegrityReport : Type 0 where
  pub event_id : Ident
  pub is_verified : Bool  -- the status is "verified", not "failed"
  pub total_entries : ℕ
  pub verified_entries : ℕ
  pub head_hash : Option Ident
  pub issues : List TimelineIntegrityIssue
  pub verified_at : Time

abbrev pub head_of : List TimelineEntry → Option Ident
head_of l = elim (last? l) [ none ↦ none | some e ↦ some e.record_hash ]

-- The report over the entries of an event.
unfoldable pub integrity_report : Env → Ident → List TimelineEntry → Time → TimelineIntegrityReport
unfolding scan_entry scan_entries
integrity_report env event_id entries moment =
    let scan =
      scan_entries env entries
        (record { expected_previous = genesis; verified_entries = 0; issues = [] }) in
    record {
      event_id = event_id;
      is_verified = is_empty scan.issues;
      total_entries = length entries;
      verified_entries = scan.verified_entries;
      head_hash = head_of entries;
      issues = scan.issues;
      verified_at = moment;
    }
