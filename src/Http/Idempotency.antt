-- ===== src/Http/Idempotency.antt =====
-- The middleware of flood_system/http/idempotency.py. A request moves through phases: between two
-- phases stands one transaction of the repository or the wait for the handler, so that the moves of
-- several requests interleave.
pub mod Records
pub mod Keys
pub mod Answers
pub mod Standing
pub mod Moves
pub mod Replay
pub mod Reservations
pub mod Writers
pub mod Distinct
use flood_agent.Base.{
  ℕ, ◌+◌, ◌*◌, Bool, true, false, not, ◌&&◌, Option, none, some, List, [], ◌∷◌, ◌++◌, ◌==◌, ltb,
  zero, suc, codes, leb, if◌then◌else◌, Ident, Time, Text, strip, is_empty, filter_by, length,
}
use flood_agent.Http.Messages.{
  Bytes, HeaderName, etag, location, content_language, content_type, x_idempotent_replay,
  x_idempotency_record_id, other_header, Headers, HttpResponse, OperatorName, HttpRequest, RefKey,
  event_id, task_id, message_id, package_id, version_id, backup_id, report_id, Setting, unset,
  malformed, negative, number, HttpEnv,
}
use flood_agent.Http.Idempotency.Records.{
  IdempotencyStatus, processing, completed, indeterminate, IdempotencyRecord, Table,
  get_idempotency_record, reserve_idempotency_record, complete_idempotency_record,
  release_idempotency_record,
}
use flood_agent.Http.Idempotency.Keys.{
  canonical_idempotency_scope, request_fingerprint, is_write, is_key,
}
use flood_agent.Http.Idempotency.Answers.{
  ErrorCode, Outcome, Reply, answered, answers, clamp, collect, crashes, default_max_replay_bytes,
  existing_record_response, first_ref, get_header, header_eq, invalid_key, is_safe, key_reused,
  max_replay_bytes, not_processing, outcome_indeterminate, positive_int, raised, record_invalid,
  ref_name, refused, rejects, replay_body, replay_headers, replay_response, reply_by_status,
  request_in_progress, reservation_conflict, response_not_replayable, response_reference,
  safe_headers, set_header, true_text, ttl_seconds, unidentified, with_content_type,
}

-- The local variables of the handler once it knows who asks for what.
pub record Claim : Type 0 where
  pub request : HttpRequest
  pub scope : Text
  pub idempotency_key : Text
  pub request_hash : Ident

-- Where a request stands.
pub data Phase : Type 0 where
  arrived : HttpRequest → Phase
  -- not a write: waiting for the handler
  passing : HttpRequest → Phase
  -- no record was found
  reserving : Claim → Phase
  -- the reservation failed
  refetching : Claim → Phase
  -- the reservation stands, and the handler runs
  running : Claim → IdempotencyRecord → Phase
  finished : Reply → Phase

-- The repository, and how often the clock and `uuid4` were read.
pub record Gate : Type 0 where
  pub table : Table
  pub ticks : ℕ
  pub minted : ℕ

abbrev pub claim_of : HttpEnv → HttpRequest → OperatorName → Claim
claim_of env r who = record {
  request = r;
  scope = canonical_idempotency_scope env who r.method r.path;
  idempotency_key = strip r.idempotency_key;
  request_hash = request_fingerprint env r;
}

abbrev pub reserve_or_answer : HttpEnv → Claim → Option IdempotencyRecord → Phase
reserve_or_answer env c none = reserving c
reserve_or_answer env c (some r) = finished (existing_record_response env r c.request_hash)

abbrev pub conflict_or_answer : HttpEnv → Claim → Option IdempotencyRecord → Phase
conflict_or_answer env c none = finished (refused reservation_conflict)
conflict_or_answer env c (some r) = finished (existing_record_response env r c.request_hash)

-- A read of the table, and what follows from what it finds.
unfoldable pub fetch :
    HttpEnv → (HttpEnv → Claim → Option IdempotencyRecord → Phase) → Claim → Gate → Gate × Phase
unfolding get_idempotency_record
fetch env next c g =
    let (kept, existing) =
      get_idempotency_record (env.clock g.ticks) c.scope c.idempotency_key g.table in
    (record g { table = kept; ticks = g.ticks + 1 }, next env c existing)

abbrev look_up_as : HttpEnv → HttpRequest → Option OperatorName → Gate → Gate × Phase
look_up_as env r none g = (g, finished unidentified)
look_up_as env r (some who) g =
    if is_key (strip r.idempotency_key)
    then fetch env reserve_or_answer (claim_of env r who) g
    else (g, finished invalid_key)

-- From the arrival of a request to the first read of the table.
unfoldable pub look_up : HttpEnv → HttpRequest → Gate → Gate × Phase
unfolding is_write is_key fetch canonical_idempotency_scope request_fingerprint
look_up env r g = if is_write env r then look_up_as env r (env.resolve r) g else (g, passing r)

-- The record that is reserved at a reading of the clock.
abbrev pub reservation : HttpEnv → Claim → Gate → IdempotencyRecord
reservation env c g = record {
  record_id = env.uuid g.minted;
  scope = c.scope;
  idempotency_key = c.idempotency_key;
  request_hash = c.request_hash;
  status = processing;
  response_status = none;
  response_content_type = none;
  response_headers = [];
  response_body_base64 = 0;
  response_ref = none;
  replayable = true;
  expires_at = env.clock g.ticks + ttl_seconds env * 1000000;
  created_at = env.clock g.ticks;
  completed_at = none;
}

unfoldable pub reserve : HttpEnv → Claim → Gate → Gate × Phase
unfolding ttl_seconds reserve_idempotency_record
reserve env c g =
    let r = reservation env c g in
    let (t, done) = reserve_idempotency_record (env.clock (g.ticks + 1)) r g.table in
    (
      record { table = t; ticks = g.ticks + 2; minted = g.minted + 1 },
      if done then running c r else refetching c,
    )

-- The end of the request once the record is written, where it can be.
abbrev pub completing : HttpEnv → IdempotencyRecord → Reply → Gate → Gate × Phase
completing env r reply g = elim (complete_idempotency_record r g.table) [
  | none ↦ (record g { ticks = g.ticks + 1 }, finished not_processing)
  | some t ↦ (record g { table = t; ticks = g.ticks + 1 }, finished reply)
]

abbrev pub releasing : Claim → Reply → Gate → Gate × Phase
releasing c reply g = (
  record g { table = release_idempotency_record c.scope c.idempotency_key c.request_hash g.table },
  finished reply,
)

abbrev crash_record : HttpEnv → Claim → IdempotencyRecord → Time → IdempotencyRecord
crash_record env c r now = record r {
  status = indeterminate;
  response_ref = some c.request.path;
  replayable = false;
  completed_at = some now;
}

abbrev body_or_none : HttpEnv → Bool → Bytes → Ident
body_or_none env true body = env.encode64 body
body_or_none env false body = 0

-- The record of a write that was done.
abbrev pub success_record :
    HttpEnv → Claim → IdempotencyRecord → HttpResponse → Time → IdempotencyRecord
success_record env c r response now =
    let replayable = leb (length response.body) (max_replay_bytes env) in
    record r {
      status = completed;
      response_status = some response.status_code;
      response_content_type = get_header content_type response.headers;
      response_headers = safe_headers response.headers;
      response_body_base64 = body_or_none env replayable response.body;
      response_ref = some (response_reference env response.body c.request.path);
      replayable = replayable;
      completed_at = some now;
    }

-- The record of an answer from 500 on.
abbrev failure_record :
    HttpEnv → Claim → IdempotencyRecord → HttpResponse → Time → IdempotencyRecord
failure_record env c r response now =
    let replayable = leb (length response.body) default_max_replay_bytes in
    record r {
      status = indeterminate;
      response_status = some response.status_code;
      response_content_type = get_header content_type response.headers;
      response_body_base64 = body_or_none env replayable response.body;
      response_ref = some c.request.path;
      replayable = replayable;
      completed_at = some now;
    }

abbrev pub marked : IdempotencyRecord → HttpResponse → HttpResponse
marked r response = record response {
  headers = set_header x_idempotency_record_id r.record_id response.headers;
}

-- From what the handler did to the end of the request.
unfoldable pub conclude : HttpEnv → Claim → IdempotencyRecord → Outcome → Gate → Gate × Phase
unfolding complete_idempotency_record release_idempotency_record max_replay_bytes response_reference
conclude env c r (rejects e) g = releasing c (raised e) g
conclude env c r (crashes e) g =
    completing env (crash_record env c r (env.clock g.ticks)) (raised e) g
conclude env c r (answers response) g =
    if leb 200 response.status_code && ltb response.status_code 300
    then completing env (success_record env c r response (env.clock g.ticks))
        (answered (marked r response)) g
    else (if ltb response.status_code 500
        then releasing c (answered response) g
        else completing env (failure_record env c r response (env.clock g.ticks))
            (answered response) g)

abbrev pass_on : Outcome → Reply
pass_on (rejects e) = raised e
pass_on (crashes e) = raised e
pass_on (answers response) = answered response

-- One move of a request; the outcome is that of the handler, where it is waited for.
unfoldable pub advance : HttpEnv → Outcome → Phase → Gate → Gate × Phase
unfolding look_up fetch reserve conclude
advance env o (arrived r) g = look_up env r g
advance env o (passing r) g = (g, finished (pass_on o))
advance env o (reserving c) g = reserve env c g
advance env o (refetching c) g = fetch env conflict_or_answer c g
advance env o (running c r) g = conclude env c r o g
advance env o (finished reply) g = (g, finished reply)

-- Several requests over one repository.
pub record System : Type 0 where
  pub gate : Gate
  pub phases : List Phase

-- The move of the request at a position, and the phases that it leaves.
unfoldable pub move_at : HttpEnv → ℕ → Outcome → List Phase → Gate → Gate × List Phase
unfolding advance
move_at env i o [] g = (g, [])
move_at env zero o (p ∷ ps) g = let (g', p') = advance env o p g in (g', p' ∷ ps)
move_at env (suc i) o (p ∷ ps) g = let (g', ps') = move_at env i o ps g in (g', p ∷ ps')

unfoldable pub turn : HttpEnv → ℕ → Outcome → System → System
unfolding move_at
turn env i o s = let (g, ps) = move_at env i o s.phases s.gate in record { gate = g; phases = ps }

-- A sequence of moves, each of the request at a position and with what its handler does.
unfoldable pub play : HttpEnv → List (ℕ × Outcome) → System → System
unfolding turn
play env [] s = s
play env ((i, o) ∷ ms) s = play env ms (turn env i o s)
