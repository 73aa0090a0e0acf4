-- ===== src/Http/Idempotency/Answers.antt =====
-- What the middleware of flood_system/http/idempotency.py stores of a response and how it answers
-- from what it stored.
use flood_agent.Base.{
  ℕ, Bool, true, false, Option, none, some, List, [], ◌∷◌, ◌++◌, ◌==◌, ltb, codes, if◌then◌else◌,
  Ident, Text, strip, is_empty,
}
use flood_agent.Http.Messages.{
  Bytes, HeaderName, etag, location, content_language, content_type, x_idempotent_replay,
  x_idempotency_record_id, other_header, Headers, HttpResponse, RefKey, event_id, task_id,
  message_id, package_id, version_id, backup_id, report_id, Setting, unset, malformed, negative,
  number, HttpEnv,
}
use flood_agent.Http.Idempotency.Records.{
  IdempotencyStatus, processing, completed, indeterminate, IdempotencyRecord,
}

abbrev pub clamp : ℕ → ℕ → ℕ → ℕ
clamp minimum maximum n =
    let raised = if ltb n minimum then minimum else n in
    if ltb maximum raised then maximum else raised

-- `_positive_int_from_environment`
unfoldable pub positive_int : Setting → ℕ → ℕ → ℕ → ℕ
positive_int unset default minimum maximum = clamp minimum maximum default
positive_int malformed default minimum maximum = default
positive_int negative default minimum maximum = clamp minimum maximum 0
positive_int (number n) default minimum maximum = clamp minimum maximum n

-- FLOOD_IDEMPOTENCY_TTL_SECONDS, between a minute and a week, a day by default
unfoldable pub ttl_seconds : HttpEnv → ℕ
unfolding positive_int
ttl_seconds env = positive_int env.ttl_setting 86400 60 604800

abbrev pub default_max_replay_bytes : ℕ
default_max_replay_bytes = 8388608

-- FLOOD_IDEMPOTENCY_MAX_REPLAY_BYTES, between 1 KiB and 64 MiB, 8 MiB by default
unfoldable pub max_replay_bytes : HttpEnv → ℕ
unfolding positive_int
max_replay_bytes env = positive_int env.replay_setting default_max_replay_bytes 1024 67108864

pub header_eq : HeaderName → HeaderName → Bool
header_eq etag etag = true
header_eq location location = true
header_eq content_language content_language = true
header_eq content_type content_type = true
header_eq x_idempotent_replay x_idempotent_replay = true
header_eq x_idempotency_record_id x_idempotency_record_id = true
header_eq (other_header a) (other_header b) = a == b
header_eq _ _ = false

-- `headers[name] = value`
abbrev pub set_header : HeaderName → Ident → Headers → Headers
set_header name value [] = (name, value) ∷ []
set_header name value ((n, v) ∷ hs) =
    let rest = set_header name value hs in
    if header_eq n name then (name, value) ∷ hs else (n, v) ∷ rest

-- `headers.get(name)`
abbrev pub get_header : HeaderName → Headers → Option Ident
get_header name [] = none
get_header name ((n, v) ∷ hs) = if header_eq n name then some v else get_header name hs

-- SAFE_REPLAY_HEADERS
abbrev pub is_safe : HeaderName → Bool
is_safe etag = true
is_safe location = true
is_safe content_language = true
is_safe _ = false

-- The comprehension over `response.headers.items()`: of two entries of one name the last wins.
abbrev pub collect : Headers → Headers → Headers
collect found [] = found
collect found ((n, v) ∷ hs) = collect (if is_safe n then set_header n v found else found) hs

abbrev pub safe_headers : Headers → Headers
safe_headers hs = collect [] hs

abbrev pub ref_name : RefKey → Text
ref_name event_id = codes "event_id"
ref_name task_id = codes "task_id"
ref_name message_id = codes "message_id"
ref_name package_id = codes "package_id"
ref_name version_id = codes "version_id"
ref_name RefKey.record_id = codes "record_id"
ref_name backup_id = codes "backup_id"
ref_name report_id = codes "report_id"

abbrev pub first_ref : (RefKey → Option Text) → Text → List RefKey → Text
first_ref get fallback [] = fallback
first_ref get fallback (k ∷ ks) = elim (get k) [
  | none ↦ first_ref get fallback ks
  | some v ↦ if is_empty (strip v) then first_ref get fallback ks else ref_name k ++ b':' ∷ v
]

-- `_response_reference`
unfoldable pub response_reference : HttpEnv → Bytes → Text → Text
response_reference env body fallback = elim (env.json_object body) [
  | none ↦ fallback
  | some get ↦ first_ref get fallback (
      event_id ∷ task_id ∷ message_id ∷ package_id ∷ version_id ∷ RefKey.record_id ∷ backup_id
      ∷ report_id ∷ [])
]

-- The `code` of a 409 answer.
pub data ErrorCode : Type 0 where
  response_not_replayable record_invalid key_reused outcome_indeterminate : ErrorCode
  request_in_progress reservation_conflict : ErrorCode

-- What the handler of the route does.
pub data Outcome : Type 0 where
  -- it raises an HTTPException or a RequestValidationError
  rejects : Ident → Outcome
  -- it raises another exception
  crashes : Ident → Outcome
  answers : HttpResponse → Outcome

-- What the middleware does in the end.
pub data Reply : Type 0 where
  refused : ErrorCode → Reply
  invalid_key : Reply
  -- the identity is not resolved
  unidentified : Reply
  -- the RuntimeError of `complete_idempotency_record`
  not_processing : Reply
  raised : Ident → Reply
  answered : HttpResponse → Reply

-- The text "true" of a header.
abbrev pub true_text : Ident
true_text = 1

abbrev pub with_content_type : Option Ident → Headers → Headers
with_content_type none hs = hs
with_content_type (some v) hs = if v == 0 then hs else set_header content_type v hs

abbrev pub replay_headers : IdempotencyRecord → Headers
replay_headers r = set_header x_idempotency_record_id r.record_id (
    set_header x_idempotent_replay true_text
      (with_content_type r.response_content_type r.response_headers))

abbrev pub replay_body : IdempotencyRecord → ℕ → Option Bytes → Reply
replay_body r status none = refused record_invalid
replay_body r status (some body) =
    answered (record { status_code = status; headers = replay_headers r; body = body })

-- `_replay_response`
unfoldable pub replay_response : HttpEnv → IdempotencyRecord → Reply
replay_response env r = elim r.response_status [
  | none ↦ refused response_not_replayable
  | some status ↦
      if r.replayable
      then replay_body r status (env.decode64 r.response_body_base64)
      else refused response_not_replayable
]

abbrev pub reply_by_status : HttpEnv → IdempotencyRecord → IdempotencyStatus → Reply
reply_by_status env r completed = replay_response env r
reply_by_status env r indeterminate = refused outcome_indeterminate
reply_by_status env r processing = refused request_in_progress

-- `_existing_record_response`
unfoldable pub existing_record_response : HttpEnv → IdempotencyRecord → Ident → Reply
unfolding replay_response
existing_record_response env r hash =
    if r.request_hash == hash then reply_by_status env r r.status else refused key_reused
