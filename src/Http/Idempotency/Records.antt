-- ===== src/Http/Idempotency/Records.antt =====
-- The table of idempotency records: `get_idempotency_record`, `reserve_idempotency_record`,
-- `complete_idempotency_record` and `release_idempotency_record` of
-- flood_system/storage/response_repository.py.
use flood_agent.Base.{
  ℕ, Bool, true, false, not, ◌&&◌, ◌||◌, Option, none, some, List, [], ◌∷◌, ◌++◌, ◌==◌, ltb,
  if◌then◌else◌, Ident, Time, Text, text_eq, find, filter_by, any,
}
use flood_agent.Http.Messages.{Headers}

pub data IdempotencyStatus : Type 0 where
  processing completed indeterminate : IdempotencyStatus

pub record IdempotencyRecord : Type 0 where
  pub record_id : Ident
  pub scope : Text
  pub idempotency_key : Text
  pub request_hash : Ident
  pub status : IdempotencyStatus
  pub response_status : Option ℕ
  pub response_content_type : Option Ident
  pub response_headers : Headers
  pub response_body_base64 : Ident
  pub response_ref : Option Text
  pub replayable : Bool
  pub expires_at : Time
  pub created_at : Time
  pub completed_at : Option Time

-- A row: the primary key, and the payload, which repeats the other columns.
pub record Row : Type 0 where
  pub row_id : Ident
  pub payload : IdempotencyRecord
  pub open payload use *

abbrev pub Table : Type 0
Table = List Row

abbrev pub is_processing : IdempotencyStatus → Bool
is_processing processing = true
is_processing _ = false

-- `scope = ? AND idempotency_key = ?`
abbrev pub has_slot : Text → Text → IdempotencyRecord → Bool
has_slot scope key r = text_eq r.scope scope && text_eq r.idempotency_key key

abbrev pub in_slot : Text → Text → Row → Bool
in_slot scope key x = has_slot scope key x.payload

-- `DELETE ... WHERE expires_at < ?`
unfoldable pub purge : Time → Table → Table
purge now = filter_by (λ x. not (ltb x.expires_at now))

abbrev pub payload_of : Option Row → Option IdempotencyRecord
payload_of none = none
payload_of (some x) = some x.payload

-- The table after `get_idempotency_record`, and the record that it returns.
unfoldable pub get_idempotency_record :
    Time → Text → Text → Table → Table × Option IdempotencyRecord
unfolding purge
get_idempotency_record now scope key t =
    let kept = purge now t in (kept, payload_of (find (in_slot scope key) kept))

-- `record_id` is the primary key, and `(scope, idempotency_key)` is unique.
abbrev pub clashes : IdempotencyRecord → Row → Bool
clashes r x = x.row_id == r.record_id || in_slot r.scope r.idempotency_key x

-- `reserve_idempotency_record`, for a record that is processing: the transaction is rolled back
-- where the insertion breaks a constraint.
unfoldable pub reserve_idempotency_record : Time → IdempotencyRecord → Table → Table × Bool
unfolding purge
reserve_idempotency_record now r t =
    let kept = purge now t in
    if any (clashes r) kept
    then (t, false)
    else (kept ++ (record { row_id = r.record_id; payload = r }) ∷ [], true)

-- `scope = ? AND idempotency_key = ? AND request_hash = ? AND status = 'processing'`
abbrev pub is_open : Text → Text → Ident → IdempotencyRecord → Bool
is_open scope key hash r = has_slot scope key r && r.request_hash == hash && is_processing r.status

-- The rows that the update of `complete_idempotency_record` writes.
abbrev pub overwrite : IdempotencyRecord → Table → Table
overwrite r [] = []
overwrite r (x ∷ t) =
    (if is_open r.scope r.idempotency_key r.request_hash x.payload
      then record x { payload = r }
      else x)
    ∷ overwrite r t

-- `complete_idempotency_record`: `none` is the RuntimeError, after which nothing is written. The
-- slot is unique, so that the update meets one row at most.
unfoldable pub complete_idempotency_record : IdempotencyRecord → Table → Option Table
complete_idempotency_record r t =
    if any (λ x. is_open r.scope r.idempotency_key r.request_hash x.payload) t
    then some (overwrite r t)
    else none

unfoldable pub release_idempotency_record : Text → Text → Ident → Table → Table
release_idempotency_record scope key hash = filter_by (λ x. not (is_open scope key hash x.payload))
