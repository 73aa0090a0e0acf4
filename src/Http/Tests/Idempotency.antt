-- ===== src/Http/Tests/Idempotency.antt =====
-- Runs of the middleware on small requests.
use flood_agent.Base.{ℕ, ◌≡◌, ◌⊎◌, refl, arith, List, [], ◌∷◌, codes, strip}
use flood_agent.Http.Messages.{HttpEnv, HttpResponse, unset}
use flood_agent.Http.Idempotency.Records.{
  IdempotencyRecord, indeterminate, purge, reserve_idempotency_record, get_idempotency_record,
}
use flood_agent.Http.Idempotency.Keys.{
  canonical_idempotency_scope, fingerprint_parts, request_fingerprint, is_write, is_key,
}
use flood_agent.Http.Idempotency.Answers.{
  Outcome, rejects, answers, answered, existing_record_response, replay_headers, ttl_seconds,
  max_replay_bytes, positive_int,
}
use flood_agent.Http.Idempotency.{
  Claim, arrived, running, finished, Gate, System, conclude, look_up, success_record, marked, play,
  reservation, claim_of, turn, move_at, advance, fetch, reserve,
}
use flood_agent.Http.Idempotency.Moves.{ClockMonotone, Expired}
use flood_agent.Http.Idempotency.Replay.{Reuses, success-replayed, settled_never_runs}
use flood_agent.Http.Idempotency.Writers.{one_writer}
use flood_agent.Http.Idempotency.Distinct.{canonical_idempotency_scope_inj, request_fingerprint_inj}
use flood_agent.Http.Tests.{test_env, request_with, test_request, reviewer_name}

test_clock : ClockMonotone test_env
test_clock m n h = omega arith

request_fingerprint_inj_example :
    (codes "POST" ≡ codes "POST")
    × (codes "/tasks" ≡ codes "/tasks")
    × (◌≡◌ {A = List ℕ} [] [])
    × (codes "a/json" ≡ codes "a/json")
    × (◌≡◌ {A = List ℕ} (7 ∷ []) (7 ∷ []))
unfolding request_fingerprint fingerprint_parts strip
request_fingerprint_inj_example =
    request_fingerprint_inj test_env test_request
      (request_with (codes "k2") (codes " a/json") (7 ∷ [])) (λ e. refl) (omega arith) (omega arith)
      refl

canonical_idempotency_scope_inj_example :
    (reviewer_name ≡ reviewer_name) × (codes "POST" ≡ codes "POST") × (codes "/a:b" ≡ codes "/a:b")
canonical_idempotency_scope_inj_example =
    canonical_idempotency_scope_inj test_env reviewer_name reviewer_name (codes "POST")
      (codes "POST") (codes "/a:b") (codes "/a:b") refl refl refl refl refl refl refl

-- Two requests with one key.
abbrev two_requests : System
two_requests = record {
  gate = record { table = []; ticks = 0; minted = 0 };
  phases = arrived test_request ∷ arrived test_request ∷ [];
}

-- Each looks up the key and reserves it; the reservation of the first has expired by then.
abbrev four_moves : List (ℕ × Outcome)
four_moves = (0, rejects 1) ∷ (0, rejects 1) ∷ (1, rejects 1) ∷ (1, rejects 1) ∷ []

abbrev test_claim : Claim
test_claim = claim_of test_env test_request reviewer_name

abbrev gate_at : ℕ → ℕ → Gate
gate_at n m = record { table = []; ticks = n; minted = m }

abbrev first_record : IdempotencyRecord
first_record = reservation test_env test_claim (gate_at 1 0)

abbrev second_record : IdempotencyRecord
second_record = reservation test_env test_claim (gate_at 4 1)

one_writer_example :
    Expired test_env first_record (play test_env four_moves two_requests).gate
    ⊎ Expired test_env second_record (play test_env four_moves two_requests).gate
unfolding play turn move_at advance look_up fetch reserve get_idempotency_record
    reserve_idempotency_record purge is_write is_key strip canonical_idempotency_scope
    request_fingerprint ttl_seconds positive_int
one_writer_example =
    one_writer test_env four_moves two_requests 0 1 (running test_claim first_record)
      (running test_claim second_record) first_record second_record test_clock (refl, (refl, tt))
      (λ r e. cc, (λ r e. cc, (λ r e. cc, (λ r e. cc, tt)))) (omega arith) refl refl refl refl refl
      refl

-- A clock that stands still.
abbrev still_env : HttpEnv
still_env = record test_env { clock = λ n. 5; ttl_setting = unset }

abbrev still_claim : Claim
still_claim = claim_of still_env test_request reviewer_name

abbrev still_record : IdempotencyRecord
still_record = reservation still_env still_claim (gate_at 0 0)

abbrev still_gate : Gate
still_gate = record {
  table = record { row_id = still_record.record_id; payload = still_record } ∷ [];
  ticks = 2;
  minted = 1;
}

abbrev created : HttpResponse
created = record { status_code = 201; headers = []; body = 7 ∷ [] }

still_clock : ClockMonotone still_env
still_clock m n h = omega arith

still_reuse : Reuses still_env reviewer_name test_request still_record
unfolding is_write is_key strip
still_reuse = record { writes = refl; known = refl; keyed = refl; scoped = refl; same_key = refl }

-- After the success, another request with the key looks it up and is answered.
success-replayed_example :
    ((conclude still_env still_claim still_record (answers created) still_gate).1
      ≡ finished (answered (marked still_record created)))
    × ((look_up still_env test_request
          (play still_env ((0, rejects 1) ∷ []) (record {
            gate = (conclude still_env still_claim still_record (answers created) still_gate).0;
            phases = arrived test_request ∷ [];
          })).gate).1
        ≡ finished (
            answered (record {
              status_code = 201;
              headers =
                  replay_headers (success_record still_env still_claim still_record created 5);
              body = 7 ∷ [];
            })))
unfolding ttl_seconds positive_int canonical_idempotency_scope strip max_replay_bytes
success-replayed_example =
    success-replayed still_env still_claim still_record created still_gate
      (arrived test_request ∷ []) ((0, rejects 1) ∷ []) reviewer_name test_request still_clock
      (record { row_id = still_record.record_id; payload = still_record }, refl, refl) refl refl
      refl refl refl still_reuse refl (omega arith)

abbrev done_record : IdempotencyRecord
done_record = record still_record { status = indeterminate }

abbrev done_gate : Gate
done_gate = record still_gate {
  table = record { row_id = done_record.record_id; payload = done_record } ∷ [];
}

settled_never_runs_example :
    (look_up still_env test_request
      (play still_env
        ((0, rejects 1) ∷ [])
        (record { gate = done_gate; phases = arrived test_request ∷ [] })).gate).1
    ≡ finished (
        existing_record_response still_env done_record (request_fingerprint still_env test_request))
unfolding ttl_seconds positive_int canonical_idempotency_scope strip
settled_never_runs_example =
    settled_never_runs still_env reviewer_name test_request done_record ((0, rejects 1) ∷ [])
      (record { gate = done_gate; phases = arrived test_request ∷ [] }) still_clock refl
      (record { row_id = done_record.record_id; payload = done_record }, refl, refl)
      (record {
        writes = still_reuse.writes;
        known = still_reuse.known;
        keyed = still_reuse.keyed;
        scoped = refl;
        same_key = refl;
      })
      (omega arith)
