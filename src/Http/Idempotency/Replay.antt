-- ===== src/Http/Idempotency/Replay.antt =====
-- What the key of a write that was done answers, until it expires.
use mathlib.Core.Path.{subst}
use flood_agent.Base.{
  ℕ, zero, suc, ◌≤◌, ◌≡◌, ◌∙◌, inl, inr, refl, ap, sym, arith, true, false, some, List, [], ◌∷◌,
  ltb, leb, Bool-cases, Time, strip, length, text_eq_refl, find, any-find_of,
}
use flood_agent.Http.Messages.{HttpEnv, HttpRequest, HttpResponse, OperatorName}
use flood_agent.Http.Idempotency.Records.{
  IdempotencyRecord, Row, Table, processing, is_processing, in_slot, is_open, overwrite,
  complete_idempotency_record, get_idempotency_record,
}
use flood_agent.Http.Idempotency.Keys.{
  is_write, is_key, canonical_idempotency_scope, request_fingerprint,
}
use flood_agent.Http.Idempotency.Standing.{Holds, purge-Holds}
use flood_agent.Http.Idempotency.Moves.{ClockMonotone, Stands, Harmless, advance-Stands}
use flood_agent.Http.Idempotency.Answers.{
  Outcome, answers, answered, existing_record_response, replay_response, replay_headers,
  max_replay_bytes,
}
use flood_agent.Http.Idempotency.{
  Claim, Phase, arrived, passing, reserving, refetching, running, finished, Gate, look_up, fetch,
  conclude, move_at, turn, play, System, success_record, marked, completing,
}

-- The request is a write under the slot of the record, by someone who is known.
pub record Reuses (env : HttpEnv) (who : OperatorName) (q : HttpRequest) (r : IdempotencyRecord)
    : Type 0 where
  pub writes : is_write env q ≡ true
  pub known : env.resolve q ≡ some who
  pub keyed : is_key (strip q.idempotency_key) ≡ true
  pub scoped : canonical_idempotency_scope env who q.method q.path ≡ r.scope
  pub same_key : strip q.idempotency_key ≡ r.idempotency_key

settled-Harmless :
    (r : IdempotencyRecord) (p : Phase) → is_processing r.status ≡ false → Harmless r p
settled-Harmless r (arrived q) h = tt
settled-Harmless r (passing q) h = tt
settled-Harmless r (reserving c) h = tt
settled-Harmless r (refetching c) h = tt
settled-Harmless r (running c w) h = (ground arith, ground arith)
settled-Harmless r (finished reply) h = tt

module _ (env : HttpEnv) (mono : ClockMonotone env) (r : IdempotencyRecord)
    (settled : is_processing r.status ≡ false) where
  move_at-Stands :
      (i : ℕ) (o : Outcome) (ps : List Phase) (g : Gate)
      → Stands env r g
      → Stands env r (move_at env i o ps g).0
  unfolding move_at
  move_at-Stands i o [] g s = s
  move_at-Stands zero o (p ∷ ps) g s =
      advance-Stands env mono o p g r (settled-Harmless r p settled) s
  move_at-Stands (suc i) o (p ∷ ps) g s = move_at-Stands i o ps g s

  play-Stands :
      (ms : List (ℕ × Outcome)) (s : System)
      → Stands env r s.gate
      → Stands env r (play env ms s).gate
  unfolding play turn
  play-Stands [] s h = h
  play-Stands ((i, o) ∷ ms) s h =
      play-Stands ms (turn env i o s) (move_at-Stands i o s.phases s.gate h)

-- A read of the table while the record holds.
look_up-held :
    (env : HttpEnv) (who : OperatorName) (q : HttpRequest) (r : IdempotencyRecord) (g : Gate)
    → Reuses env who q r
    → Holds r g.table
    → env.clock g.ticks ≤ r.expires_at
    → (look_up env q g).1 ≡ finished (existing_record_response env r (request_fingerprint env q))
unfolding look_up fetch get_idempotency_record
look_up-held env who q r g reuse held fresh =
    let (x, found, same) = purge-Holds (env.clock g.ticks) r g.table fresh held in
    rw (reuse.writes, reuse.known, reuse.keyed, reuse.scoped, reuse.same_key, found, same) refl

-- Where the clock does not run backwards and the table holds a record that is completed or
-- indeterminate: after any moves, until the record expires, a write by someone known under its
-- scope and key is answered from that record, so that its handler does not run.
pub settled_never_runs :
    (env : HttpEnv) (who : OperatorName) (q : HttpRequest) (r : IdempotencyRecord)
    (ms : List (ℕ × Outcome)) (s : System)
    → ClockMonotone env
    → is_processing r.status ≡ false
    → Holds r s.gate.table
    → Reuses env who q r
    → env.clock (play env ms s).gate.ticks ≤ r.expires_at
    → (look_up env q (play env ms s).gate).1
      ≡ finished (existing_record_response env r (request_fingerprint env q))
settled_never_runs env who q r ms s mono settled held reuse fresh =
    elim (play-Stands env mono r settled ms s (inr held)) [
      | inl old ↦ absurd (omega arith)
      | inr kept ↦ look_up-held env who q r (play env ms s).gate reuse kept fresh
    ]

-- An update that meets the row of its slot leaves the record there.
overwrite-own :
    (w : IdempotencyRecord) (t : Table) (x : Row)
    → find (in_slot w.scope w.idempotency_key) t ≡ some x
    → is_open w.scope w.idempotency_key w.request_hash x.payload ≡ true
    → Holds w (overwrite w t)
overwrite-own w [] x found opened = absurd (ground arith)
overwrite-own w (y ∷ t) x found opened = elim (Bool-cases (in_slot w.scope w.idempotency_key y)) [
  | inl e ↦
      let is_x : y ≡ x = ground arith in
      let y_open : is_open w.scope w.idempotency_key w.request_hash y.payload ≡ true =
        subst (λ z. is_open w.scope w.idempotency_key w.request_hash z.payload ≡ true) (sym is_x)
          opened in
      (
        record y { payload = w },
        rw (y_open, text_eq_refl w.scope, text_eq_refl w.idempotency_key) refl,
        refl,
      )
  | inr e ↦
      let y_shut : is_open w.scope w.idempotency_key w.request_hash y.payload ≡ false =
        ground arith in
      let (z, f, d) = overwrite-own w t x (ground arith) opened in (z, rw (y_shut, e) f, d)
]

-- The write of a success, where the reservation stands in the table.
conclude-success :
    (env : HttpEnv) (c : Claim) (r : IdempotencyRecord) (response : HttpResponse) (g : Gate)
    → Holds r g.table
    → r.status ≡ processing
    → leb 200 response.status_code ≡ true
    → ltb response.status_code 300 ≡ true
    → let after = conclude env c r (answers response) g in
      (after.1 ≡ finished (answered (marked r response)))
      × Holds (success_record env c r response (env.clock g.ticks)) after.0.table
unfolding conclude complete_idempotency_record
conclude-success env c r response g (x, found, same) pending low high =
    let w = success_record env c r response (env.clock g.ticks) in
    let opened : is_open w.scope w.idempotency_key w.request_hash x.payload ≡ true =
      rw (same, text_eq_refl r.scope, text_eq_refl r.idempotency_key, pending) (ground arith) in
    let met =
      any-find_of (in_slot w.scope w.idempotency_key)
        (λ y. is_open w.scope w.idempotency_key w.request_hash y.payload) g.table x found opened in
    rw (low, high) (rw (met, completing) (refl, overwrite-own w g.table x found opened))

-- What a stored success answers, where its body was short enough to be stored.
replay-success :
    (env : HttpEnv) (c : Claim) (r : IdempotencyRecord) (response : HttpResponse) (now : Time)
    → leb (length response.body) (max_replay_bytes env) ≡ true
    → env.decode64 (env.encode64 response.body) ≡ some response.body
    → let w = success_record env c r response now in
      existing_record_response env w w.request_hash
      ≡ answered (record {
        status_code = response.status_code;
        headers = replay_headers w;
        body = response.body;
      })
unfolding existing_record_response replay_response
replay-success env c r response now short decoded = rw (short, decoded) (ground arith)

-- Where the clock does not run backwards and the table holds the reservation of a running request:
-- if its handler answers with a status from 200 to 299 and a body that is short enough to be stored
-- and that base64 gives back, the request ends with that answer and the mark of its record, and
-- after any further moves, until the record expires, a write by someone known under the same scope,
-- key and fingerprint is answered from the record with the same status and body and the stored
-- headers.
pub success-replayed :
    (env : HttpEnv) (c : Claim) (r : IdempotencyRecord) (response : HttpResponse) (g : Gate)
    (ps : List Phase) (ms : List (ℕ × Outcome)) (who : OperatorName) (q : HttpRequest)
    → ClockMonotone env
    → Holds r g.table
    → r.status ≡ processing
    → leb 200 response.status_code ≡ true
    → ltb response.status_code 300 ≡ true
    → leb (length response.body) (max_replay_bytes env) ≡ true
    → env.decode64 (env.encode64 response.body) ≡ some response.body
    → Reuses env who q r
    → request_fingerprint env q ≡ r.request_hash
    → let done = conclude env c r (answers response) g in
      let later = play env ms (record { gate = done.0; phases = ps }) in
      env.clock later.gate.ticks ≤ r.expires_at
      → (done.1 ≡ finished (answered (marked r response)))
        × ((look_up env q later.gate).1
            ≡ finished (
                answered (record {
                  status_code = response.status_code;
                  headers = replay_headers (success_record env c r response (env.clock g.ticks));
                  body = response.body;
                })))
success-replayed env c r response g ps ms who q mono held pending low high short decoded reuse
      same_hash fresh =
    let (done, stored) = conclude-success env c r response g held pending low high in
    let w = success_record env c r response (env.clock g.ticks) in
    let start : System = record { gate = (conclude env c r (answers response) g).0; phases = ps } in
    (
      done,
      settled_never_runs env who q w ms start mono refl stored
            (record {
              writes = reuse.writes;
              known = reuse.known;
              keyed = reuse.keyed;
              scoped = reuse.scoped;
              same_key = reuse.same_key;
            })
            fresh
          ∙ ap finished (
              ap (existing_record_response env w) same_hash
              ∙ replay-success env c r response (env.clock g.ticks) short decoded),
    )
