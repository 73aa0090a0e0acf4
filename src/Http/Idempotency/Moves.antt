-- ===== src/Http/Idempotency/Moves.antt =====
-- A record stays in the table through the moves of all requests, until it expires.
use flood_agent.Base.{
  ℕ, ◌+◌, ◌≤◌, ◌<◌, ◌⊎◌, inl, inr, arith, Bool-cases, Option-cases, Option, any, ltb, leb, ◌&&◌,
  strip,
}
use flood_agent.Http.Messages.{HttpEnv, HttpRequest}
use flood_agent.Http.Idempotency.Records.{
  IdempotencyRecord, purge, clashes, is_open, complete_idempotency_record, overwrite,
}
use flood_agent.Http.Idempotency.Keys.{is_write, is_key}
use flood_agent.Http.Idempotency.Standing.{
  Holds, Closed, purge-Holds, append-Holds, release-Holds, overwrite-Holds,
}
use flood_agent.Http.Idempotency.Answers.{
  Outcome, rejects, crashes, answers, Reply, raised, answered,
}
use flood_agent.Http.Idempotency.{
  Claim, Phase, arrived, passing, reserving, refetching, running, finished, Gate, fetch, look_up,
  reserve, reservation, conclude, advance, conflict_or_answer, reserve_or_answer, claim_of,
  releasing, completing,
}

abbrev pub ClockMonotone : HttpEnv → Type 0
ClockMonotone env = (m n : ℕ) → m ≤ n → env.clock m ≤ env.clock n

abbrev pub Expired : HttpEnv → IdempotencyRecord → Gate → Type 0
Expired env r g = r.expires_at < env.clock g.ticks

-- The record is in the table, or has expired.
abbrev pub Stands : HttpEnv → IdempotencyRecord → Gate → Type 0
Stands env r g = Expired env r g ⊎ Holds r g.table

-- The move does not write to the record's row.
abbrev pub Harmless : IdempotencyRecord → Phase → Type 0
Harmless r (running c w) =
    Closed c.scope c.idempotency_key c.request_hash r
    × Closed w.scope w.idempotency_key w.request_hash r
Harmless r _ = Unit

module _ (env : HttpEnv) where
  pub fetch-ticks :
      (next : HttpEnv → Claim → Option IdempotencyRecord → Phase) (c : Claim) (g : Gate)
      → g.ticks ≤ (fetch env next c g).0.ticks
  unfolding fetch
  fetch-ticks next c g = omega arith

  pub conclude-ticks :
      (c : Claim) (r : IdempotencyRecord) (o : Outcome) (g : Gate)
      → g.ticks ≤ (conclude env c r o g).0.ticks
  unfolding conclude
  conclude-ticks c r (rejects e) g = ground arith
  conclude-ticks c r (crashes e) g = ground arith
  conclude-ticks c r (answers response) g = ground arith

  look_up-ticks : (r : HttpRequest) (g : Gate) → g.ticks ≤ (look_up env r g).0.ticks
  unfolding look_up
  look_up-ticks r g = elim (Option-cases (env.resolve r)) [
    | inl e ↦ rw e (ground arith)
    | inr (who, e) ↦ rw e (ground (arith))
  ]

  pub advance-ticks : (o : Outcome) (p : Phase) (g : Gate) → g.ticks ≤ (advance env o p g).0.ticks
  unfolding advance reserve
  advance-ticks o (arrived r) g = look_up-ticks r g
  advance-ticks o (passing r) g = omega arith
  advance-ticks o (reserving c) g = omega arith
  advance-ticks o (refetching c) g = fetch-ticks conflict_or_answer c g
  advance-ticks o (running c r) g = conclude-ticks c r o g
  advance-ticks o (finished reply) g = omega arith

module _ (env : HttpEnv) (mono : ClockMonotone env) where
  pub older :
      (r : IdempotencyRecord) (m n : ℕ)
      → m ≤ n
      → r.expires_at < env.clock m
      → r.expires_at < env.clock n
  older r m n later h = omega (arith, mono m n later)

  -- A purge at a reading of the clock.
  pub purged :
      (r : IdempotencyRecord) (g : Gate) (n : ℕ)
      → Holds r g.table
      → (r.expires_at < env.clock n) ⊎ Holds r (purge (env.clock n) g.table)
  purged r g n held = elim (Bool-cases (ltb r.expires_at (env.clock n))) [
    | inl e ↦ inl (ground arith)
    | inr e ↦ inr (purge-Holds (env.clock n) r g.table (ground arith) held)
  ]

  pub fetch-Stands :
      (next : HttpEnv → Claim → Option IdempotencyRecord → Phase) (c : Claim) (g : Gate)
      (r : IdempotencyRecord)
      → Stands env r g
      → Stands env r (fetch env next c g).0
  unfolding fetch
  fetch-Stands next c g r (inl old) = inl (older r g.ticks _ (omega arith) old)
  fetch-Stands next c g r (inr held) = elim (purged r g g.ticks held) [
    | inl old ↦ inl (older r g.ticks _ (omega arith) old)
    | inr kept ↦ inr kept
  ]

  pub reserve-Stands :
      (c : Claim) (g : Gate) (r : IdempotencyRecord)
      → Stands env r g
      → Stands env r (reserve env c g).0
  unfolding reserve
  reserve-Stands c g r (inl old) = inl (older r g.ticks _ (omega arith) old)
  reserve-Stands c g r (inr held) =
      elim (Bool-cases
        (any (clashes (reservation env c g)) (purge (env.clock (g.ticks + 1)) g.table))) [
          | inl e ↦ rw e (inr held)
          | inr e ↦ elim (purged r g (g.ticks + 1) held) [
            | inl old ↦ inl (older r (g.ticks + 1) (g.ticks + 2) (omega arith) old)
            | inr kept ↦ rw e (inr (append-Holds r _ _ kept))
          ]
        ]

  completing-Stands :
      (w : IdempotencyRecord) (reply : Reply) (g : Gate) (r : IdempotencyRecord)
      → Closed w.scope w.idempotency_key w.request_hash r
      → Stands env r g
      → Stands env r (completing env w reply g).0
  unfolding complete_idempotency_record
  completing-Stands w reply g r closed stands =
      elim (Bool-cases
        (any (λ x. is_open w.scope w.idempotency_key w.request_hash x.payload) g.table)) [
          | inl e ↦ rw (e, completing) (settle stands)
          | inr e ↦ rw (e, completing) (still stands)
        ]
    where
      settle :
          Stands env r g
          → Stands env r (record g { table = overwrite w g.table; ticks = g.ticks + 1 })
      settle (inl old) = inl (older r g.ticks _ (omega arith) old)
      settle (inr held) = inr (overwrite-Holds w r g.table closed held)

      still : Stands env r g → Stands env r (record g { ticks = g.ticks + 1 })
      still (inl old) = inl (older r g.ticks _ (omega arith) old)
      still (inr held) = inr held

  releasing-Stands :
      (c : Claim) (reply : Reply) (g : Gate) (r : IdempotencyRecord)
      → Closed c.scope c.idempotency_key c.request_hash r
      → Stands env r g
      → Stands env r (releasing c reply g).0
  releasing-Stands c reply g r closed (inl old) = inl old
  releasing-Stands c reply g r closed (inr held) =
      inr (release-Holds c.scope c.idempotency_key c.request_hash r g.table closed held)

  pub conclude-Stands :
      (c : Claim) (w : IdempotencyRecord) (o : Outcome) (g : Gate) (r : IdempotencyRecord)
      → Harmless r (running c w)
      → Stands env r g
      → Stands env r (conclude env c w o g).0
  unfolding conclude
  conclude-Stands c w (rejects e) g r h s = releasing-Stands c (raised e) g r h.0 s
  conclude-Stands c w (crashes e) g r h s = completing-Stands _ _ g r h.1 s
  conclude-Stands c w (answers response) g r h s =
      elim (Bool-cases (leb 200 response.status_code && ltb response.status_code 300)) [
        | inl e ↦ rw e (completing-Stands _ _ g r h.1 s)
        | inr e ↦ rw e (elim (Bool-cases (ltb response.status_code 500)) [
          | inl d ↦ rw d (releasing-Stands c (answered response) g r h.0 s)
          | inr d ↦ rw d (completing-Stands _ _ g r h.1 s)
        ])
      ]

  look_up-Stands :
      (q : HttpRequest) (g : Gate) (r : IdempotencyRecord)
      → Stands env r g
      → Stands env r (look_up env q g).0
  unfolding look_up
  look_up-Stands q g r s = elim (Bool-cases (is_write env q)) [
    | inl e ↦ rw e (elim (Option-cases (env.resolve q)) [
      | inl f ↦ rw f s
      | inr (who, f) ↦ rw f (elim (Bool-cases (is_key (strip q.idempotency_key))) [
        | inl d ↦ rw d (fetch-Stands reserve_or_answer (claim_of env q who) g r s)
        | inr d ↦ rw d s
      ])
    ])
    | inr e ↦ rw e s
  ]

  -- A record stands through every move that does not write to its row.
  pub advance-Stands :
      (o : Outcome) (p : Phase) (g : Gate) (r : IdempotencyRecord)
      → Harmless r p
      → Stands env r g
      → Stands env r (advance env o p g).0
  unfolding advance
  advance-Stands o (arrived q) g r h s = look_up-Stands q g r s
  advance-Stands o (passing q) g r h s = s
  advance-Stands o (reserving c) g r h s = reserve-Stands c g r s
  advance-Stands o (refetching c) g r h s = fetch-Stands conflict_or_answer c g r s
  advance-Stands o (running c w) g r h s = conclude-Stands c w o g r h s
  advance-Stands o (finished reply) g r h s = s
