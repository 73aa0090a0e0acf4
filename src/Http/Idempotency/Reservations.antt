-- ===== src/Http/Idempotency/Reservations.antt =====
-- How the reservations of two requests stand to each other through a move of one of them.
use mathlib.Core.Path.{subst}
use flood_agent.Base.{
  ◌+◌, ◌≤◌, ◌<◌, ◌≡◌, ◌∙◌, ◌⊎◌, inl, inr, refl, ap, sym, arith, true, false, Option, none, some,
  Bool-cases, Option-cases, text_eq_refl, text_eq_sound, any, any-find, any-or_right,
  find-append_of_none,
}
use flood_agent.Http.Messages.{HttpEnv, HttpRequest}
use flood_agent.Http.Idempotency.Records.{
  IdempotencyRecord, processing, has_slot, in_slot, clashes, purge, is_open,
}
use flood_agent.Http.Idempotency.Standing.{Closed}
use flood_agent.Http.Idempotency.Moves.{
  ClockMonotone, Expired, Stands, advance-Stands, advance-ticks, older, purged,
}
use flood_agent.Http.Idempotency.Answers.{Outcome, answers, rejects, crashes}
use flood_agent.Http.Idempotency.{
  Claim, Phase, arrived, passing, reserving, refetching, running, finished, Gate, look_up, fetch,
  reserve, reservation, conclude, conflict_or_answer, advance,
}

-- The reservation under which the handler of a request runs.
abbrev pub record_of : Phase → Option IdempotencyRecord
record_of (running c r) = some r
record_of _ = none

-- A running request made its reservation for its own slot, and the table holds it until it expires.
abbrev pub Guarded : HttpEnv → Gate → Phase → Type 0
Guarded env g (running c r) =
    (r.scope ≡ c.scope)
    × (r.idempotency_key ≡ c.idempotency_key)
    × (r.request_hash ≡ c.request_hash)
    × (r.status ≡ processing)
    × Stands env r g
Guarded env g _ = Unit

-- Of two reservations of one slot, one has expired.
abbrev pub Apart : HttpEnv → Gate → Phase → Phase → Type 0
Apart env g p q =
    (r s : IdempotencyRecord)
    → record_of p ≡ some r
    → record_of q ≡ some s
    → r.scope ≡ s.scope
    → r.idempotency_key ≡ s.idempotency_key
    → Expired env r g ⊎ Expired env s g

-- The handler of a request has ended before its reservation expires.
abbrev pub InTime : HttpEnv → Gate → Phase → Type 0
InTime env g p = (r : IdempotencyRecord) → record_of p ≡ some r → env.clock g.ticks ≤ r.expires_at

look_up-idle : (env : HttpEnv) (q : HttpRequest) (g : Gate) → record_of (look_up env q g).1 ≡ none
unfolding look_up fetch
look_up-idle env q g = elim (Option-cases (env.resolve q)) [
  | inl e ↦ rw e (ground arith)
  | inr (who, e) ↦ rw e (ground arith)
]

conclude-idle :
    (env : HttpEnv) (c : Claim) (r : IdempotencyRecord) (o : Outcome) (g : Gate)
    → record_of (conclude env c r o g).1 ≡ none
unfolding conclude
conclude-idle env c r (rejects e) g = refl
conclude-idle env c r (crashes e) g = ground arith
conclude-idle env c r (answers response) g = ground arith

refetch-idle :
    (env : HttpEnv) (c : Claim) (g : Gate) → record_of (fetch env conflict_or_answer c g).1 ≡ none
unfolding fetch
refetch-idle env c g = ground arith

-- The reservation after a reserve, where there is one.
reserve-guarded :
    (env : HttpEnv) (c : Claim) (g : Gate) → Guarded env (reserve env c g).0 (reserve env c g).1
unfolding reserve
reserve-guarded env c g =
    elim (Bool-cases
      (any (clashes (reservation env c g)) (purge (env.clock (g.ticks + 1)) g.table))) [
        | inl e ↦ rw e tt
        | inr e ↦ rw e (
          refl,
          refl,
          refl,
          refl,
          inr (
            record { row_id = env.uuid g.minted; payload = reservation env c g },
            find-append_of_none (in_slot c.scope c.idempotency_key)
                  (purge (env.clock (g.ticks + 1)) g.table) _
                  (any-or_right _ _ (purge (env.clock (g.ticks + 1)) g.table) e)
                ∙ rw (text_eq_refl c.scope, text_eq_refl c.idempotency_key) refl,
            refl,
          ),
        )
      ]

pub guarded-Stands :
    (env : HttpEnv) (g : Gate) (q : Phase) (s : IdempotencyRecord)
    → Guarded env g q
    → record_of q ≡ some s
    → Stands env s g
guarded-Stands env g (arrived r) s h e = absurd (ground arith)
guarded-Stands env g (passing r) s h e = absurd (ground arith)
guarded-Stands env g (reserving c) s h e = absurd (ground arith)
guarded-Stands env g (refetching c) s h e = absurd (ground arith)
guarded-Stands env g (running c r) s h e = subst (λ x. Stands env x g) (ground arith) h.4
guarded-Stands env g (finished r) s h e = absurd (ground arith)

-- A reservation is made only where those of the slot have expired.
free_slot :
    (env : HttpEnv) (c : Claim) (g : Gate) (s : IdempotencyRecord)
    → ClockMonotone env
    → any (clashes (reservation env c g)) (purge (env.clock (g.ticks + 1)) g.table) ≡ false
    → Stands env s g
    → s.scope ≡ c.scope
    → s.idempotency_key ≡ c.idempotency_key
    → s.expires_at < env.clock (g.ticks + 2)
free_slot env c g s mono free (inl old) scope key =
    older env mono s g.ticks (g.ticks + 2) (omega arith) old
free_slot env c g s mono free (inr held) scope key = elim (purged env mono s g (g.ticks + 1) held) [
  | inl old ↦ older env mono s (g.ticks + 1) (g.ticks + 2) (omega arith) old
  | inr (x, found, same) ↦
      let t = purge (env.clock (g.ticks + 1)) g.table in
      let met : any (in_slot s.scope s.idempotency_key) t ≡ true =
        any-find (in_slot s.scope s.idempotency_key) t x found in
      let missed : any (in_slot c.scope c.idempotency_key) t ≡ false = any-or_right _ _ t free in
      let missed' : any (in_slot s.scope s.idempotency_key) t ≡ false = rw (scope, key) missed in
      absurd (ground arith)
]

reserve-apart :
    (env : HttpEnv) (c : Claim) (g : Gate) (q : Phase)
    → ClockMonotone env
    → Guarded env g q
    → Apart env (reserve env c g).0 (reserve env c g).1 q
unfolding reserve
reserve-apart env c g q mono guard r s e f scope key =
    elim (Bool-cases
      (any (clashes (reservation env c g)) (purge (env.clock (g.ticks + 1)) g.table))) [
        | inl clash ↦ absurd (ground arith)
        | inr free ↦
            let mine : reservation env c g ≡ r = ground arith in
            inr (
              free_slot env c g s mono free (guarded-Stands env g q s guard f)
                (sym scope ∙ sym (ap (λ x. x.scope) mine))
                (sym key ∙ sym (ap (λ x. x.idempotency_key) mine)))
      ]

pub idle-Apart : (env : HttpEnv) (g : Gate) (p q : Phase) → record_of p ≡ none → Apart env g p q
idle-Apart env g p q idle r s e f scope key = absurd (ground arith)

pub later-Apart :
    (env : HttpEnv) (g g' : Gate) (p q : Phase)
    → ClockMonotone env
    → g.ticks ≤ g'.ticks
    → Apart env g p q
    → Apart env g' p q
later-Apart env g g' p q mono later h r s e f scope key = elim (h r s e f scope key) [
  | inl old ↦ inl (older env mono r g.ticks g'.ticks later old)
  | inr old ↦ inr (older env mono s g.ticks g'.ticks later old)
]

pub swap-Apart : (env : HttpEnv) (g : Gate) (p q : Phase) → Apart env g p q → Apart env g q p
swap-Apart env g p q h r s e f scope key = elim (h s r f e (sym scope) (sym key)) [
  | inl old ↦ inr old
  | inr old ↦ inl old
]

pub idle-Guarded : (env : HttpEnv) (g : Gate) (p : Phase) → record_of p ≡ none → Guarded env g p
idle-Guarded env g (arrived r) e = tt
idle-Guarded env g (passing r) e = tt
idle-Guarded env g (reserving c) e = tt
idle-Guarded env g (refetching c) e = tt
idle-Guarded env g (running c r) e = absurd (ground arith)
idle-Guarded env g (finished r) e = tt

-- The request that moves: its own reservation, and how it stands to another.
pub own-Guarded :
    (env : HttpEnv) (o : Outcome) (p : Phase) (g : Gate)
    → Guarded env (advance env o p g).0 (advance env o p g).1
unfolding advance
own-Guarded env o (arrived r) g =
    let (g', p') = look_up env r g in idle-Guarded env g' p' (look_up-idle env r g)
own-Guarded env o (passing r) g = tt
own-Guarded env o (reserving c) g = reserve-guarded env c g
own-Guarded env o (refetching c) g =
    let (g', p') = fetch env conflict_or_answer c g in idle-Guarded env g' p' (refetch-idle env c g)
own-Guarded env o (running c r) g =
    let (g', p') = conclude env c r o g in idle-Guarded env g' p' (conclude-idle env c r o g)
own-Guarded env o (finished reply) g = tt

pub own-Apart :
    (env : HttpEnv) (o : Outcome) (p q : Phase) (g : Gate)
    → ClockMonotone env
    → Guarded env g q
    → Apart env (advance env o p g).0 (advance env o p g).1 q
unfolding advance
own-Apart env o (arrived r) q g mono guard =
    let (g', p') = look_up env r g in idle-Apart env g' p' q (look_up-idle env r g)
own-Apart env o (passing r) q g mono guard = idle-Apart env g (advance env o (passing r) g).1 q refl
own-Apart env o (reserving c) q g mono guard = reserve-apart env c g q mono guard
own-Apart env o (refetching c) q g mono guard =
    let (g', p') = fetch env conflict_or_answer c g in idle-Apart env g' p' q (refetch-idle env c g)
own-Apart env o (running c r) q g mono guard =
    let (g', p') = conclude env c r o g in idle-Apart env g' p' q (conclude-idle env c r o g)
own-Apart env o (finished reply) q g mono guard = idle-Apart env g (finished reply) q refl

-- The move of another request does not take a reservation away.
other-Stands :
    (env : HttpEnv) (o : Outcome) (p : Phase) (g : Gate) (r : IdempotencyRecord)
    → ClockMonotone env
    → Guarded env g p
    → ((w : IdempotencyRecord)
        → record_of p ≡ some w
        → w.scope ≡ r.scope
        → w.idempotency_key ≡ r.idempotency_key
        → Expired env w g ⊎ Expired env r g)
    → InTime env g p
    → Stands env r g
    → Stands env r (advance env o p g).0
other-Stands env o (arrived q) g r mono gp apart time s =
    advance-Stands env mono o (arrived q) g r tt s
other-Stands env o (passing q) g r mono gp apart time s =
    advance-Stands env mono o (passing q) g r tt s
other-Stands env o (reserving c) g r mono gp apart time s =
    advance-Stands env mono o (reserving c) g r tt s
other-Stands env o (refetching c) g r mono gp apart time s =
    advance-Stands env mono o (refetching c) g r tt s
other-Stands env o (finished q) g r mono gp apart time s =
    advance-Stands env mono o (finished q) g r tt s
other-Stands env o (running c w) g r mono gp apart time s =
    elim (Bool-cases (has_slot w.scope w.idempotency_key r)) [
      | inl own ↦
          let scope = text_eq_sound r.scope w.scope (ground arith) in
          let key = text_eq_sound r.idempotency_key w.idempotency_key (ground arith) in
          elim (apart w refl (sym scope) (sym key)) [
            | inl old ↦ absurd (omega (arith, time w refl))
            | inr old ↦ inl (older env mono r g.ticks _ (advance-ticks env o (running c w) g) old)
          ]
      | inr foreign ↦
          let shut : Closed w.scope w.idempotency_key w.request_hash r = ground arith in
          let shut' : Closed c.scope c.idempotency_key c.request_hash r =
            subst (λ x. is_open x c.idempotency_key c.request_hash r ≡ false) gp.0
              (subst (λ x. is_open w.scope x c.request_hash r ≡ false) gp.1
                (subst (λ x. is_open w.scope w.idempotency_key x r ≡ false) gp.2 shut)) in
          advance-Stands env mono o (running c w) g r (shut', shut) s
    ]

pub other-Guarded :
    (env : HttpEnv) (o : Outcome) (p q : Phase) (g : Gate)
    → ClockMonotone env
    → Guarded env g p
    → Guarded env g q
    → Apart env g p q
    → InTime env g p
    → Guarded env (advance env o p g).0 q
other-Guarded env o p (arrived r) g mono gp gq apart time = tt
other-Guarded env o p (passing r) g mono gp gq apart time = tt
other-Guarded env o p (reserving c) g mono gp gq apart time = tt
other-Guarded env o p (refetching c) g mono gp gq apart time = tt
other-Guarded env o p (running c r) g mono gp gq apart time = (
  gq.0,
  gq.1,
  gq.2,
  gq.3,
  other-Stands env o p g r mono gp (λ w e scope key. apart w r e refl scope key) time gq.4,
)
other-Guarded env o p (finished r) g mono gp gq apart time = tt
