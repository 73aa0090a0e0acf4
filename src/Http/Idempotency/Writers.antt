-- ===== src/Http/Idempotency/Writers.antt =====
-- No two handlers run for one key while their reservations last.
use mathlib.Core.Path.{subst}
use flood_agent.Base.{
  ℕ, zero, suc, ◌≤◌, ◌≡◌, ◌≢◌, ◌⊎◌, refl, ap, arith, none, some, List, [], ◌∷◌, All, All-map,
  All-get_elem?, get_elem?,
}
use flood_agent.Http.Messages.{HttpEnv}
use flood_agent.Http.Idempotency.Records.{IdempotencyRecord}
use flood_agent.Http.Idempotency.Moves.{ClockMonotone, Expired, advance-ticks}
use flood_agent.Http.Idempotency.Answers.{Outcome}
use flood_agent.Http.Idempotency.{Phase, Gate, advance, move_at, turn, play, System}
use flood_agent.Http.Idempotency.Reservations.{
  record_of, Guarded, Apart, InTime, idle-Apart, later-Apart, swap-Apart, idle-Guarded, own-Guarded,
  own-Apart, other-Guarded,
}

-- No two requests hold unexpired reservations of one slot.
abbrev pub Alone : HttpEnv → Gate → List Phase → Type 0
Alone env g [] = Unit
Alone env g (p ∷ ps) = All (Apart env g p) ps × Alone env g ps

-- The request at the position that moves is in time.
abbrev pub InTimeAt : HttpEnv → ℕ → List Phase → Gate → Type 0
InTimeAt env i [] g = Unit
InTimeAt env zero (p ∷ ps) g = InTime env g p
InTimeAt env (suc i) (p ∷ ps) g = InTimeAt env i ps g

abbrev pub InTimePlay : HttpEnv → List (ℕ × Outcome) → System → Type 0
InTimePlay env [] s = Unit
InTimePlay env ((i, o) ∷ ms) s = InTimeAt env i s.phases s.gate × InTimePlay env ms (turn env i o s)

module _ (env : HttpEnv) (mono : ClockMonotone env) (o : Outcome) where
  move_at-ticks : (i : ℕ) (ps : List Phase) (g : Gate) → g.ticks ≤ (move_at env i o ps g).0.ticks
  unfolding move_at
  move_at-ticks i [] g = omega arith
  move_at-ticks zero (p ∷ ps) g = advance-ticks env o p g
  move_at-ticks (suc i) (p ∷ ps) g = move_at-ticks i ps g

  later-Alone :
      (g g' : Gate) (ps : List Phase) → g.ticks ≤ g'.ticks → Alone env g ps → Alone env g' ps
  later-Alone g g' [] later h = tt
  later-Alone g g' (p ∷ ps) later h = (
    All-map (Apart env g p) (Apart env g' p) ps (λ q. later-Apart env g g' p q mono later) h.0,
    later-Alone g g' ps later h.1,
  )

  -- A request beside the list in which one moves.
  beside :
      (q : Phase) (i : ℕ) (ps : List Phase) (g : Gate)
      → Guarded env g q
      → All (Guarded env g) ps
      → All (Apart env g q) ps
      → InTimeAt env i ps g
      → Guarded env (move_at env i o ps g).0 q
        × All (Apart env (move_at env i o ps g).0 q) (move_at env i o ps g).1
  unfolding move_at
  beside q i [] g gq gs apart time = (gq, tt)
  beside q zero (p ∷ ps) g gq gs apart time =
      let (g', p') = advance env o p g in
      (
        other-Guarded env o p q g mono gs.0 gq (swap-Apart env g q p apart.0) time,
        (
          swap-Apart env g' p' q (own-Apart env o p q g mono gq),
          All-map (Apart env g q) (Apart env g' q) ps
              (λ x. later-Apart env g g' q x mono (advance-ticks env o p g)) apart.1,
        ),
      )
  beside q (suc i) (p ∷ ps) g gq gs apart time =
      let (g', ps') = move_at env i o ps g in
      let (kept, rest) = beside q i ps g gq gs.1 apart.1 time in
      (kept, (later-Apart env g g' q p mono (move_at-ticks i ps g) apart.0, rest))

  -- Those that follow the request that moves.
  after :
      (p : Phase) (qs : List Phase) (g : Gate)
      → Guarded env g p
      → InTime env g p
      → All (Guarded env g) qs
      → All (Apart env g p) qs
      → All (Guarded env (advance env o p g).0) qs
        × All (Apart env (advance env o p g).0 (advance env o p g).1) qs
  after p [] g gp time gs apart = (tt, tt)
  after p (q ∷ qs) g gp time gs apart =
      let (kept, rest) = after p qs g gp time gs.1 apart.1 in
      (
        (other-Guarded env o p q g mono gp gs.0 apart.0 time, kept),
        (own-Apart env o p q g mono gs.0, rest),
      )

  move_at-Alone :
      (i : ℕ) (ps : List Phase) (g : Gate)
      → All (Guarded env g) ps
      → Alone env g ps
      → InTimeAt env i ps g
      → All (Guarded env (move_at env i o ps g).0) (move_at env i o ps g).1
        × Alone env (move_at env i o ps g).0 (move_at env i o ps g).1
  unfolding move_at
  move_at-Alone i [] g gs alone time = (tt, tt)
  move_at-Alone zero (p ∷ ps) g gs alone time =
      let (kept, rest) = after p ps g gs.0 time gs.1 alone.0 in
      (
        (own-Guarded env o p g, kept),
        (rest, later-Alone g (advance env o p g).0 ps (advance-ticks env o p g) alone.1),
      )
  move_at-Alone (suc i) (p ∷ ps) g gs alone time =
      let (kept, rest) = move_at-Alone i ps g gs.1 alone.1 time in
      let (own, apart) = beside p i ps g gs.0 gs.1 alone.0 time in ((own, kept), (apart, rest))

play-Alone :
    (env : HttpEnv) (mono : ClockMonotone env) (ms : List (ℕ × Outcome)) (s : System)
    → All (Guarded env s.gate) s.phases
    → Alone env s.gate s.phases
    → InTimePlay env ms s
    → Alone env (play env ms s).gate (play env ms s).phases
unfolding play turn
play-Alone env mono [] s gs alone time = alone
play-Alone env mono ((i, o) ∷ ms) s gs alone time =
    let (gs', alone') = move_at-Alone env mono o i s.phases s.gate gs alone time.0 in
    play-Alone env mono ms (turn env i o s) gs' alone' time.1

idle-Alone :
    (env : HttpEnv) (g : Gate) (ps : List Phase)
    → All (λ p. record_of p ≡ none) ps
    → All (Guarded env g) ps × Alone env g ps
idle-Alone env g [] h = (tt, tt)
idle-Alone env g (p ∷ ps) h =
    let (kept, rest) = idle-Alone env g ps h.1 in
    (
      (idle-Guarded env g p h.0, kept),
      (
        All-map (λ q. record_of q ≡ none) (Apart env g p) ps (λ q e. idle-Apart env g p q h.0) h.1,
        rest,
      ),
    )

Alone-get_elem? :
    (env : HttpEnv) (g : Gate) (ps : List Phase) (i j : ℕ) (p q : Phase)
    → Alone env g ps
    → i ≢ j
    → get_elem? ps i ≡ some p
    → get_elem? ps j ≡ some q
    → Apart env g p q
Alone-get_elem? env g [] i j p q alone ne e f = absurd (ground arith)
Alone-get_elem? env g (x ∷ xs) zero zero p q alone ne e f = absurd (ne refl)
Alone-get_elem? env g (x ∷ xs) zero (suc j) p q alone ne e f =
    subst (λ y. Apart env g y q) (ground arith) (All-get_elem? (Apart env g x) xs j q alone.0 f)
Alone-get_elem? env g (x ∷ xs) (suc i) zero p q alone ne e f =
    swap-Apart env g q p
      (subst (λ y. Apart env g y p) (ground arith) (All-get_elem? (Apart env g x) xs i p alone.0 e))
Alone-get_elem? env g (x ∷ xs) (suc i) (suc j) p q alone ne e f =
    Alone-get_elem? env g xs i j p q alone.1 (λ s. ne (ap suc s)) e f

-- One writer at a time: where the clock does not run backwards, from a system in which no handler
-- runs, after any interleaving of moves in which no handler outlives its reservation, of two
-- requests whose handlers run under one scope and key the reservation of at least one has expired.
pub one_writer :
    (env : HttpEnv) (ms : List (ℕ × Outcome)) (s : System) (i j : ℕ) (p q : Phase)
    (r w : IdempotencyRecord)
    → ClockMonotone env
    → All (λ x. record_of x ≡ none) s.phases
    → InTimePlay env ms s
    → i ≢ j
    → get_elem? (play env ms s).phases i ≡ some p
    → get_elem? (play env ms s).phases j ≡ some q
    → record_of p ≡ some r
    → record_of q ≡ some w
    → r.scope ≡ w.scope
    → r.idempotency_key ≡ w.idempotency_key
    → Expired env r (play env ms s).gate ⊎ Expired env w (play env ms s).gate
one_writer env ms s i j p q r w mono idle time ne at_i at_j e f scope key =
    let (guarded, alone) = idle-Alone env s.gate s.phases idle in
    Alone-get_elem? env (play env ms s).gate (play env ms s).phases i j p q
      (play-Alone env mono ms s guarded alone time) ne at_i at_j r w e f scope key
