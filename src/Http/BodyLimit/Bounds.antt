-- ===== src/Http/BodyLimit/Bounds.antt =====
-- How much of a body reaches the application, and that a body within the limit reaches it as it is.
use flood_agent.Base.{
  ℕ, ◌+◌, ◌≤◌, ◌<◌, ◌≡◌, ◌≢◌, refl, ap, inl, inr, arith, true, false, Bool-cases, List, [], ◌∷◌,
  ◌&&◌, ltb,
}
use flood_agent.Http.BodyLimit.{
  Incoming, request_part, other_message, App, returns, raises, raises_too_large, sends, receives,
  Ending, returned, raised, raised_too_large, Trace, with_sent, with_delivered, run, part_length,
  is_part, run_limited, Middleware, Scope, is_guarded, is_refused, rejected_end, handle,
}

-- The bytes of the body in messages.
abbrev pub total_length : List Incoming → ℕ
total_length [] = 0
total_length (m ∷ ms) = part_length m + total_length ms

-- A message that is no part of the body has no length.
unpart : (m : Incoming) → is_part m ≡ false → part_length m ≡ 0
unpart (request_part body more) h = absurd (ground arith)
unpart (other_message m) h = refl

same_delivered : (t : Trace) (e : Ending) → (rejected_end t e).delivered ≡ t.delivered
same_delivered t returned = refl
same_delivered t (raised e) = refl
same_delivered t raised_too_large = refl

calm_end : (t : Trace) → t.ending ≢ raised_too_large → rejected_end t t.ending ≡ t
calm_end t h = ground arith

-- Past the limit nothing of the body is delivered any more.
past_limit :
    (max_bytes : ℕ) (server : ℕ → Incoming) (received n : ℕ) (app : App)
    → max_bytes < received
    → total_length (run_limited max_bytes server received n app).delivered ≡ 0
unfolding run_limited
past_limit max_bytes server received n returns h = refl
past_limit max_bytes server received n (raises e) h = refl
past_limit max_bytes server received n raises_too_large h = refl
past_limit max_bytes server received n (sends m a) h = past_limit max_bytes server received n a h
past_limit max_bytes server received n (receives k r) h =
    let later =
      past_limit max_bytes server (received + part_length (server n)) (n + 1) r (omega arith) in
    let fine =
      past_limit max_bytes server (received + part_length (server n)) (n + 1) (k (server n))
        (omega arith) in
    ground (arith, unpart (server n))

run_limited-le :
    (max_bytes : ℕ) (server : ℕ → Incoming) (received n : ℕ) (app : App)
    → received ≤ max_bytes
    → received + total_length (run_limited max_bytes server received n app).delivered ≤ max_bytes
unfolding run_limited
run_limited-le max_bytes server received n returns h = omega arith
run_limited-le max_bytes server received n (raises e) h = omega arith
run_limited-le max_bytes server received n raises_too_large h = omega arith
run_limited-le max_bytes server received n (sends m a) h =
    run_limited-le max_bytes server received n a h
run_limited-le max_bytes server received n (receives k r) h =
    let total = received + part_length (server n) in
    elim (Bool-cases (is_part (server n) && ltb max_bytes total)) [
      | inl over ↦
          let none_left = past_limit max_bytes server total (n + 1) r (ground arith) in
          rw over (omega arith)
      | inr fine ↦
          let rest =
            run_limited-le max_bytes server total (n + 1) (k (server n))
              (ground (arith, unpart (server n))) in
          rw fine (omega arith)
    ]

-- Where what the application would receive is within the limit, the limit changes nothing.
run_limited-run :
    (max_bytes : ℕ) (server : ℕ → Incoming) (received n : ℕ) (app : App)
    → received + total_length (run server n app).delivered ≤ max_bytes
    → run_limited max_bytes server received n app ≡ run server n app
unfolding run_limited run
run_limited-run max_bytes server received n returns h = refl
run_limited-run max_bytes server received n (raises e) h = refl
run_limited-run max_bytes server received n raises_too_large h = refl
run_limited-run max_bytes server received n (sends m a) h =
    ap (with_sent m) (run_limited-run max_bytes server received n a h)
run_limited-run max_bytes server received n (receives k r) h =
    let total = received + part_length (server n) in
    let within : is_part (server n) && ltb max_bytes total ≡ false = ground arith in
    rw within (
      ap (with_delivered (server n))
        (run_limited-run max_bytes server total (n + 1) (k (server n)) (omega arith)))

-- On a guarded path the application receives at most `max_bytes` bytes of the body, however it goes
-- on after RequestBodyTooLarge.
pub handle-le :
    (m : Middleware) (s : Scope) (server : ℕ → Incoming) (app : App)
    → is_guarded m s ≡ true
    → total_length (handle m s server app).delivered ≤ m.max_bytes
unfolding handle
handle-le m s server app guarded =
    let bound = run_limited-le m.max_bytes server 0 0 app (omega arith) in
    ground (
      arith,
      same_delivered (run_limited m.max_bytes server 0 0 app)
          (run_limited m.max_bytes server 0 0 app).ending,
    )

-- Where the declared length does not rule the request out, the application without the middleware
-- would receive at most `max_bytes` bytes of the body, and it does not raise RequestBodyTooLarge by
-- itself, the middleware changes nothing of what it receives, sends and returns.
pub handle-run :
    (m : Middleware) (s : Scope) (server : ℕ → Incoming) (app : App)
    → is_refused m s.content_length ≡ false
    → total_length (run server 0 app).delivered ≤ m.max_bytes
    → (run server 0 app).ending ≢ raised_too_large
    → handle m s server app ≡ run server 0 app
unfolding handle
handle-run m s server app open_to small calm =
    let same = run_limited-run m.max_bytes server 0 0 app (omega arith) in
    elim (Bool-cases (is_guarded m s)) [
      | inl e ↦ rw (e, open_to, same) (calm_end (run server 0 app) calm)
      | inr e ↦ rw e refl
    ]
