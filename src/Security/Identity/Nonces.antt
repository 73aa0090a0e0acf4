-- ===== src/Security/Identity/Nonces.antt =====
-- When a nonce can be used again.
use mathlib.Core.Path.{subst}
use flood_agent.Base.{
  ℕ, ◌+◌, ◌*◌, ◌/◌, ◌≤◌, ◌<◌, ◌≡◌, ◌≢◌, ◌⊎◌, inl, inr, refl, sym, arith, true, false, ◌&&◌,
  Bool-cases, List, [], ◌∷◌, ◌++◌, ltb, leb, Time, Text, text_eq, text_eq_refl, any,
}
use flood_agent.Security.Identity.{
  IdentityEnv, Verifier, Headers, OperatorIdentity, Verdict, accepted, denied, Nonces, NonceStore,
  live, knows, consume_identity_nonce, read_values, check_values, admit, verify, Values,
  verify_values, verify_all, Attempt,
}

abbrev pub ClockMonotone : IdentityEnv → Type 0
ClockMonotone env = (m n : ℕ) → m ≤ n → env.clock m ≤ env.clock n

-- The table holds the nonce at least until the given time.
abbrev pub Stored : Text → Time → Nonces → Type 0
Stored n until table = any (λ row. text_eq row.0 n && leb until row.1) table ≡ true

live-Stored :
    (now : Time) (n : Text) (until : Time) (table : Nonces)
    → now ≤ until
    → Stored n until table
    → Stored n until (live now table)
unfolding live
live-Stored now n until [] later h = absurd (ground arith)
live-Stored now n until (row ∷ table) later h = ground (arith, live-Stored now n until table later)

append-Stored :
    (n : Text) (until : Time) (table more : Nonces)
    → Stored n until table
    → Stored n until (table ++ more)
append-Stored n until [] more h = absurd (ground arith)
append-Stored n until (row ∷ table) more h = ground (arith, append-Stored n until table more)

last-Stored : (n : Text) (until : Time) (table : Nonces) → Stored n until (table ++ (n, until) ∷ [])
last-Stored n until [] = ground (arith, text_eq_refl n)
last-Stored n until (row ∷ table) = ground (arith, last-Stored n until table)

stored_known :
    (n : Text) (until : Time) (table : Nonces) → Stored n until table → knows n table ≡ true
stored_known n until [] h = absurd (ground arith)
stored_known n until (row ∷ table) h = ground (arith, stored_known n until table)

-- The nonce is stored, or its time is over.
abbrev pub Used : IdentityEnv → Text → Time → NonceStore → Type 0
Used env n until s = (until < env.clock s.ticks) ⊎ Stored n until s.nonces

module _ (env : IdentityEnv) (mono : ClockMonotone env) (v : Verifier) (n : Text)
    (until : Time) where
  over_later : (j k : ℕ) → j ≤ k → until < env.clock j → until < env.clock k
  over_later j k later h = omega (arith, mono j k later)

  admit-Used :
      (m : Text) (s : NonceStore) (result : Verdict OperatorIdentity)
      → Used env n until s
      → Used env n until (admit env v m s result).0
  unfolding admit consume_identity_nonce
  admit-Used m s (denied e) (inl over) = inl (over_later s.ticks (s.ticks + 1) (omega arith) over)
  admit-Used m s (denied e) (inr stored) = inr stored
  admit-Used m s (accepted who) (inl over) =
      inl (over_later s.ticks (s.ticks + 3) (omega arith) over)
  admit-Used m s (accepted who) (inr stored) =
      elim (Bool-cases (knows m (live (env.clock (s.ticks + 2)) s.nonces))) [
        | inl e ↦ rw e (inr stored)
        | inr e ↦ elim (Bool-cases (ltb until (env.clock (s.ticks + 2)))) [
          | inl over ↦ inl (over_later (s.ticks + 2) (s.ticks + 3) (omega arith) (ground arith))
          | inr kept ↦ rw e (
              inr (
                append-Stored n until (live (env.clock (s.ticks + 2)) s.nonces) _
                  (live-Stored (env.clock (s.ticks + 2)) n until s.nonces (ground arith) stored)))
        ]
      ]

  verify-Used :
      (h : Headers) (method path : Text) (s : NonceStore)
      → Used env n until s
      → Used env n until (verify env v h method path s).0
  unfolding verify
  verify-Used h method path s used = go (read_values h)
    where
      go : (r : Verdict Values) → Used env n until (verify_values env v method path s r).0
      go (denied e) = used
      go (accepted x) =
          admit-Used x.nonce s (check_values env v method path (env.clock s.ticks / 1000000) x) used

  verify_all-Used :
      (ts : List Attempt) (s : NonceStore)
      → Used env n until s
      → Used env n until (verify_all env v ts s)
  unfolding verify_all
  verify_all-Used [] s used = used
  verify_all-Used (a ∷ ts) s used =
      verify_all-Used ts (verify env v a.headers a.method a.path s).0
        (verify-Used a.headers a.method a.path s used)

-- The values of a call that returns, and what the checks made of them.
pub record Accepting (env : IdentityEnv) (v : Verifier) (h : Headers) (method path : Text)
    (s : NonceStore) (who : OperatorIdentity) : Type 0 where
  pub values : Values
  pub are_read : read_values h ≡ accepted values
  pub are_checked :
      check_values env v method path (env.clock s.ticks / 1000000) values ≡ accepted who
  pub same_nonce : who.nonce ≡ values.nonce
  pub is_fresh : knows values.nonce (live (env.clock (s.ticks + 2)) s.nonces) ≡ false

check_values-nonce :
    (env : IdentityEnv) (v : Verifier) (method path : Text) (now : ℕ) (x : Values)
    (who : OperatorIdentity)
    → check_values env v method path now x ≡ accepted who
    → who.nonce ≡ x.nonce
unfolding check_values
check_values-nonce env v method path now x who h = ground arith

admit-accepted :
    (env : IdentityEnv) (v : Verifier) (n : Text) (s : NonceStore)
    (result : Verdict OperatorIdentity) (who : OperatorIdentity)
    → (admit env v n s result).1 ≡ accepted who
    → (result ≡ accepted who) × (knows n (live (env.clock (s.ticks + 2)) s.nonces) ≡ false)
unfolding admit consume_identity_nonce
admit-accepted env v n s (denied d) who e = absurd (ground arith)
admit-accepted env v n s (accepted w) who e = ground arith

pub verify-Accepting :
    (env : IdentityEnv) (v : Verifier) (h : Headers) (method path : Text) (s : NonceStore)
    (who : OperatorIdentity)
    → (verify env v h method path s).1 ≡ accepted who
    → Accepting env v h method path s who
unfolding verify
verify-Accepting env v h method path s who e = go (read_values h) refl e
  where
    go :
        (r : Verdict Values)
        → read_values h ≡ r
        → (verify_values env v method path s r).1 ≡ accepted who
        → Accepting env v h method path s who
    go (denied d) r e = absurd (ground arith)
    go (accepted x) r e =
        let result = check_values env v method path (env.clock s.ticks / 1000000) x in
        let (passed, fresh) = admit-accepted env v x.nonce s result who e in
        record {
          values = x;
          are_read = r;
          are_checked = passed;
          same_nonce =
              check_values-nonce env v method path (env.clock s.ticks / 1000000) x who passed;
          is_fresh = fresh;
        }

-- What a call that returns leaves in the store.
pub verify-stores :
    (env : IdentityEnv) (v : Verifier) (h : Headers) (method path : Text) (s : NonceStore)
    (who : OperatorIdentity)
    → Accepting env v h method path s who
    → (verify env v h method path s).0 ≡ record {
      nonces =
          live (env.clock (s.ticks + 2)) s.nonces
          ++ (who.nonce, env.clock (s.ticks + 1) + v.max_age_seconds * 1000000) ∷ [];
      ticks = s.ticks + 3;
    }
unfolding verify admit consume_identity_nonce
verify-stores env v h method path s who a =
    rw (a.are_read, verify_values) (rw (a.are_checked, admit) (rw (a.is_fresh, a.same_nonce) refl))

-- When the nonce of a call is live, the call does not return.
used_refuses :
    (env : IdentityEnv) (v : Verifier) (h : Headers) (method path : Text) (s : NonceStore)
    (who : OperatorIdentity) (until : Time)
    → Stored who.nonce until s.nonces
    → env.clock (s.ticks + 2) ≤ until
    → (verify env v h method path s).1 ≢ accepted who
used_refuses env v h method path s who until stored later e =
    let a = verify-Accepting env v h method path s who e in
    let known =
      stored_known who.nonce until _
        (live-Stored (env.clock (s.ticks + 2)) who.nonce until s.nonces later stored) in
    let known' =
      subst (λ n. knows n (live (env.clock (s.ticks + 2)) s.nonces) ≡ true) a.same_nonce known in
    cc (known', a.is_fresh)

-- Where the clock does not run backwards: after a call of `verify` that returns, and any calls
-- after it, no call with the same nonce returns while the repository reads a time up to the one at
-- which the nonce expires.
pub verify_once :
    (env : IdentityEnv) (v : Verifier) (h h' : Headers) (method method' path path' : Text)
    (s : NonceStore) (who other : OperatorIdentity) (ts : List Attempt)
    → ClockMonotone env
    → (verify env v h method path s).1 ≡ accepted who
    → other.nonce ≡ who.nonce
    → let later = verify_all env v ts (verify env v h method path s).0 in
      env.clock (later.ticks + 2) ≤ env.clock (s.ticks + 1) + v.max_age_seconds * 1000000
      → (verify env v h' method' path' later).1 ≢ accepted other
verify_once env v h h' method method' path path' s who other ts mono e same soon =
    let until = env.clock (s.ticks + 1) + v.max_age_seconds * 1000000 in
    let first = (verify env v h method path s).0 in
    let stored : Stored who.nonce until first.nonces =
      subst (λ t. Stored who.nonce until t.nonces)
        (sym
          (verify-stores env v h method path s who (verify-Accepting env v h method path s who e)))
        (last-Stored who.nonce until (live (env.clock (s.ticks + 2)) s.nonces)) in
    elim (verify_all-Used env mono v who.nonce until ts first (inr stored)) [
      | inl over ↦ absurd (
          omega (
            arith,
            mono (verify_all env v ts first).ticks ((verify_all env v ts first).ticks + 2)
                (omega arith),
          ))
      | inr kept ↦
          used_refuses env v h' method' path' (verify_all env v ts first) other until
            (subst (λ n. Stored n until (verify_all env v ts first).nonces) (sym same) kept) soon
    ]
