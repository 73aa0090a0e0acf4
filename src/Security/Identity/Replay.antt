-- ===== src/Security/Identity/Replay.antt =====
-- An assertion that is accepted twice: its nonce is forgotten before it grows stale.
use mathlib.Core.Path.{subst}
use flood_agent.Base.{
  some, ℕ, ◌+◌, ◌*◌, ◌/◌, ◌<◌, ◌≡◌, refl, sym, arith, false, [], ◌∷◌, ◌++◌, Time, Text,
}
use flood_agent.Security.Identity.{
  IdentityEnv, Verifier, Headers, OperatorIdentity, accepted, Nonces, NonceStore, live, knows,
  consume_identity_nonce, check_values, admit, verify, verify_values, Values, is_stale, read_values,
  value_of, timestamp,
}
use flood_agent.Security.Identity.Nonces.{verify-Accepting, verify-stores}

-- Only the age of an assertion depends on the time.
check_values-again :
    (env : IdentityEnv) (v : Verifier) (method path : Text) (now later : ℕ) (x : Values)
    (who : OperatorIdentity)
    → check_values env v method path now x ≡ accepted who
    → is_stale v.max_age_seconds later (env.parse_int x.issued) ≡ false
    → check_values env v method path later x ≡ accepted who
unfolding check_values
check_values-again env v method path now later x who h fresh = ground arith

live-forgets :
    (n : Text) (now : Time) (table : Nonces)
    → knows n table ≡ false
    → knows n (live now table) ≡ false
unfolding live
live-forgets n now [] h = refl
live-forgets n now (row ∷ table) h = ground (arith, live-forgets n now table)

live-drops :
    (n m : Text) (until now : Time) (table : Nonces)
    → knows n table ≡ false
    → until < now
    → knows n (live now (table ++ (m, until) ∷ [])) ≡ false
unfolding live
live-drops n m until now [] h over = ground arith
live-drops n m until now (row ∷ table) h over = ground (arith, live-drops n m until now table)

values-issued :
    (h : Headers) (x : Values) (i : Text)
    → read_values h ≡ accepted x
    → value_of h timestamp ≡ some i
    → x.issued ≡ i
unfolding read_values
values-issued h x i e f = ground arith

-- A call with the headers and the values of one before, while their nonce is not known.
pub verify-again :
    (env : IdentityEnv) (v : Verifier) (h : Headers) (method path : Text) (t : NonceStore)
    (x : Values) (who : OperatorIdentity)
    → read_values h ≡ accepted x
    → check_values env v method path (env.clock t.ticks / 1000000) x ≡ accepted who
    → knows x.nonce (live (env.clock (t.ticks + 2)) t.nonces) ≡ false
    → (verify env v h method path t).1 ≡ accepted who
unfolding verify admit consume_identity_nonce
verify-again env v h method path t x who r c free =
    rw (r, verify_values) (rw (c, admit) (rw free refl))

-- An assertion is accepted twice where its timestamp is not yet stale at the next call and the
-- nonce has expired when the repository reads the clock: a call of `verify` that returned returns
-- the same identity again.
pub verify_replayed :
    (env : IdentityEnv) (v : Verifier) (h : Headers) (method path : Text) (s : NonceStore)
    (who : OperatorIdentity) (i : Text)
    → (verify env v h method path s).1 ≡ accepted who
    → value_of h timestamp ≡ some i
    → is_stale v.max_age_seconds (env.clock (s.ticks + 3) / 1000000) (env.parse_int i) ≡ false
    → env.clock (s.ticks + 1) + v.max_age_seconds * 1000000 < env.clock (s.ticks + 5)
    → (verify env v h method path (verify env v h method path s).0).1 ≡ accepted who
verify_replayed env v h method path s who i e issued fresh over =
    let a = verify-Accepting env v h method path s who e in
    let x = a.values in
    let kept = live (env.clock (s.ticks + 2)) s.nonces in
    let until = env.clock (s.ticks + 1) + v.max_age_seconds * 1000000 in
    let later : NonceStore = record {
      nonces = kept ++ (who.nonce, until) ∷ [];
      ticks = s.ticks + 3;
    } in
    let free : knows x.nonce (live (env.clock (s.ticks + 5)) later.nonces) ≡ false =
      live-drops x.nonce who.nonce until (env.clock (s.ticks + 5)) kept a.is_fresh over in
    let fresh' : is_stale v.max_age_seconds (env.clock (s.ticks + 3) / 1000000)
          (env.parse_int x.issued)
        ≡ false =
      subst
        (λ j.
          is_stale v.max_age_seconds (env.clock (s.ticks + 3) / 1000000) (env.parse_int j) ≡ false)
        (sym (values-issued h x i a.are_read issued)) fresh in
    subst (λ t. (verify env v h method path t).1 ≡ accepted who)
      (sym (verify-stores env v h method path s who a))
      (verify-again env v h method path later x who a.are_read
        (check_values-again env v method path (env.clock s.ticks / 1000000)
          (env.clock (s.ticks + 3) / 1000000) x who a.are_checked fresh')
        (subst (λ k. knows x.nonce (live (env.clock k) later.nonces) ≡ false) (omega arith) free))
