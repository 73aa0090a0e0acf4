-- ===== src/Security/Identity/Binding.antt =====
-- What an accepted assertion says, and that those that are built are accepted.
use mathlib.Core.Path.{subst}
use flood_agent.Base.{
  ℕ, ◌+◌, ◌/◌, ◌≡◌, sym, arith, inl, inr, true, false, some, [], ◌∷◌, ◌++◌, Text, text_eq_sound,
  Lacks, first_separator, Option-cases,
}
use flood_agent.Response.Roles.{role_value, role_named}
use flood_agent.Security.Identity.{
  IdentityEnv, Verifier, Headers, OperatorIdentity, accepted, NonceStore, Parsed, Values,
  read_values, check_values, verify, canonical, sign, is_stale, is_nonce, assurance_rank,
  identity_of, live, knows,
}
use flood_agent.Security.Identity.Nonces.{verify-Accepting}

-- The values of an assertion are in order, and the secret signs them for the method and the path.
pub record Genuine (env : IdentityEnv) (v : Verifier) (method path : Text) (now : ℕ) (x : Values)
    (who : OperatorIdentity) : Type 0 where
  pub role : role_named x.role ≡ some who.operator_role
  pub rank : (r : ℕ) × (assurance_rank who.assurance_level ≡ some r)
  pub nonce : is_nonce who.nonce ≡ true
  pub age : is_stale v.max_age_seconds now (env.parse_int x.issued) ≡ false
  pub signed :
      env.hmac v.secret (
        canonical env who.operator_id
          (role_value who.operator_role)
          who.assurance_level
          who.terminal_id
          (env.parse_int x.issued)
          who.nonce
          method
          path)
      ≡ env.lower x.signature
  pub same : who ≡ identity_of x who.operator_role (env.lower x.assurance) (env.parse_int x.issued)

check_values-Genuine :
    (env : IdentityEnv) (v : Verifier) (method path : Text) (now : ℕ) (x : Values)
    (who : OperatorIdentity)
    → check_values env v method path now x ≡ accepted who
    → Genuine env v method path now x who
unfolding check_values sign
check_values-Genuine env v method path now x who h = elim (Option-cases (role_named x.role)) [
  | inl e ↦ absurd (ground arith)
  | inr (role, e) ↦ elim (Option-cases (assurance_rank (env.lower x.assurance))) [
    | inl f ↦ absurd (ground arith)
    | inr (rank, f) ↦
        let same : who ≡ identity_of x role (env.lower x.assurance) (env.parse_int x.issued) =
          ground arith in
        record {
          role = ground arith;
          rank = (rank, ground arith);
          nonce = ground arith;
          age = ground arith;
          signed = ground (
            arith,
            text_eq_sound
                (env.hmac v.secret (
                  canonical env x.operator (role_value role) (env.lower x.assurance) x.terminal
                    (env.parse_int x.issued) x.nonce method path))
                (env.lower x.signature),
          );
          same = ground arith;
        }
  ]
]

-- A call of `verify` that returns read all the headers; the role and the assurance level are known,
-- the nonce has its pattern, the age of the timestamp is within the limit, the signature in lower
-- case is the HMAC under the secret of the identity, the timestamp, the nonce, the method and the
-- path, and the nonce was not in the table once its expired rows were deleted.
pub verify-Genuine :
    (env : IdentityEnv) (v : Verifier) (h : Headers) (method path : Text) (s : NonceStore)
    (who : OperatorIdentity)
    → (verify env v h method path s).1 ≡ accepted who
    → (x : Values) × (read_values h ≡ accepted x)
      × Genuine env v method path (env.clock s.ticks / 1000000) x who
      × (knows who.nonce (live (env.clock (s.ticks + 2)) s.nonces) ≡ false)
verify-Genuine env v h method path s who e =
    let a = verify-Accepting env v h method path s who e in
    (
      a.values,
      a.are_read,
      check_values-Genuine env v method path (env.clock s.ticks / 1000000) a.values who
          a.are_checked,
      subst (λ n. knows n (live (env.clock (s.ticks + 2)) s.nonces) ≡ false) (sym a.same_nonce)
          a.is_fresh,
    )

-- The secret does not sign two texts alike that differ in the method or the path alone.
abbrev pub NoForgery : IdentityEnv → Text → Text → Text → Text → Text → Type 0
NoForgery env secret m p m' p' =
    (o r a t n : Text) (i : Parsed)
    → env.hmac secret (canonical env o r a t i n m p)
      ≡ env.hmac secret (canonical env o r a t i n m' p')
    → canonical env o r a t i n m p ≡ canonical env o r a t i n m' p'

drop_line : (s x y : Text) → s ++ 0x0a ∷ x ≡ s ++ 0x0a ∷ y → x ≡ y
drop_line [] x y e = ground arith
drop_line (c ∷ s) x y e = drop_line s x y (ground arith)

canonical-inj :
    (env : IdentityEnv) (o r a t n m p m' p' : Text) (i : Parsed)
    → Lacks 0x0a (env.upper m)
    → Lacks 0x0a (env.upper m')
    → canonical env o r a t i n m p ≡ canonical env o r a t i n m' p'
    → (env.upper m ≡ env.upper m') × (p ≡ p')
unfolding canonical
canonical-inj env o r a t n m p m' p' i h k e =
    first_separator 0x0a (env.upper m) (env.upper m') p p' h k (
      drop_line n _ _ (
        drop_line (env.show_int i) _ _
          (drop_line t _ _ (drop_line (env.lower a) _ _ (drop_line r _ _ (drop_line o _ _ e))))))

-- Two calls of `verify` with the same headers that both return do so for the same operator, the
-- same method in upper case and the same path, where these methods have no line break and the
-- secret does not sign alike two texts that differ in the method or the path alone.
pub verify_binds :
    (env : IdentityEnv) (v : Verifier) (h : Headers) (m p m' p' : Text) (s s' : NonceStore)
    (who who' : OperatorIdentity)
    → NoForgery env v.secret m p m' p'
    → Lacks 0x0a (env.upper m)
    → Lacks 0x0a (env.upper m')
    → (verify env v h m p s).1 ≡ accepted who
    → (verify env v h m' p' s').1 ≡ accepted who'
    → (who ≡ who') × (env.upper m ≡ env.upper m') × (p ≡ p')
verify_binds env v h m p m' p' s s' who who' safe l l' e e' =
    let (x, r, g, f) = verify-Genuine env v h m p s who e in
    let (x', r', g', f') = verify-Genuine env v h m' p' s' who' e' in
    let same_values : x ≡ x' = cc (r, r') in
    let same_role : who.operator_role ≡ who'.operator_role = cc (g.role, g'.role, same_values) in
    let same_who : who ≡ who' = cc (g.same, g'.same, same_values, same_role) in
    let both =
      safe who.operator_id (role_value who.operator_role) who.assurance_level who.terminal_id
        who.nonce (env.parse_int x.issued) (cc (g.signed, g'.signed, same_values, same_who)) in
    let (methods, paths) =
      canonical-inj env who.operator_id (role_value who.operator_role) who.assurance_level
        who.terminal_id who.nonce m p m' p' (env.parse_int x.issued) l l' both in
    (same_who, methods, paths)
