-- ===== src/Security/Identity/Built.antt =====
-- The headers that `build_headers` makes are accepted.
use flood_agent.Base.{
  ℕ, ◌+◌, ◌/◌, ◌≡◌, refl, arith, true, false, some, none, ltb, Text, text_eq_refl, any, strip,
  is_empty,
}
use flood_agent.Response.Enums.{
  OperatorRole, duty_officer, reviewer, commander, liaison, field_operator, auditor, admin,
  external_service,
}
use flood_agent.Response.Roles.{role_value, role_named-role_value}
use flood_agent.Security.Identity.{
  IdentityEnv, Headers, Field, operator_id, operator_role, assurance_level, terminal_id, timestamp,
  nonce, signature, accepted, NonceStore, Parsed, Values, read_values, check_values, verify,
  canonical, sign, is_stale, is_nonce, assurance_rank, identity_of, from_timestamp, build_headers,
  live, knows, value_of,
}
use flood_agent.Security.Identity.Replay.{verify-again}

-- A header carries the text as it is.
pub record Carried (s : Text) : Type 0 where
  pub stripped : strip s ≡ s
  pub given : is_empty s ≡ false

role_value-Carried : (r : OperatorRole) → Carried (role_value r)
unfolding strip
role_value-Carried duty_officer = record { stripped = refl; given = refl }
role_value-Carried reviewer = record { stripped = refl; given = refl }
role_value-Carried commander = record { stripped = refl; given = refl }
role_value-Carried liaison = record { stripped = refl; given = refl }
role_value-Carried field_operator = record { stripped = refl; given = refl }
role_value-Carried auditor = record { stripped = refl; given = refl }
role_value-Carried admin = record { stripped = refl; given = refl }
role_value-Carried external_service = record { stripped = refl; given = refl }

value_of-titled :
    (h : Headers) (f : Field) (s : Text)
    → h.plain f ≡ none
    → h.titled f ≡ some s
    → Carried s
    → value_of h f ≡ some s
unfolding value_of
value_of-titled h f s p t c = ground arith

-- What is asserted, and what the environment makes of it.
pub record Assertion (env : IdentityEnv) : Type 0 where
  pub secret : Text
  pub operator : Text
  pub role : OperatorRole
  pub assurance : Text
  pub terminal : Text
  pub nonce : Text
  pub method : Text
  pub path : Text
  pub issued : Parsed
  pub operator_carried : Carried operator
  pub assurance_carried : Carried assurance
  pub terminal_carried : Carried terminal
  pub nonce_carried : Carried nonce
  pub issued_carried : Carried (env.show_int issued)
  pub is_read_back : env.parse_int (env.show_int issued) ≡ issued
  pub is_ranked : (r : ℕ) × (assurance_rank (env.lower assurance) ≡ some r)
  pub lower_lower : env.lower (env.lower assurance) ≡ env.lower assurance
  pub is_nonce : is_nonce nonce ≡ true

-- A hexadecimal digest is in lower case, not blank, and in ASCII.
pub record IsHex (env : IdentityEnv) (s : Text) : Type 0 where
  pub carried : Carried s
  pub lowered : env.lower s ≡ s
  pub ascii : any (ltb 127) s ≡ false

abbrev pub headers_of : (env : IdentityEnv) → Assertion env → Headers
headers_of env a =
    build_headers env a.secret a.operator a.role a.assurance a.terminal a.nonce a.method a.path
      a.issued

abbrev pub digest_of : (env : IdentityEnv) → Assertion env → Text
digest_of env a =
    sign env a.secret a.operator (role_value a.role) a.assurance a.terminal a.issued a.nonce
      a.method a.path

abbrev values_in : (env : IdentityEnv) → Assertion env → Values
values_in env a = record {
  operator = a.operator;
  role = role_value a.role;
  assurance = a.assurance;
  terminal = a.terminal;
  issued = env.show_int a.issued;
  nonce = a.nonce;
  signature = digest_of env a;
}

all-read :
    (h : Headers) (x : Values)
    → value_of h operator_id ≡ some x.operator
    → value_of h operator_role ≡ some x.role
    → value_of h assurance_level ≡ some x.assurance
    → value_of h terminal_id ≡ some x.terminal
    → value_of h timestamp ≡ some x.issued
    → value_of h nonce ≡ some x.nonce
    → value_of h signature ≡ some x.signature
    → read_values h ≡ accepted x
unfolding read_values
all-read h x o r l t i n d = ground arith

built-read :
    (env : IdentityEnv) (a : Assertion env)
    → IsHex env (digest_of env a)
    → read_values (headers_of env a) ≡ accepted (values_in env a)
unfolding build_headers
built-read env a hex =
    let h = headers_of env a in
    all-read h (values_in env a)
      (value_of-titled h operator_id a.operator refl refl a.operator_carried)
      (value_of-titled h operator_role (role_value a.role) refl refl (role_value-Carried a.role))
      (value_of-titled h assurance_level a.assurance refl refl a.assurance_carried)
      (value_of-titled h terminal_id a.terminal refl refl a.terminal_carried)
      (value_of-titled h timestamp (env.show_int a.issued) refl refl a.issued_carried)
      (value_of-titled h nonce a.nonce refl refl a.nonce_carried)
      (value_of-titled h signature (digest_of env a) refl refl hex.carried)

lowered_twice :
    (env : IdentityEnv) (a : Assertion env)
    → sign env a.secret a.operator
        (role_value a.role)
        (env.lower a.assurance)
        a.terminal
        a.issued
        a.nonce
        a.method
        a.path
      ≡ digest_of env a
unfolding sign canonical
lowered_twice env a = rw (a.lower_lower, sign, canonical) refl

built-check :
    (env : IdentityEnv) (age : ℕ) (a : Assertion env) (now : ℕ)
    → IsHex env (digest_of env a)
    → is_stale age now a.issued ≡ false
    → check_values env
        (record { secret = a.secret; max_age_seconds = age })
        a.method
        a.path
        now
        (values_in env a)
      ≡ accepted (identity_of (values_in env a) a.role (env.lower a.assurance) a.issued)
unfolding check_values
built-check env age a now hex fresh =
    let same : sign env a.secret a.operator (role_value a.role) (env.lower a.assurance) a.terminal
          a.issued a.nonce a.method a.path
        ≡ digest_of env a =
      lowered_twice env a in
    ground (arith, role_named-role_value a.role, text_eq_refl (digest_of env a), a.is_ranked.1)

-- The headers of `build_headers` are accepted by a verifier with the secret and give the identity
-- back, where the texts are not blank and not padded, the assurance level and the nonce are in
-- order, the timestamp is read back as it was printed and is not stale, the digest is in lower-case
-- ASCII, and the nonce is not in the table.
pub build_headers-verified :
    (env : IdentityEnv) (age : ℕ) (a : Assertion env) (s : NonceStore)
    → IsHex env (digest_of env a)
    → is_stale age (env.clock s.ticks / 1000000) a.issued ≡ false
    → knows a.nonce (live (env.clock (s.ticks + 2)) s.nonces) ≡ false
    → (verify env
        (record { secret = a.secret; max_age_seconds = age })
        (headers_of env a)
        a.method
        a.path
        s).1
      ≡ accepted (record {
        operator_id = a.operator;
        operator_role = a.role;
        assurance_level = env.lower a.assurance;
        terminal_id = a.terminal;
        issued_at = from_timestamp a.issued;
        nonce = a.nonce;
      })
build_headers-verified env age a s hex fresh free =
    verify-again env (record { secret = a.secret; max_age_seconds = age }) (headers_of env a)
      a.method a.path s (values_in env a) _ (built-read env a hex)
      (built-check env age a (env.clock s.ticks / 1000000) hex fresh) free
