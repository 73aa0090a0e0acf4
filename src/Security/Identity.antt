-- ===== src/Security/Identity.antt =====
-- Signed identity assertions: `TrustedIdentityVerifier` of flood_system/identity.py, with
-- `consume_identity_nonce` of flood_system/storage/response_repository.py.
pub mod Nonces
pub mod Replay
pub mod Binding
pub mod Built
use flood_agent.Base.{
  ℕ, ◌+◌, ◌-◌, ◌*◌, ◌/◌, Bool, true, false, not, ◌&&◌, ◌||◌, Option, none, some, List, [], ◌∷◌,
  ◌++◌, ◌==◌, ltb, leb, if◌then◌else◌, Time, Text, codes, text_eq, strip, is_empty, any, all,
  filter_by, length, with_default,
}
use flood_agent.Response.Enums.{OperatorRole, reviewer, commander, admin}
use flood_agent.Response.Roles.{role_value, role_named}

-- The fields of HEADER_MAP, in its order.
pub data Field : Type 0 where
  operator_id operator_role assurance_level terminal_id timestamp nonce signature : Field

-- `headers.get` of the header of a field as it is spelled in HEADER_MAP, and in title case.
pub record Headers : Type 0 where
  pub plain : Field → Option Text
  pub titled : Field → Option Text

-- What `int` makes of a text; `minus n` is -(n + 1).
pub data Parsed : Type 0 where
  malformed : Parsed
  minus plus : ℕ → Parsed

-- What the verifier takes from outside: the clock, HMAC with SHA-256 in hexadecimal over a secret
-- and a text in UTF-8, Unicode case, and the reading and printing of integers.
pub record IdentityEnv : Type 0 where
  pub clock : ℕ → Time
  pub hmac : Text → Text → Text
  pub upper : Text → Text
  pub lower : Text → Text
  pub parse_int : Text → Parsed
  pub show_int : Parsed → Text

-- `TrustedIdentityVerifier`; `max_age_seconds` is at least 30.
pub record Verifier : Type 0 where
  pub secret : Text
  pub max_age_seconds : ℕ

-- `__init__`, with the secret in UTF-8; `none` is the ValueError.
unfoldable pub new_verifier : (Text → List ℕ) → Text → ℕ → Option Verifier
new_verifier utf8 secret max_age =
    if ltb (length (utf8 secret)) 32
    then none
    else some (record { secret = secret; max_age_seconds = if ltb max_age 30 then 30 else max_age })

-- `datetime.fromtimestamp` of a timestamp, or a reading of the clock.
pub data IssuedAt : Type 0 where
  from_timestamp : Parsed → IssuedAt
  at_time : Time → IssuedAt

pub record OperatorIdentity : Type 0 where
  pub operator_id : Text
  pub operator_role : OperatorRole
  pub assurance_level : Text
  pub terminal_id : Text
  pub issued_at : IssuedAt
  pub nonce : Text

pub data IdentityError : Type 0 where
  missing_header : Field → IdentityError
  unknown_role invalid_assurance invalid_nonce invalid_timestamp expired : IdentityError
  bad_signature already_used : IdentityError
  -- the TypeError of `compare_digest` for a text beyond ASCII
  not_ascii : IdentityError

pub data Verdict (A : Type 0) : Type 0 where
  accepted : A → Verdict A
  denied : IdentityError → Verdict A

abbrev pub Nonces : Type 0
Nonces = List (Text × Time)

-- The repository, and how often the clock was read.
pub record NonceStore : Type 0 where
  pub nonces : Nonces
  pub ticks : ℕ

-- `DELETE ... WHERE expires_at < ?`
unfoldable pub live : Time → Nonces → Nonces
live now = filter_by (λ row. not (ltb row.1 now))

abbrev pub knows : Text → Nonces → Bool
knows n = any (λ row. text_eq row.0 n)

-- `consume_identity_nonce`: the nonce is the primary key, and a failed insertion is rolled back.
unfoldable pub consume_identity_nonce : Time → Text → Time → Nonces → Nonces × Bool
unfolding live
consume_identity_nonce now n expires_at table =
    if knows n (live now table)
    then (table, false)
    else (live now table ++ (n, expires_at) ∷ [], true)

-- `headers.get(header) or headers.get(header.title())`
abbrev header_value : Headers → Field → Option Text
header_value h f = elim (h.plain f) [
  | none ↦ h.titled f
  | some s ↦ if is_empty s then h.titled f else some s
]

-- The stripped value of a header; one that is missing or blank is `none`.
unfoldable pub value_of : Headers → Field → Option Text
value_of h f = elim (header_value h f) [
  | none ↦ none
  | some s ↦ if is_empty (strip s) then none else some (strip s)
]

-- `ASSURANCE_RANK.get(level)`
unfoldable pub assurance_rank : Text → Option ℕ
assurance_rank level =
    if text_eq level (codes "aal1")
    then some 1
    else (if text_eq level (codes "aal2")
        then some 2
        else (if text_eq level (codes "aal3") then some 3 else none))

-- `require_assurance`: whether it returns
unfoldable pub has_assurance : OperatorIdentity → Text → Bool
unfolding assurance_rank
has_assurance who minimum =
    leb (with_default (assurance_rank minimum) 99)
      (with_default (assurance_rank who.assurance_level) 0)

-- A character of NONCE_PATTERN
abbrev is_nonce_char : ℕ → Bool
is_nonce_char c =
    leb b'A' c && leb c b'Z'
    || leb b'a' c && leb c b'z'
    || leb b'0' c && leb c b'9'
    || c == b'_'
    || c == b'-'

-- `NONCE_PATTERN.fullmatch`
unfoldable pub is_nonce : Text → Bool
is_nonce s = leb 16 (length s) && leb (length s) 128 && all is_nonce_char s

-- `"\n".join(...)`
abbrev pub join_lines : List Text → Text
join_lines [] = []
join_lines (s ∷ []) = s
join_lines (s ∷ t ∷ ts) = s ++ 0x0a ∷ join_lines (t ∷ ts)

-- The text that `sign` digests.
unfoldable pub canonical :
    IdentityEnv → Text → Text → Text → Text → Parsed → Text → Text → Text → Text
canonical env operator role assurance terminal issued n method path = join_lines (
    operator
    ∷ role
    ∷ env.lower assurance
    ∷ terminal
    ∷ env.show_int issued
    ∷ n
    ∷ env.upper method
    ∷ path
    ∷ [])

unfoldable pub sign :
    IdentityEnv → Text → Text → Text → Text → Text → Parsed → Text → Text → Text → Text
unfolding canonical
sign env secret operator role assurance terminal issued n method path =
    env.hmac secret (canonical env operator role assurance terminal issued n method path)

-- `abs(now - timestamp) > max_age`
abbrev pub is_stale : ℕ → ℕ → Parsed → Bool
is_stale age now malformed = true
is_stale age now (minus n) = ltb age (now + n + 1)
is_stale age now (plus t) = ltb age (now - t + (t - now))

-- The values of the headers.
pub record Values : Type 0 where
  pub operator : Text
  pub role : Text
  pub assurance : Text
  pub terminal : Text
  pub issued : Text
  pub nonce : Text
  pub signature : Text

abbrev pub bind_value : {A : Type 0} → Headers → Field → (Text → Verdict A) → Verdict A
bind_value h f k = elim (value_of h f) [ none ↦ denied (missing_header f) | some s ↦ k s ]

-- The loop over HEADER_MAP
unfoldable pub read_values : Headers → Verdict Values
unfolding value_of
read_values h = bind_value h operator_id λ o. bind_value h operator_role λ r.
    bind_value h assurance_level λ a. bind_value h terminal_id λ t. bind_value h timestamp λ i.
      bind_value h nonce λ n. bind_value h signature λ s. accepted (record {
        operator = o;
        role = r;
        assurance = a;
        terminal = t;
        issued = i;
        nonce = n;
        signature = s;
      })

abbrev pub identity_of : Values → OperatorRole → Text → Parsed → OperatorIdentity
identity_of v role assurance issued = record {
  operator_id = v.operator;
  operator_role = role;
  assurance_level = assurance;
  terminal_id = v.terminal;
  issued_at = from_timestamp issued;
  nonce = v.nonce;
}

-- Everything up to the use of the nonce; `now` is `int(time.time())`.
unfoldable pub check_values :
    IdentityEnv → Verifier → Text → Text → ℕ → Values → Verdict OperatorIdentity
unfolding role_named assurance_rank is_nonce sign
check_values env v method path now x = elim (role_named x.role) [
  | none ↦ denied unknown_role
  | some role ↦ elim (assurance_rank (env.lower x.assurance)) [
    | none ↦ denied invalid_assurance
    | some rank ↦
        if is_nonce x.nonce
        then elim (env.parse_int x.issued) [
          | malformed ↦ denied invalid_timestamp
          | other ↦
              if is_stale v.max_age_seconds now other
              then denied expired
              else (if any (ltb 127) (env.lower x.signature)
                  then denied not_ascii
                  else (if text_eq
                        (sign env v.secret x.operator (role_value role) (env.lower x.assurance)
                          x.terminal other x.nonce method path)
                        (env.lower x.signature)
                      then accepted (identity_of x role (env.lower x.assurance) other)
                      else denied bad_signature))
        ]
        else denied invalid_nonce
  ]
]

-- The use of the nonce once the values are checked.
unfoldable pub admit :
    IdentityEnv
    → Verifier
    → Text
    → NonceStore
    → Verdict OperatorIdentity
    → NonceStore × Verdict OperatorIdentity
unfolding consume_identity_nonce
admit env v n s (denied e) = (record s { ticks = s.ticks + 1 }, denied e)
admit env v n s (accepted who) =
    let expires_at = env.clock (s.ticks + 1) + v.max_age_seconds * 1000000 in
    let (table, fresh) = consume_identity_nonce (env.clock (s.ticks + 2)) n expires_at s.nonces in
    (
      record s { nonces = table; ticks = s.ticks + 3 },
      if fresh then accepted who else denied already_used,
    )

abbrev pub verify_values :
    IdentityEnv
    → Verifier
    → Text
    → Text
    → NonceStore
    → Verdict Values
    → NonceStore × Verdict OperatorIdentity
verify_values env v method path s (denied e) = (s, denied e)
verify_values env v method path s (accepted x) =
    admit env v x.nonce s (check_values env v method path (env.clock s.ticks / 1000000) x)

-- `verify`: the readings of the clock are `time.time()`, the one that dates the nonce, and that of
-- the repository.
unfoldable pub verify :
    IdentityEnv
    → Verifier
    → Headers
    → Text
    → Text
    → NonceStore
    → NonceStore × Verdict OperatorIdentity
unfolding read_values check_values admit
verify env v h method path s = verify_values env v method path s (read_values h)

-- A call of `verify`.
pub record Attempt : Type 0 where
  pub headers : Headers
  pub method : Text
  pub path : Text

unfoldable pub verify_all : IdentityEnv → Verifier → List Attempt → NonceStore → NonceStore
unfolding verify
verify_all env v [] s = s
verify_all env v (a ∷ as') s = verify_all env v as' (verify env v a.headers a.method a.path s).0

-- `build_headers`, with the names of the headers in title case
unfoldable pub build_headers :
    IdentityEnv → Text → Text → OperatorRole → Text → Text → Text → Text → Text → Parsed → Headers
unfolding sign
build_headers env secret operator role assurance terminal n method path issued = record {
  plain = λ f. none;
  titled = λ f. elim f [
    | operator_id ↦ some operator
    | operator_role ↦ some (role_value role)
    | assurance_level ↦ some assurance
    | terminal_id ↦ some terminal
    | timestamp ↦ some (env.show_int issued)
    | nonce ↦ some n
    | signature ↦
        some (sign env secret operator (role_value role) assurance terminal issued n method path)
  ];
}

-- The environment variables FLOOD_ENVIRONMENT and FLOOD_ALLOW_DEV_IDENTITY_HEADERS, or their
-- defaults, and the headers of a request without a signature.
pub record Development : Type 0 where
  pub environment : Text
  pub allowed : Text
  pub x_operator_id : Text
  pub x_operator_role : Text
  pub x_operator_terminal : Text

abbrev among : Text → List Text → Bool
among s = any (text_eq s)

abbrev is_production : IdentityEnv → Development → Bool
is_production env d =
    among (env.lower (strip d.environment)) (codes "production" ∷ codes "prod" ∷ [])

abbrev is_allowed : IdentityEnv → Development → Bool
is_allowed env d =
    among (env.lower (strip d.allowed)) (codes "1" ∷ codes "true" ∷ codes "yes" ∷ codes "on" ∷ [])

abbrev development_level : OperatorRole → Text
development_level reviewer = codes "aal2"
development_level commander = codes "aal2"
development_level admin = codes "aal2"
development_level _ = codes "aal1"

-- The clock reads `now` for `issued_at` and `stamp` for the nonce.
abbrev development_as : IdentityEnv → Time → Time → Development → OperatorRole → OperatorIdentity
development_as env now stamp d role = record {
  operator_id = strip d.x_operator_id;
  operator_role = role;
  assurance_level = development_level role;
  terminal_id = strip d.x_operator_terminal;
  issued_at = at_time now;
  nonce = codes "development-" ++ env.show_int (plus (stamp / 1000));
}

-- `development_identity_from_headers`: `none` is the exception for an unknown role.
unfoldable pub development_identity_from_headers :
    IdentityEnv → Time → Time → Development → Option (Option OperatorIdentity)
unfolding role_named
development_identity_from_headers env now stamp d =
    if not (is_allowed env d) || is_production env d
    then some none
    else (if is_empty (strip d.x_operator_id)
          || is_empty (strip d.x_operator_role)
          || is_empty (strip d.x_operator_terminal)
        then some none
        else elim (role_named (strip d.x_operator_role)) [
          | none ↦ none
          | some role ↦ some (some (development_as env now stamp d role))
        ])
