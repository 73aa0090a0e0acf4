-- ===== src/Http/Idempotency/Keys.antt =====
-- What identifies a request: `canonical_idempotency_scope`, `request_fingerprint` and the test of
-- the key in flood_system/http/idempotency.py.
use flood_agent.Base.{
  ℕ, ◌/◌, ◌%◌, Bool, not, ◌||◌, List, [], ◌∷◌, ◌++◌, ltb, Ident, Text, codes, text_eq, strip,
  is_empty, any, length,
}
use flood_agent.Response.Roles.{role_value}
use flood_agent.Http.Messages.{Bytes, OperatorName, HttpRequest, HttpEnv}

-- `":".join(...)`
unfoldable pub canonical_idempotency_scope : HttpEnv → OperatorName → Text → Text → Text
canonical_idempotency_scope env who method path =
    who.operator_id
    ++ b':'
      ∷ (role_value who.operator_role
          ++ b':' ∷ (who.terminal_id ++ b':' ∷ (env.upper method ++ b':' ∷ path)))

-- The low eight bytes of a number, the highest first: `len(value).to_bytes(8, "big")`.
abbrev pub be64 : ℕ → Bytes
be64 n =
    (n / 0x100000000000000 % 0x100)
    ∷ (n / 0x1000000000000 % 0x100)
    ∷ (n / 0x10000000000 % 0x100)
    ∷ (n / 0x100000000 % 0x100)
    ∷ (n / 0x1000000 % 0x100)
    ∷ (n / 0x10000 % 0x100)
    ∷ (n / 0x100 % 0x100)
    ∷ (n % 0x100)
    ∷ []

-- What the loop of `request_fingerprint` feeds to the digest.
unfoldable pub framed : List Bytes → Bytes
framed [] = []
framed (v ∷ vs) = be64 (length v) ++ (v ++ framed vs)

unfoldable pub fingerprint_parts : HttpEnv → HttpRequest → List Bytes
fingerprint_parts env r =
    env.utf8 (env.upper r.method)
    ∷ env.utf8 r.path
    ∷ r.query_string
    ∷ env.utf8 (env.lower (strip r.content_type))
    ∷ r.body
    ∷ []

unfoldable pub request_fingerprint : HttpEnv → HttpRequest → Ident
unfolding framed fingerprint_parts
request_fingerprint env r = env.sha256 (framed (fingerprint_parts env r))

-- `request.method.upper() in WRITE_METHODS`
unfoldable pub is_write : HttpEnv → HttpRequest → Bool
is_write env r =
    any (text_eq (env.upper r.method))
      (codes "POST" ∷ codes "PUT" ∷ codes "PATCH" ∷ codes "DELETE" ∷ [])

-- 1 to 200 visible ASCII characters
unfoldable pub is_key : Text → Bool
is_key key = not (is_empty key || ltb 200 (length key) || any (λ c. ltb c 33 || ltb 126 c) key)
