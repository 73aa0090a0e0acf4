-- ===== src/Http/Idempotency/Distinct.antt =====
-- The scope and the fingerprint of a request tell requests apart.
use flood_agent.Base.{
  ℕ, ◌+◌, ◌*◌, ◌<◌, ◌≡◌, ◌∙◌, refl, sym, ap, arith, List, [], ◌∷◌, ◌++◌, Text, Lacks,
  first_separator, length, strip, All,
}
use flood_agent.Response.Roles.{role_value, role_value-inj, role_value-Lacks_colon}
use flood_agent.Http.Messages.{Bytes, HttpEnv, HttpRequest, OperatorName}
use flood_agent.Http.Idempotency.Keys.{
  canonical_idempotency_scope, be64, framed, fingerprint_parts, request_fingerprint,
}

-- Where no operator, terminal or method has a colon, two scopes are one text only if the operators,
-- roles and terminals, the methods in upper case and the paths are the same.
pub canonical_idempotency_scope_inj :
    (env : HttpEnv) (who other : OperatorName) (method method' path path' : Text)
    → Lacks b':' who.operator_id
    → Lacks b':' other.operator_id
    → Lacks b':' who.terminal_id
    → Lacks b':' other.terminal_id
    → Lacks b':' (env.upper method)
    → Lacks b':' (env.upper method')
    → canonical_idempotency_scope env who method path
      ≡ canonical_idempotency_scope env other method' path'
    → (who ≡ other) × (env.upper method ≡ env.upper method') × (path ≡ path')
unfolding canonical_idempotency_scope
canonical_idempotency_scope_inj env who other method method' path path' a a' b b' c c' h =
    let (ids, h1) = first_separator b':' who.operator_id other.operator_id _ _ a a' h in
    let (roles, h2) =
      first_separator b':' (role_value who.operator_role) (role_value other.operator_role) _ _
        (role_value-Lacks_colon who.operator_role) (role_value-Lacks_colon other.operator_role)
        h1 in
    let (terminals, h3) = first_separator b':' who.terminal_id other.terminal_id _ _ b b' h2 in
    let (methods, paths) =
      first_separator b':' (env.upper method) (env.upper method') _ _ c c' h3 in
    let same_role = role_value-inj who.operator_role other.operator_role roles in
    (ground arith, methods, paths)

-- Eight bytes hold a length.
abbrev pub Fits : Bytes → Type 0
Fits v = length v < 0x10000000000000000

-- The number that bytes write, the highest byte first.
from_be : ℕ → Bytes → ℕ
from_be n [] = n
from_be n (b ∷ bs) = from_be (n * 0x100 + b) bs

from_be-be64 : (n : ℕ) → n < 0x10000000000000000 → from_be 0 (be64 n) ≡ n
unfolding from_be
from_be-be64 n h = omega arith

be64-inj : (m n : ℕ) → m < 0x10000000000000000 → n < 0x10000000000000000 → be64 m ≡ be64 n → m ≡ n
be64-inj m n h k e = sym (from_be-be64 m h) ∙ ap (from_be 0) e ∙ from_be-be64 n k

append-split : (s t x y : Bytes) → length s ≡ length t → s ++ x ≡ t ++ y → (s ≡ t) × (x ≡ y)
append-split [] [] x y l e = (refl, e)
append-split [] (b ∷ t) x y l e = absurd (omega arith)
append-split (a ∷ s) [] x y l e = absurd (omega arith)
append-split (a ∷ s) (b ∷ t) x y l e =
    let (same, rest) = append-split s t x y (omega arith) (ground arith) in (ground arith, rest)

-- The digest reads the parts back: no two lists of as many parts are framed alike.
framed-inj :
    (vs ws : List Bytes)
    → length vs ≡ length ws
    → All Fits vs
    → All Fits ws
    → framed vs ≡ framed ws
    → vs ≡ ws
unfolding framed
framed-inj [] [] l h k e = refl
framed-inj [] (w ∷ ws) l h k e = absurd (omega arith)
framed-inj (v ∷ vs) [] l h k e = absurd (omega arith)
framed-inj (v ∷ vs) (w ∷ ws) l h k e =
    let (sizes, rest) =
      append-split (be64 (length v)) (be64 (length w)) (v ++ framed vs) (w ++ framed ws) refl e in
    let (same, rest') =
      append-split v w (framed vs) (framed ws) (be64-inj _ _ h.0 k.0 sizes) rest in
    let tails = framed-inj vs ws (omega arith) h.1 k.1 rest' in ground arith

-- Two requests whose parts are shorter than 2^64 bytes have one fingerprint, where SHA-256 does not
-- collide on what is digested of them, only if they agree on the bytes of the method in upper case,
-- of the path, of the query, of the content type trimmed in lower case and of the body.
pub request_fingerprint_inj :
    (env : HttpEnv) (q r : HttpRequest)
    → (env.sha256 (framed (fingerprint_parts env q)) ≡ env.sha256 (framed (fingerprint_parts env r))
        → framed (fingerprint_parts env q) ≡ framed (fingerprint_parts env r))
    → All Fits (fingerprint_parts env q)
    → All Fits (fingerprint_parts env r)
    → request_fingerprint env q ≡ request_fingerprint env r
    → (env.utf8 (env.upper q.method) ≡ env.utf8 (env.upper r.method))
      × (env.utf8 q.path ≡ env.utf8 r.path)
      × (q.query_string ≡ r.query_string)
      × (env.utf8 (env.lower (strip q.content_type)) ≡ env.utf8 (env.lower (strip r.content_type)))
      × (q.body ≡ r.body)
unfolding request_fingerprint fingerprint_parts
request_fingerprint_inj env q r collision_free h k e =
    let parts =
      framed-inj (fingerprint_parts env q) (fingerprint_parts env r) refl h k (collision_free e) in
    ground arith
