-- ===== src/Http/BodyLimit.antt =====
-- The limit on request bodies: `RequestBodyLimitMiddleware` of flood_system/http/body_limit.py.
pub mod Bounds
use flood_agent.Base.{
  ℕ, ◌+◌, Bool, true, false, not, ◌&&◌, ◌||◌, Option, none, some, List, [], ◌∷◌, ◌++◌, ltb,
  if◌then◌else◌, Ident, Text, text_eq, starts_with, any, length,
}
use flood_agent.Http.Messages.{Bytes}

-- A message of the server: a part of the body, and whether more follows, or another one.
pub data Incoming : Type 0 where
  request_part : Bytes → Bool → Incoming
  other_message : Ident → Incoming

-- A message to the server; the two of the rejection are named.
pub data Outgoing : Type 0 where
  too_large_start too_large_body : Outgoing
  outgoing : Ident → Outgoing

-- What the application does, message by message. Where it receives, it says how it goes on with the
-- message, and how it goes on if RequestBodyTooLarge is raised there.
pub data App : Type 0 where
  returns : App
  raises : Ident → App
  raises_too_large : App
  sends : Outgoing → App → App
  receives : (Incoming → App) → App → App

pub data Ending : Type 0 where
  returned raised_too_large : Ending
  raised : Ident → Ending

-- What was delivered to the application, what was sent, and how the call ended.
pub record Trace : Type 0 where
  pub delivered : List Incoming
  pub sent : List Outgoing
  pub ending : Ending

abbrev pub ended : Ending → Trace
ended e = record { delivered = []; sent = []; ending = e }

abbrev pub with_sent : Outgoing → Trace → Trace
with_sent m t = record t { sent = m ∷ t.sent }

abbrev pub with_delivered : Incoming → Trace → Trace
with_delivered m t = record t { delivered = m ∷ t.delivered }

-- The application over the messages of the server from a position on.
unfoldable pub run : (ℕ → Incoming) → ℕ → App → Trace
run server n returns = ended returned
run server n (raises e) = ended (raised e)
run server n raises_too_large = ended raised_too_large
run server n (sends m a) = with_sent m (run server n a)
run server n (receives k h) = with_delivered (server n) (run server (n + 1) (k (server n)))

abbrev pub part_length : Incoming → ℕ
part_length (request_part body more) = length body
part_length (other_message m) = 0

abbrev pub is_part : Incoming → Bool
is_part (request_part body more) = true
is_part (other_message m) = false

-- The same with `limited_receive`, which counts in `received`.
unfoldable pub run_limited : ℕ → (ℕ → Incoming) → ℕ → ℕ → App → Trace
run_limited max_bytes server received n returns = ended returned
run_limited max_bytes server received n (raises e) = ended (raised e)
run_limited max_bytes server received n raises_too_large = ended raised_too_large
run_limited max_bytes server received n (sends m a) =
    with_sent m (run_limited max_bytes server received n a)
run_limited max_bytes server received n (receives k h) =
    let total = received + part_length (server n) in
    let over = run_limited max_bytes server total (n + 1) h in
    let fine =
      with_delivered (server n) (run_limited max_bytes server total (n + 1) (k (server n))) in
    if is_part (server n) && ltb max_bytes total then over else fine

-- What `int` makes of the header "content-length".
pub data Declared : Type 0 where
  no_header malformed negative : Declared
  declared : ℕ → Declared

pub record Middleware : Type 0 where
  pub max_bytes : ℕ
  pub paths : List Text
  pub path_prefixes : List Text

-- `__init__`
unfoldable pub new_middleware : ℕ → List Text → List Text → Middleware
new_middleware max_bytes paths prefixes = record {
  max_bytes = if ltb max_bytes 1 then 1 else max_bytes;
  paths = paths;
  path_prefixes = prefixes;
}

-- What the middleware reads of the scope.
pub record Scope : Type 0 where
  pub is_http : Bool
  pub path : Text
  pub content_length : Declared

unfoldable pub is_guarded : Middleware → Scope → Bool
is_guarded m s =
    s.is_http
    && (any (text_eq s.path) m.paths || any (λ prefix. starts_with prefix s.path) m.path_prefixes)

-- The header alone rules the request out.
unfoldable pub is_refused : Middleware → Declared → Bool
is_refused m no_header = false
is_refused m malformed = true
is_refused m negative = false
is_refused m (declared n) = ltb m.max_bytes n

-- `_send_rejection`
abbrev pub rejection : List Outgoing
rejection = too_large_start ∷ too_large_body ∷ []

abbrev pub rejected_end : Trace → Ending → Trace
rejected_end t raised_too_large = record t { sent = t.sent ++ rejection; ending = returned }
rejected_end t returned = t
rejected_end t (raised e) = t

-- `__call__`
unfoldable pub handle : Middleware → Scope → (ℕ → Incoming) → App → Trace
unfolding run run_limited is_guarded is_refused
handle m s server app =
    if is_guarded m s
    then (if is_refused m s.content_length
        then record { delivered = []; sent = rejection; ending = returned }
        else let t = run_limited m.max_bytes server 0 0 app in rejected_end t t.ending)
    else run server 0 app
