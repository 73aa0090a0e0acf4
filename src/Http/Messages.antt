-- ===== src/Http/Messages.antt =====
-- Requests, responses and the environment of flood_system/http.
use flood_agent.Base.{ℕ, Option, List, Ident, Time, Text}
use flood_agent.Response.Enums.{OperatorRole}

abbrev pub Bytes : Type 0
Bytes = List ℕ

-- The names of headers, in lower case.
pub data HeaderName : Type 0 where
  etag location content_language content_type : HeaderName
  x_idempotent_replay x_idempotency_record_id : HeaderName
  other_header : Ident → HeaderName

abbrev pub Headers : Type 0
Headers = List (HeaderName × Ident)

-- A response whose body is there: what `_materialize_response` returns.
pub record HttpResponse : Type 0 where
  pub status_code : ℕ
  pub headers : Headers
  pub body : Bytes

-- `OperatorIdentity`, as far as the HTTP layer reads it.
pub record OperatorName : Type 0 where
  pub operator_id : Text
  pub operator_role : OperatorRole
  pub terminal_id : Text

pub record HttpRequest : Type 0 where
  pub method : Text
  pub path : Text
  pub query_string : Bytes
  -- the headers "content-type" and "idempotency-key", or the empty text
  pub content_type : Text
  pub idempotency_key : Text
  pub body : Bytes

-- The keys that `_response_reference` looks for.
pub data RefKey : Type 0 where
  event_id task_id message_id package_id version_id record_id backup_id report_id : RefKey

-- What `int(os.getenv(name, default))` meets: no variable, one that is no number, or a number.
pub data Setting : Type 0 where
  unset malformed negative : Setting
  number : ℕ → Setting

-- What the layer takes from outside: the clock, `uuid4`, SHA-256, UTF-8, base64, Unicode case, the
-- parser of JSON as the text under a key of an object, the resolver of identities and the
-- environment variables.
pub record HttpEnv : Type 0 where
  pub clock : ℕ → Time
  pub uuid : ℕ → Ident
  pub sha256 : Bytes → Ident
  pub utf8 : Text → Bytes
  pub encode64 : Bytes → Ident
  pub decode64 : Ident → Option Bytes
  pub upper : Text → Text
  pub lower : Text → Text
  pub json_object : Bytes → Option (RefKey → Option Text)
  pub resolve : HttpRequest → Option OperatorName
  pub ttl_setting : Setting
  pub replay_setting : Setting
