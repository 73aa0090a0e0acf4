-- ===== src/Http/Tests.antt =====
-- Small requests and an environment for them.
mod Idempotency
mod BodyLimit
use flood_agent.Base.{ℕ, ◌+◌, ◌*◌, none, some, List, [], ◌∷◌, codes, Text}
use flood_agent.Response.Enums.{reviewer}
use flood_agent.Http.Messages.{Bytes, OperatorName, HttpRequest, HttpEnv, number, unset}

abbrev pub first_byte : Bytes → ℕ
first_byte [] = 0
first_byte (b ∷ bs) = b

abbrev pub reviewer_name : OperatorName
reviewer_name = record {
  operator_id = codes "op";
  operator_role = reviewer;
  terminal_id = codes "t1";
}

-- A minute and forty seconds pass between two readings of the clock.
abbrev pub test_env : HttpEnv
test_env = record {
  clock = λ n. n * 100000000;
  uuid = λ n. n + 1;
  sha256 = first_byte;
  utf8 = λ s. s;
  encode64 = first_byte;
  decode64 = λ n. some (n ∷ []);
  upper = λ s. s;
  lower = λ s. s;
  json_object = λ b. none;
  resolve = λ q. some reviewer_name;
  ttl_setting = number 1;
  replay_setting = unset;
}

abbrev pub request_with : Text → Text → Bytes → HttpRequest
request_with key content body = record {
  method = codes "POST";
  path = codes "/tasks";
  query_string = [];
  content_type = content;
  idempotency_key = key;
  body = body;
}

abbrev pub test_request : HttpRequest
test_request = request_with (codes "k1") (codes "a/json") (7 ∷ [])
