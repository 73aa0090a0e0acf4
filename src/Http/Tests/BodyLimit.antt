-- ===== src/Http/Tests/BodyLimit.antt =====
-- A body of two parts against limits of two sizes.
use flood_agent.Base.{ℕ, zero, suc, ◌≤◌, ◌≡◌, refl, arith, true, false, [], ◌∷◌, codes}
use flood_agent.Http.BodyLimit.{
  Incoming, request_part, other_message, App, returns, raises_too_large, sends, receives, outgoing,
  Middleware, Scope, declared, handle, run, is_guarded, is_refused,
}
use flood_agent.Http.BodyLimit.Bounds.{total_length, handle-le, handle-run}

abbrev two_parts : ℕ → Incoming
two_parts zero = request_part (1 ∷ 2 ∷ []) true
two_parts (suc zero) = request_part (3 ∷ 4 ∷ []) false
two_parts (suc (suc n)) = other_message 0

abbrev reader : App
reader =
    receives (λ a. receives (λ b. sends (outgoing 1) returns) raises_too_large) raises_too_large

abbrev limit_of : ℕ → Middleware
limit_of n = record { max_bytes = n; paths = codes "/import" ∷ []; path_prefixes = [] }

abbrev import_scope : Scope
import_scope = record { is_http = true; path = codes "/import"; content_length = declared 2 }

handle-le_example : total_length (handle (limit_of 3) import_scope two_parts reader).delivered ≤ 3
unfolding is_guarded
handle-le_example = handle-le (limit_of 3) import_scope two_parts reader refl

handle-run_example : handle (limit_of 4) import_scope two_parts reader ≡ run two_parts 0 reader
unfolding run is_refused
handle-run_example =
    handle-run (limit_of 4) import_scope two_parts reader refl (omega arith) (λ e. cc)
