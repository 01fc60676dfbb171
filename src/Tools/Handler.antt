-- ===== src/Tools/Handler.antt =====
-- The results of a handler, and its steps. (nil, err) is `fail`, an `rpc.ErrorResult` is `tool_error`
-- and an `rpc.TextResult` is `text`, whose pieces are those of its format. Also RPCStatusError
-- (internal/tools/errors.go).
pub mod Rules
use go_kubernetes_mcp_server.Base.{
  ℕ, ℤ, String, ◌==◌, ◌||◌, Option, none, some, List, if◌then◌else◌,
}
use go_kubernetes_mcp_server.Err.{
  Err, ApiError, status, other, StatusClass, not_found, forbidden, unauthorized, conflict,
  timed_out, rate_limited, invalid, plain, wrapped, api_failed,
}
use go_kubernetes_mcp_server.Kube.{Prog, ret, Answer, ok, failed}

-- A piece of a formatted text: a literal or a %s, a %d, a %q, a %v of a list, a text in lower case,
-- and a %v of an error.
pub data Piece : Type 0 where
  s : String → Piece
  d : ℤ → Piece
  q : String → Piece
  v : List String → Piece
  lowered : String → Piece
  e : ApiError → Piece
  bytes : List ℕ → Piece

-- What makes a handler panic; the wrapper recovers.
pub data Panic : Type 0 where
  nil_dereference not_a_string index_out_of_range : Panic

pub data Outcome : Type 0 where
  text : List Piece → Outcome
  tool_error : Err → Outcome
  fail : Err → Outcome
  panics : Panic → Outcome

abbrev pub Handler : Type 0 → Type 0
Handler A = (A → Prog Outcome) → Prog Outcome

infixl 5 ◌>>=◌ ◌>>◌
abbrev pub ◌>>=◌ : {A : Type 0} → Handler A → (A → Prog Outcome) → Prog Outcome
◌>>=◌ m k = m k

abbrev pub ◌>>◌ : {A : Type 0} → Handler A → Prog Outcome → Prog Outcome
◌>>◌ m k = m (λ _. k)

-- `if err := check; err != nil { return rpc.ErrorResult("%v", err), nil }`
unfoldable pub guard : Option Err → Handler (Unit {0})
guard none k = k tt
guard (some err) k = ret (tool_error err)

-- The class of a `StatusError` is chosen by its reason; another error is wrapped.
pub status_class : String → StatusClass
status_class reason =
    if reason == "NotFound"
    then not_found
    else if reason == "Forbidden"
    then forbidden
    else if reason == "Unauthorized"
    then unauthorized
    else if reason == "Conflict"
    then conflict
    else if reason == "Timeout" || reason == "DeadlineExceed"
    then timed_out
    else if reason == "TooManyRequests"
    then rate_limited
    else if reason == "Invalid"
    then invalid
    else plain

unfoldable pub rpc_status_error : ApiError → String → Err
unfolding status_class
rpc_status_error (status reason message) action = api_failed (status_class reason) action message
rpc_status_error (other message) action = api_failed wrapped action message

-- `if err != nil { return nil, tools.RPCStatusError(err, action) }`
unfoldable pub settle : {A : Type 0} → String → (A → Prog Outcome) → Answer A → Prog Outcome
settle action k (ok a) = k a
settle action k (failed err) = ret (fail (rpc_status_error err action))

abbrev pub answer : {A : Type 0} → String → Handler (Answer A) → Handler A
answer action m k = m (settle action k)
