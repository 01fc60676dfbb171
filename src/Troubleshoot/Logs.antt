-- ===== src/Troubleshoot/Logs.antt =====
-- internal/tools/troubleshoot/logs.go: get_logs. The parser of RFC 3339 times is a parameter; a time is
-- kept as its text. The reads of a stream are a list of what each of them gives, and after the last
-- one the stream has ended.
pub mod Laws
use go_kubernetes_mcp_server.Base.{
  ℕ, ◌+◌, ◌-◌, ℤ, pos, negsuc, String, ◌==◌, Bool, true, false, Option, none, some, List, [], ◌∷◌,
  ◌++◌, ltb, if◌then◌else◌, length, is_empty, ◌<>◌, is_not_positive,
}
use go_kubernetes_mcp_server.Err.{Err, invalid_since_time, read_failed, ApiError}
use go_kubernetes_mcp_server.Security.{Policy}
use go_kubernetes_mcp_server.Rpc.{validate_name}
use go_kubernetes_mcp_server.Kube.{
  Prog, ret, call, namespaced, attach, stream_logs, Chunk, ReadError, eof, broken_read,
}
use go_kubernetes_mcp_server.Kube.Objects.{LogOptions}
use go_kubernetes_mcp_server.Tools.Handler.{
  Outcome, text, fail, Piece, s, bytes, ◌>>=◌, ◌>>◌, guard, answer,
}
use go_kubernetes_mcp_server.Tools.Util.{resolve_ns, check_scope}

pub record LogArgs : Type 0 where
  pub namespace : String
  pub pod : String
  pub container : String
  pub tail : ℤ
  pub since : ℤ
  pub since_time : String
  pub previous : Bool
  pub timestamps : Bool
  pub follow : Bool

-- How `readAtMost` ends.
pub data ReadEnd : Type 0 where
  whole hit_limit : ReadEnd
  broke : ApiError → ReadEnd

-- `int64(len(out)) < maxBytes`
abbrev pub below : ℕ → ℤ → Bool
below n (pos m) = ltb n m
below n (negsuc m) = false

-- `readAtMost`, with what it has read so far.
unfoldable pub read_at_most : List Chunk → ℤ → List ℕ → List ℕ × ReadEnd
read_at_most [] max_bytes out = (out, if below (length out) max_bytes then whole else hit_limit)
read_at_most (chunk ∷ chunks) max_bytes out =
    let more : List ℕ = out ++ chunk.read_bytes in
    let rest = read_at_most chunks max_bytes more in
    if below (length out) max_bytes
    then elim chunk.error [
      | some err ↦ (more, elim err [ eof ↦ whole | broken_read x ↦ broke x ])
      | none ↦ rest
    ]
    else (out, hit_limit)

unfoldable pub show_logs : String → String → List ℕ × ReadEnd → Outcome
show_logs ns pod (body, broke err) = fail (read_failed ns pod err)
show_logs ns pod (body, ended) =
    text ((if is_empty body then s "(no logs found)" else bytes body) ∷ [])

abbrev pub add_int : ℤ → ℕ → ℤ
add_int (pos a) b = pos (a + b)
add_int (negsuc a) b = if ltb a b then pos (b - (a + 1)) else negsuc (a - b)

-- `a.Since > 0`
abbrev positive : ℤ → Option ℤ
positive n = if is_not_positive n then none else some n

module _ (parse_time : String → Option ApiError) (max_log_lines max_output_bytes : ℤ) where
  unfoldable pub log_options : LogArgs → LogOptions
  log_options a = record {
    container = a.container;
    tail_lines = if is_not_positive a.tail then max_log_lines else a.tail;
    previous = a.previous;
    timestamps = a.timestamps;
    since_seconds = positive a.since;
    since_time = if a.since_time == "" then none else some a.since_time;
    follow = a.follow;
  }

  unfoldable pub check_since_time : String → Option Err
  check_since_time given =
      if given == ""
      then none
      else elim (parse_time given) [ none ↦ none | some err ↦ some (invalid_since_time err) ]

  unfoldable pub get_logs : Policy → LogArgs → Prog Outcome
  unfolding check_since_time log_options show_logs
  get_logs p a = do
    guard (validate_name a.pod)
    let ns : String = resolve_ns a.namespace
    guard (check_scope p ns false)
    call (attach "Pod" ns a.pod false)
    guard (check_since_time a.since_time)
    chunks ←
        answer ("get logs for pod " <> ns <> "/" <> a.pod)
          (call (stream_logs (namespaced ns) a.pod (log_options a)))
    ret (show_logs ns a.pod (read_at_most chunks (add_int max_output_bytes 1024) []))
