-- ===== src/Debug/Exec.antt =====
-- internal/tools/debug/exec.go: exec_command. A timeout only bounds the run: a run out of time is one
-- that answers with an error.
use go_kubernetes_mcp_server.Base.{
  ℕ, String, false, none, some, List, [], ◌∷◌, ◌++◌, is_empty, codes, if◌then◌else◌,
}
use go_kubernetes_mcp_server.Err.{command_required, create_executor, exec_failed}
use go_kubernetes_mcp_server.Security.{Policy, check_debug}
use go_kubernetes_mcp_server.Rpc.{validate_name}
use go_kubernetes_mcp_server.Kube.{
  namespaced, Prog, ret, call, attach, attach_args, words, exec, Executed, no_executor, streamed,
}
use go_kubernetes_mcp_server.Kube
use go_kubernetes_mcp_server.Tools.Handler.{
  Outcome, text, tool_error, s, v, bytes, ◌>>=◌, ◌>>◌, guard,
}
use go_kubernetes_mcp_server.Tools.Util.{resolve_ns, check_scope}

pub record ExecArgs : Type 0 where
  pub namespace : String
  pub pod : String
  pub container : String
  pub command : List String

-- `combinedOutput`; the builder is empty exactly if both streams are.
pub combined_output : List ℕ → List ℕ → List ℕ
combined_output stdout stderr =
    let b =
      stdout
      ++ (if is_empty stderr
          then []
          else (if is_empty stdout then [] else 10 ∷ []) ++ (codes "[stderr]\n" ++ stderr)) in
    if is_empty b then codes "(no output)\n" else b

pub exec_result : String → ExecArgs → Executed → Outcome
unfolding combined_output
exec_result ns a (no_executor err) = tool_error (create_executor err)
exec_result ns a (streamed stdout stderr (some err)) =
    tool_error (exec_failed ns a.pod err (combined_output stdout stderr))
exec_result ns a (streamed stdout stderr none) = text (
    s "# "
    ∷ v a.command
    ∷ s " in "
    ∷ s ns
    ∷ s "/"
    ∷ s a.pod
    ∷ s "\n"
    ∷ bytes (combined_output stdout stderr)
    ∷ [])

unfoldable pub exec_command : Policy → ExecArgs → Prog Outcome
unfolding exec_result
exec_command p a = do
  guard (check_debug p)
  guard (validate_name a.pod)
  guard (if is_empty a.command then some command_required else none)
  let ns : String = resolve_ns a.namespace
  guard (check_scope p ns false)
  call (attach "Pod" ns a.pod false)
  call (attach_args (("command", words a.command) ∷ ("container", Kube.text a.container) ∷ []))
  done ← call (exec (namespaced ns) a.pod a.container a.command)
  ret (exec_result ns a done)
