-- ===== src/Debug/Safety.antt =====
-- What the debug tools do to the cluster.
use go_kubernetes_mcp_server.Base.{◌≡◌, refl, true, false, String, ◌==◌, Option, none, ℕ, ℤ, arith}
use go_kubernetes_mcp_server.Security.{Policy, check_debug}
use go_kubernetes_mcp_server.Kube.{namespaced}
use go_kubernetes_mcp_server.Kube.Rules.{Acts, done, act, Attached, unattached}
use go_kubernetes_mcp_server.Tools.Handler.Rules.{guard-Acts, settle-Acts, if-Acts}
use go_kubernetes_mcp_server.Debug.Exec.{ExecArgs, exec_command}
use go_kubernetes_mcp_server.Debug.Pods.{
  EphemeralArgs, add_ephemeral_container, RunDebugPodArgs, run_debug_pod, debug_pod_rest,
}
use go_kubernetes_mcp_server.Operations.Safety.{
  Permitted, Reachable, resolve_ns-ne_empty, check_scope-Reachable,
}

check_debug-allow : (p : Policy) → check_debug p ≡ none → p.allow_debug ≡ true
unfolding check_debug
check_debug-allow p h = ground arith

pub exec_command-Acts :
    (p : Policy) (a : ExecArgs)
    → Acts (Permitted p p.allow_debug false) unattached (exec_command p a)
unfolding exec_command
exec_command-Acts p a = guard-Acts _ _ λ w. guard-Acts _ _ λ n. guard-Acts _ _ λ c.
    guard-Acts _ _ λ t. act tt λ u. act tt λ v.
      let near = check_scope-Reachable p _ (resolve_ns-ne_empty a.namespace) t in
      act (check_debug-allow p w, near, (refl, refl, refl), refl) λ x. done

pub add_ephemeral_container-Acts :
    (p : Policy) (a : EphemeralArgs)
    → Acts (Permitted p p.allow_debug false) unattached (add_ephemeral_container p a)
unfolding add_ephemeral_container
add_ephemeral_container-Acts p a = guard-Acts _ _ λ w. guard-Acts _ _ λ n. guard-Acts _ _ λ i.
    guard-Acts _ _ λ c. guard-Acts _ _ λ t. act tt λ u. act tt λ v. act tt λ x.
      settle-Acts _ _ x λ pod.
        let near = check_scope-Reachable p _ (resolve_ns-ne_empty a.namespace) t in
        act (check_debug-allow p w, near, (refl, refl, refl), refl) λ y. settle-Acts _ _ y λ z. done

debug_pod_rest-Acts :
    (p : Policy) {r : Attached} (a : RunDebugPodArgs) (ns : String) (ttl : ℕ) (name : String)
    → p.allow_debug ≡ true
    → Reachable p (namespaced ns)
    → Acts (Permitted p p.allow_debug false) r (debug_pod_rest p a ns ttl name)
unfolding debug_pod_rest
debug_pod_rest-Acts p a ns ttl name w near = guard-Acts _ _ λ c. act tt λ u. act tt λ v.
    act (w, near, (refl, refl, refl), refl)
      λ x. settle-Acts _ _ x λ y. act (w, near, (refl, refl, refl), refl) λ z. done

pub run_debug_pod-Acts :
    (parse_dur : String → Option ℤ) (p : Policy) (a : RunDebugPodArgs)
    → Acts (Permitted p p.allow_debug false) unattached (run_debug_pod parse_dur p a)
unfolding run_debug_pod
run_debug_pod-Acts parse_dur p a = guard-Acts _ _ λ w. guard-Acts _ _ λ i. guard-Acts _ _ λ c.
    guard-Acts _ _ λ t.
      let near = check_scope-Reachable p _ (resolve_ns-ne_empty a.namespace) t in
      let allowed = check_debug-allow p w in
      if-Acts (a.name == "") _ _ (act tt λ suffix. debug_pod_rest-Acts p a _ _ _ allowed near)
        (debug_pod_rest-Acts p a _ _ _ allowed near)
