-- ===== src/Troubleshoot/Reads.antt =====
-- Where the troubleshooting tools read.
use go_kubernetes_mcp_server.Base.{
  ◌≡◌, refl, inr, ℕ, ℤ, List, String, true, false, Option, none, some,
}
use go_kubernetes_mcp_server.Err.{ApiError}
use go_kubernetes_mcp_server.Security.{Policy}
use go_kubernetes_mcp_server.Kube.{Answer, ok, failed, namespaced, Prog}
use go_kubernetes_mcp_server.Kube.Dynamic.{Fields}
use go_kubernetes_mcp_server.Kube.Objects.{Quantity, Kind, Item}
use go_kubernetes_mcp_server.Kube.Rules.{Acts, done, act, Attached, unattached}
use go_kubernetes_mcp_server.Tools.Handler.{Outcome}
use go_kubernetes_mcp_server.Tools.Handler.Rules.{guard-Acts, settle-Acts, if-Acts}
use go_kubernetes_mcp_server.Tools.Util.{resolve_ns, check_scope}
use go_kubernetes_mcp_server.Tools.Listing.{NamespaceNameArgs}
use go_kubernetes_mcp_server.Tools.Listing.Reads.{InReach, IsRead, check_scope-InReach}
use go_kubernetes_mcp_server.Operations.Safety.Creates.{go_on-Acts}
use go_kubernetes_mcp_server.Core.Reads.{check_listed-InReach}
use go_kubernetes_mcp_server.Troubleshoot.Rollout.{
  RolloutArgs, rollout_status, is_deployment_word, is_stateful_set_word, is_daemon_set_word,
  read_status,
}
use go_kubernetes_mcp_server.Troubleshoot.History.{rollout_history}
use go_kubernetes_mcp_server.Troubleshoot.Logs.{LogArgs, get_logs}
use go_kubernetes_mcp_server.Troubleshoot.Top.{measured, top_nodes, TopArgs, top_pods}
use go_kubernetes_mcp_server.Troubleshoot.Describe.{DescribeArgs, describe_scope, describe}
use go_kubernetes_mcp_server.Troubleshoot.Diagnose.{with_logs, diagnose_pod, diagnose_node}

module _ (p : Policy) (extra : Option String) where
  read_status-Acts :
      {r : Attached} (k : Kind) (action ns name : String) (show : Item k → Outcome)
      → InReach p extra (namespaced ns)
      → Acts (IsRead p extra) r (read_status k action ns name show)
  unfolding read_status
  read_status-Acts k action ns name show near = act near λ x. settle-Acts _ _ x λ found. done

  pub rollout_status-Acts :
      (a : RolloutArgs) → Acts (IsRead p extra) unattached (rollout_status p a)
  unfolding rollout_status
  rollout_status-Acts a = guard-Acts _ _ λ n. guard-Acts _ _ λ c.
      let near = check_scope-InReach p extra a.namespace c in
      act tt λ u. if-Acts (is_deployment_word a.kind) _ _ (read_status-Acts _ _ _ a.name _ near) (
        if-Acts (is_stateful_set_word a.kind) _ _ (read_status-Acts _ _ _ a.name _ near)
          (if-Acts (is_daemon_set_word a.kind) _ _ (read_status-Acts _ _ _ a.name _ near) done))

  pub rollout_history-Acts :
      (a : RolloutArgs) → Acts (IsRead p extra) unattached (rollout_history p a)
  unfolding rollout_history
  rollout_history-Acts a = guard-Acts _ _ λ n. guard-Acts _ _ λ c.
      act tt
        λ u. act (check_scope-InReach p extra a.namespace c) λ x. settle-Acts _ _ x λ sets. done

  pub get_logs-Acts :
      (parse_time : String → Option ApiError) (lines bytes : ℤ) (a : LogArgs)
      → Acts (IsRead p extra) unattached (get_logs parse_time lines bytes p a)
  unfolding get_logs
  get_logs-Acts parse_time lines bytes a = guard-Acts _ _ λ n. guard-Acts _ _ λ c. act tt λ u.
      guard-Acts _ _
        λ t. act (check_scope-InReach p extra a.namespace c) λ x. settle-Acts _ _ x λ chunks. done

  measured-Acts :
      {r : Attached} {A : Type 0} (k : A → Prog Outcome) (x : Answer A)
      → ((y : A) → Acts (IsRead p extra) r (k y))
      → Acts (IsRead p extra) r (measured k x)
  unfolding measured
  measured-Acts k (ok y) h = h y
  measured-Acts k (failed err) h = done

  pub top_nodes-Acts : Acts (IsRead p extra) unattached top_nodes
  unfolding top_nodes
  top_nodes-Acts = act tt λ x. measured-Acts _ x λ list. act tt λ nodes. done

  pub top_pods-Acts :
      (plus : Quantity → Quantity → Quantity) (a : TopArgs)
      → Acts (IsRead p extra) unattached (top_pods plus p a)
  unfolding top_pods
  top_pods-Acts plus a = guard-Acts _ _ λ c.
      let near = check_listed-InReach p extra _ c in
      act near λ x. measured-Acts _ x λ list. act near λ pods. done

  describe_scope-passes :
      (a : DescribeArgs)
      → describe_scope p a true ≡ none
      → check_scope p (resolve_ns a.namespace) false ≡ none
  unfolding describe_scope
  describe_scope-passes a h = h

  pub describe-Acts :
      (sha256_hex : String → String) (to_yaml : Fields → Answer (List ℕ)) (a : DescribeArgs)
      → Acts (IsRead p extra) unattached (describe sha256_hex to_yaml p a)
  unfolding describe
  describe-Acts sha256_hex to_yaml a = guard-Acts _ _ λ n. act tt λ found.
      go_on-Acts _ _ _
        (λ gvr. guard-Acts _ _ λ c. act tt λ u.
          act (check_scope-InReach p extra a.namespace (describe_scope-passes a c))
            λ x. settle-Acts _ _ x λ obj. done)
        (λ gvr. guard-Acts _ _ λ c. act tt λ u. act tt λ x. settle-Acts _ _ x λ obj. done)

  pub diagnose_pod-Acts :
      (a : NamespaceNameArgs) → Acts (IsRead p extra) unattached (diagnose_pod p a)
  unfolding diagnose_pod with_logs
  diagnose_pod-Acts a = guard-Acts _ _ λ n. guard-Acts _ _ λ c.
      let near = check_scope-InReach p extra a.namespace c in
      act tt λ u. act near λ x.
        settle-Acts _ _ x λ pod. act near λ events. if-Acts _ _ _ done (act near λ stream. done)

-- The events of all namespaces are read whatever the policy says.
pub diagnose_node-Acts :
    (p : Policy) (a : NamespaceNameArgs) → Acts (IsRead p (some "")) unattached (diagnose_node a)
unfolding diagnose_node
diagnose_node-Acts p a =
    guard-Acts _ _
      λ n. act tt λ u. act tt λ x. settle-Acts _ _ x λ node. act (inr (inr refl)) λ events. done
