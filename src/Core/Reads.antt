-- ===== src/Core/Reads.antt =====
-- Where the core tools read.
use go_kubernetes_mcp_server.Base.{◌≡◌, refl, inr, String, Bool, Option, none, some, arith}
use go_kubernetes_mcp_server.Security.{Policy}
use go_kubernetes_mcp_server.Kube.{namespaced, Prog}
use go_kubernetes_mcp_server.Kube.Objects.{Kind, Item}
use go_kubernetes_mcp_server.Kube.Rules.{Acts, done, act, unattached}
use go_kubernetes_mcp_server.Tools.Handler.{Outcome}
use go_kubernetes_mcp_server.Tools.Handler.Rules.{guard-Acts, settle-Acts}
use go_kubernetes_mcp_server.Tools.Util.{ListArgs}
use go_kubernetes_mcp_server.Tools.Listing.{NamespaceNameArgs}
use go_kubernetes_mcp_server.Tools.Listing.Reads.{InReach, IsRead, resolved-Acts}
use go_kubernetes_mcp_server.Operations.Safety.{check_scope-Reachable}
use go_kubernetes_mcp_server.Core.{
  list_namespaces, get_cluster_object, get_namespace, list_nodes, get_node, get_api_resources,
  EventsArgs, check_listed, list_events,
}
use go_kubernetes_mcp_server.Core.Health.{cluster_health}

module _ (p : Policy) (extra : Option String) where
  pub list_namespaces-Acts : Acts (IsRead p extra) unattached list_namespaces
  unfolding list_namespaces
  list_namespaces-Acts = act tt λ x. settle-Acts _ _ x λ items. done

  get_cluster_object-Acts :
      (k : Kind) (a : NamespaceNameArgs) (kind action : String) (show : Item k → Outcome)
      → Acts
          (IsRead p extra)
          unattached
          (get_cluster_object k a kind action (λ x. Prog.ret (show x)))
  unfolding get_cluster_object
  get_cluster_object-Acts k a kind action show =
      guard-Acts _ _ λ n. act tt λ u. act tt λ x. settle-Acts _ _ x λ found. done

  pub get_namespace-Acts :
      (a : NamespaceNameArgs) → Acts (IsRead p extra) unattached (get_namespace a)
  unfolding get_namespace
  get_namespace-Acts a = get_cluster_object-Acts _ a _ _ _

  pub get_node-Acts : (a : NamespaceNameArgs) → Acts (IsRead p extra) unattached (get_node a)
  unfolding get_node
  get_node-Acts a = get_cluster_object-Acts _ a _ _ _

  pub list_nodes-Acts : (a : ListArgs) → Acts (IsRead p extra) unattached (list_nodes a)
  unfolding list_nodes
  list_nodes-Acts a = resolved-Acts _ _ λ ns opts h. act tt λ x. settle-Acts _ _ x λ items. done

  pub get_api_resources-Acts : (b : Bool) → Acts (IsRead p extra) unattached (get_api_resources b)
  unfolding get_api_resources
  get_api_resources-Acts b = act tt λ x. done

  pub check_listed-InReach :
      (ns : String) → check_listed p ns ≡ none → InReach p extra (namespaced ns)
  unfolding check_listed
  check_listed-InReach ns h = ground (arith, check_scope-Reachable p ns)

  pub list_events-Acts : (a : EventsArgs) → Acts (IsRead p extra) unattached (list_events p a)
  unfolding list_events
  list_events-Acts a = guard-Acts _ _ λ k. guard-Acts _ _ λ n.
      guard-Acts _ _
        λ c. act tt λ u. act (check_listed-InReach _ c) λ x. settle-Acts _ _ x λ items. done

-- The control plane is read whatever the policy says.
pub cluster_health-Acts :
    (p : Policy) → Acts (IsRead p (some "kube-system")) unattached cluster_health
unfolding cluster_health
cluster_health-Acts p =
    act tt λ version. act tt λ nodes. act (inr (inr refl)) λ pods. act tt λ metrics. done
