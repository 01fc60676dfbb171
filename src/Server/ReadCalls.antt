-- ===== src/Server/ReadCalls.antt =====
-- The tools that read as one type of calls, by the names under which they are registered, and where
-- they read.
use go_kubernetes_mcp_server.Base.{ℕ, ℤ, String, Bool, Option, none, some, List, All}
use go_kubernetes_mcp_server.Err.{ApiError}
use go_kubernetes_mcp_server.Security.{Policy}
use go_kubernetes_mcp_server.Kube.{Prog, Act, Reply, Answer}
use go_kubernetes_mcp_server.Kube.Dynamic.{Fields}
use go_kubernetes_mcp_server.Kube.Objects.{Quantity}
use go_kubernetes_mcp_server.Kube.Rules.{Acts, done, unattached, run}
use go_kubernetes_mcp_server.Kube.Rules.Sound.{Acts-run}
use go_kubernetes_mcp_server.Tools.Handler.{Outcome}
use go_kubernetes_mcp_server.Tools.Util.{ListArgs}
use go_kubernetes_mcp_server.Tools.Listing.{NamespaceNameArgs}
use go_kubernetes_mcp_server.Tools.Listing.Reads.{IsRead, list_tool-Acts, get_tool-Acts}
use go_kubernetes_mcp_server.Core.{
  list_namespaces, get_namespace, get_api_resources, list_nodes, get_node, describe_node,
  EventsArgs, list_events,
}
use go_kubernetes_mcp_server.Core.Health.{cluster_health}
use go_kubernetes_mcp_server.Core.Reads.{
  list_namespaces-Acts, get_namespace-Acts, get_api_resources-Acts, list_nodes-Acts, get_node-Acts,
  list_events-Acts, cluster_health-Acts,
}
use go_kubernetes_mcp_server.Workloads.{
  list_pods_tool, get_pod, list_deployments, get_deployment, list_stateful_sets, list_daemon_sets,
  list_replica_sets_tool, list_jobs, list_cron_jobs,
}
use go_kubernetes_mcp_server.Network.{
  list_services, get_service, get_endpoints, list_ingresses, list_network_policies,
}
use go_kubernetes_mcp_server.Network.Connectivity.{ConnectivityArgs, check_connectivity}
use go_kubernetes_mcp_server.Network.Reads.{
  get_service-Acts, get_endpoints-Acts, check_connectivity-Acts,
}
use go_kubernetes_mcp_server.Troubleshoot.Logs.{LogArgs, get_logs}
use go_kubernetes_mcp_server.Troubleshoot.Top.{top_nodes, TopArgs, top_pods}
use go_kubernetes_mcp_server.Troubleshoot.Describe.{DescribeArgs, describe}
use go_kubernetes_mcp_server.Troubleshoot.Diagnose.{diagnose_pod, diagnose_node}
use go_kubernetes_mcp_server.Troubleshoot.Rollout.{RolloutArgs, rollout_status}
use go_kubernetes_mcp_server.Troubleshoot.History.{rollout_history}
use go_kubernetes_mcp_server.Troubleshoot.Reads.{
  get_logs-Acts, top_nodes-Acts, top_pods-Acts, describe-Acts, diagnose_pod-Acts,
  diagnose_node-Acts, rollout_status-Acts, rollout_history-Acts,
}
use go_kubernetes_mcp_server.Configstore.{
  GetSecretArgs, get_secret, GetConfigMapArgs, get_configmap,
}
use go_kubernetes_mcp_server.Configstore.Lists.{
  list_configmaps, list_secrets, list_pvcs, list_storage_classes,
}
use go_kubernetes_mcp_server.Configstore.Reads.{
  get_secret-IsRead, get_configmap-IsRead, list_storage_classes-Acts,
}

-- The libraries that the tools call, and the two limits of the configuration.
pub record Outside : Type 0 where
  pub sha256_hex : List ℕ → List ℕ
  pub sha256_text : String → String
  pub to_yaml : Fields → Answer (List ℕ)
  pub parse_duration : String → Option ℤ
  pub parse_time : String → Option ApiError
  pub plus : Quantity → Quantity → Quantity
  pub max_log_lines : ℤ
  pub max_output_bytes : ℤ

pub data ReadCall : Type 0 where
  list_namespaces_call cluster_health_call top_nodes_call list_storageclasses_call : ReadCall
  get_namespace_call get_node_call describe_node_call : NamespaceNameArgs → ReadCall
  get_api_resources_call : Bool → ReadCall
  list_nodes_call : ListArgs → ReadCall
  list_events_call : EventsArgs → ReadCall
  list_pods_call list_deployments_call list_statefulsets_call list_daemonsets_call :
      ListArgs → ReadCall
  list_replicasets_call list_jobs_call list_cronjobs_call : ListArgs → ReadCall
  get_pod_call get_deployment_call : NamespaceNameArgs → ReadCall
  list_services_call list_ingresses_call list_networkpolicies_call : ListArgs → ReadCall
  get_service_call get_endpoints_call : NamespaceNameArgs → ReadCall
  check_connectivity_call : ConnectivityArgs → ReadCall
  get_logs_call : LogArgs → ReadCall
  top_pods_call : TopArgs → ReadCall
  describe_call : DescribeArgs → ReadCall
  diagnose_pod_call diagnose_node_call : NamespaceNameArgs → ReadCall
  rollout_status_call rollout_history_call : RolloutArgs → ReadCall
  list_configmaps_call list_secrets_call list_pvcs_call : ListArgs → ReadCall
  get_configmap_call : GetConfigMapArgs → ReadCall
  get_secret_call : GetSecretArgs → ReadCall

-- The namespace that a tool reads without a check: kube-system by cluster_health, and all of them by
-- diagnose_node.
abbrev pub unchecked : ReadCall → Option String
unchecked cluster_health_call = some "kube-system"
unchecked (diagnose_node_call a) = some ""
unchecked _ = none

abbrev pub handle_read : Outside → Policy → ReadCall → Prog Outcome
handle_read o p list_namespaces_call = list_namespaces
handle_read o p cluster_health_call = cluster_health
handle_read o p top_nodes_call = top_nodes
handle_read o p list_storageclasses_call = list_storage_classes
handle_read o p (get_namespace_call a) = get_namespace a
handle_read o p (get_node_call a) = get_node a
handle_read o p (describe_node_call a) = describe_node a
handle_read o p (get_api_resources_call a) = get_api_resources a
handle_read o p (list_nodes_call a) = list_nodes a
handle_read o p (list_events_call a) = list_events p a
handle_read o p (list_pods_call a) = list_pods_tool p a
handle_read o p (list_deployments_call a) = list_deployments p a
handle_read o p (list_statefulsets_call a) = list_stateful_sets p a
handle_read o p (list_daemonsets_call a) = list_daemon_sets p a
handle_read o p (list_replicasets_call a) = list_replica_sets_tool p a
handle_read o p (list_jobs_call a) = list_jobs p a
handle_read o p (list_cronjobs_call a) = list_cron_jobs p a
handle_read o p (list_services_call a) = list_services p a
handle_read o p (list_ingresses_call a) = list_ingresses p a
handle_read o p (list_networkpolicies_call a) = list_network_policies p a
handle_read o p (list_configmaps_call a) = list_configmaps p a
handle_read o p (list_secrets_call a) = list_secrets p a
handle_read o p (list_pvcs_call a) = list_pvcs p a
handle_read o p (get_pod_call a) = get_pod p a
handle_read o p (get_deployment_call a) = get_deployment p a
handle_read o p (get_service_call a) = get_service p a
handle_read o p (get_endpoints_call a) = get_endpoints p a
handle_read o p (check_connectivity_call a) = check_connectivity o.parse_duration p a
handle_read o p (get_logs_call a) = get_logs o.parse_time o.max_log_lines o.max_output_bytes p a
handle_read o p (top_pods_call a) = top_pods o.plus p a
handle_read o p (describe_call a) = describe o.sha256_text o.to_yaml p a
handle_read o p (diagnose_pod_call a) = diagnose_pod p a
handle_read o p (diagnose_node_call a) = diagnose_node a
handle_read o p (rollout_status_call a) = rollout_status p a
handle_read o p (rollout_history_call a) = rollout_history p a
handle_read o p (get_configmap_call a) = get_configmap p a
handle_read o p (get_secret_call a) = get_secret o.sha256_hex p a

handle_read-Acts :
    (o : Outside) (p : Policy) (c : ReadCall)
    → Acts (IsRead p (unchecked c)) unattached (handle_read o p c)
unfolding describe_node list_pods_tool list_deployments list_stateful_sets list_daemon_sets
    list_replica_sets_tool list_jobs list_cron_jobs list_services list_ingresses
    list_network_policies list_configmaps list_secrets list_pvcs get_pod get_deployment
handle_read-Acts o p list_namespaces_call = list_namespaces-Acts p none
handle_read-Acts o p cluster_health_call = cluster_health-Acts p
handle_read-Acts o p top_nodes_call = top_nodes-Acts p none
handle_read-Acts o p list_storageclasses_call = list_storage_classes-Acts p none
handle_read-Acts o p (get_namespace_call a) = get_namespace-Acts p none a
handle_read-Acts o p (get_node_call a) = get_node-Acts p none a
handle_read-Acts o p (describe_node_call a) = get_node-Acts p none a
handle_read-Acts o p (get_api_resources_call a) = get_api_resources-Acts p none a
handle_read-Acts o p (list_nodes_call a) = list_nodes-Acts p none a
handle_read-Acts o p (list_events_call a) = list_events-Acts p none a
handle_read-Acts o p (list_pods_call a) = list_tool-Acts p none _ a _ _ _
handle_read-Acts o p (list_deployments_call a) = list_tool-Acts p none _ a _ _ _
handle_read-Acts o p (list_statefulsets_call a) = list_tool-Acts p none _ a _ _ _
handle_read-Acts o p (list_daemonsets_call a) = list_tool-Acts p none _ a _ _ _
handle_read-Acts o p (list_replicasets_call a) = list_tool-Acts p none _ a _ _ _
handle_read-Acts o p (list_jobs_call a) = list_tool-Acts p none _ a _ _ _
handle_read-Acts o p (list_cronjobs_call a) = list_tool-Acts p none _ a _ _ _
handle_read-Acts o p (list_services_call a) = list_tool-Acts p none _ a _ _ _
handle_read-Acts o p (list_ingresses_call a) = list_tool-Acts p none _ a _ _ _
handle_read-Acts o p (list_networkpolicies_call a) = list_tool-Acts p none _ a _ _ _
handle_read-Acts o p (list_configmaps_call a) = list_tool-Acts p none _ a _ _ _
handle_read-Acts o p (list_secrets_call a) = list_tool-Acts p none _ a _ _ _
handle_read-Acts o p (list_pvcs_call a) = list_tool-Acts p none _ a _ _ _
handle_read-Acts o p (get_pod_call a) = get_tool-Acts p none _ a _ _ _ λ r x near. done
handle_read-Acts o p (get_deployment_call a) = get_tool-Acts p none _ a _ _ _ λ r x near. done
handle_read-Acts o p (get_service_call a) = get_service-Acts p none a
handle_read-Acts o p (get_endpoints_call a) = get_endpoints-Acts p none a
handle_read-Acts o p (check_connectivity_call a) = check_connectivity-Acts p none o.parse_duration a
handle_read-Acts o p (get_logs_call a) =
    get_logs-Acts p none o.parse_time o.max_log_lines o.max_output_bytes a
handle_read-Acts o p (top_pods_call a) = top_pods-Acts p none o.plus a
handle_read-Acts o p (describe_call a) = describe-Acts p none o.sha256_text o.to_yaml a
handle_read-Acts o p (diagnose_pod_call a) = diagnose_pod-Acts p none a
handle_read-Acts o p (diagnose_node_call a) = diagnose_node-Acts p a
handle_read-Acts o p (rollout_status_call a) = rollout_status-Acts p none a
handle_read-Acts o p (rollout_history_call a) = rollout_history-Acts p none a
handle_read-Acts o p (get_configmap_call a) = get_configmap-IsRead p none a
handle_read-Acts o p (get_secret_call a) = get_secret-IsRead p none o.sha256_hex a

-- Whatever the server answers, each act of a run of one of these tools is a read or an entry in the
-- audit record. A read of a namespace is of one on the allowlist, which is of the control plane only
-- with privileged targets; or of all namespaces where there is no allowlist. The exceptions are
-- kube-system, which cluster_health reads under every policy, and all namespaces, which diagnose_node
-- reads under every policy. Reads at cluster scope are free.
pub handle_read-IsRead :
    {S : Type 0} (serve : S → (a : Act) → S × Reply a) (st : S) (o : Outside) (p : Policy)
    (c : ReadCall)
    → All (λ t. IsRead p (unchecked c) t.0 t.1) (run serve st unattached (handle_read o p c)).1
handle_read-IsRead serve st o p c = Acts-run _ serve st (handle_read-Acts o p c)
