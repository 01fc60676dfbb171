-- ===== src/Server/ToolCalls.antt =====
-- All the tools as one type of calls, by the names and the verbs under which they are registered.
-- port_forward
-- has its own machine in Debug/Forward.
pub mod Guard
mod Tests
use go_kubernetes_mcp_server.Base.{
  ℕ, ℤ, String, ◌≡◌, ◌≢◌, refl, ap, sym, ◌∙◌, inl, inr, Bool, true, false, ◌&&◌, not, Option, none,
  some, List, [], ◌∷◌, All, All-imply, All-always, IsIn, arith, ◌||◌, Bool-cases, subst,
}
use go_kubernetes_mcp_server.Config.{Config, category_enabled}
use go_kubernetes_mcp_server.Security.{
  Policy, Verb, read, write, destructive, debug, from_config, can_mutate, can_destroy, can_debug,
}
use go_kubernetes_mcp_server.Kube.{
  Prog, Act, Reply, attach, attach_args, now, rand_suffix, server_groups_and_resources, list_pods,
  list_replica_sets, get_annotations, get_object, get_scale, get_secret_object,
  get_configmap_object, list_objects, get_one, get_json, server_version, stream_logs, lookup_ip,
  dial, update_scale, create, update, patch, apply, delete, evict, exec, add_ephemeral,
  start_cleanup,
}
use go_kubernetes_mcp_server.Kube.Rules.{
  Attached, Acts, unattached, run, Effect, reads, writes, effect,
}
use go_kubernetes_mcp_server.Tools.Handler.{Outcome}
use go_kubernetes_mcp_server.Tools.Toolkit.{is_gated}
use go_kubernetes_mcp_server.Tools.Listing.Reads.{IsRead}
use go_kubernetes_mcp_server.Operations.Manifest.{Decoded}
use go_kubernetes_mcp_server.Operations.Calls.{
  Call, apply_manifest_call, patch_call, scale_call, rollout_restart_call, rollout_undo_call,
  label_call, annotate_call, create_namespace_call, create_configmap_call, update_configmap_call,
  create_secret_call, create_service_call, delete_manifest_call, exec_command_call,
  add_ephemeral_container_call, run_debug_pod_call, handle,
}
use go_kubernetes_mcp_server.Operations.Delete.{DeletePodArgs, delete_pod}
use go_kubernetes_mcp_server.Operations.Nodes.{
  NodeNameArgs, cordon_node, uncordon_node, DrainArgs, drain_node,
}
use go_kubernetes_mcp_server.Server.ReadCalls.{
  Outside, ReadCall, handle_read, handle_read-IsRead, unchecked, list_namespaces_call,
  cluster_health_call, top_nodes_call, list_storageclasses_call, get_namespace_call, get_node_call,
  describe_node_call, get_api_resources_call, list_nodes_call, list_events_call, list_pods_call,
  list_deployments_call, list_statefulsets_call, list_daemonsets_call, list_replicasets_call,
  list_jobs_call, list_cronjobs_call, list_services_call, list_ingresses_call,
  list_networkpolicies_call, list_configmaps_call, list_secrets_call, list_pvcs_call, get_pod_call,
  get_deployment_call, get_service_call, get_endpoints_call, check_connectivity_call, get_logs_call,
  top_pods_call, describe_call, diagnose_pod_call, diagnose_node_call, rollout_status_call,
  rollout_history_call, get_configmap_call, get_secret_call,
}
use go_kubernetes_mcp_server.Server.Register.{register}
use go_kubernetes_mcp_server.Server.Register.Catalogue.{keep, catalogue, register-is_gated}

pub data ToolCall : Type 0 where
  read_call : ReadCall → ToolCall
  write_call : Call → ToolCall
  delete_pod_call : DeletePodArgs → ToolCall
  cordon_node_call uncordon_node_call : NodeNameArgs → ToolCall
  drain_node_call : DrainArgs → ToolCall

abbrev pub read_name : ReadCall → String
read_name list_namespaces_call = "list_namespaces"
read_name cluster_health_call = "cluster_health"
read_name top_nodes_call = "top_nodes"
read_name list_storageclasses_call = "list_storageclasses"
read_name (get_namespace_call a) = "get_namespace"
read_name (get_node_call a) = "get_node"
read_name (describe_node_call a) = "describe_node"
read_name (get_api_resources_call a) = "get_api_resources"
read_name (list_nodes_call a) = "list_nodes"
read_name (list_events_call a) = "list_events"
read_name (list_pods_call a) = "list_pods"
read_name (list_deployments_call a) = "list_deployments"
read_name (list_statefulsets_call a) = "list_statefulsets"
read_name (list_daemonsets_call a) = "list_daemonsets"
read_name (list_replicasets_call a) = "list_replicasets"
read_name (list_jobs_call a) = "list_jobs"
read_name (list_cronjobs_call a) = "list_cronjobs"
read_name (list_services_call a) = "list_services"
read_name (list_ingresses_call a) = "list_ingresses"
read_name (list_networkpolicies_call a) = "list_networkpolicies"
read_name (list_configmaps_call a) = "list_configmaps"
read_name (list_secrets_call a) = "list_secrets"
read_name (list_pvcs_call a) = "list_pvcs"
read_name (get_pod_call a) = "get_pod"
read_name (get_deployment_call a) = "get_deployment"
read_name (get_service_call a) = "get_service"
read_name (get_endpoints_call a) = "get_endpoints"
read_name (check_connectivity_call a) = "check_connectivity"
read_name (get_logs_call a) = "get_logs"
read_name (top_pods_call a) = "top_pods"
read_name (describe_call a) = "describe"
read_name (diagnose_pod_call a) = "diagnose_pod"
read_name (diagnose_node_call a) = "diagnose_node"
read_name (rollout_status_call a) = "rollout_status"
read_name (rollout_history_call a) = "rollout_history"
read_name (get_configmap_call a) = "get_configmap"
read_name (get_secret_call a) = "get_secret"

abbrev pub write_name : Call → String
write_name (apply_manifest_call a) = "apply_manifest"
write_name (patch_call a) = "patch"
write_name (scale_call a) = "scale"
write_name (rollout_restart_call a) = "rollout_restart"
write_name (rollout_undo_call a) = "rollout_undo"
write_name (label_call a) = "label"
write_name (annotate_call a) = "annotate"
write_name (create_namespace_call a) = "create_namespace"
write_name (create_configmap_call a) = "create_configmap"
write_name (update_configmap_call a) = "update_configmap"
write_name (create_secret_call a) = "create_secret"
write_name (create_service_call a) = "create_service"
write_name (delete_manifest_call a) = "delete_manifest"
write_name (exec_command_call a) = "exec_command"
write_name (add_ephemeral_container_call a) = "add_ephemeral_container"
write_name (run_debug_pod_call a) = "run_debug_pod"

abbrev pub write_verb : Call → Verb
write_verb (delete_manifest_call a) = destructive
write_verb (exec_command_call a) = debug
write_verb (add_ephemeral_container_call a) = debug
write_verb (run_debug_pod_call a) = debug
write_verb _ = write

-- The name and the verb under which the tool of a call is registered.
abbrev pub tool_of : ToolCall → String × Verb
tool_of (read_call c) = (read_name c, read)
tool_of (write_call c) = (write_name c, write_verb c)
tool_of (delete_pod_call a) = ("delete_pod", destructive)
tool_of (cordon_node_call a) = ("cordon_node", destructive)
tool_of (uncordon_node_call a) = ("uncordon_node", write)
tool_of (drain_node_call a) = ("drain_node", destructive)

module _ (o : Outside) (decode : List ℕ → Decoded) (max_manifest : ℕ)
    (parse_dur : String → Option ℤ) where
  abbrev pub handle_tool : Policy → ToolCall → Prog Outcome
  handle_tool p (read_call c) = handle_read o p c
  handle_tool p (write_call c) = handle decode max_manifest parse_dur p c
  handle_tool p (delete_pod_call a) = delete_pod p a
  handle_tool p (cordon_node_call a) = cordon_node p a
  handle_tool p (uncordon_node_call a) = uncordon_node p a
  handle_tool p (drain_node_call a) = drain_node p a
