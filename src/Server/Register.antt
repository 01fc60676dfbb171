-- ===== src/Server/Register.antt =====
-- internal/mcpserver/server.go, `register`, and the `Register` functions of the packages under
-- internal/tools: the names and the verbs of the tools, in the order in which they are added.
pub mod Catalogue
mod Tests
use go_kubernetes_mcp_server.Base.{
  String, Bool, true, false, ◌&&◌, List, [], ◌∷◌, ◌++◌, map, if◌then◌else◌,
}
use go_kubernetes_mcp_server.Config.{Config, category_enabled, has_namespace_allowlist}
use go_kubernetes_mcp_server.Security.{
  Policy, Verb, read, write, destructive, debug, can_mutate, can_destroy, can_debug,
}

abbrev pub of_verb : Verb → List String → List (String × Verb)
of_verb v names = map (λ n. (n, v)) names

abbrev pub core_names : List String
core_names =
    "list_namespaces" ∷ "get_namespace" ∷ "get_api_resources" ∷ "cluster_health" ∷ "list_nodes"
    ∷ "get_node" ∷ "describe_node" ∷ "list_events" ∷ []

abbrev pub core_tools : List (String × Verb)
core_tools = of_verb read core_names

abbrev pub workloads_names : List String
workloads_names =
    "list_pods" ∷ "get_pod" ∷ "list_deployments" ∷ "get_deployment" ∷ "list_statefulsets"
    ∷ "list_daemonsets" ∷ "list_replicasets" ∷ "list_jobs" ∷ "list_cronjobs" ∷ []

abbrev pub workloads_tools : List (String × Verb)
workloads_tools = of_verb read workloads_names

abbrev pub troubleshoot_names : List String
troubleshoot_names =
    "get_logs" ∷ "top_nodes" ∷ "top_pods" ∷ "describe" ∷ "diagnose_pod" ∷ "diagnose_node"
    ∷ "rollout_status" ∷ "rollout_history" ∷ []

abbrev pub troubleshoot_tools : List (String × Verb)
troubleshoot_tools = of_verb read troubleshoot_names

abbrev pub network_names : List String
network_names =
    "list_services" ∷ "get_service" ∷ "get_endpoints" ∷ "list_ingresses" ∷ "list_networkpolicies"
    ∷ "check_connectivity" ∷ []

abbrev pub network_tools : List (String × Verb)
network_tools = of_verb read network_names

abbrev pub configstore_names : List String
configstore_names =
    "list_configmaps" ∷ "get_configmap" ∷ "list_secrets" ∷ "get_secret" ∷ "list_pvcs"
    ∷ "list_storageclasses" ∷ []

abbrev pub configstore_tools : List (String × Verb)
configstore_tools = of_verb read configstore_names

abbrev pub write_names : List String
write_names =
    "apply_manifest" ∷ "patch" ∷ "scale" ∷ "rollout_restart" ∷ "rollout_undo" ∷ "label" ∷ "annotate"
    ∷ "create_namespace" ∷ "create_configmap" ∷ "update_configmap" ∷ "create_secret"
    ∷ "create_service" ∷ "uncordon_node" ∷ []

abbrev pub write_tools : List (String × Verb)
write_tools = of_verb write write_names

-- `registerDestructive`
abbrev pub destructive_names : List String
destructive_names = "delete_pod" ∷ "delete_manifest" ∷ "cordon_node" ∷ "drain_node" ∷ []

abbrev pub destructive_tools : List (String × Verb)
destructive_tools = of_verb destructive destructive_names

abbrev pub debug_names : List String
debug_names = "exec_command" ∷ "add_ephemeral_container" ∷ "port_forward" ∷ "run_debug_pod" ∷ []

abbrev pub debug_tools : List (String × Verb)
debug_tools = of_verb debug debug_names

-- operations.Register
pub register_operations : Policy → List (String × Verb)
register_operations p = write_tools ++ (if can_destroy p then destructive_tools else [])

pub reg : Config → String → List (String × Verb) → List (String × Verb)
reg c category tools = if category_enabled c category then tools else []

unfoldable pub register : Config → Policy → List (String × Verb)
unfolding reg register_operations
register c p =
    reg c "core" core_tools
    ++ (reg c "workloads" workloads_tools
        ++ (reg c "troubleshoot" troubleshoot_tools
            ++ (reg c "network" network_tools
                ++ (reg c "configstore" configstore_tools
                    ++ ((if category_enabled c "operations" && can_mutate p
                          then register_operations p
                          else [])
                        ++ (if category_enabled c "debug" && can_debug p
                            then debug_tools
                            else []))))))

-- The mode that `instructions` tells the client.
pub data Mode : Type 0 where
  read_only read_write_destructive read_write read_debug : Mode

unfoldable pub mode : Policy → Mode
mode p =
    if can_destroy p
    then read_write_destructive
    else if can_mutate p
    then read_write
    else if can_debug p
    then read_debug
    else read_only
