-- ===== src/Troubleshoot/Tests.antt =====
-- Diagnoses of a concrete pod and of concrete nodes.
use go_kubernetes_mcp_server.Base.{
  ◌==◌, ◌≡◌, refl, true, false, ◌&&◌, ◌||◌, not, none, some, [], ◌∷◌, all,
}
use go_kubernetes_mcp_server.Kube.Fixtures.{some_pod, some_node}
use go_kubernetes_mcp_server.Troubleshoot.Findings.{
  Condition, Waiting, Terminated, ContainerStatus, Event, PodObject, Taint, NodeObject, Severity,
  Finding, Findings, new_findings, add, add_pvc_note, contains_text, get_condition, is_true,
  is_ready, or_ok, ok, info, warn, critical,
}
use go_kubernetes_mcp_server.Troubleshoot.Pods.{classify_pod}
use go_kubernetes_mcp_server.Troubleshoot.Nodes.{
  not_ready, classify_node_ready, pressures, pressure_hint, pressure_of, classify_pressures,
  classify_taints, classify_node_events, classify_node,
}
use go_kubernetes_mcp_server.Troubleshoot.Adds.{reports_ok}
use go_kubernetes_mcp_server.Troubleshoot.Pods.Health.{is_calm, is_quiet, classify_pod-healthy}
use go_kubernetes_mcp_server.Troubleshoot.Nodes.Health.{
  seems_ready, no_pressure, blocks_nothing, is_quiet_node_event, classify_node-healthy,
}

abbrev crash_loop : Waiting
crash_loop = record { reason = "CrashLoopBackOff"; message = "" }

abbrev crashing : PodObject
crashing = record some_pod {
  phase = "Running";
  conditions = [];
  container_statuses =
      record {
        name = "web";
        running = none;
        waiting = some crash_loop;
        terminated = none;
        ready = false;
        restart_count = 7;
      }
      ∷ [];
}

classify_pod-healthy_example : reports_ok (classify_pod crashing [] new_findings) ≡ (
    not ("Running" == "Pending")
    && (all is_calm crashing.container_statuses
        && (all is_quiet [] && (is_ready crashing.conditions || not ("Running" == "Running")))))
classify_pod-healthy_example = classify_pod-healthy crashing []

-- A node that has reported nothing yet.
abbrev new_node : NodeObject
new_node = some_node

classify_node-healthy_example : reports_ok (classify_node new_node [] new_findings) ≡ (
    seems_ready new_node.conditions
    && (all (no_pressure new_node.conditions) pressures
        && (all blocks_nothing new_node.taints && all is_quiet_node_event [])))
classify_node-healthy_example = classify_node-healthy new_node []

new_node-not_ready :
    (is_ready new_node.conditions ≡ false)
    × (reports_ok (classify_node new_node [] new_findings) ≡ true)
unfolding is_ready classify_node go_kubernetes_mcp_server.Troubleshoot.Nodes.classify_node_events
    go_kubernetes_mcp_server.Troubleshoot.Nodes.classify_taints
    go_kubernetes_mcp_server.Troubleshoot.Nodes.classify_pressures
    go_kubernetes_mcp_server.Troubleshoot.Nodes.classify_node_ready
    go_kubernetes_mcp_server.Troubleshoot.Findings.add
new_node-not_ready = (refl, refl)
