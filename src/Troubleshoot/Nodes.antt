-- ===== src/Troubleshoot/Nodes.antt =====
-- internal/tools/troubleshoot/diagnose.go, `classifyNode`: the findings of diagnose_node.
pub mod Health
use go_kubernetes_mcp_server.Base.{
  ℕ, ℤ, pos, negsuc, String, ◌==◌, Bool, true, false, ◌&&◌, ◌||◌, not, Option, none, some, List, [],
  ◌∷◌, ◌++◌, if◌then◌else◌, codes, nat_eq, is_empty,
}
use go_kubernetes_mcp_server.Tools.Handler.{Piece, s, d}
use go_kubernetes_mcp_server.Troubleshoot.Findings.{
  Condition, Waiting, Terminated, ContainerStatus, Event, PodObject, Taint, NodeObject, Severity,
  Finding, Findings, new_findings, add, add_pvc_note, contains_text, get_condition, is_true,
  is_ready, or_ok, ok, info, warn, critical,
}

-- The stretches of `classifyNode`.
abbrev pub not_ready : Option Condition → Findings → Findings
not_ready none f = f
not_ready (some c) f =
    add critical
      (s "Node is NotReady: "
        ∷ s c.reason
        ∷ s " — "
        ∷ s c.message
        ∷ s "\n  → investigate kubelet on the node; check node events and conditions."
        ∷ [])
      f

unfoldable pub classify_node_ready : NodeObject → Findings → Findings
unfolding get_condition
classify_node_ready n f =
    if not (is_ready n.conditions) then not_ready (get_condition "Ready" n.conditions) f else f

abbrev pub pressures : List String
pressures = "MemoryPressure" ∷ "DiskPressure" ∷ "PIDPressure" ∷ "NetworkUnavailable" ∷ []

unfoldable pub pressure_hint : String → String
pressure_hint t =
    if t == "MemoryPressure"
    then "free up memory, evict large pods, or add memory/replicas."
    else if t == "DiskPressure"
    then "clean up images/logs, check kubelet garbage collection, or expand storage."
    else if t == "PIDPressure"
    then "reduce pod/process density on this node."
    else if t == "NetworkUnavailable"
    then "check the node's CNI/network plugin."
    else ""

abbrev pub pressure_of : String → Option Condition → Findings → Findings
pressure_of t none f = f
pressure_of t (some c) f =
    if c.status == "True"
    then add critical
        (s "Node under "
          ∷ s t
          ∷ s ": "
          ∷ s c.reason
          ∷ s " — "
          ∷ s c.message
          ∷ s "\n  → "
          ∷ s (pressure_hint t)
          ∷ [])
        f
    else f

unfoldable pub classify_pressures : List String → List Condition → Findings → Findings
classify_pressures [] conditions f = f
classify_pressures (t ∷ ts) conditions f =
    classify_pressures ts conditions (pressure_of t (get_condition t conditions) f)

unfoldable pub classify_taints : List Taint → Findings → Findings
classify_taints [] f = f
classify_taints (t ∷ ts) f = classify_taints ts (
    if t.effect == "NoSchedule" || t.effect == "NoExecute"
    then add warn
        (s "Node has taint "
          ∷ s t.key
          ∷ s "="
          ∷ s t.value
          ∷ s ":"
          ∷ s t.effect
          ∷ s " — pods without a matching toleration will not schedule here."
          ∷ [])
        f
    else f)

unfoldable pub classify_node_events : List Event → Findings → Findings
classify_node_events [] f = f
classify_node_events (e ∷ es) f = classify_node_events es (
    if e.reason == "NodeNotReady" || e.reason == "NodeUnschedulable"
    then add warn (s "Event: " ∷ s e.reason ∷ s " — " ∷ s e.message ∷ []) f
    else f)

unfoldable pub classify_node : NodeObject → List Event → Findings → Findings
unfolding or_ok
classify_node n events f =
    or_ok (s "Node is Ready with no pressure conditions or blocking taints." ∷ []) (
      classify_node_events events (
        classify_taints n.taints
          (classify_pressures pressures n.conditions (classify_node_ready n f))))
