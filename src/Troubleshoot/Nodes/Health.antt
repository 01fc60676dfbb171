-- ===== src/Troubleshoot/Nodes/Health.antt =====
-- When diagnose_node reports that all is well.
use go_kubernetes_mcp_server.Base.{
  String, ◌==◌, ◌≡◌, refl, Bool, true, false, ◌&&◌, ◌||◌, not, Option, none, some, List, [], ◌∷◌,
  all, arith,
}
use go_kubernetes_mcp_server.Troubleshoot.Findings.{
  Condition, Event, Taint, NodeObject, Findings, new_findings, get_condition, is_true, is_ready,
  warn, critical,
}
use go_kubernetes_mcp_server.Troubleshoot.Nodes.{
  not_ready, classify_node_ready, pressures, pressure_of, classify_pressures, classify_taints,
  classify_node_events, classify_node,
}
use go_kubernetes_mcp_server.Troubleshoot.Adds.{
  reports_ok, Adds, Adds-compose, add-Adds, same-Adds, if-Adds, reports_ok-or_ok,
}

abbrev pub no_pressure : List Condition → String → Bool
no_pressure conditions t = not (is_true (get_condition t conditions))

abbrev pub blocks_nothing : Taint → Bool
blocks_nothing t = not (t.effect == "NoSchedule" || t.effect == "NoExecute")

abbrev pub is_quiet_node_event : Event → Bool
is_quiet_node_event e = not (e.reason == "NodeNotReady" || e.reason == "NodeUnschedulable")

abbrev pub has_none : Option Condition → Bool
has_none none = true
has_none (some c) = false

-- A node without a condition of the type Ready is not ready, and no finding says so.
abbrev pub seems_ready : List Condition → Bool
seems_ready conditions = is_ready conditions || has_none (get_condition "Ready" conditions)

not_ready-Adds : (o : Option Condition) (f : Findings) → Adds (has_none o) f (not_ready o f)
not_ready-Adds none f = same-Adds f
not_ready-Adds (some c) f = add-Adds critical _ f refl

classify_node_ready-Adds :
    (n : NodeObject) (f : Findings) → Adds (seems_ready n.conditions) f (classify_node_ready n f)
unfolding classify_node_ready Adds
classify_node_ready-Adds n f = grind (arith, not_ready-Adds (get_condition "Ready" n.conditions) f)

pressure_of-Adds :
    (t : String) (o : Option Condition) (f : Findings)
    → Adds (not (is_true o)) f (pressure_of t o f)
pressure_of-Adds t none f = same-Adds f
pressure_of-Adds t (some c) f = if-Adds (c.status == "True") f _ (add-Adds critical _ f refl)

classify_pressures-Adds :
    (ts : List String) (conditions : List Condition) (f : Findings)
    → Adds (all (no_pressure conditions) ts) f (classify_pressures ts conditions f)
unfolding classify_pressures
classify_pressures-Adds [] conditions f = same-Adds f
classify_pressures-Adds (t ∷ ts) conditions f =
    let g = pressure_of t (get_condition t conditions) f in
    Adds-compose (no_pressure conditions t) _ f g _
      (pressure_of-Adds t (get_condition t conditions) f) (classify_pressures-Adds ts conditions g)

classify_taints-Adds :
    (ts : List Taint) (f : Findings) → Adds (all blocks_nothing ts) f (classify_taints ts f)
unfolding classify_taints
classify_taints-Adds [] f = same-Adds f
classify_taints-Adds (t ∷ ts) f =
    Adds-compose (blocks_nothing t) _ f _ _ (if-Adds _ f _ (add-Adds warn _ f refl))
      (classify_taints-Adds ts _)

classify_node_events-Adds :
    (es : List Event) (f : Findings)
    → Adds (all is_quiet_node_event es) f (classify_node_events es f)
unfolding classify_node_events
classify_node_events-Adds [] f = same-Adds f
classify_node_events-Adds (e ∷ es) f =
    Adds-compose (is_quiet_node_event e) _ f _ _ (if-Adds _ f _ (add-Adds warn _ f refl))
      (classify_node_events-Adds es _)

-- diagnose_node says that the node is ready exactly if its Ready condition is true or missing, no
-- condition tells of pressure, no taint keeps pods away, and no event tells of trouble.
pub classify_node-healthy :
    (n : NodeObject) (events : List Event)
    → reports_ok (classify_node n events new_findings) ≡ (
        seems_ready n.conditions
        && (all (no_pressure n.conditions) pressures
            && (all blocks_nothing n.taints && all is_quiet_node_event events)))
unfolding classify_node
classify_node-healthy n events =
    let f1 = classify_node_ready n new_findings in
    let f2 = classify_pressures pressures n.conditions f1 in
    let f3 = classify_taints n.taints f2 in
    reports_ok-or_ok _ _ _ (
      Adds-compose _ _ new_findings f1 _ (classify_node_ready-Adds n new_findings) (
        Adds-compose _ _ f1 f2 _ (classify_pressures-Adds pressures n.conditions f1) (
          Adds-compose _ _ f2 f3 _ (classify_taints-Adds n.taints f2)
            (classify_node_events-Adds events f3))))
