-- ===== src/Troubleshoot/Pods/Health.antt =====
-- When diagnose_pod and diagnose_node report that all is well.
use go_kubernetes_mcp_server.Base.{
  String, ◌==◌, ◌≡◌, refl, Bool, true, false, ◌&&◌, ◌||◌, not, Option, none, some, List, [], ◌∷◌,
  all, arith, eq_iff, Bool-cases, inl, inr,
}
use go_kubernetes_mcp_server.Troubleshoot.Findings.{
  Condition, Waiting, Terminated, ContainerStatus, Event, PodObject, Findings, new_findings,
  add_pvc_note, get_condition, is_ready, info, warn, critical,
}
use go_kubernetes_mcp_server.Troubleshoot.Pods.{
  pending_cause, classify_pending, classify_waiting, code_is, classify_terminated,
  classify_containers, classify_event, classify_events, classify_volumes, classify_readiness,
  classify_pod,
}
use go_kubernetes_mcp_server.Troubleshoot.Adds.{
  reports_ok, Adds, Adds-compose, is_empty-add, reports_ok-add, add-Adds, same-Adds, if-Adds,
  reports_ok-or_ok,
}

pending_cause-Adds : (o : Option Condition) (f : Findings) → Adds false f (pending_cause o f)
unfolding Adds
pending_cause-Adds none f = add-Adds info _ f refl
pending_cause-Adds (some c) f = grind (arith, is_empty-add, reports_ok-add)

classify_pending-Adds :
    (p : PodObject) (f : Findings) → Adds (not (p.phase == "Pending")) f (classify_pending p f)
unfolding classify_pending
classify_pending-Adds p f =
    if-Adds (p.phase == "Pending") f _
      (pending_cause-Adds (get_condition "PodScheduled" p.conditions) f)

-- A container that neither waits nor has failed.
abbrev pub not_waiting : Option Waiting → Bool
not_waiting none = true
not_waiting (some w) = false

abbrev pub not_failed : Option Terminated → Bool
not_failed none = true
not_failed (some t) = not (t.reason == "OOMKilled") && code_is 0 t.exit_code

classify_waiting-Adds :
    (name : String) (o : Option Waiting) (f : Findings)
    → Adds (not_waiting o) f (classify_waiting name o f)
unfolding classify_waiting
classify_waiting-Adds name none f = same-Adds f
classify_waiting-Adds name (some w) f =
    elim (Bool-cases (
      w.reason == "ImagePullBackOff"
      || (w.reason == "ErrImagePull" || w.reason == "ImagePullError"))) [
        | inl h ↦ rw h (add-Adds critical _ f refl)
        | inr h ↦ rw h (elim (Bool-cases (w.reason == "CrashLoopBackOff")) [
          | inl h ↦ rw h (add-Adds critical _ f refl)
          | inr h ↦
              rw h
                (elim (Bool-cases (
                  w.reason == "CreateContainerConfigError" || w.reason == "CreateContainerError")) [
                    | inl h ↦ rw h (add-Adds critical _ f refl)
                    | inr h ↦ rw h (elim (Bool-cases (w.reason == "InvalidImageName")) [
                      | inl h ↦ rw h (add-Adds critical _ f refl)
                      | inr h ↦ rw h (elim (Bool-cases (w.reason == "ContainerCreating")) [
                        | inl h ↦ rw h (add-Adds info _ f refl)
                        | inr h ↦ rw h (add-Adds warn _ f refl)
                      ])
                    ])
                  ])
        ])
      ]

classify_terminated-Adds :
    (name : String) (o : Option Terminated) (f : Findings)
    → Adds (not_failed o) f (classify_terminated name o f)
unfolding classify_terminated Adds
classify_terminated-Adds name none f = same-Adds f
classify_terminated-Adds name (some t) f = grind (arith, is_empty-add, reports_ok-add)

abbrev pub is_calm : ContainerStatus → Bool
is_calm c = not_waiting c.waiting && not_failed c.terminated

classify_containers-Adds :
    (cs : List ContainerStatus) (f : Findings) → Adds (all is_calm cs) f (classify_containers cs f)
unfolding classify_containers
classify_containers-Adds [] f = same-Adds f
classify_containers-Adds (c ∷ cs) f =
    let g = classify_waiting c.name c.waiting f in
    let h = classify_terminated c.name c.terminated g in
    Adds-compose (is_calm c) _ f h _
      (Adds-compose _ _ f g h (classify_waiting-Adds c.name c.waiting f)
        (classify_terminated-Adds c.name c.terminated g))
      (classify_containers-Adds cs h)

-- An event that tells of no problem.
abbrev pub is_quiet : Event → Bool
is_quiet e =
    not (e.reason == "Unhealthy")
    && (not (e.reason == "FailedScheduling")
        && (not (e.reason == "FailedMount") && not (e.reason == "FailedAttachVolume")))

classify_event-Adds : (e : Event) (f : Findings) → Adds (is_quiet e) f (classify_event e f)
unfolding classify_event Adds
classify_event-Adds e f = elim (Bool-cases (e.reason == "BackOff")) [
  | inl h ↦ rw ((eq_iff e.reason "BackOff").0 h) (same-Adds f)
  | inr h ↦ grind (arith, is_empty-add, reports_ok-add)
]

classify_events-Adds :
    (es : List Event) (f : Findings) → Adds (all is_quiet es) f (classify_events es f)
unfolding classify_events
classify_events-Adds [] f = same-Adds f
classify_events-Adds (e ∷ es) f =
    Adds-compose (is_quiet e) (all is_quiet es) f (classify_event e f) _ (classify_event-Adds e f)
      (classify_events-Adds es (classify_event e f))

classify_volumes-Adds :
    (vs : List (Option String)) (f : Findings) → Adds true f (classify_volumes vs f)
unfolding classify_volumes add_pvc_note Adds
classify_volumes-Adds [] f = same-Adds f
classify_volumes-Adds (none ∷ vs) f = classify_volumes-Adds vs f
classify_volumes-Adds (some claim ∷ vs) f = classify_volumes-Adds vs (add_pvc_note claim f)

classify_readiness-Adds :
    (p : PodObject) (f : Findings)
    → Adds (is_ready p.conditions || not (p.phase == "Running")) f (classify_readiness p f)
unfolding classify_readiness Adds
classify_readiness-Adds p f = grind (arith, is_empty-add, reports_ok-add)

-- diagnose_pod says that no issue was detected exactly if the pod is not Pending, no container of it
-- waits or has failed, no event tells of a failing probe, scheduling or volume, and it is not Running
-- without being Ready.
pub classify_pod-healthy :
    (p : PodObject) (events : List Event)
    → reports_ok (classify_pod p events new_findings) ≡ (
        not (p.phase == "Pending")
        && (all is_calm p.container_statuses
            && (all is_quiet events && (is_ready p.conditions || not (p.phase == "Running")))))
unfolding classify_pod
classify_pod-healthy p events =
    let f1 = classify_pending p new_findings in
    let f2 = classify_containers p.container_statuses f1 in
    let f3 = classify_events events f2 in
    let f4 = classify_volumes p.claims f3 in
    reports_ok-or_ok _ _ _ (
      Adds-compose _ _ new_findings f1 _ (classify_pending-Adds p new_findings) (
        Adds-compose _ _ f1 f2 _ (classify_containers-Adds p.container_statuses f1) (
          Adds-compose _ _ f2 f3 _ (classify_events-Adds events f2) (
            Adds-compose true _ f3 f4 _ (classify_volumes-Adds p.claims f3)
              (classify_readiness-Adds p f4)))))
