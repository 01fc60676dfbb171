-- ===== src/Troubleshoot/Pods.antt =====
-- internal/tools/troubleshoot/diagnose.go, `classifyPod`: the findings of diagnose_pod.
pub mod Health
use go_kubernetes_mcp_server.Base.{
  ℕ, ℤ, pos, negsuc, String, ◌==◌, Bool, true, false, ◌&&◌, ◌||◌, not, Option, none, some, List, [],
  ◌∷◌, ◌++◌, if◌then◌else◌, codes, nat_eq, is_empty,
}
use go_kubernetes_mcp_server.Tools.Handler.{Piece, s, d}
use go_kubernetes_mcp_server.Troubleshoot.Findings.{
  Condition, Waiting, Terminated, ContainerStatus, Event, PodObject, Taint, NodeObject, Severity,
  Finding, Findings, new_findings, add, add_pvc_note, contains_text, get_condition, is_true,
  is_ready, or_ok, ok, info, warn, critical,
}

-- The stretches of `classifyPod`, in their order.
abbrev pub pending_unknown : Findings → Findings
pending_unknown f =
    add info
      (s
          "Pod is Pending. Common causes: scheduling, image pull, PVC pending, or waiting on config/secrets."
        ∷ [])
      f

abbrev pub pending_cause : Option Condition → Findings → Findings
pending_cause none f = pending_unknown f
pending_cause (some cond) f =
    if cond.status == "False"
    then (if contains_text cond.message "Insufficient" || contains_text cond.reason "Unschedulable"
        then add warn
            (s "Pod is Pending and Unschedulable: "
              ∷ s cond.message
              ∷ s
                  "\n  → check node capacity/taints with `describe_node` or `top_nodes`; consider scaling nodes or relaxing requests/tolerations."
              ∷ [])
            f
        else add info (s "Pod is Pending (not yet scheduled): " ∷ s cond.message ∷ []) f)
    else pending_unknown f

pub classify_pending : PodObject → Findings → Findings
unfolding get_condition
classify_pending p f =
    if p.phase == "Pending" then pending_cause (get_condition "PodScheduled" p.conditions) f else f

pub classify_waiting : String → Option Waiting → Findings → Findings
classify_waiting name none f = f
classify_waiting name (some w) f =
    let head : List Piece = s "Container " ∷ s name ∷ [] in
    if w.reason == "ImagePullBackOff"
      || (w.reason == "ErrImagePull" || w.reason == "ImagePullError")
    then add critical
        (head
          ++ (s " is in "
              ∷ s w.reason
              ∷ s ": "
              ∷ s w.message
              ∷ s
                  "\n  → the image cannot be pulled. Check the image name/tag and registry credentials (imagePullSecrets)."
              ∷ []))
        f
    else if w.reason == "CrashLoopBackOff"
    then add critical
        (head
          ++ s
              " is in CrashLoopBackOff: it starts then exits repeatedly.\n  → call `get_logs` with previous=true to see the crash cause; check args/env/config, liveness probes, and OOM limits."
            ∷ [])
        f
    else if w.reason == "CreateContainerConfigError" || w.reason == "CreateContainerError"
    then add critical
        (head
          ++ (s " has "
              ∷ s w.reason
              ∷ s ": "
              ∷ s w.message
              ∷ s "\n  → usually a missing ConfigMap/Secret or invalid env var reference."
              ∷ []))
        f
    else if w.reason == "InvalidImageName"
    then add critical (head ++ (s " has InvalidImageName: " ∷ s w.message ∷ [])) f
    else if w.reason == "ContainerCreating"
    then add info (head ++ s " is still being created (waiting on runtime/storage/network)." ∷ []) f
    else add warn (head ++ (s " is waiting (" ∷ s w.reason ∷ s "): " ∷ s w.message ∷ [])) f

abbrev pub code_is : ℕ → ℤ → Bool
code_is n (pos m) = nat_eq m n
code_is n (negsuc m) = false

pub classify_terminated : String → Option Terminated → Findings → Findings
classify_terminated name none f = f
classify_terminated name (some t) f =
    if t.reason == "OOMKilled" || code_is 137 t.exit_code
    then add critical
        (s "Container "
          ∷ s name
          ∷ s " was OOMKilled (exit "
          ∷ d t.exit_code
          ∷ s
              "). It exceeded its memory limit.\n  → raise resources.limits.memory, or investigate a memory leak."
          ∷ [])
        f
    else if not (code_is 0 t.exit_code)
    then add critical
        (s "Container "
          ∷ s name
          ∷ s " terminated (reason="
          ∷ s t.reason
          ∷ s ", exit="
          ∷ d t.exit_code
          ∷ s "): "
          ∷ s t.message
          ∷ s "\n  → call `get_logs` with previous=true for the error output."
          ∷ [])
        f
    else f

pub classify_containers : List ContainerStatus → Findings → Findings
unfolding classify_waiting classify_terminated
classify_containers [] f = f
classify_containers (c ∷ cs) f =
    classify_containers cs
      (classify_terminated c.name c.terminated (classify_waiting c.name c.waiting f))

pub classify_event : Event → Findings → Findings
classify_event e f =
    if e.reason == "Unhealthy"
    then add warn
        (s "Probe failure: "
          ∷ s e.reason
          ∷ s " (Liveness/Readiness probe is failing). "
          ∷ s e.message
          ∷ [])
        f
    else if e.reason == "BackOff"
    then f
    else if e.reason == "FailedScheduling"
    then add warn (s "FailedScheduling: " ∷ s e.message ∷ []) f
    else if e.reason == "FailedMount" || e.reason == "FailedAttachVolume"
    then add critical
        (s "Volume problem: "
          ∷ s e.message
          ∷ s "\n  → check PVC status with `describe` kind=PersistentVolumeClaim."
          ∷ [])
        f
    else f

pub classify_events : List Event → Findings → Findings
unfolding classify_event
classify_events [] f = f
classify_events (e ∷ es) f = classify_events es (classify_event e f)

pub classify_volumes : List (Option String) → Findings → Findings
classify_volumes [] f = f
classify_volumes (none ∷ vs) f = classify_volumes vs f
classify_volumes (some claim ∷ vs) f = classify_volumes vs (add_pvc_note claim f)

pub classify_readiness : PodObject → Findings → Findings
classify_readiness p f =
    if not (is_ready p.conditions) && p.phase == "Running"
    then add warn
        (s
            "Pod is Running but not Ready. A readiness probe may be failing or a container is unhealthy. Check `list_events` and container statuses."
          ∷ [])
        f
    else f

pub classify_pod : PodObject → List Event → Findings → Findings
unfolding or_ok
classify_pod p events f =
    or_ok (s "No issues detected. All containers are running and ready." ∷ []) (
      classify_readiness p (
        classify_volumes p.claims (
          classify_events events
            (classify_containers p.container_statuses (classify_pending p f)))))
