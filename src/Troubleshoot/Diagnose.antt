-- ===== src/Troubleshoot/Diagnose.antt =====
-- internal/tools/troubleshoot/diagnose.go: the handlers of diagnose_pod and diagnose_node around the
-- classifications. Where the error of a list is dropped, a failure reads as the empty list.
use go_kubernetes_mcp_server.Base.{
  ℕ, pos, String, ◌==◌, true, false, ◌&&◌, ◌||◌, not, none, some, List, [], ◌∷◌, ◌++◌, ltb, nat_eq,
  if◌then◌else◌, is_empty, length, take, ◌<>◌, join,
}
use go_kubernetes_mcp_server.Security.{Policy}
use go_kubernetes_mcp_server.Rpc.{validate_name}
use go_kubernetes_mcp_server.Kube.{
  Prog, ret, call, Answer, ok, failed, namespaced, cluster, attach, list_objects, get_one,
  stream_logs, Chunk,
}
use go_kubernetes_mcp_server.Kube.Objects.{
  PodObject, NodeObject, ContainerStatus, pod_kind, node_kind, event_kind, ListOptions, LogOptions,
}
use go_kubernetes_mcp_server.Tools.Handler.{
  Outcome, text, Piece, s, bytes, ◌>>=◌, ◌>>◌, Handler, guard, answer,
}
use go_kubernetes_mcp_server.Tools.Util.{resolve_ns, check_scope}
use go_kubernetes_mcp_server.Tools.Listing.{NamespaceNameArgs}
use go_kubernetes_mcp_server.Core.Health.{no_options}
use go_kubernetes_mcp_server.Workloads.Format.{waiting_reason}
use go_kubernetes_mcp_server.Troubleshoot.Findings.{
  Severity, Finding, Findings, new_findings, add, is_ready, ok as ok_severity, info, warn, critical,
}
use go_kubernetes_mcp_server.Troubleshoot.Pods.{classify_pod}
use go_kubernetes_mcp_server.Troubleshoot.Nodes.{classify_node}
use go_kubernetes_mcp_server.Troubleshoot.Top.{items_of}

abbrev severity_word : Severity → String
severity_word ok_severity = "OK"
severity_word info = "INFO"
severity_word warn = "WARN"
severity_word critical = "CRITICAL"

unfoldable pub finding_lines : List Finding → List Piece
finding_lines [] = []
finding_lines (it ∷ rest) =
    (s "[" ∷ s (severity_word it.severity) ∷ s "] " ∷ it.text) ++ (s "\n\n" ∷ finding_lines rest)

unfoldable pub render_findings : Findings → String → String → String → List Piece
unfolding finding_lines
render_findings f name ns status =
    (if not (ns == "")
      then s "Diagnosis for Pod " ∷ s ns ∷ s "/" ∷ s name ∷ s "\n" ∷ []
      else s "Diagnosis for Node " ∷ s name ∷ s "\n" ∷ [])
    ++ ((s "Current status: " ∷ s status ∷ s "\n\n" ∷ finding_lines f.items)
        ++ (if is_empty f.pvcs
            then []
            else s "Mounted PVCs: "
              ∷ s (join ", " f.pvcs)
              ∷ s " (use `describe` kind=PersistentVolumeClaim to verify each is Bound)\n"
              ∷ []))

-- The loop is that of `podStatus` of the workload tools.
unfoldable pub pod_status_str : PodObject → String
pod_status_str pod = elim (waiting_reason pod.container_statuses) [
  | some reason ↦ reason
  | none ↦ pod.phase
]

unfoldable pub node_ready_str : NodeObject → String
node_ready_str n = if is_ready n.conditions then "Ready" else "NotReady"

unfoldable pub failing_container : List ContainerStatus → String
failing_container [] = ""
failing_container (cs ∷ rest) =
    let later = failing_container rest in
    elim cs.waiting [
      | none ↦ later
      | some w ↦
          if w.reason == "CrashLoopBackOff" || elim cs.terminated [ none ↦ false | some t ↦ true ]
          then cs.name
          else later
    ]

-- `io.ReadAll` with its error dropped: what is read up to the first error.
unfoldable pub read_all : List Chunk → List ℕ
read_all [] = []
read_all (chunk ∷ chunks) =
    let rest = read_all chunks in
    chunk.read_bytes ++ elim chunk.error [ none ↦ rest | some err ↦ [] ]

-- `strings.TrimRight(out, "\n")`
unfoldable pub trim_newlines : List ℕ → List ℕ
trim_newlines [] = []
trim_newlines (c ∷ cs) =
    let rest = trim_newlines cs in if is_empty rest && nat_eq c 10 then [] else c ∷ rest

-- The end of `tailLogs`; the three bytes are those of the ellipsis.
unfoldable pub cut_tail : List ℕ → List ℕ
cut_tail out = if ltb 2048 (length out) then take 2048 out ++ 0xE2 ∷ 0x80 ∷ 0xA6 ∷ [] else out

unfoldable pub tail_text : Answer (List Chunk) → List ℕ
unfolding read_all trim_newlines cut_tail
tail_text (failed err) = []
tail_text (ok chunks) = cut_tail (trim_newlines (read_all chunks))

abbrev tail_options : String → LogOptions
tail_options container = record {
  container = container;
  tail_lines = pos 15;
  previous = true;
  timestamps = false;
  since_seconds = none;
  since_time = none;
  follow = false;
}

unfoldable pub add_logs : String → List ℕ → Findings → Findings
add_logs container tail f =
    if is_empty tail
    then f
    else add info (s "Recent logs from container " ∷ s container ∷ s ":\n" ∷ bytes tail ∷ []) f

-- The logs of a crash-looping container, as a step.
unfoldable pub with_logs : String → String → String → Findings → Handler Findings
unfolding tail_text add_logs
with_logs ns pod container f k =
    if container == ""
    then k f
    else call (stream_logs (namespaced ns) pod (tail_options container))
        (λ stream. k (add_logs container (tail_text stream) f))

abbrev involved : String → String → ListOptions
involved kind name = record no_options {
  field_selector = "involvedObject.kind=" <> kind <> ",involvedObject.name=" <> name;
}

unfoldable pub diagnose_pod : Policy → NamespaceNameArgs → Prog Outcome
unfolding render_findings pod_status_str failing_container
diagnose_pod p a = do
  guard (validate_name a.name)
  let ns : String = resolve_ns a.namespace
  guard (check_scope p ns false)
  call (attach "Pod" ns a.name false)
  pod ← answer ("get pod " <> ns <> "/" <> a.name) (call (get_one pod_kind (namespaced ns) a.name))
  events ← call (list_objects event_kind (namespaced ns) (involved "Pod" a.name))
  f ←
      with_logs ns a.name (failing_container pod.container_statuses)
        (classify_pod pod (items_of events) new_findings)
  ret (text (render_findings f pod.name pod.namespace (pod_status_str pod)))

unfoldable pub diagnose_node : NamespaceNameArgs → Prog Outcome
unfolding render_findings node_ready_str
diagnose_node a = do
  guard (validate_name a.name)
  call (attach "Node" "" a.name false)
  node ← answer ("get node " <> a.name) (call (get_one node_kind cluster a.name))
  events ← call (list_objects event_kind (namespaced "") (involved "Node" a.name))
  ret (
      text (
        render_findings (classify_node node (items_of events) new_findings) node.name ""
          (node_ready_str node)))
