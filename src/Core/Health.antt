-- ===== src/Core/Health.antt =====
-- internal/tools/core/health.go: cluster_health.
use go_kubernetes_mcp_server.Base.{
  ℕ, ◌+◌, pos, String, ◌==◌, Bool, true, false, ◌&&◌, List, [], ◌∷◌, ◌++◌, if◌then◌else◌, is_empty,
  length, ◌<>◌, join,
}
use go_kubernetes_mcp_server.Kube.{
  Prog, ret, call, Answer, ok, failed, cluster, namespaced, server_version, list_objects,
}
use go_kubernetes_mcp_server.Kube.Objects.{
  Condition, PodObject, NodeObject, NodeMetrics, node_kind, pod_kind, node_metrics_kind,
  ListOptions,
}
use go_kubernetes_mcp_server.Tools.Handler.{Outcome, text, Piece, s, d, e}

-- `isNodeReady` and `isPodReady`: the first condition of type Ready decides.
unfoldable pub has_ready : List Condition → Bool
has_ready [] = false
has_ready (c ∷ cs) =
    let rest = has_ready cs in if c.type_name == "Ready" then c.status == "True" else rest

unfoldable pub count_nodes : List NodeObject → ℕ × List String
unfolding has_ready
count_nodes [] = (0, [])
count_nodes (n ∷ ns) =
    let rest = count_nodes ns in
    if has_ready n.conditions then (rest.0 + 1, rest.1) else (rest.0, n.name ∷ rest.1)

unfoldable pub count_pods : List PodObject → ℕ × List String
unfolding has_ready
count_pods [] = (0, [])
count_pods (p ∷ ps) =
    let rest = count_pods ps in
    if p.phase == "Running" && has_ready p.conditions
    then (rest.0 + 1, rest.1)
    else (rest.0, (p.name <> "=" <> p.phase) ∷ rest.1)

-- A stretch of the report, and whether the cluster is still healthy after it.
unfoldable pub version_report : Answer (String × String) → Bool × List Piece
version_report (failed err) = (false, s "API server:  UNREACHABLE (" ∷ e err ∷ s ")\n" ∷ [])
version_report (ok version) =
    (true, s "API server:  OK (" ∷ s version.0 ∷ s " " ∷ s version.1 ∷ s ")\n" ∷ [])

unfoldable pub node_report : Answer (List NodeObject) → Bool × List Piece
unfolding count_nodes
node_report (failed err) = (false, s "Nodes:       unable to list (" ∷ e err ∷ s ")\n" ∷ [])
node_report (ok nodes) =
    let counted = count_nodes nodes in
    (
      is_empty counted.1,
      (s "Nodes:       " ∷ d (pos counted.0) ∷ s "/" ∷ d (pos (length nodes)) ∷ s " ready" ∷ [])
          ++ ((if is_empty counted.1
                then []
                else s " (NotReady: " ∷ s (join ", " counted.1) ∷ s ")" ∷ [])
              ++ s "\n" ∷ []),
    )

unfoldable pub control_plane_report : Answer (List PodObject) → List Piece
unfolding count_pods
control_plane_report (failed err) = []
control_plane_report (ok []) = []
control_plane_report (ok (p ∷ ps)) =
    let counted = count_pods (p ∷ ps) in
    (s "Control plane: "
      ∷ d (pos counted.0)
      ∷ s "/"
      ∷ d (pos (length (p ∷ ps)))
      ∷ s " running"
      ∷ [])
    ++ ((if is_empty counted.1 then [] else s " (issues: " ∷ s (join ", " counted.1) ∷ s ")" ∷ [])
        ++ s "\n" ∷ [])

unfoldable pub metrics_report : Answer (List NodeMetrics) → List Piece
metrics_report (ok list) = s "Metrics server: INSTALLED\n" ∷ []
metrics_report (failed err) =
    s "Metrics server: NOT DETECTED (top_* tools will be unavailable)\n" ∷ []

abbrev pub no_options : ListOptions
no_options = record { label_selector = ""; field_selector = ""; limit = pos 0 }

unfoldable pub summary : Bool → String
summary healthy = if healthy then "HEALTHY" else "DEGRADED"

unfoldable pub health_report :
    Answer (String × String)
    → Answer (List NodeObject)
    → Answer (List PodObject)
    → Answer (List NodeMetrics)
    → Outcome
unfolding version_report node_report control_plane_report metrics_report summary
health_report version nodes pods metrics = text (
    s "Cluster status: "
    ∷ s (summary ((version_report version).0 && (node_report nodes).0))
    ∷ s "\n\n"
    ∷ ((version_report version).1
        ++ ((node_report nodes).1 ++ (control_plane_report pods ++ metrics_report metrics))))

unfoldable pub cluster_health : Prog Outcome
unfolding health_report
cluster_health = call server_version λ version.
    call (list_objects node_kind cluster no_options) λ nodes.
      call
        (list_objects pod_kind (namespaced "kube-system")
          (record no_options { label_selector = "component" }))
        λ pods.
          call (list_objects node_metrics_kind cluster (record no_options { limit = pos 1 }))
            λ metrics. ret (health_report version nodes pods metrics)
