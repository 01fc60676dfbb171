-- ===== src/Core/Tests.antt =====
-- The laws of the core tools on concrete inputs.
use go_kubernetes_mcp_server.Base.{
  ℕ, suc, ◌≤◌, ℤ, pos, String, ◌==◌, ◌≡◌, ◌↔◌, refl, true, false, none, some, List, [], ◌∷◌, length,
}
use go_kubernetes_mcp_server.Err.{other}
use go_kubernetes_mcp_server.Kube.{Answer, ok, failed}
use go_kubernetes_mcp_server.Kube.Objects.{Event, NodeObject}
use go_kubernetes_mcp_server.Kube.Fixtures.{some_node}
use go_kubernetes_mcp_server.Core.{recent}
use go_kubernetes_mcp_server.Core.Health.{health_report}
use go_kubernetes_mcp_server.Core.Laws.{AllReady, Reached, status_word, health_report-healthy}

abbrev event_seen : ℕ → Event
event_seen since = record {
  reason = "BackOff";
  message = "restarting";
  type_name = "Warning";
  object_kind = "Pod";
  object_name = "web-0";
  last_seen = some since;
  age = none;
}

abbrev two_events : List Event
two_events = event_seen 9000000000 ∷ event_seen 2000000000 ∷ []

recent-newest : recent (pos 1) two_events ≡ event_seen 2000000000 ∷ []
unfolding recent go_kubernetes_mcp_server.Base.sort_by
    go_kubernetes_mcp_server.Core.Format.event_time
recent-newest = refl

-- A node that reports nothing makes the cluster degraded.
abbrev one_node : Answer (List NodeObject)
one_node = ok (some_node ∷ [])

health_report-healthy_example :
    ((status_word (health_report (ok ("v1.31.0", "linux")) one_node (ok []) (failed (other "none")))
        == "HEALTHY")
      ≡ true)
    ↔ (Reached (ok ("v1.31.0", "linux")) × AllReady one_node)
health_report-healthy_example =
    health_report-healthy (ok ("v1.31.0", "linux")) one_node (ok []) (failed (other "none"))
