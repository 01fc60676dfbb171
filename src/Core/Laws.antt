-- ===== src/Core/Laws.antt =====
-- Which events list_events shows, and in what order, and when cluster_health is content.
use go_kubernetes_mcp_server.Base.{
  suc, ◌≤◌, ℤ, pos, String, ◌≡◌, ◌≢◌, refl, ◌↔◌, Bool, true, false, ◌&&◌, List, [], ◌∷◌, length,
  All, arith, is_empty, ◌==◌, subst, sym,
}
use go_kubernetes_mcp_server.Kube.{Answer, ok, failed}
use go_kubernetes_mcp_server.Kube.Objects.{Event, NodeObject, PodObject, NodeMetrics}
use go_kubernetes_mcp_server.Tools.Handler.{s, Outcome, text}
use go_kubernetes_mcp_server.Core.{is_after}
use go_kubernetes_mcp_server.Core.Format.{event_time}
use go_kubernetes_mcp_server.Core.Health.{
  has_ready, count_nodes, version_report, node_report, summary, health_report,
}

abbrev pub newer : Event → Event → Bool
newer x y = is_after (event_time x) (event_time y)

-- What a limit leaves out of a list: nothing where it is not positive, and else nothing unless the
-- limit is reached, which it never passes.
abbrev pub AtLimit : ℤ → List Event → List Event → Type 0
AtLimit (pos (suc n)) shown left = (length shown ≤ suc n) × (left ≢ [] → length shown ≡ suc n)
AtLimit _ shown left = left ≡ []

-- All nodes are ready exactly if the count names none that is not.
count_nodes-none :
    (ns : List NodeObject)
    → (is_empty (count_nodes ns).1 ≡ true)
      ↔ All (λ (n : NodeObject). has_ready n.conditions ≡ true) ns
unfolding count_nodes
count_nodes-none [] = ((λ h. tt), λ h. refl)
count_nodes-none (n ∷ ns) = ground (arith, count_nodes-none ns)

abbrev pub AllReady : Answer (List NodeObject) → Type 0
AllReady (ok ns) = All (λ (n : NodeObject). has_ready n.conditions ≡ true) ns
AllReady (failed err) = ⊥

abbrev pub Reached : Answer (String × String) → Type 0
Reached (ok version) = Unit
Reached (failed err) = ⊥

healthy_iff :
    (version : Answer (String × String)) (nodes : Answer (List NodeObject))
    → (((version_report version).0 && (node_report nodes).0) ≡ true)
      ↔ (Reached version × AllReady nodes)
unfolding version_report node_report
healthy_iff (failed x) (failed y) = ground arith
healthy_iff (failed x) (ok ns) = ground arith
healthy_iff (ok version) (failed y) = ground arith
healthy_iff (ok version) (ok ns) =
    ((λ h. (tt, (count_nodes-none ns).0 h)), λ h. (count_nodes-none ns).1 h.1)

summary_iff : (b : Bool) → (summary b == "HEALTHY") ≡ b
unfolding summary
summary_iff true = refl
summary_iff false = refl

-- The word that the report of cluster_health begins with.
abbrev pub status_word : Outcome → String
status_word (text (head ∷ s word ∷ rest)) = word
status_word _ = ""

-- cluster_health calls the cluster healthy exactly if the API server gives its version and the nodes
-- can be listed and each is ready, its first condition of type Ready being true. The pods of the control
-- plane and the metrics server do not count.
pub health_report-healthy :
    (version : Answer (String × String)) (nodes : Answer (List NodeObject))
    (pods : Answer (List PodObject)) (metrics : Answer (List NodeMetrics))
    → ((status_word (health_report version nodes pods metrics) == "HEALTHY") ≡ true)
      ↔ (Reached version × AllReady nodes)
unfolding health_report
health_report-healthy version nodes pods metrics =
    subst (λ b. (b ≡ true) ↔ (Reached version × AllReady nodes)) (sym (summary_iff _))
      (healthy_iff version nodes)
