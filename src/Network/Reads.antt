-- ===== src/Network/Reads.antt =====
-- Where the network tools read.
use go_kubernetes_mcp_server.Base.{ℕ, ℤ, List, [], ◌∷◌, String, Option}
use go_kubernetes_mcp_server.Security.{Policy}
use go_kubernetes_mcp_server.Kube.{Answer, ok, failed, namespaced, Prog}
use go_kubernetes_mcp_server.Kube.Objects.{Service}
use go_kubernetes_mcp_server.Tools.Handler.{Outcome, Piece}
use go_kubernetes_mcp_server.Kube.Dynamic.{Json}
use go_kubernetes_mcp_server.Kube.Rules.{Acts, done, act, Attached, unattached}
use go_kubernetes_mcp_server.Tools.Handler.Rules.{guard-Acts, settle-Acts, if-Acts}
use go_kubernetes_mcp_server.Tools.Util.{resolve_ns}
use go_kubernetes_mcp_server.Tools.Listing.{NamespaceNameArgs}
use go_kubernetes_mcp_server.Tools.Listing.Reads.{
  InReach, IsRead, get_tool-Acts, check_scope-InReach,
}
use go_kubernetes_mcp_server.Network.{get_service, slices_or_endpoints, get_endpoints}
use go_kubernetes_mcp_server.Network.Connectivity.{
  ConnectivityArgs, slices_count, ready_endpoints, dials, dial_port, check_connectivity,
  connectivity_report,
}

module _ (p : Policy) (extra : Option String) where
  pub get_service-Acts :
      (a : NamespaceNameArgs) → Acts (IsRead p extra) unattached (get_service p a)
  unfolding get_service
  get_service-Acts a = get_tool-Acts p extra _ a _ _ _ λ r svc near. act near λ ep. done

  slices_or_endpoints-Acts :
      {r : Attached} (ns name : String) (x : Answer (List Json))
      → InReach p extra (namespaced ns)
      → Acts (IsRead p extra) r (slices_or_endpoints ns name x)
  unfolding slices_or_endpoints
  slices_or_endpoints-Acts ns name (failed err) near = act near λ x. settle-Acts _ _ x λ ep. done
  slices_or_endpoints-Acts ns name (ok []) near = act near λ x. settle-Acts _ _ x λ ep. done
  slices_or_endpoints-Acts ns name (ok (slice ∷ slices)) near = done

  pub get_endpoints-Acts :
      (a : NamespaceNameArgs) → Acts (IsRead p extra) unattached (get_endpoints p a)
  unfolding get_endpoints
  get_endpoints-Acts a = guard-Acts _ _ λ n. guard-Acts _ _ λ c.
      let near = check_scope-InReach p extra a.namespace c in
      act tt λ u. act near λ x. slices_or_endpoints-Acts _ a.name x near

  dial_port-Acts :
      (parse_duration : String → Option ℤ) {r : Attached} (a : ConnectivityArgs) (svc : Service)
      (k : List Piece → Outcome)
      → Acts (IsRead p extra) r (dial_port parse_duration a svc (λ pieces. Prog.ret (k pieces)))
  unfolding dial_port
  dial_port-Acts parse_duration a svc k = if-Acts (dials a svc) _ _ (act tt λ x. done) done

  slices_count-Acts :
      {r : Attached} (ns svc : String) (k : ℕ → Prog Outcome) (x : Answer (List Json))
      → InReach p extra (namespaced ns)
      → ((t : Attached) (ready : ℕ) → Acts (IsRead p extra) t (k ready))
      → Acts (IsRead p extra) r (slices_count ns svc k x)
  unfolding slices_count
  slices_count-Acts ns svc k (ok slices) near h = h _ _
  slices_count-Acts ns svc k (failed err) near h = act near λ ep. h _ _

  pub check_connectivity-Acts :
      (parse_duration : String → Option ℤ) (a : ConnectivityArgs)
      → Acts (IsRead p extra) unattached (check_connectivity parse_duration p a)
  unfolding check_connectivity ready_endpoints
  check_connectivity-Acts parse_duration a = guard-Acts _ _ λ n. guard-Acts _ _ λ c.
      let near = check_scope-InReach p extra a.namespace c in
      act tt λ u. act near λ x. settle-Acts _ _ x λ svc. act tt λ ips. act near λ slices.
        slices_count-Acts _ a.service
          (λ ready. dial_port parse_duration a svc (λ pieces.
            Prog.ret (connectivity_report (resolve_ns a.namespace) a.service svc ips ready pieces)))
          slices near λ t ready. dial_port-Acts parse_duration a svc _
