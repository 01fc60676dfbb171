-- ===== src/Network/Connectivity.antt =====
-- internal/tools/network/connectivity.go: check_connectivity. Where a result is read whose error is
-- dropped, a failure reads as the empty list. The parser of durations is a parameter.
use go_kubernetes_mcp_server.Base.{
  ℕ, ℤ, pos, String, ◌==◌, Bool, true, false, ◌&&◌, not, Option, none, some, List, [], ◌∷◌, ◌++◌,
  nat_eq, if◌then◌else◌, is_empty, ◌<>◌, join, show_int, is_not_positive,
}
use go_kubernetes_mcp_server.Security.{Policy}
use go_kubernetes_mcp_server.Rpc.{validate_name}
use go_kubernetes_mcp_server.Kube.{
  Prog, ret, call, Answer, ok, failed, namespaced, attach, list_objects, get_one, lookup_ip, dial,
}
use go_kubernetes_mcp_server.Kube.Dynamic.{Json}
use go_kubernetes_mcp_server.Kube.Objects.{
  service_kind, endpoints_kind, endpoint_slice_kind, Service, Endpoints,
}
use go_kubernetes_mcp_server.Tools.Handler.{
  Outcome, text, Piece, s, d, e, ◌>>=◌, ◌>>◌, Handler, guard, answer,
}
use go_kubernetes_mcp_server.Tools.Util.{resolve_ns, check_scope}
use go_kubernetes_mcp_server.Tools.Listing.{format_map}
use go_kubernetes_mcp_server.Network.Format.{count_addresses}
use go_kubernetes_mcp_server.Network.Slices.{count_slices}
use go_kubernetes_mcp_server.Network.{slice_options}

pub record ConnectivityArgs : Type 0 where
  pub namespace : String
  pub service : String
  pub port : ℤ
  pub timeout : String

-- The fall-back of `readyEndpoints`.
unfoldable pub endpoints_count : Answer Endpoints → ℕ
endpoints_count (ok ep) = count_addresses ep.subsets
endpoints_count (failed err) = 0

unfoldable pub slices_count :
    String → String → (ℕ → Prog Outcome) → Answer (List Json) → Prog Outcome
unfolding endpoints_count
slices_count ns svc k (ok slices) = k (count_slices slices)
slices_count ns svc k (failed err) =
    call (get_one endpoints_kind (namespaced ns) svc) λ ep. k (endpoints_count ep)

-- `readyEndpoints`, as a step.
unfoldable pub ready_endpoints : String → String → Handler ℕ
unfolding slices_count
ready_endpoints ns svc k =
    call (list_objects endpoint_slice_kind (namespaced ns) (slice_options svc))
      (slices_count ns svc k)

unfoldable pub has_no_selector : Service → Bool
has_no_selector svc = is_empty svc.selector && not (svc.type_name == "ExternalName")

abbrev dns_name : String → String → String
dns_name ns svc = svc <> "." <> ns <> ".svc.cluster.local"

unfoldable pub dns_report : String → Answer (List String) → Bool × List Piece
dns_report name (failed err) =
    (false, s "DNS: ✗ could not resolve " ∷ s name ∷ s " (" ∷ e err ∷ s ")\n" ∷ [])
dns_report name (ok ips) = (true, s "DNS: ✓ " ∷ s name ∷ s " → " ∷ s (join ", " ips) ∷ s "\n" ∷ [])

unfoldable pub endpoint_report : Service → ℕ → List Piece
endpoint_report svc ready =
    if nat_eq ready 0
    then s
        "Endpoints: ✗ no ready endpoints. Check that pods exist, are Ready, and match the selector "
      ∷ s (format_map svc.selector)
      ∷ s "\n"
      ∷ []
    else s "Endpoints: ✓ " ∷ d (pos ready) ∷ s " ready address(es)\n" ∷ []

abbrev first_ip : List String → String
first_ip [] = ""
first_ip (ip ∷ ips) = ip

unfoldable pub dial_report : String → Answer (Unit {0}) → List Piece
dial_report addr (ok done) = s "TCP dial " ∷ s addr ∷ s ": ✓ connected\n" ∷ []
dial_report addr (failed err) = s "TCP dial " ∷ s addr ∷ s ": ✗ " ∷ e err ∷ s "\n" ∷ []

unfoldable pub verdict : Bool → String → String → List Piece
verdict healthy ns svc =
    s "\nVERDICT: service "
    ∷ s ns
    ∷ s "/"
    ∷ s svc
    ∷ s (if healthy then " looks healthy.\n" else " has connectivity problems (see above).\n")
    ∷ []

-- `(dnsErr == nil) && ready > 0`
unfoldable pub is_healthy : String → Answer (List String) → ℕ → Bool
unfolding dns_report
is_healthy name ips ready = (dns_report name ips).0 && not (nat_eq ready 0)

unfoldable pub connectivity_report :
    String → String → Service → Answer (List String) → ℕ → List Piece → Outcome
unfolding has_no_selector is_healthy endpoint_report verdict
connectivity_report ns name svc ips ready dialled = text (
    s "Service "
    ∷ s ns
    ∷ s "/"
    ∷ s name
    ∷ s " (type="
    ∷ s svc.type_name
    ∷ s ")\n"
    ∷ ((if has_no_selector svc
          then s
              "⚠ service has no selector and is not ExternalName; it will not get endpoints from pods\n"
            ∷ []
          else [])
        ++ ((dns_report (dns_name ns name) ips).1
            ++ (endpoint_report svc ready
                ++ (dialled ++ verdict (is_healthy (dns_name ns name) ips ready) ns name)))))

-- A port is given and the service has a cluster IP.
unfoldable pub dials : ConnectivityArgs → Service → Bool
dials a svc = not (is_not_positive a.port) && not (first_ip svc.cluster_ips == "")

module _ (parse_duration : String → Option ℤ) where
  -- The dial timeout: three seconds, or a positive duration that is given.
  unfoldable pub dial_timeout : String → ℤ
  dial_timeout given = if given == "" then pos 3000000000 else elim (parse_duration given) [
    | none ↦ pos 3000000000
    | some dur ↦ if is_not_positive dur then pos 3000000000 else dur
  ]

  -- The optional dial and its part of the report.
  unfoldable pub dial_port : ConnectivityArgs → Service → Handler (List Piece)
  unfolding dial_report dial_timeout dials
  dial_port a svc k =
      let addr : String = first_ip svc.cluster_ips <> ":" <> show_int a.port in
      if dials a svc
      then call (dial addr (dial_timeout a.timeout)) (λ dialled. k (dial_report addr dialled))
      else k []

  unfoldable pub check_connectivity : Policy → ConnectivityArgs → Prog Outcome
  unfolding connectivity_report
  check_connectivity p a = do
    guard (validate_name a.service)
    let ns : String = resolve_ns a.namespace
    guard (check_scope p ns false)
    call (attach "Service" ns a.service false)
    svc ←
        answer ("get service " <> ns <> "/" <> a.service)
          (call (get_one service_kind (namespaced ns) a.service))
    ips ← call (lookup_ip (dns_name ns a.service))
    ready ← ready_endpoints ns a.service
    dialled ← dial_port a svc
    ret (connectivity_report ns a.service svc ips ready dialled)
