-- ===== src/Network.antt =====
-- internal/tools/network/network.go: the tools that read services and what stands behind them. Where a
-- result is read whose error is dropped, a failure reads as the empty list.
pub mod Format
pub mod Slices
pub mod Connectivity
pub mod Reads
pub mod Laws
mod Tests
use go_kubernetes_mcp_server.Base.{
  ℕ, ◌+◌, ℤ, pos, String, ◌==◌, Bool, true, false, ◌&&◌, not, Option, none, some, List, [], ◌∷◌,
  ◌++◌, map, nat_eq, if◌then◌else◌, is_empty, ◌<>◌, join, show_int, utf8, is_not_positive,
}
use go_kubernetes_mcp_server.Security.{Policy}
use go_kubernetes_mcp_server.Rpc.{validate_name}
use go_kubernetes_mcp_server.Err.{ApiError}
use go_kubernetes_mcp_server.Kube.{
  Prog, ret, call, Answer, ok, failed, namespaced, attach, list_objects, get_one, lookup_ip, dial,
}
use go_kubernetes_mcp_server.Kube.Dynamic.{Json}
use go_kubernetes_mcp_server.Kube.Objects.{
  service_kind, endpoints_kind, ingress_kind, network_policy_kind, endpoint_slice_kind, Service,
  Endpoints, Subset, Ingress, NetworkPolicy, ListOptions,
}
use go_kubernetes_mcp_server.Tools.Handler.{
  Outcome, text, panics, not_a_string, Piece, s, d, e, ◌>>=◌, ◌>>◌, Handler, guard, answer, settle,
}
use go_kubernetes_mcp_server.Tools.Util.{ListArgs, age_str, resolve_ns, check_scope}
use go_kubernetes_mcp_server.Tools.Listing.{
  NamespaceNameArgs, list_tool, get_tool, table_text, format_map,
}
use go_kubernetes_mcp_server.Network.Format.{
  first_or_none, external_ips, ports_str, describe_service, render_endpoints, count_addresses,
  ingress_class, ingress_hosts, ingress_addr, selector_str, policy_summary,
}
use go_kubernetes_mcp_server.Network.Slices.{render_endpoint_slices, count_slices}

abbrev service_row : Service → List (List ℕ)
service_row svc =
    utf8 svc.namespace
    ∷ utf8 svc.name
    ∷ utf8 svc.type_name
    ∷ utf8 (first_or_none svc.cluster_ips)
    ∷ utf8 (external_ips svc)
    ∷ utf8 (ports_str svc)
    ∷ utf8 (age_str svc.age)
    ∷ []

unfoldable pub list_services : Policy → ListArgs → Prog Outcome
list_services p a = list_tool service_kind p a "Service" "list services" λ items.
    table_text
      ("NAMESPACE" ∷ "NAME" ∷ "TYPE" ∷ "CLUSTER-IP" ∷ "EXTERNAL-IP" ∷ "PORT(S)" ∷ "AGE" ∷ [])
      (map service_row items)

abbrev subsets_of : Answer Endpoints → List Subset
subsets_of (ok ep) = ep.subsets
subsets_of (failed err) = []

unfoldable pub get_service : Policy → NamespaceNameArgs → Prog Outcome
get_service p a = get_tool service_kind p a "Service" "get service" λ ns svc.
    call (get_one endpoints_kind (namespaced ns) a.name)
      λ ep. ret (text (describe_service svc (subsets_of ep)))

abbrev pub slice_options : String → ListOptions
slice_options name = record {
  label_selector = "kubernetes.io/service-name=" <> name;
  field_selector = "";
  limit = pos 0;
}

unfoldable pub show_slices : String → String → List Json → Outcome
show_slices name ns slices = elim (render_endpoint_slices name ns slices) [
  | none ↦ panics not_a_string
  | some shown ↦ text shown
]

abbrev read_endpoints : String → String → Prog Outcome
read_endpoints ns name =
    answer ("get endpoints " <> ns <> "/" <> name)
      (call (get_one endpoints_kind (namespaced ns) name)) λ ep. ret (text (render_endpoints ep))

-- The slices where there are any, and the endpoints else.
unfoldable pub slices_or_endpoints : String → String → Answer (List Json) → Prog Outcome
unfolding show_slices
slices_or_endpoints ns name (failed err) = read_endpoints ns name
slices_or_endpoints ns name (ok []) = read_endpoints ns name
slices_or_endpoints ns name (ok (slice ∷ slices)) = ret (show_slices name ns (slice ∷ slices))

unfoldable pub get_endpoints : Policy → NamespaceNameArgs → Prog Outcome
unfolding slices_or_endpoints
get_endpoints p a = do
  guard (validate_name a.name)
  let ns : String = resolve_ns a.namespace
  guard (check_scope p ns false)
  call (attach "Endpoints" ns a.name false)
  slices ← call (list_objects endpoint_slice_kind (namespaced ns) (slice_options a.name))
  slices_or_endpoints ns a.name slices

abbrev ingress_row : Ingress → List (List ℕ)
ingress_row ing =
    utf8 ing.namespace
    ∷ utf8 ing.name
    ∷ utf8 (ingress_class ing)
    ∷ utf8 (join "," (ingress_hosts ing))
    ∷ utf8 (ingress_addr ing)
    ∷ utf8 "80"
    ∷ utf8 (age_str ing.age)
    ∷ []

unfoldable pub list_ingresses : Policy → ListArgs → Prog Outcome
list_ingresses p a = list_tool ingress_kind p a "Ingress" "list ingresses" λ items.
    table_text ("NAMESPACE" ∷ "NAME" ∷ "CLASS" ∷ "HOSTS" ∷ "ADDRESS" ∷ "PORTS" ∷ "AGE" ∷ [])
      (map ingress_row items)

abbrev network_policy_row : NetworkPolicy → List (List ℕ)
network_policy_row np =
    utf8 np.namespace
    ∷ utf8 np.name
    ∷ utf8 (selector_str np)
    ∷ utf8 (policy_summary np.ingress)
    ∷ utf8 (policy_summary np.egress)
    ∷ utf8 (age_str np.age)
    ∷ []

unfoldable pub list_network_policies : Policy → ListArgs → Prog Outcome
list_network_policies p a =
    list_tool network_policy_kind p a "NetworkPolicy" "list networkpolicies" λ items.
      table_text ("NAMESPACE" ∷ "NAME" ∷ "POD-SELECTOR" ∷ "INGRESS" ∷ "EGRESS" ∷ "AGE" ∷ [])
        (map network_policy_row items)
