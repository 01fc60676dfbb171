-- ===== src/Network/Format.antt =====
-- internal/tools/network/network.go and helpers.go: what the tools show of services, endpoints,
-- ingresses and network policies.
use go_kubernetes_mcp_server.Base.{
  ℕ, ◌+◌, ℤ, pos, negsuc, String, ◌==◌, Bool, false, ◌&&◌, Option, none, some, List, [], ◌∷◌, ◌++◌,
  map, nat_eq, if◌then◌else◌, is_empty, length, ◌<>◌, join, show_nat, show_int, sort_keys,
}
use go_kubernetes_mcp_server.Kube.Objects.{
  Service, ServicePort, Endpoints, Subset, Ingress, NetworkPolicy,
}
use go_kubernetes_mcp_server.Tools.Handler.{Piece, s, d}
use go_kubernetes_mcp_server.Tools.Util.{age_str}
use go_kubernetes_mcp_server.Tools.Listing.{format_map}
use go_kubernetes_mcp_server.Core.Format.{distinct}

unfoldable pub first_or_none : List String → String
first_or_none [] = "<none>"
first_or_none (ip ∷ ips) = if ip == "" then "<none>" else ip

-- The address or the host name of the first ingress of a load balancer.
unfoldable pub balancer_address : List (String × String) → Option String
balancer_address [] = none
balancer_address ((ip, hostname) ∷ rest) = some (if ip == "" then hostname else ip)

unfoldable pub external_ips : Service → String
unfolding balancer_address
external_ips svc = elim (balancer_address svc.load_balancer) [
  | some address ↦ address
  | none ↦ if is_empty svc.external_ips then "<none>" else join "," svc.external_ips
]

abbrev pub is_zero_int : ℤ → Bool
is_zero_int (pos n) = nat_eq n 0
is_zero_int (negsuc n) = false

unfoldable pub port_text : ServicePort → String
port_text p =
    if is_zero_int p.node_port
    then show_int p.port <> "/" <> p.protocol
    else show_int p.port <> ":" <> show_int p.node_port <> "/" <> p.protocol

unfoldable pub ports_str : Service → String
unfolding port_text
ports_str svc =
    if is_empty svc.ports then "<none>" else join "," (sort_keys (map port_text svc.ports))

unfoldable pub ip_of : String → String
ip_of ip = if ip == "" then "<none>" else ip

-- The inner loop over the ports of a subset, with what stands before an address.
unfoldable pub port_lines : String → String → List (ℤ × String) → List Piece
unfolding ip_of
port_lines head ip [] = []
port_lines head ip ((port, name) ∷ ports) =
    s head ∷ s (ip_of ip) ∷ s ":" ∷ d port ∷ s " (" ∷ s name ∷ s ")\n" ∷ port_lines head ip ports

unfoldable pub address_lines : String → List (ℤ × String) → List String → List Piece
unfolding port_lines
address_lines head ports [] = []
address_lines head ports (ip ∷ ips) = port_lines head ip ports ++ address_lines head ports ips

unfoldable pub subset_lines : List Subset → List Piece
unfolding address_lines
subset_lines [] = []
subset_lines (sub ∷ subs) = address_lines "  " sub.ports sub.addresses ++ subset_lines subs

-- The subsets are empty where the endpoints could not be read.
unfoldable pub describe_service : Service → List Subset → List Piece
unfolding first_or_none external_ips ports_str subset_lines
describe_service svc subsets =
    (s "Name:              "
      ∷ s svc.name
      ∷ s "\nNamespace:         "
      ∷ s svc.namespace
      ∷ s "\nType:              "
      ∷ s svc.type_name
      ∷ s "\nCluster IP:        "
      ∷ s (first_or_none svc.cluster_ips)
      ∷ s "\nExternal IPs:      "
      ∷ s (external_ips svc)
      ∷ s "\nPorts:             "
      ∷ s (ports_str svc)
      ∷ s "\nSelector:          "
      ∷ s (format_map svc.selector)
      ∷ s "\nAge:               "
      ∷ s (age_str svc.age)
      ∷ s "\n"
      ∷ [])
    ++ (if is_empty subsets
        then s "\nEndpoints:         <none> (no ready pods match the selector)\n" ∷ []
        else s "\nEndpoints:\n" ∷ subset_lines subsets)

-- The two sums of `renderEndpoints`, the first of them also that of `readyEndpoints`.
unfoldable pub count_addresses : List Subset → ℕ
count_addresses [] = 0
count_addresses (sub ∷ subs) = length sub.addresses + count_addresses subs

unfoldable pub count_not_ready : List Subset → ℕ
count_not_ready [] = 0
count_not_ready (sub ∷ subs) = length sub.not_ready_addresses + count_not_ready subs

unfoldable pub endpoint_lines : List Subset → List Piece
unfolding address_lines
endpoint_lines [] = []
endpoint_lines (sub ∷ subs) =
    address_lines "  READY   " sub.ports sub.addresses
    ++ (address_lines "  UNREADY " sub.ports sub.not_ready_addresses ++ endpoint_lines subs)

unfoldable pub render_endpoints : Endpoints → List Piece
unfolding count_addresses count_not_ready endpoint_lines
render_endpoints ep =
    (s "Endpoints for "
      ∷ s ep.namespace
      ∷ s "/"
      ∷ s ep.name
      ∷ s ": "
      ∷ d (pos (count_addresses ep.subsets))
      ∷ s " ready, "
      ∷ d (pos (count_not_ready ep.subsets))
      ∷ s " not ready\n\n"
      ∷ [])
    ++ (endpoint_lines ep.subsets
        ++ (if nat_eq (count_addresses ep.subsets) 0
            then s
                "\nNo ready endpoints. Check that pods exist, are Ready, and match this Service's selector.\n"
              ∷ []
            else []))

unfoldable pub ingress_class : Ingress → String
ingress_class ing = elim ing.class_name [ none ↦ "<default>" | some class ↦ class ]

unfoldable pub named_hosts : List String → List String
named_hosts [] = []
named_hosts (h ∷ hs) = let rest = named_hosts hs in if h == "" then rest else h ∷ rest

unfoldable pub ingress_hosts : Ingress → List String
unfolding named_hosts
ingress_hosts ing =
    let hosts : List String = distinct (named_hosts ing.hosts) in
    if is_empty hosts then "*" ∷ [] else sort_keys hosts

unfoldable pub ingress_addr : Ingress → String
unfolding balancer_address
ingress_addr ing = elim (balancer_address ing.load_balancer) [
  | some address ↦ address
  | none ↦ "<none>"
]

unfoldable pub selector_str : NetworkPolicy → String
selector_str p =
    if is_empty p.match_labels && nat_eq p.match_expressions 0
    then "<none>"
    else format_map p.match_labels

unfoldable pub policy_summary : ℕ → String
policy_summary n = if nat_eq n 0 then "deny-all" else show_nat n <> " rule(s)"
