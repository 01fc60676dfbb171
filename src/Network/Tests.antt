-- ===== src/Network/Tests.antt =====
-- EndpointSlices as discovery.k8s.io/v1 documents them.
use go_kubernetes_mcp_server.Base.{◌≡◌, refl, true, false, [], ◌∷◌}
use go_kubernetes_mcp_server.Kube.{ok}
use go_kubernetes_mcp_server.Kube.Dynamic.{
  Json, boolean, string, array, object, nil, cons, end, field,
}
use go_kubernetes_mcp_server.Network.Connectivity.{is_healthy}
use go_kubernetes_mcp_server.Network.Slices.{count_slices, total_addresses}
use go_kubernetes_mcp_server.Network.Laws.{is_healthy-NoReady}

abbrev endpoint : Json
endpoint = object (
    field "addresses" (array (cons (string "10.1.0.7") nil))
      (field "conditions" (object (field "ready" (boolean true) end)) end))

abbrev web_slice : Json
web_slice = object (field "endpoints" (array (cons endpoint nil)) end)

-- One ready address, which the header of get_endpoints counts.
total_addresses-one : total_addresses (web_slice ∷ []) ≡ 1
unfolding total_addresses go_kubernetes_mcp_server.Kube.Dynamic.at
total_addresses-one = refl

is_healthy-NoReady_example :
    is_healthy "web.shop.svc.cluster.local" (ok ("10.0.0.5" ∷ [])) (count_slices (web_slice ∷ []))
    ≡ false
unfolding go_kubernetes_mcp_server.Network.Slices.endpoints_of
    go_kubernetes_mcp_server.Kube.Dynamic.at
is_healthy-NoReady_example =
    is_healthy-NoReady (web_slice ∷ []) "web.shop.svc.cluster.local" (ok ("10.0.0.5" ∷ []))
      ((((refl, (refl, tt)), tt)), tt)
