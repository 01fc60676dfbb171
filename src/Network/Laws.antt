-- ===== src/Network/Laws.antt =====
-- What the endpoints of EndpointSlices count for.
use go_kubernetes_mcp_server.Base.{
  String, ◌==◌, ◌≡◌, refl, false, List, [], ◌∷◌, All, Bool-cases, inl, inr,
}
use go_kubernetes_mcp_server.Kube.{Answer}
use go_kubernetes_mcp_server.Kube.Dynamic.{
  Json, Items, Fields, null, nil, cons, end, field, at, as_object,
}
use go_kubernetes_mcp_server.Network.Connectivity.{dns_report, is_healthy}
use go_kubernetes_mcp_server.Network.Slices.{
  endpoints_of, is_marked_ready, count_ready_endpoints, count_slices,
}

-- An endpoint has no field `ready` of its own: in discovery.k8s.io/v1 it stands under `conditions`.
abbrev pub NoReady : Fields → Type 0
NoReady end = Unit
NoReady (field k x fs) = ((k == "ready") ≡ false) × NoReady fs

abbrev pub AllNoReady : Items → Type 0
AllNoReady nil = Unit
AllNoReady (cons x xs) = NoReady (as_object x) × AllNoReady xs

at-NoReady : (fs : Fields) → NoReady fs → at "ready" fs ≡ null
unfolding at
at-NoReady end h = refl
at-NoReady (field k x fs) (h, hs) = rw h (at-NoReady fs hs)

count_ready-NoReady : (xs : Items) → AllNoReady xs → count_ready_endpoints xs ≡ 0
unfolding count_ready_endpoints is_marked_ready
count_ready-NoReady nil h = refl
count_ready-NoReady (cons x xs) (h, hs) =
    rw (at-NoReady (as_object x) h, count_ready-NoReady xs hs) refl

count_slices-NoReady :
    (slices : List Json)
    → All (λ slice. AllNoReady (endpoints_of slice)) slices
    → count_slices slices ≡ 0
unfolding count_slices
count_slices-NoReady [] h = refl
count_slices-NoReady (slice ∷ slices) (h, hs) =
    rw (count_ready-NoReady (endpoints_of slice) h, count_slices-NoReady slices hs) refl

-- Where no endpoint of the slices has a field `ready` of its own, check_connectivity finds the service
-- unhealthy, whatever the name resolves to and however many addresses the slices list.
pub is_healthy-NoReady :
    (slices : List Json) (name : String) (ips : Answer (List String))
    → All (λ slice. AllNoReady (endpoints_of slice)) slices
    → is_healthy name ips (count_slices slices) ≡ false
unfolding is_healthy
is_healthy-NoReady slices name ips h =
    rw (count_slices-NoReady slices h)
      (elim (Bool-cases (dns_report name ips).0) [ inl e ↦ rw e refl | inr e ↦ rw e refl ])
