-- ===== src/Workloads/Laws.antt =====
-- When list_deployments panics, and what list_pods counts.
use go_kubernetes_mcp_server.Base.{
  ◌≡◌, ◌↔◌, Bool, true, false, none, some, List, [], ◌∷◌, any, arith,
}
use go_kubernetes_mcp_server.Kube.Objects.{Deployment}
use go_kubernetes_mcp_server.Tools.Handler.{panics, nil_dereference}
use go_kubernetes_mcp_server.Tools.Listing.{table_text}
use go_kubernetes_mcp_server.Workloads.{deployment_rows, show_deployments}
use go_kubernetes_mcp_server.Workloads.Controllers.{deployment_row}

abbrev pub no_replicas : Deployment → Bool
no_replicas dep = elim dep.replicas [ none ↦ true | some n ↦ false ]

deployment_rows-none :
    (items : List Deployment) → (deployment_rows items ≡ none) ↔ (any no_replicas items ≡ true)
unfolding deployment_rows deployment_row
deployment_rows-none [] = ground arith
deployment_rows-none (dep ∷ rest) = ground (arith, deployment_rows-none rest)

-- list_deployments panics on what the server gives exactly if a deployment in it has no replicas set,
-- whose pointer it reads through.
pub show_deployments-panics :
    (items : List Deployment)
    → (show_deployments items ≡ panics nil_dereference) ↔ (any no_replicas items ≡ true)
unfolding show_deployments table_text
show_deployments-panics items = ground (arith, deployment_rows-none items)
