-- ===== src/Workloads/Tests.antt =====
-- What the workload tools show of concrete objects.
use go_kubernetes_mcp_server.Base.{
  ℤ, pos, String, ◌≡◌, ◌↔◌, refl, true, false, none, some, List, [], ◌∷◌, any,
}
use go_kubernetes_mcp_server.Kube.Objects.{ContainerStatus, PodObject, Deployment}
use go_kubernetes_mcp_server.Kube.Fixtures.{some_pod}
use go_kubernetes_mcp_server.Tools.Handler.{panics, nil_dereference}
use go_kubernetes_mcp_server.Workloads.{show_deployments}
use go_kubernetes_mcp_server.Workloads.Format.{pod_status, pod_ready, pod_restarts}
use go_kubernetes_mcp_server.Workloads.Laws.{no_replicas, show_deployments-panics}

abbrev deployment_of : Deployment
deployment_of = record {
  namespace = "shop";
  name = "web";
  generation = pos 2;
  replicas = none;
  strategy = "RollingUpdate";
  containers = [];
  observed_generation = pos 2;
  updated_replicas = pos 0;
  total_replicas = pos 0;
  ready_replicas = pos 0;
  available_replicas = pos 0;
  unavailable_replicas = pos 0;
  conditions = [];
  age = none;
}

show_deployments-panics_example :
    (show_deployments (deployment_of ∷ []) ≡ panics nil_dereference)
    ↔ (any no_replicas (deployment_of ∷ []) ≡ true)
show_deployments-panics_example = show_deployments-panics (deployment_of ∷ [])

abbrev waiting : ContainerStatus
waiting = record {
  name = "web";
  running = none;
  waiting = some (record { reason = "ImagePullBackOff"; message = "" });
  terminated = none;
  ready = false;
  restart_count = 4294967295;
}

abbrev failing : PodObject
failing = record some_pod { container_statuses = waiting ∷ [] }

pod_status-reason :
    ◌≡◌ {A = String} (pod_status failing) "ImagePullBackOff"
    × ◌≡◌ {A = String} (pod_ready failing) "0/1"
    × ◌≡◌ {A = String} (pod_restarts failing) "-1"
unfolding pod_status pod_ready go_kubernetes_mcp_server.Base.show_nat pod_restarts
    go_kubernetes_mcp_server.Base.show_int go_kubernetes_mcp_server.Base.int32
pod_status-reason = (refl, refl, refl)
