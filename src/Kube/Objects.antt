-- ===== src/Kube/Objects.antt =====
-- The objects that the tools which only read are given, as far as they read them. An age is the time
-- since a timestamp, in nanoseconds, and is absent for the zero time. A quantity is what the methods of
-- the library answer for it.
pub mod Nodes
pub mod Apps
pub mod Services
use go_kubernetes_mcp_server.Base.{ℤ, String, Bool, Option}
use go_kubernetes_mcp_server.Kube.Dynamic.{Json}
pub use go_kubernetes_mcp_server.Kube.Objects.Nodes.{
  Quantity, Condition, Waiting, Terminated, ContainerStatus, Taint, Event, Container, PodObject,
  NodeObject, Namespace,
}
pub use go_kubernetes_mcp_server.Kube.Objects.Apps.{
  Deployment, StatefulSet, DaemonSet, ReplicaSetObject, Job, CronJob,
}
pub use go_kubernetes_mcp_server.Kube.Objects.Services.{
  ServicePort, Service, Subset, Endpoints, Ingress, NetworkPolicy, Stored, Claim, StorageClass,
  NodeMetrics, PodMetrics,
}

-- The kinds that are listed or read one by one, and what each is read as.
pub data Kind : Type 0 where
  pod_kind node_kind namespace_kind event_kind deployment_kind stateful_set_kind : Kind
  daemon_set_kind replica_set_kind job_kind cron_job_kind service_kind endpoints_kind : Kind
  ingress_kind network_policy_kind configmap_kind secret_kind claim_kind storage_class_kind : Kind
  node_metrics_kind pod_metrics_kind endpoint_slice_kind : Kind

abbrev pub Item : Kind → Type 0
Item pod_kind = PodObject
Item node_kind = NodeObject
Item namespace_kind = Namespace
Item event_kind = Event
Item deployment_kind = Deployment
Item stateful_set_kind = StatefulSet
Item daemon_set_kind = DaemonSet
Item replica_set_kind = ReplicaSetObject
Item job_kind = Job
Item cron_job_kind = CronJob
Item service_kind = Service
Item endpoints_kind = Endpoints
Item ingress_kind = Ingress
Item network_policy_kind = NetworkPolicy
Item configmap_kind = Stored
Item secret_kind = Stored
Item claim_kind = Claim
Item storage_class_kind = StorageClass
Item node_metrics_kind = NodeMetrics
Item pod_metrics_kind = PodMetrics
Item endpoint_slice_kind = Json

-- `metav1.ListOptions`, as far as it is set; `limit` is 0 where it is not.
pub record ListOptions : Type 0 where
  pub label_selector : String
  pub field_selector : String
  pub limit : ℤ

-- `corev1.PodLogOptions`; a time is as the call gives it.
pub record LogOptions : Type 0 where
  pub container : String
  pub tail_lines : ℤ
  pub previous : Bool
  pub timestamps : Bool
  pub since_seconds : Option ℤ
  pub since_time : Option String
  pub follow : Bool
