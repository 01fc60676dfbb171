-- ===== src/Workloads.antt =====
-- internal/tools/workloads/workloads.go: the tools that read pods, controllers and jobs.
pub mod Format
pub mod Controllers
mod Laws
mod Tests
use go_kubernetes_mcp_server.Base.{
  ℕ, ℤ, pos, String, Option, none, some, List, [], ◌∷◌, map, utf8, show_nat, show_int,
}
use go_kubernetes_mcp_server.Security.{Policy}
use go_kubernetes_mcp_server.Kube.{Prog, ret}
use go_kubernetes_mcp_server.Kube.Objects.{
  Kind, Item, pod_kind, deployment_kind, stateful_set_kind, daemon_set_kind, replica_set_kind,
  job_kind, cron_job_kind, PodObject, Deployment, StatefulSet, DaemonSet, ReplicaSetObject, Job,
  CronJob,
}
use go_kubernetes_mcp_server.Tools.Handler.{Outcome, text, panics, nil_dereference, Piece}
use go_kubernetes_mcp_server.Tools.Util.{ListArgs, age_str}
use go_kubernetes_mcp_server.Tools.Listing.{NamespaceNameArgs, list_tool, get_tool, table_text}
use go_kubernetes_mcp_server.Workloads.Format.{
  pod_status, pod_ready, pod_restarts, node_name_of, describe_pod,
}
use go_kubernetes_mcp_server.Workloads.Controllers.{
  intstr, deployment_row, job_status, completions_str, job_duration, cron_suspend,
  last_schedule_time, describe_deployment, or_zero,
}

unfoldable pub pod_row : PodObject → List (List ℕ)
pod_row p =
    utf8 p.namespace
    ∷ utf8 p.name
    ∷ utf8 (pod_ready p)
    ∷ utf8 (pod_status p)
    ∷ utf8 (pod_restarts p)
    ∷ utf8 (node_name_of p)
    ∷ utf8 (age_str p.age)
    ∷ []

unfoldable pub list_pods_tool : Policy → ListArgs → Prog Outcome
unfolding pod_row
list_pods_tool p a = list_tool pod_kind p a "Pod" "list pods" λ items.
    table_text ("NAMESPACE" ∷ "NAME" ∷ "READY" ∷ "STATUS" ∷ "RESTARTS" ∷ "NODE" ∷ "AGE" ∷ [])
      (map pod_row items)

unfoldable pub get_pod : Policy → NamespaceNameArgs → Prog Outcome
get_pod p a = get_tool pod_kind p a "Pod" "get pod" λ ns pod. ret (text (describe_pod pod))

-- The rows up to the first nil dereference.
unfoldable pub deployment_rows : List Deployment → Option (List (List (List ℕ)))
deployment_rows [] = some []
deployment_rows (dep ∷ rest) =
    let later = deployment_rows rest in
    elim (deployment_row dep) [
      | none ↦ none
      | some row ↦ elim later [ none ↦ none | some rows ↦ some (row ∷ rows) ]
    ]

unfoldable pub show_deployments : List Deployment → Outcome
unfolding deployment_rows
show_deployments items = elim (deployment_rows items) [
  | none ↦ panics nil_dereference
  | some rows ↦
      table_text ("NAMESPACE" ∷ "NAME" ∷ "READY" ∷ "UP-TO-DATE" ∷ "AVAILABLE" ∷ "AGE" ∷ []) rows
]

unfoldable pub list_deployments : Policy → ListArgs → Prog Outcome
unfolding show_deployments
list_deployments p a =
    list_tool deployment_kind p a "Deployment" "list deployments" show_deployments

unfoldable pub get_deployment : Policy → NamespaceNameArgs → Prog Outcome
get_deployment p a =
    get_tool deployment_kind p a "Deployment" "get deployment"
      λ ns dep. ret (text (describe_deployment dep))

abbrev stateful_set_row : StatefulSet → List (List ℕ)
stateful_set_row set =
    utf8 set.namespace
    ∷ utf8 set.name
    ∷ utf8 (elim set.replicas [ none ↦ "0/0" | some n ↦ intstr set.ready_replicas n ])
    ∷ utf8 (age_str set.age)
    ∷ []

unfoldable pub list_stateful_sets : Policy → ListArgs → Prog Outcome
list_stateful_sets p a =
    list_tool stateful_set_kind p a "StatefulSet" "list statefulsets"
      λ items. table_text ("NAMESPACE" ∷ "NAME" ∷ "READY" ∷ "AGE" ∷ []) (map stateful_set_row items)

abbrev daemon_set_row : DaemonSet → List (List ℕ)
daemon_set_row set =
    utf8 set.namespace
    ∷ utf8 set.name
    ∷ utf8 (show_int set.desired)
    ∷ utf8 (show_int set.current)
    ∷ utf8 (show_int set.ready)
    ∷ utf8 (age_str set.age)
    ∷ []

unfoldable pub list_daemon_sets : Policy → ListArgs → Prog Outcome
list_daemon_sets p a = list_tool daemon_set_kind p a "DaemonSet" "list daemonsets" λ items.
    table_text ("NAMESPACE" ∷ "NAME" ∷ "DESIRED" ∷ "CURRENT" ∷ "READY" ∷ "AGE" ∷ [])
      (map daemon_set_row items)

abbrev replica_set_row : ReplicaSetObject → List (List ℕ)
replica_set_row set =
    utf8 set.namespace
    ∷ utf8 set.name
    ∷ utf8 (intstr (or_zero set.replicas) (pos 0))
    ∷ utf8 (show_int set.total_replicas)
    ∷ utf8 (show_int set.ready_replicas)
    ∷ utf8 (age_str set.age)
    ∷ []

unfoldable pub list_replica_sets_tool : Policy → ListArgs → Prog Outcome
list_replica_sets_tool p a = list_tool replica_set_kind p a "ReplicaSet" "list replicasets" λ items.
    table_text ("NAMESPACE" ∷ "NAME" ∷ "DESIRED" ∷ "CURRENT" ∷ "READY" ∷ "AGE" ∷ [])
      (map replica_set_row items)

abbrev job_row : Job → List (List ℕ)
job_row j =
    utf8 j.namespace
    ∷ utf8 j.name
    ∷ utf8 (job_status j)
    ∷ utf8 (completions_str j)
    ∷ utf8 (job_duration j)
    ∷ utf8 (age_str j.age)
    ∷ []

unfoldable pub list_jobs : Policy → ListArgs → Prog Outcome
list_jobs p a = list_tool job_kind p a "Job" "list jobs" λ items.
    table_text ("NAMESPACE" ∷ "NAME" ∷ "STATUS" ∷ "COMPLETIONS" ∷ "DURATION" ∷ "AGE" ∷ [])
      (map job_row items)

abbrev cron_job_row : CronJob → List (List ℕ)
cron_job_row c =
    utf8 c.namespace
    ∷ utf8 c.name
    ∷ utf8 c.schedule
    ∷ utf8 (cron_suspend c)
    ∷ utf8 (show_nat c.active)
    ∷ utf8 (last_schedule_time c)
    ∷ utf8 (age_str c.age)
    ∷ []

unfoldable pub list_cron_jobs : Policy → ListArgs → Prog Outcome
list_cron_jobs p a = list_tool cron_job_kind p a "CronJob" "list cronjobs" λ items.
    table_text
      ("NAMESPACE" ∷ "NAME" ∷ "SCHEDULE" ∷ "SUSPEND" ∷ "ACTIVE" ∷ "LAST SCHEDULE" ∷ "AGE" ∷ [])
      (map cron_job_row items)
