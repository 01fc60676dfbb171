-- ===== src/Workloads/Controllers.antt =====
-- internal/tools/workloads/format.go and helpers.go: what the tools show of controllers and jobs.
use go_kubernetes_mcp_server.Base.{
  ℕ, ◌/◌, ℤ, pos, negsuc, String, ◌==◌, Bool, true, false, ◌&&◌, not, Option, none, some, List, [],
  ◌∷◌, ◌++◌, ltb, leb, nat_eq, if◌then◌else◌, is_empty, length, take, codes, ◌<>◌, show_nat,
  show_int, utf8, encode, is_not_positive,
}
use go_kubernetes_mcp_server.Kube.Objects.{Condition, Container, Deployment, Job, CronJob}
use go_kubernetes_mcp_server.Tools.Handler.{Piece, s, d, bytes}
use go_kubernetes_mcp_server.Tools.Util.{age_str, minute, hour, second}
use go_kubernetes_mcp_server.Tools.Listing.{table}

unfoldable pub intstr : ℤ → ℤ → String
intstr a b = show_int a <> "/" <> show_int b

-- `none` where the replicas are nil, which the source reads through.
unfoldable pub deployment_row : Deployment → Option (List (List ℕ))
unfolding intstr
deployment_row dep = elim dep.replicas [
  | none ↦ none
  | some replicas ↦ some (
      utf8 dep.namespace
      ∷ utf8 dep.name
      ∷ utf8 (intstr dep.ready_replicas replicas)
      ∷ utf8 (show_int dep.updated_replicas)
      ∷ utf8 (show_int dep.available_replicas)
      ∷ utf8 (age_str dep.age)
      ∷ [])
]

unfoldable pub is_false_condition : String → List Condition → Bool
is_false_condition type_name [] = false
is_false_condition type_name (c ∷ cs) =
    let rest = is_false_condition type_name cs in
    if c.type_name == type_name && c.status == "False" then true else rest

unfoldable pub controller_status : List Condition → String
unfolding is_false_condition
controller_status conds =
    if is_false_condition "Progressing" conds
    then "Progressing:false"
    else if is_false_condition "Available" conds
    then "Unavailable"
    else "Available"

abbrev pub is_true_option : Option Bool → Bool
is_true_option none = false
is_true_option (some b) = b

unfoldable pub job_status : Job → String
job_status j =
    if not (is_not_positive j.failed)
    then "Failed(" <> show_int j.failed <> ")"
    else if not (is_not_positive j.succeeded)
    then "Complete(" <> show_int j.succeeded <> ")"
    else if not (is_not_positive j.active)
    then "Running(" <> show_int j.active <> ")"
    else if is_true_option j.suspend
    then "Suspended"
    else "Pending"

unfoldable pub last_schedule_time : CronJob → String
last_schedule_time c = elim c.last_schedule [ none ↦ "<none>" | some since ↦ age_str (some since) ]

unfoldable pub cron_suspend : CronJob → String
cron_suspend c = if is_true_option c.suspend then "True" else "False"

abbrev pub is_one : ℤ → Bool
is_one (pos n) = nat_eq n 1
is_one (negsuc n) = false

unfoldable pub completions_str : Job → String
unfolding intstr
completions_str j = elim j.completions [
  | some wanted ↦ intstr j.succeeded wanted
  | none ↦ elim j.parallelism [
    | some n ↦ if is_one n then show_int j.succeeded <> "/1" else show_int j.succeeded
    | none ↦ show_int j.succeeded
  ]
]

-- Of a job that has not ended before its start.
unfoldable pub job_duration : Job → String
job_duration j = elim j.ran [
  | none ↦ ""
  | some t ↦
      if ltb t minute
      then show_nat (t / second) <> "s"
      else if ltb t hour
      then show_nat (t / minute) <> "m"
      else show_nat (t / hour) <> "h"
]

unfoldable pub truncate_msg : String → List ℕ
truncate_msg t =
    let r = codes t in if leb (length r) 80 then utf8 t else encode (take 80 r ++ 0x2026 ∷ [])

unfoldable pub deployment_conditions : List Condition → List (List (List ℕ))
unfolding truncate_msg
deployment_conditions [] = []
deployment_conditions (c ∷ cs) =
    (utf8 c.type_name ∷ utf8 c.status ∷ utf8 c.reason ∷ truncate_msg c.message ∷ [])
    ∷ deployment_conditions cs

unfoldable pub template_lines : List Container → List Piece
template_lines [] = []
template_lines (c ∷ cs) = s "  " ∷ s c.name ∷ s ": " ∷ s c.image ∷ s "\n" ∷ template_lines cs

abbrev pub or_zero : Option ℤ → ℤ
or_zero none = pos 0
or_zero (some n) = n

unfoldable pub describe_deployment : Deployment → List Piece
unfolding template_lines deployment_conditions controller_status
describe_deployment dep =
    (s "Name:               "
      ∷ s dep.name
      ∷ s "\nNamespace:          "
      ∷ s dep.namespace
      ∷ s "\nReplicas:           "
      ∷ d (or_zero dep.replicas)
      ∷ s " desired | "
      ∷ d dep.updated_replicas
      ∷ s " updated | "
      ∷ d dep.total_replicas
      ∷ s " total | "
      ∷ d dep.available_replicas
      ∷ s " available | "
      ∷ d dep.unavailable_replicas
      ∷ s " unavailable\nStatus:             "
      ∷ s (controller_status dep.conditions)
      ∷ s "\nStrategy:           "
      ∷ s dep.strategy
      ∷ s "\nAge:                "
      ∷ s (age_str dep.age)
      ∷ s "\n"
      ∷ [])
    ++ ((if is_empty dep.containers
          then []
          else s "\nContainers:\n" ∷ template_lines dep.containers)
        ++ (if is_empty dep.conditions
            then []
            else s "\nConditions:\n"
              ∷ bytes (
                  table ("TYPE" ∷ "STATUS" ∷ "REASON" ∷ "MESSAGE" ∷ [])
                    (deployment_conditions dep.conditions))
              ∷ []))
