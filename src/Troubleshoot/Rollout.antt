-- ===== src/Troubleshoot/Rollout.antt =====
-- internal/tools/troubleshoot/rollout.go: rollout_status.
use go_kubernetes_mcp_server.Base.{
  ℤ, pos, negsuc, String, ◌==◌, Bool, true, false, ◌&&◌, ◌||◌, not, Option, none, some, List, [],
  ◌∷◌, ltb, nat_eq, if◌then◌else◌, ◌<>◌, lower_is,
}
use go_kubernetes_mcp_server.Security.{Policy}
use go_kubernetes_mcp_server.Rpc.{validate_name}
use go_kubernetes_mcp_server.Err.{unsupported_kind}
use go_kubernetes_mcp_server.Kube.{Prog, ret, call, namespaced, attach, get_one}
use go_kubernetes_mcp_server.Kube.Objects.{
  Kind, Item, deployment_kind, stateful_set_kind, daemon_set_kind, Condition, Deployment,
  StatefulSet, DaemonSet,
}
use go_kubernetes_mcp_server.Tools.Handler.{
  Outcome, text, tool_error, panics, nil_dereference, Piece, s, d, ◌>>◌, guard, answer,
}
use go_kubernetes_mcp_server.Tools.Util.{resolve_ns, check_scope}

pub record RolloutArgs : Type 0 where
  pub kind : String
  pub namespace : String
  pub name : String

abbrev pub ltb_int : ℤ → ℤ → Bool
ltb_int (pos a) (pos b) = ltb a b
ltb_int (pos a) (negsuc b) = false
ltb_int (negsuc a) (pos b) = true
ltb_int (negsuc a) (negsuc b) = ltb b a

abbrev pub eq_int : ℤ → ℤ → Bool
eq_int (pos a) (pos b) = nat_eq a b
eq_int (negsuc a) (negsuc b) = nat_eq a b
eq_int _ _ = false

-- What stands between a workload's name and the end of its report.
unfoldable pub workload : String → String → String → List Piece → Outcome
workload kind ns name rest = text (s kind ∷ s " " ∷ s ns ∷ s "/" ∷ s name ∷ rest)

-- The loop over the conditions.
unfoldable pub rollout_trouble : List Condition → Option (List Piece)
rollout_trouble [] = none
rollout_trouble (c ∷ cs) =
    let rest = rollout_trouble cs in
    if c.type_name == "Progressing" && c.status == "False"
    then some (
        s " rollout STALLED: "
        ∷ s c.message
        ∷ s "\nReason: "
        ∷ s c.reason
        ∷ s
            "\n\nUse rollout_history to inspect revisions and consider rollout_restart or applying a fix.\n"
        ∷ [])
    else if c.type_name == "ReplicaFailure" && c.status == "True"
    then some (s " has replica failures: " ∷ s c.message ∷ s "\n" ∷ [])
    else rest

unfoldable pub is_rolled_out : Deployment → ℤ → Bool
is_rolled_out dep replicas =
    not (ltb_int dep.observed_generation dep.generation)
    && (eq_int dep.updated_replicas replicas
        && (eq_int dep.total_replicas dep.updated_replicas
            && not (ltb_int dep.available_replicas dep.updated_replicas)))

-- What is said of a deployment; the replicas are read through a pointer, but not where the generation
-- is not observed yet, and then the loop over the conditions may end the report before they are.
unfoldable pub deployment_report : Deployment → Option (List Piece)
unfolding is_rolled_out rollout_trouble
deployment_report dep = elim dep.replicas [
  | some replicas ↦
      if is_rolled_out dep replicas
      then some (
          s " successfully rolled out ("
          ∷ d dep.updated_replicas
          ∷ s "/"
          ∷ d replicas
          ∷ s " updated and available).\n"
          ∷ [])
      else elim (rollout_trouble dep.conditions) [
        | some pieces ↦ some pieces
        | none ↦ some (
            s " rollout IN PROGRESS: "
            ∷ d dep.updated_replicas
            ∷ s "/"
            ∷ d replicas
            ∷ s " updated, "
            ∷ d dep.available_replicas
            ∷ s "/"
            ∷ d replicas
            ∷ s " available.\nWaiting for rollout to finish...\n"
            ∷ [])
      ]
  | none ↦
      if not (ltb_int dep.observed_generation dep.generation)
      then none
      else rollout_trouble dep.conditions
]

unfoldable pub deployment_rollout_status : Deployment → Outcome
unfolding deployment_report workload
deployment_rollout_status dep = elim (deployment_report dep) [
  | none ↦ panics nil_dereference
  | some pieces ↦ workload "deployment" dep.namespace dep.name pieces
]

abbrev wanted_replicas : StatefulSet → ℤ
wanted_replicas set = elim set.replicas [ none ↦ pos 0 | some n ↦ n ]

unfoldable pub stateful_set_rollout_status : StatefulSet → Outcome
unfolding workload
stateful_set_rollout_status set = workload "statefulset" set.namespace set.name (
    if set.update_strategy == "RollingUpdate"
      && (not (set.update_revision == set.current_revision)
          && ltb_int set.updated_replicas (wanted_replicas set))
    then s " rollout IN PROGRESS: "
      ∷ d set.updated_replicas
      ∷ s "/"
      ∷ d (wanted_replicas set)
      ∷ s " pods updated to revision "
      ∷ s set.update_revision
      ∷ s ".\n"
      ∷ []
    else s " rolled out (revision "
      ∷ s set.current_revision
      ∷ s ", "
      ∷ d set.ready_replicas
      ∷ s "/"
      ∷ d (wanted_replicas set)
      ∷ s " ready).\n"
      ∷ [])

unfoldable pub daemon_set_rollout_status : DaemonSet → Outcome
unfolding workload
daemon_set_rollout_status set = workload "daemonset" set.namespace set.name (
    if ltb_int set.updated set.desired
    then s " rollout IN PROGRESS: "
      ∷ d set.updated
      ∷ s " of "
      ∷ d set.desired
      ∷ s " updated pods scheduled.\n"
      ∷ []
    else s " rolled out ("
      ∷ d set.updated
      ∷ s "/"
      ∷ d set.desired
      ∷ s " updated and scheduled).\n"
      ∷ [])

-- The cases of the `switch` over the kind in lower case.
unfoldable pub is_deployment_word : String → Bool
is_deployment_word kind = lower_is kind "deployment" || lower_is kind "deploy"

unfoldable pub is_stateful_set_word : String → Bool
is_stateful_set_word kind = lower_is kind "statefulset" || lower_is kind "sts"

unfoldable pub is_daemon_set_word : String → Bool
is_daemon_set_word kind = lower_is kind "daemonset" || lower_is kind "ds"

-- The body of a case: the object is read and reported.
unfoldable pub read_status :
    (k : Kind) → String → String → String → (Item k → Outcome) → Prog Outcome
read_status k action ns name show =
    answer (action <> " " <> ns <> "/" <> name) (call (get_one k (namespaced ns) name))
      (λ found. ret (show found))

unfoldable pub rollout_status : Policy → RolloutArgs → Prog Outcome
unfolding deployment_rollout_status stateful_set_rollout_status daemon_set_rollout_status
    is_deployment_word is_stateful_set_word is_daemon_set_word read_status
rollout_status p a = do
  guard (validate_name a.name)
  let ns : String = resolve_ns a.namespace
  guard (check_scope p ns false)
  call (attach a.kind ns a.name false)
  (if is_deployment_word a.kind
      then read_status deployment_kind "get deployment" ns a.name deployment_rollout_status
      else if is_stateful_set_word a.kind
      then read_status stateful_set_kind "get statefulset" ns a.name stateful_set_rollout_status
      else if is_daemon_set_word a.kind
      then read_status daemon_set_kind "get daemonset" ns a.name daemon_set_rollout_status
      else ret (tool_error (unsupported_kind a.kind)))
