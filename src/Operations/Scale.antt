-- ===== src/Operations/Scale.antt =====
-- internal/tools/operations/scale.go: scale, rollout_restart and what they share with the others.
use go_kubernetes_mcp_server.Base.{
  ℤ, String, Bool, false, ◌||◌, not, Option, none, some, [], ◌∷◌, if◌then◌else◌, lower_is, ◌<>◌,
}
use go_kubernetes_mcp_server.Err.{Err, unsupported_kind, unsupported_controller}
use go_kubernetes_mcp_server.Security.{Policy, check_mutating, check_target, check_namespace}
use go_kubernetes_mcp_server.Rpc.{validate_name}
use go_kubernetes_mcp_server.Kube.{
  Prog, ret, call, attach, now, get_scale, update_scale, patch, Resource, deployments,
  stateful_sets, daemon_sets, replica_sets, namespaced, merge, Body, restarted_at,
}
use go_kubernetes_mcp_server.Tools.Handler.{
  Outcome, text, tool_error, s, d, lowered, ◌>>=◌, ◌>>◌, guard, answer,
}
use go_kubernetes_mcp_server.Tools.Util.{resolve_ns}

-- The cases of the switches over a kind in lower case.
abbrev pub is_deployment : String → Bool
is_deployment kind = lower_is kind "deployment" || lower_is kind "deploy"

abbrev pub is_stateful_set : String → Bool
is_stateful_set kind = lower_is kind "statefulset" || lower_is kind "sts"

abbrev pub is_daemon_set : String → Bool
is_daemon_set kind = lower_is kind "daemonset" || lower_is kind "ds"

abbrev pub is_replica_set : String → Bool
is_replica_set kind = lower_is kind "replicaset" || lower_is kind "rs"

-- `policyTarget` (operations.go)
unfoldable pub policy_target : Policy → String → Bool → Option Err
policy_target p ns cluster_scoped = elim (check_target p ns cluster_scoped) [
  | some err ↦ some err
  | none ↦ if not cluster_scoped then check_namespace p ns else none
]

pub record ScaleArgs : Type 0 where
  pub kind : String
  pub namespace : String
  pub name : String
  pub replicas : ℤ
  pub dry_run : Bool

-- One case of the `switch` of `scale`: reads the scale, then updates it; `word` is the kind in the
-- actions of its errors. The last step is the text after the switch.
unfoldable pub scale_resource : Resource → String → String → ScaleArgs → Prog Outcome
scale_resource res word ns a = do
  before ←
      answer ("get scale for " <> word <> " " <> ns <> "/" <> a.name)
        (call (get_scale res (namespaced ns) a.name))
  answer ("scale " <> word <> " " <> ns <> "/" <> a.name)
      (call (update_scale res (namespaced ns) a.name a.replicas a.dry_run))
  let verb : String = if a.dry_run then "would scale (dry run)" else "scaled"
  ret (
      text (
        s a.kind
        ∷ s " "
        ∷ s ns
        ∷ s "/"
        ∷ s a.name
        ∷ s " "
        ∷ s verb
        ∷ s " from "
        ∷ d before
        ∷ s " to "
        ∷ d a.replicas
        ∷ s " replicas\n"
        ∷ []))

unfoldable pub scale : Policy → ScaleArgs → Prog Outcome
unfolding scale_resource
scale p a = do
  guard (check_mutating p)
  guard (validate_name a.name)
  let ns : String = resolve_ns a.namespace
  guard (policy_target p ns false)
  call (attach a.kind ns a.name a.dry_run)
  if is_deployment a.kind
      then scale_resource deployments "deployment" ns a
      else if is_stateful_set a.kind
      then scale_resource stateful_sets "statefulset" ns a
      else if is_replica_set a.kind
      then scale_resource replica_sets "replicaset" ns a
      else ret (tool_error (unsupported_kind a.kind))

unfoldable pub patch_resource :
    Resource → String → String → String → String → Body → String → Prog Outcome
patch_resource res word kind ns name body action = do
  answer (action <> " " <> word <> " " <> ns <> "/" <> name)
      (call (patch res (namespaced ns) name merge body false))
  ret (text (lowered kind ∷ s " " ∷ s ns ∷ s "/" ∷ s name ∷ s ": " ∷ s action ∷ s "\n" ∷ []))

-- `mutateController`; marshalling a patch of these shapes does not fail.
unfoldable pub mutate_controller : String → String → String → Body → String → Prog Outcome
unfolding patch_resource
mutate_controller kind ns name body action =
    if is_deployment kind
    then patch_resource deployments "deployment" kind ns name body action
    else if is_stateful_set kind
    then patch_resource stateful_sets "statefulset" kind ns name body action
    else if is_daemon_set kind
    then patch_resource daemon_sets "daemonset" kind ns name body action
    else ret (tool_error (unsupported_controller kind))

pub record RolloutMutArgs : Type 0 where
  pub kind : String
  pub namespace : String
  pub name : String
  pub revision : String

unfoldable pub rollout_restart : Policy → RolloutMutArgs → Prog Outcome
rollout_restart p a = do
  guard (check_mutating p)
  guard (validate_name a.name)
  let ns : String = resolve_ns a.namespace
  guard (policy_target p ns false)
  call (attach a.kind ns a.name false)
  stamp ← call now
  mutate_controller a.kind ns a.name (restarted_at stamp) "restart"
