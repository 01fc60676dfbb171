-- ===== src/Operations/Undo.antt =====
-- internal/tools/operations/scale.go: rollout_undo.
pub mod Order
pub mod Choice
mod Tests
mod Collected
use go_kubernetes_mcp_server.Base.{
  ℕ, ◌+◌, ◌*◌, ◌-◌, ℤ, pos, negsuc, String, ◌==◌, Bool, true, false, ◌&&◌, ◌||◌, not, Option, none,
  some, List, [], ◌∷◌, if◌then◌else◌, leb, equal_fold, StringMap, lookup, insert, ◌<>◌, codes,
  is_empty,
}
use go_kubernetes_mcp_server.Err.{
  Err, undo_only_deployments, no_history, revision_not_found, no_previous_revision,
}
use go_kubernetes_mcp_server.Security.{Policy, check_mutating}
use go_kubernetes_mcp_server.Rpc.{validate_name}
use go_kubernetes_mcp_server.Kube.{
  Prog, ret, call, attach, list_replica_sets, get_annotations, deployments, namespaced,
  OwnerReference, ReplicaSet, template, Answer, ok, failed,
}
use go_kubernetes_mcp_server.Tools.Handler.{
  Outcome, tool_error, ◌>>=◌, ◌>>◌, Handler, guard, answer,
}
use go_kubernetes_mcp_server.Tools.Util.{resolve_ns}
use go_kubernetes_mcp_server.Operations.Scale.{RolloutMutArgs, policy_target, mutate_controller}
use go_kubernetes_mcp_server.Operations.Undo.Order.{sorted_revisions_desc}

-- `r.Controller != nil && *r.Controller`
abbrev pub is_controller : Option Bool → Bool
is_controller none = false
is_controller (some b) = b

pub owned_by : List OwnerReference → String → String → Bool
owned_by [] name kind = false
owned_by (r ∷ rs) name kind =
    r.kind == kind && (r.name == name && is_controller r.controller) || owned_by rs name kind

abbrev pub revision_key : String
revision_key = "deployment.kubernetes.io/revision"

-- A missing key of a `map[string]string` reads as "".
pub value_or_empty : Option String → String
value_or_empty none = ""
value_or_empty (some x) = x

-- The loop that collects the replica sets of the deployment by revision; of two with one revision the
-- later one stays.
unfoldable pub collect : String → List ReplicaSet → StringMap ReplicaSet → StringMap ReplicaSet
unfolding owned_by value_or_empty
collect name [] by_rev = by_rev
collect name (rs ∷ sets) by_rev =
    let rev : String = value_or_empty (lookup revision_key rs.annotations) in
    collect name sets (
      if not (owned_by rs.owner_references name "Deployment")
      then by_rev
      else if rev == ""
      then by_rev
      else insert rev rs by_rev)

-- The first revision that is not the current one.
pub first_other : String → List String → Option String
first_other current [] = none
first_other current (r ∷ rs) = if r == current then first_other current rs else some r

pub previous_revision : String → StringMap ReplicaSet → Option String
unfolding first_other
previous_revision current by_rev = first_other current (sorted_revisions_desc by_rev)

-- `currentDeploymentRevision`, with its error dropped as the caller does.
unfoldable pub current_of : Answer (StringMap String) → String
unfolding value_or_empty
current_of (ok annotations) = value_or_empty (lookup revision_key annotations)
current_of (failed err) = ""

-- The patch to the template of the chosen replica set; encoding a template does not fail.
roll_back : String → String → String → ReplicaSet → Prog Outcome
roll_back ns name rev target =
    mutate_controller "Deployment" ns name (template target.template)
      ("rollback to revision " <> rev)

unfoldable pub roll_back_to : String → String → Err → Option (String × ReplicaSet) → Prog Outcome
unfolding roll_back
roll_back_to ns name err none = ret (tool_error err)
roll_back_to ns name err (some (rev, rs)) = roll_back ns name rev rs

abbrev pub with_key : StringMap ReplicaSet → Option String → Option (String × ReplicaSet)
with_key by_rev none = none
with_key by_rev (some rev) = elim (lookup rev by_rev) [ none ↦ none | some rs ↦ some (rev, rs) ]

unfoldable pub rollout_undo : Policy → RolloutMutArgs → Prog Outcome
unfolding roll_back_to
rollout_undo p a = do
  guard (check_mutating p)
  guard (validate_name a.name)
  let ns : String = resolve_ns a.namespace
  guard (policy_target p ns false)
  call (attach "Deployment" ns a.name false)
  guard (if not (equal_fold a.kind "deployment") then some (undo_only_deployments a.kind) else none)
  sets ← answer "list replicasets for undo" (call (list_replica_sets ns))
  let by_rev : StringMap ReplicaSet = collect a.name sets []
  guard (if is_empty by_rev then some (no_history ns a.name) else none)
  let previous : Prog Outcome = do
    annotations ← call (get_annotations deployments (namespaced ns) a.name)
    let current : String = current_of annotations
    roll_back_to ns a.name (no_previous_revision current)
        (with_key by_rev (previous_revision current by_rev))
  if not (a.revision == "")
      then roll_back_to ns a.name (revision_not_found a.revision)
          (with_key by_rev (some a.revision))
      else previous
