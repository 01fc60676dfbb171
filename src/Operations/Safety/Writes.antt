-- ===== src/Operations/Safety/Writes.antt =====
-- The writing tools, one by one.
use go_kubernetes_mcp_server.Base.{◌≡◌, refl, true, false, String, ◌==◌, Option, none, some, not}
use go_kubernetes_mcp_server.Err.{Err}
use go_kubernetes_mcp_server.Operations.Undo.{rollout_undo, roll_back_to}
use go_kubernetes_mcp_server.Security.{Policy}
use go_kubernetes_mcp_server.Kube.{Resource, Body, ReplicaSet, namespaced}
use go_kubernetes_mcp_server.Kube.Rules.{Acts, done, act, Attached, unattached}
use go_kubernetes_mcp_server.Tools.Handler.Rules.{guard-Acts, settle-Acts, if-Acts}
use go_kubernetes_mcp_server.Operations.Scale.{
  ScaleArgs, scale, scale_resource, RolloutMutArgs, rollout_restart, mutate_controller,
  is_deployment, is_stateful_set, is_replica_set, is_daemon_set, patch_resource,
}
use go_kubernetes_mcp_server.Operations.Safety.{
  Permitted, Reachable, check_mutating-allow, resolve_ns-ne_empty, policy_target-Reachable,
}

scale_resource-Acts :
    (p : Policy) {r : Attached} (res : Resource) (word ns : String) (a : ScaleArgs)
    → p.allow_writes ≡ true
    → Reachable p (namespaced ns)
    → r.name ≡ a.name
    → r.namespace ≡ ns
    → r.dry_run ≡ a.dry_run
    → Acts (Permitted p p.allow_writes a.dry_run) r (scale_resource res word ns a)
unfolding scale_resource
scale_resource-Acts p res word ns a w t e f g =
    act tt
      λ x. settle-Acts _ _ x λ before. act (w, t, (e, f, g), refl) λ y. settle-Acts _ _ y λ u. done

pub scale-Acts :
    (p : Policy) (a : ScaleArgs)
    → Acts (Permitted p p.allow_writes a.dry_run) unattached (scale p a)
unfolding scale
scale-Acts p a = guard-Acts _ _ λ w. guard-Acts _ _ λ n. guard-Acts _ _ λ t. act tt λ u.
    let near = policy_target-Reachable p _ (resolve_ns-ne_empty a.namespace) t in
    search (
      scale_resource-Acts,
      check_mutating-allow,
      done,
      if-Acts (is_deployment a.kind),
      if-Acts (is_stateful_set a.kind),
      if-Acts (is_replica_set a.kind),
    )

patch_resource-Acts :
    (p : Policy) {r : Attached} (res : Resource) (word kind ns name : String) (body : Body)
    (action : String)
    → p.allow_writes ≡ true
    → Reachable p (namespaced ns)
    → r.name ≡ name
    → r.namespace ≡ ns
    → r.dry_run ≡ false
    → Acts (Permitted p p.allow_writes false) r (patch_resource res word kind ns name body action)
unfolding patch_resource
patch_resource-Acts p res word kind ns name body action w t e f g =
    act (w, t, (e, f, g), refl) λ y. settle-Acts _ _ y λ u. done

pub mutate_controller-Acts :
    (p : Policy) {r : Attached} (kind ns name : String) (body : Body) (action : String)
    → p.allow_writes ≡ true
    → Reachable p (namespaced ns)
    → r.name ≡ name
    → r.namespace ≡ ns
    → r.dry_run ≡ false
    → Acts (Permitted p p.allow_writes false) r (mutate_controller kind ns name body action)
unfolding mutate_controller
mutate_controller-Acts p kind ns name body action w t e f g = search (
  patch_resource-Acts,
  done,
  if-Acts (is_deployment kind),
  if-Acts (is_stateful_set kind),
  if-Acts (is_daemon_set kind),
)

pub rollout_restart-Acts :
    (p : Policy) (a : RolloutMutArgs)
    → Acts (Permitted p p.allow_writes false) unattached (rollout_restart p a)
unfolding rollout_restart
rollout_restart-Acts p a = guard-Acts _ _ λ w. guard-Acts _ _ λ n. guard-Acts _ _ λ t. act tt λ u.
    act tt λ stamp.
      mutate_controller-Acts p a.kind _ a.name _ _ (check_mutating-allow p w)
        (policy_target-Reachable p _ (resolve_ns-ne_empty a.namespace) t) refl refl refl

roll_back_to-Acts :
    (p : Policy) {r : Attached} (ns name : String) (err : Err)
    (target : Option (String × ReplicaSet))
    → p.allow_writes ≡ true
    → Reachable p (namespaced ns)
    → r.name ≡ name
    → r.namespace ≡ ns
    → r.dry_run ≡ false
    → Acts (Permitted p p.allow_writes false) r (roll_back_to ns name err target)
unfolding roll_back_to
roll_back_to-Acts p ns name err none w t e f g = done
roll_back_to-Acts p ns name err (some (rev, rs)) w t e f g =
    mutate_controller-Acts p _ ns name _ _ w t e f g

pub rollout_undo-Acts :
    (p : Policy) (a : RolloutMutArgs)
    → Acts (Permitted p p.allow_writes false) unattached (rollout_undo p a)
unfolding rollout_undo
rollout_undo-Acts p a = guard-Acts _ _ λ w. guard-Acts _ _ λ n. guard-Acts _ _ λ t. act tt λ u.
    guard-Acts _ _ λ k. act tt λ x. settle-Acts _ _ x λ sets. guard-Acts _ _ λ h.
      let allowed = check_mutating-allow p w in
      let near = policy_target-Reachable p _ (resolve_ns-ne_empty a.namespace) t in
      if-Acts (not (a.revision == "")) _ _
        (roll_back_to-Acts p _ a.name _ _ allowed near refl refl refl)
        (act tt λ y. roll_back_to-Acts p _ a.name _ _ allowed near refl refl refl)
