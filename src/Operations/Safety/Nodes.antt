-- ===== src/Operations/Safety/Nodes.antt =====
-- delete_pod and the tools on nodes, which check less than the other tools do.
use go_kubernetes_mcp_server.Base.{
  ◌≡◌, refl, Bool, true, false, String, Option, none, some, List, [], ◌∷◌,
}
use go_kubernetes_mcp_server.Security.{Policy, check_namespace}
use go_kubernetes_mcp_server.Kube.{namespaced, cluster, Act, Pod, Prog, evict}
use go_kubernetes_mcp_server.Kube.Rules.{
  Acts, done, act, Attached, unattached, Effect, reads, writes, effect,
}
use go_kubernetes_mcp_server.Tools.Handler.{Outcome}
use go_kubernetes_mcp_server.Tools.Handler.Rules.{guard-Acts, settle-Acts}
use go_kubernetes_mcp_server.Operations.Delete.{DeletePodArgs, delete_pod}
use go_kubernetes_mcp_server.Operations.Nodes.{
  DrainArgs, drain_pod, drain_pods, drain_node, Drained, skip_reason, Reason, skip, count_eviction,
}
use go_kubernetes_mcp_server.Operations.Safety.{
  Recorded, check_destructive-allow, check_target-cluster,
}

-- What delete_pod keeps to: the flag, the allowlist, the record and the dry run, in its one namespace.
abbrev pub OnDelete : Policy → Bool → Attached → Effect → Type 0
OnDelete p dry_run r reads = Unit
OnDelete p dry_run r (writes (namespaced ns) name dry) =
    (p.allow_destructive ≡ true)
    × (check_namespace p ns ≡ none)
    × Recorded r (namespaced ns) name dry
    × (dry ≡ dry_run)
OnDelete p dry_run r (writes cluster name dry) = ⊥

-- Whatever the server answers, each write of delete_pod is under the flag for destructive tools, in a
-- namespace of the allowlist, named by the audit record as it stands then, and a dry run exactly if one
-- was asked for; it writes nothing at cluster scope.
pub delete_pod-Acts :
    (p : Policy) (a : DeletePodArgs)
    → Acts (λ r x. OnDelete p a.dry_run r (effect x)) unattached (delete_pod p a)
unfolding delete_pod
delete_pod-Acts p a = guard-Acts _ _ λ w. guard-Acts _ _ λ n. guard-Acts _ _ λ c. act tt λ u.
    act (check_destructive-allow p w, c, (refl, refl, refl), refl) λ x. settle-Acts _ _ x λ y. done

-- What the tools on a node keep to.
abbrev pub OnNode : Policy → Bool → String → Effect → Type 0
OnNode p flag node reads = Unit
OnNode p flag node (writes cluster name dry) =
    (flag ≡ true) × (p.allow_privileged_targets ≡ true) × (name ≡ node) × (dry ≡ false)
OnNode p flag node (writes (namespaced ns) name dry) =
    (flag ≡ true) × (p.allow_privileged_targets ≡ true) × (dry ≡ false)

drain_pod-Acts :
    {P : Attached → Act → Type 0} {r : Attached} (p : Pod) (t : Drained)
    (rest : Drained → Prog Outcome) (reason : Option Reason)
    → P r (evict (namespaced p.namespace) p.name)
    → ((t' : Drained) → Acts P r (rest t'))
    → Acts P r (drain_pod p t rest reason)
unfolding drain_pod
drain_pod-Acts p t rest (some why) e h = h (skip p why t)
drain_pod-Acts p t rest none e h = act e λ x. h (count_eviction p t x)

drain_pods-Acts :
    {P : Attached → Act → Type 0} {r : Attached} (a : DrainArgs) (ps : List Pod) (t : Drained)
    (k : Drained → Prog Outcome)
    → ((ns name : String) → P r (evict (namespaced ns) name))
    → ((t' : Drained) → Acts P r (k t'))
    → Acts P r (drain_pods a ps t k)
unfolding drain_pods
drain_pods-Acts a [] t k e h = h t
drain_pods-Acts a (p ∷ ps) t k e h =
    drain_pod-Acts p t _ (skip_reason p a) (e _ _) λ t'. drain_pods-Acts a ps t' k e h

-- Whatever the server answers, each write of drain_node is under the flag for destructive tools, made
-- only with privileged targets allowed, never a dry run, and at cluster scope to the node named.
pub drain_node-Acts :
    (p : Policy) (a : DrainArgs)
    → Acts (λ r x. OnNode p p.allow_destructive a.name (effect x)) unattached (drain_node p a)
unfolding drain_node
drain_node-Acts p a = guard-Acts _ _ λ w. guard-Acts _ _ λ n. guard-Acts _ _ λ t. act tt λ u.
    let allowed = check_destructive-allow p w in
    let target = check_target-cluster p _ t in
    act (allowed, target, refl, refl)
      λ x. settle-Acts _ _ x λ y. act tt λ z.
        settle-Acts _ _ z
          λ pods. drain_pods-Acts a pods _ _ (λ ns name. (allowed, target, refl)) λ t'. done
