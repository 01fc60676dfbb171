-- ===== src/Operations/Safety/Creates.antt =====
-- The tools that create and the tools on resources of any kind.
use go_kubernetes_mcp_server.Base.{◌≡◌, refl, Bool, true, false, String, Option, none, some}
use go_kubernetes_mcp_server.Err.{Err}
use go_kubernetes_mcp_server.Security.{Policy}
use go_kubernetes_mcp_server.Kube.{Prog, Act, Gvr, namespaced, PatchType}
use go_kubernetes_mcp_server.Kube.Rules.{Acts, done, act, Attached, unattached}
use go_kubernetes_mcp_server.Tools.Handler.{Outcome}
use go_kubernetes_mcp_server.Tools.Handler.Rules.{guard-Acts, settle-Acts}
use go_kubernetes_mcp_server.Tools.Discovery.{Resolved, resolved, unresolved, go_on}
use go_kubernetes_mcp_server.Operations.Resources.{
  CreateNamespaceArgs, create_namespace, ConfigMapArgs, create_configmap, update_configmap,
  SecretArgs, create_secret, CreateServiceArgs, create_service, create_service_as,
}
use go_kubernetes_mcp_server.Operations.Meta.{MetaPatchArgs, meta_patcher}
use go_kubernetes_mcp_server.Operations.Manifest.{
  PatchArgs, patch_tool, ParsedType, parsed, unparsed, go_on_parsed,
}
use go_kubernetes_mcp_server.Operations.Delete.{DeleteArgs, delete_manifest}
use go_kubernetes_mcp_server.Operations.Safety.{
  Permitted, Reachable, Recorded, check_mutating-allow, check_destructive-allow,
  resolve_ns-ne_empty, policy_target-Reachable, policy_target-cluster, check_target-cluster,
}

pub create_namespace-Acts :
    (p : Policy) (a : CreateNamespaceArgs)
    → Acts (Permitted p p.allow_writes a.dry_run) unattached (create_namespace p a)
unfolding create_namespace
create_namespace-Acts p a = guard-Acts _ _ λ w. guard-Acts _ _ λ n. guard-Acts _ _ λ t. act tt λ u.
    act (check_mutating-allow p w, check_target-cluster p _ t, (refl, refl), refl)
      λ x. settle-Acts _ _ x λ y. done

pub create_configmap-Acts :
    (p : Policy) (a : ConfigMapArgs)
    → Acts (Permitted p p.allow_writes a.dry_run) unattached (create_configmap p a)
unfolding create_configmap
create_configmap-Acts p a = guard-Acts _ _ λ w. guard-Acts _ _ λ n. guard-Acts _ _ λ t. act tt λ u.
    let near = policy_target-Reachable p _ (resolve_ns-ne_empty a.namespace) t in
    act (check_mutating-allow p w, near, (refl, refl, refl), refl) λ x. settle-Acts _ _ x λ y. done

pub update_configmap-Acts :
    (p : Policy) (a : ConfigMapArgs)
    → Acts (Permitted p p.allow_writes a.dry_run) unattached (update_configmap p a)
unfolding update_configmap
update_configmap-Acts p a = guard-Acts _ _ λ w. guard-Acts _ _ λ n. guard-Acts _ _ λ t. act tt λ u.
    act tt λ cur.
      let near = policy_target-Reachable p _ (resolve_ns-ne_empty a.namespace) t in
      act (check_mutating-allow p w, near, (refl, refl, refl), refl)
        λ x. settle-Acts _ _ x λ y. done

pub create_secret-Acts :
    (p : Policy) (a : SecretArgs)
    → Acts (Permitted p p.allow_writes a.dry_run) unattached (create_secret p a)
unfolding create_secret
create_secret-Acts p a = guard-Acts _ _ λ w. guard-Acts _ _ λ n. guard-Acts _ _ λ t. act tt λ u.
    let near = policy_target-Reachable p _ (resolve_ns-ne_empty a.namespace) t in
    act (check_mutating-allow p w, near, (refl, refl, refl), refl) λ x. settle-Acts _ _ x λ y. done

create_service_as-Acts :
    (p : Policy) {r : Attached} (ns given : String) (a : CreateServiceArgs) (t : Option String)
    → p.allow_writes ≡ true
    → Reachable p (namespaced ns)
    → Recorded r (namespaced ns) a.name a.dry_run
    → Acts (Permitted p p.allow_writes a.dry_run) r (create_service_as ns given a t)
unfolding create_service_as
create_service_as-Acts p ns given a none w near rec = done
create_service_as-Acts p ns given a (some st) w near rec =
    act (w, near, rec, refl) λ x. settle-Acts _ _ x λ y. done

pub create_service-Acts :
    (p : Policy) (a : CreateServiceArgs)
    → Acts (Permitted p p.allow_writes a.dry_run) unattached (create_service p a)
unfolding create_service
create_service-Acts p a = guard-Acts _ _ λ w. guard-Acts _ _ λ n. guard-Acts _ _ λ z.
    guard-Acts _ _ λ t. act tt λ u.
      create_service_as-Acts p _ _ a _ (check_mutating-allow p w)
        (policy_target-Reachable p _ (resolve_ns-ne_empty a.namespace) t) (refl, refl, refl)

-- A resolved kind decides between the namespace and the cluster.
pub go_on-Acts :
    {P : Attached → Act → Type 0} {r : Attached} (wrap : Err → Err) (k : Gvr × Bool → Prog Outcome)
    (found : Resolved)
    → ((gvr : Gvr) → Acts P r (k (gvr, true)))
    → ((gvr : Gvr) → Acts P r (k (gvr, false)))
    → Acts P r (go_on wrap k found)
unfolding go_on
go_on-Acts wrap k (resolved gvr true) h g = h gvr
go_on-Acts wrap k (resolved gvr false) h g = g gvr
go_on-Acts wrap k (unresolved err) h g = done

pub meta_patcher-Acts :
    (action field : String) (p : Policy) (a : MetaPatchArgs)
    → Acts (Permitted p p.allow_writes false) unattached (meta_patcher action field p a)
unfolding meta_patcher
meta_patcher-Acts action field p a = guard-Acts _ _ λ w. guard-Acts _ _ λ n. act tt λ found.
    go_on-Acts _ _ _
      (λ gvr. guard-Acts _ _ λ t. act tt λ u. act tt λ x. settle-Acts _ _ x λ cur.
        guard-Acts _ _ λ k.
          let near = policy_target-Reachable p _ (resolve_ns-ne_empty a.namespace) t in
          act (check_mutating-allow p w, near, (refl, refl, refl), refl)
            λ y. settle-Acts _ _ y λ z. done)
      (λ gvr. guard-Acts _ _ λ t. act tt λ u. act tt λ x. settle-Acts _ _ x λ cur.
        guard-Acts _ _ λ k.
          act (check_mutating-allow p w, policy_target-cluster p _ t, (refl, refl), refl)
            λ y. settle-Acts _ _ y λ z. done)

go_on_parsed-Acts :
    {P : Attached → Act → Type 0} {r : Attached} (k : PatchType → Prog Outcome) (t : ParsedType)
    → ((pt : PatchType) → Acts P r (k pt))
    → Acts P r (go_on_parsed k t)
unfolding go_on_parsed
go_on_parsed-Acts k (parsed pt) h = h pt
go_on_parsed-Acts k (unparsed err) h = done

pub patch_tool-Acts :
    (p : Policy) (a : PatchArgs)
    → Acts (Permitted p p.allow_writes a.dry_run) unattached (patch_tool p a)
unfolding patch_tool
patch_tool-Acts p a = guard-Acts _ _ λ w. guard-Acts _ _ λ n. go_on_parsed-Acts _ _ λ pt.
    act tt λ found.
      go_on-Acts _ _ _
        (λ gvr. guard-Acts _ _ λ t. act tt λ u. act tt λ v.
          let near = policy_target-Reachable p _ (resolve_ns-ne_empty a.namespace) t in
          act (check_mutating-allow p w, near, (refl, refl, refl), refl)
            λ y. settle-Acts _ _ y λ z. done)
        (λ gvr. guard-Acts _ _ λ t. act tt λ u. act tt λ v.
          act (check_mutating-allow p w, policy_target-cluster p _ t, (refl, refl), refl)
            λ y. settle-Acts _ _ y λ z. done)

pub delete_manifest-Acts :
    (p : Policy) (a : DeleteArgs)
    → Acts (Permitted p p.allow_destructive a.dry_run) unattached (delete_manifest p a)
unfolding delete_manifest
delete_manifest-Acts p a = guard-Acts _ _ λ w. guard-Acts _ _ λ n. act tt λ found.
    go_on-Acts _ _ _
      (λ gvr. guard-Acts _ _ λ t. act tt λ u.
        let near = policy_target-Reachable p _ (resolve_ns-ne_empty a.namespace) t in
        act (check_destructive-allow p w, near, (refl, refl, refl), refl)
          λ y. settle-Acts _ _ y λ z. done)
      (λ gvr. guard-Acts _ _ λ t. act tt λ u.
        act (check_destructive-allow p w, policy_target-cluster p _ t, (refl, refl), refl)
          λ y. settle-Acts _ _ y λ z. done)
