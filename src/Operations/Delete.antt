-- ===== src/Operations/Delete.antt =====
-- internal/tools/operations/delete.go: delete_pod and delete_manifest.
use go_kubernetes_mcp_server.Base.{
  ℤ, String, ◌==◌, Bool, not, Option, none, some, [], ◌∷◌, if◌then◌else◌, ◌<>◌,
}
use go_kubernetes_mcp_server.Security.{Policy, check_destructive, check_namespace}
use go_kubernetes_mcp_server.Rpc.{validate_name}
use go_kubernetes_mcp_server.Kube.{
  namespaced, Prog, ret, call, attach, delete, pods, dynamic, Propagation, background, foreground,
  orphan,
}
use go_kubernetes_mcp_server.Tools.Handler.{Outcome, text, s, ◌>>=◌, ◌>>◌, guard, answer}
use go_kubernetes_mcp_server.Tools.Util.{resolve_ns}
use go_kubernetes_mcp_server.Tools.Discovery.{with_gvr}
use go_kubernetes_mcp_server.Operations.Scale.{policy_target}
use go_kubernetes_mcp_server.Operations.Meta.{scope_of}

pub record DeletePodArgs : Type 0 where
  pub namespace : String
  pub name : String
  pub grace_period : Option ℤ
  pub dry_run : Bool

abbrev delete_verb : Bool → String
delete_verb dry = if dry then "would delete (dry run)" else "deleted"

unfoldable pub delete_pod : Policy → DeletePodArgs → Prog Outcome
delete_pod p a = do
  guard (check_destructive p)
  guard (validate_name a.name)
  let ns : String = resolve_ns a.namespace
  guard (check_namespace p ns)
  call (attach "Pod" ns a.name a.dry_run)
  answer ("delete pod " <> ns <> "/" <> a.name)
      (call (delete pods (namespaced ns) a.name a.grace_period none a.dry_run))
  ret (text (s "pod " ∷ s ns ∷ s "/" ∷ s a.name ∷ s " " ∷ s (delete_verb a.dry_run) ∷ s "\n" ∷ []))

pub record DeleteArgs : Type 0 where
  pub kind : String
  pub api_version : String
  pub namespace : String
  pub name : String
  pub cascade : String
  pub dry_run : Bool

pub propagation : String → Propagation
propagation cascade =
    if cascade == "foreground"
    then foreground
    else if cascade == "orphan"
    then orphan
    else background

unfoldable pub delete_manifest : Policy → DeleteArgs → Prog Outcome
unfolding propagation
delete_manifest p a = do
  guard (check_destructive p)
  guard (validate_name a.name)
  found ← with_gvr (λ err. err) a.kind a.api_version
  let ns : String = resolve_ns a.namespace
  guard (policy_target p ns (not found.1))
  call (attach a.kind (if not found.1 then "" else ns) a.name a.dry_run)
  let target : String = if found.1 then ns <> "/" <> a.name else a.name
  answer ("delete " <> a.kind <> " " <> target) (
      call (
        delete (dynamic found.0) (scope_of found.1 ns) a.name none (some (propagation a.cascade))
          a.dry_run))
  ret (
      text (
        s a.kind
        ∷ s " "
        ∷ s target
        ∷ s " "
        ∷ s (delete_verb a.dry_run)
        ∷ s " (cascade="
        ∷ s (if a.cascade == "" then "background" else a.cascade)
        ∷ s ")\n"
        ∷ []))
