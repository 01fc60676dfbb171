-- ===== src/Operations/Meta.antt =====
-- internal/tools/operations/scale.go: label and annotate.
use go_kubernetes_mcp_server.Base.{
  String, ◌==◌, Bool, true, false, not, Option, none, some, [], ◌∷◌, map, if◌then◌else◌, StringMap,
  lookup, ◌<>◌,
}
use go_kubernetes_mcp_server.Err.{Err, key_exists}
use go_kubernetes_mcp_server.Security.{Policy, check_mutating}
use go_kubernetes_mcp_server.Rpc.{validate_name}
use go_kubernetes_mcp_server.Kube.{
  Scope, namespaced, cluster, Prog, ret, call, attach, get_object, patch, dynamic, merge, metadata,
}
use go_kubernetes_mcp_server.Tools.Handler.{Outcome, text, s, v, ◌>>=◌, ◌>>◌, guard, answer}
use go_kubernetes_mcp_server.Tools.Util.{resolve_ns}
use go_kubernetes_mcp_server.Tools.Discovery.{with_gvr}
use go_kubernetes_mcp_server.Operations.Scale.{policy_target}

pub record MetaPatchArgs : Type 0 where
  pub kind : String
  pub api_version : String
  pub namespace : String
  pub name : String
  pub items : StringMap String
  pub overwrite : Bool

-- `nri.Namespace(ns)` or `nri`, as the resource is namespaced or not.
abbrev pub scope_of : Bool → String → Scope
scope_of true ns = namespaced ns
scope_of false ns = cluster

-- The loop over the items: the first key that the object has already.
unfoldable pub existing_key : StringMap String → StringMap String → Option Err
existing_key [] current = none
existing_key ((k, _) ∷ items) current = elim (lookup k current) [
  | some _ ↦ some (key_exists k)
  | none ↦ existing_key items current
]

-- `metaPatcher`; marshalling the patch does not fail.
unfoldable pub meta_patcher : String → String → Policy → MetaPatchArgs → Prog Outcome
meta_patcher action field p a = do
  guard (check_mutating p)
  guard (validate_name a.name)
  found ← with_gvr (λ err. err) a.kind a.api_version
  let ns : String = resolve_ns a.namespace
  guard (policy_target p ns (not found.1))
  call (attach a.kind ns a.name false)
  existing ←
      answer ("get " <> a.kind <> " " <> ns <> "/" <> a.name)
        (call (get_object (dynamic found.0) (scope_of found.1 ns) a.name))
  let current = if field == "annotations" then existing.annotations else existing.labels
  guard (if not a.overwrite then existing_key a.items current else none)
  answer (action <> " " <> a.kind <> " " <> (if found.1 then ns <> "/" <> a.name else a.name)) (
      call
        (patch (dynamic found.0) (scope_of found.1 ns) a.name merge (metadata field a.items) false))
  ret (
      text (
        s action
        ∷ s "d "
        ∷ s a.kind
        ∷ s " "
        ∷ s ns
        ∷ s "/"
        ∷ s a.name
        ∷ s ": "
        ∷ v (map (λ e. e.0) a.items)
        ∷ s "\n"
        ∷ []))

unfoldable pub label : Policy → MetaPatchArgs → Prog Outcome
unfolding meta_patcher
label = meta_patcher "label" "labels"

unfoldable pub annotate : Policy → MetaPatchArgs → Prog Outcome
unfolding meta_patcher
annotate = meta_patcher "annotate" "annotations"
