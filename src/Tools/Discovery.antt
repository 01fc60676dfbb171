-- ===== src/Tools/Discovery.antt =====
-- internal/tools/discovery.go: from a kind to the resource that serves it.
use go_kubernetes_mcp_server.Base.{
  String, ◌==◌, Bool, ◌&&◌, ◌||◌, not, Option, none, some, List, [], ◌∷◌, if◌then◌else◌, is_empty,
  cut_at, contains_char, equal_fold,
}
use go_kubernetes_mcp_server.Err.{Err, ApiError, discovery_failed, kind_not_found}
use go_kubernetes_mcp_server.Kube.{
  Gvr, ApiResource, ApiResourceList, Prog, ret, call, server_groups_and_resources,
}
use go_kubernetes_mcp_server.Tools.Handler.{Handler, Outcome, tool_error}

-- The group and the version of "group/version" or "version".
pub split_group_version : String → String × String
split_group_version gv = elim (cut_at b'/' gv) [ none ↦ ("", gv) | some (a, b) ↦ (a, b) ]

-- The loop over the resources of one group version. `strings.EqualFold` decides the kind, and a
-- name with a '/' is a subresource.
pub find_resource : String → List ApiResource → Option ApiResource
find_resource kind [] = none
find_resource kind (r ∷ rs) =
    if not (equal_fold r.kind kind) || contains_char b'/' r.name
    then find_resource kind rs
    else some r

-- The loop over the lists; a version or a group that is not asked for passes.
pub find_gvr : String → String → String → List ApiResourceList → Option (Gvr × Bool)
unfolding find_resource split_group_version
find_gvr want_group want_version kind [] = none
find_gvr want_group want_version kind (rl ∷ rls) =
    let rest = find_gvr want_group want_version kind rls in
    let (group, version) = split_group_version rl.group_version in
    if not (want_version == "") && not (version == want_version)
      || not (want_group == "") && not (group == want_group)
    then rest
    else elim (find_resource kind rl.api_resources) [
      | some r ↦ some (record { group = group; version = version; resource = r.name }, r.namespaced)
      | none ↦ rest
    ]

pub data Resolved : Type 0 where
  resolved : Gvr → Bool → Resolved
  unresolved : Err → Resolved

unfoldable pub resolve_gvr : List ApiResourceList → Option ApiError → String → String → Resolved
unfolding find_gvr
resolve_gvr lists err kind api_version =
    let (want_group, want_version) =
      if not (api_version == "") then split_group_version api_version else ("", "") in
    let found : Resolved = elim (find_gvr want_group want_version kind lists) [
      | some (gvr, namespaced) ↦ resolved gvr namespaced
      | none ↦ unresolved (kind_not_found kind api_version)
    ] in
    elim err [
      | some e ↦ if is_empty lists then unresolved (discovery_failed e) else found
      | none ↦ found
    ]

-- The step of a handler that resolves a kind, with `wrap` around an error's message.
unfoldable pub go_on : (Err → Err) → (Gvr × Bool → Prog Outcome) → Resolved → Prog Outcome
go_on wrap k (resolved gvr namespaced) = k (gvr, namespaced)
go_on wrap k (unresolved e) = ret (tool_error (wrap e))

abbrev pub with_gvr : (Err → Err) → String → String → Handler (Gvr × Bool)
with_gvr wrap kind api_version k =
    call server_groups_and_resources (λ r. go_on wrap k (resolve_gvr r.0 r.1 kind api_version))
