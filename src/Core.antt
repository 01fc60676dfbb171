-- ===== src/Core.antt =====
-- internal/tools/core/core.go: the tools that read namespaces, nodes, API resources and events.
pub mod Format
pub mod Health
mod Laws
mod Tests
pub mod Reads
use go_kubernetes_mcp_server.Base.{
  ℕ, ℤ, pos, negsuc, String, ◌==◌, Bool, true, false, ◌&&◌, not, Option, none, some, List, [], ◌∷◌,
  ◌++◌, map, ltb, if◌then◌else◌, is_empty, length, take, ◌<>◌, join, cut_at, utf8, encode,
  show_bool, before, sort_by,
}
use go_kubernetes_mcp_server.Err.{Err, ApiError, all_namespaces_not_permitted}
use go_kubernetes_mcp_server.Security.{Policy}
use go_kubernetes_mcp_server.Rpc.{validate_name, validate_selector_token}
use go_kubernetes_mcp_server.Kube.{
  Prog, ret, call, Answer, ok, failed, cluster, namespaced, attach, list_objects, get_one,
  server_groups_and_resources, ApiResource, ApiResourceList,
}
use go_kubernetes_mcp_server.Kube.Objects.{
  Kind, Item, namespace_kind, node_kind, event_kind, Namespace, NodeObject, Event, ListOptions,
}
use go_kubernetes_mcp_server.Tools.Handler.{
  Outcome, text, tool_error, fail, Piece, s, e, bytes, Handler, ◌>>=◌, ◌>>◌, guard, answer,
  rpc_status_error,
}
use go_kubernetes_mcp_server.Tools.Util.{
  ListArgs, age_str, resolve_list_args, resolve_ns, check_scope,
}
use go_kubernetes_mcp_server.Tools.Listing.{
  NamespaceNameArgs, resolved, table_text, table, trunc_cell,
}
use go_kubernetes_mcp_server.Core.Format.{
  describe_namespace, node_status, node_roles, node_version, describe_node_object, event_time,
}
use go_kubernetes_mcp_server.Core.Health.{no_options}

unfoldable pub list_namespaces : Prog Outcome
list_namespaces = do
  items ← answer "list namespaces" (call (list_objects namespace_kind cluster no_options))
  ret (
      table_text ("NAME" ∷ "STATUS" ∷ "AGE" ∷ []) (
        map (λ ns. utf8 ns.name ∷ utf8 ns.phase ∷ utf8 (age_str ns.age) ∷ [])
          (sort_by (λ a b. before a.name b.name) items)))

-- One object at cluster scope, by name: no scope is checked.
unfoldable pub get_cluster_object :
    (k : Kind) → NamespaceNameArgs → String → String → (Item k → Prog Outcome) → Prog Outcome
get_cluster_object k a kind action show = do
  guard (validate_name a.name)
  call (attach kind "" a.name false)
  found ← answer (action <> " " <> a.name) (call (get_one k cluster a.name))
  show found

unfoldable pub get_namespace : NamespaceNameArgs → Prog Outcome
unfolding get_cluster_object
get_namespace a =
    get_cluster_object namespace_kind a "Namespace" "get namespace"
      λ ns. ret (text (describe_namespace ns))

abbrev node_row : NodeObject → List (List ℕ)
node_row n =
    utf8 n.name
    ∷ utf8 (node_status n)
    ∷ utf8 (node_roles n)
    ∷ utf8 (node_version n)
    ∷ utf8 (age_str n.age)
    ∷ []

unfoldable pub list_nodes : ListArgs → Prog Outcome
list_nodes a = do
  found ← resolved (resolve_list_args a)
  items ← answer "list nodes" (call (list_objects node_kind cluster found.1))
  ret (table_text ("NAME" ∷ "STATUS" ∷ "ROLES" ∷ "VERSION" ∷ "AGE" ∷ []) (map node_row items))

unfoldable pub get_node : NamespaceNameArgs → Prog Outcome
unfolding get_cluster_object
get_node a =
    get_cluster_object node_kind a "Node" "get node" λ n. ret (text (describe_node_object n))

unfoldable pub describe_node : NamespaceNameArgs → Prog Outcome
unfolding get_node
describe_node a = get_node a

-- `strings.Index(gv, "/")`
unfoldable pub split_gv : String → String × String
split_gv gv = elim (cut_at b'/' gv) [ none ↦ ("", gv) | some parts ↦ parts ]

abbrev pub ResourceRow : Type 0
ResourceRow = String × String × String × String × Bool × List String

unfoldable pub resource_rows : Bool → String → String → List ApiResource → List ResourceRow
resource_rows namespaced_only group version [] = []
resource_rows namespaced_only group version (r ∷ rs) =
    let rest = resource_rows namespaced_only group version rs in
    if namespaced_only && not r.namespaced
    then rest
    else (r.name, r.kind, group, version, r.namespaced, r.verbs) ∷ rest

unfoldable pub api_rows : Bool → List ApiResourceList → List ResourceRow
unfolding resource_rows split_gv
api_rows namespaced_only [] = []
api_rows namespaced_only (rl ∷ rls) =
    let gv = split_gv rl.group_version in
    resource_rows namespaced_only gv.0 gv.1 rl.api_resources ++ api_rows namespaced_only rls

-- `rows[i][1]+rows[i][2]+rows[i][3]`
abbrev sort_key : ResourceRow → String
sort_key (name, kind, group, version, scoped, verbs) = kind <> group <> version

abbrev api_row : ResourceRow → List (List ℕ)
api_row (name, kind, group, version, scoped, verbs) =
    utf8 name
    ∷ utf8 kind
    ∷ utf8 group
    ∷ utf8 version
    ∷ utf8 (show_bool scoped)
    ∷ utf8 ("[" <> join "," verbs <> "]")
    ∷ []

unfoldable pub show_api : Bool → List ApiResourceList → Option ApiError → Outcome
unfolding api_rows
show_api namespaced_only lists err =
    let sorted : List ResourceRow =
      sort_by (λ a b. before (sort_key a) (sort_key b)) (api_rows namespaced_only lists) in
    let shown : List ℕ =
      table ("NAME" ∷ "KIND" ∷ "GROUP" ∷ "VERSION" ∷ "NAMESPACED" ∷ "VERBS" ∷ [])
        (map api_row sorted) in
    text (
      bytes shown ∷ elim err [
        | none ↦ []
        | some x ↦ s "\nNote: discovery returned partial results: " ∷ e x ∷ s "\n" ∷ []
      ])

unfoldable pub discovered : Bool → List ApiResourceList × Option ApiError → Outcome
unfolding show_api
discovered namespaced_only ([], some err) = fail (rpc_status_error err "discover API resources")
discovered namespaced_only (lists, err) = show_api namespaced_only lists err

unfoldable pub get_api_resources : Bool → Prog Outcome
unfolding discovered
get_api_resources namespaced_only =
    call server_groups_and_resources λ found. ret (discovered namespaced_only found)

pub record EventsArgs : Type 0 where
  pub namespace : String
  pub kind : String
  pub name : String
  pub field_selector : String
  pub all_namespaces : Bool
  pub limit : ℤ

-- The guard of `listEvents` and of `topPods`.
unfoldable pub check_listed : Policy → String → Option Err
check_listed p ns =
    if ns == ""
    then (if is_empty p.namespaces then none else some all_namespaces_not_permitted)
    else check_scope p ns false

abbrev pub event_selector : EventsArgs → String
event_selector a =
    if not (a.kind == "") && not (a.name == "")
    then "involvedObject.kind=" <> a.kind <> ",involvedObject.name=" <> a.name
    else if not (a.field_selector == "")
    then a.field_selector
    else ""

-- `After`, of times that are given as the time since them; the zero time is before all others.
unfoldable pub is_after : Option ℕ → Option ℕ → Bool
is_after none b = false
is_after (some a) none = true
is_after (some a) (some b) = ltb a b

-- The limit that cuts a list that is longer.
unfoldable pub cut_events : ℤ → List Event → List Event
cut_events (pos ℕ.zero) items = items
cut_events (pos (ℕ.suc n)) items =
    if ltb (ℕ.suc n) (length items) then take (ℕ.suc n) items else items
cut_events (negsuc n) items = items

abbrev event_row : Event → List (List ℕ)
event_row ev =
    utf8 (age_str (event_time ev))
    ∷ utf8 ev.type_name
    ∷ utf8 ev.reason
    ∷ utf8 (ev.object_kind <> "/" <> ev.object_name)
    ∷ trunc_cell 80 ev.message
    ∷ []

unfoldable pub recent : ℤ → List Event → List Event
unfolding cut_events is_after
recent limit items =
    cut_events limit (sort_by (λ a b. is_after (event_time a) (event_time b)) items)

unfoldable pub list_events : Policy → EventsArgs → Prog Outcome
unfolding check_listed recent
list_events p a = do
  guard (validate_selector_token a.kind)
  guard (validate_selector_token a.name)
  let ns : String = if a.all_namespaces then "" else resolve_ns a.namespace
  guard (check_listed p ns)
  call (attach "Event" ns "" false)
  items ← answer "list events" (
      call (
        list_objects event_kind (namespaced ns)
          (record { label_selector = ""; field_selector = event_selector a; limit = a.limit })))
  ret (
      table_text ("LAST SEEN" ∷ "TYPE" ∷ "REASON" ∷ "OBJECT" ∷ "MESSAGE" ∷ [])
        (map event_row (recent a.limit items)))
