-- ===== src/Core/Format.antt =====
-- internal/tools/core/format.go: what the tools show of namespaces, nodes and events.
use go_kubernetes_mcp_server.Base.{
  ℕ, String, ◌==◌, Option, none, some, List, [], ◌∷◌, ◌++◌, map, any, if◌then◌else◌, is_empty, ◌<>◌,
  join, utf8, StringMap, lookup, sort_keys,
}
use Prim.Native.String.{len, slice}
use go_kubernetes_mcp_server.Kube.Objects.{Condition, Quantity, Namespace, NodeObject, Taint, Event}
use go_kubernetes_mcp_server.Tools.Handler.{Piece, s, bytes}
use go_kubernetes_mcp_server.Tools.Util.{age_str}
use go_kubernetes_mcp_server.Tools.Listing.{format_map, condition_table, table}

unfoldable pub describe_namespace : Namespace → List Piece
describe_namespace ns =
    (s "Name:         "
      ∷ s ns.name
      ∷ s "\nStatus:       "
      ∷ s ns.phase
      ∷ s "\nAge:          "
      ∷ s (age_str ns.age)
      ∷ s "\n"
      ∷ [])
    ++ ((if is_empty ns.labels
          then []
          else s "Labels:       " ∷ s (format_map ns.labels) ∷ s "\n" ∷ [])
        ++ (if is_empty ns.annotations
            then []
            else s "Annotations:  " ∷ s (format_map ns.annotations) ∷ s "\n" ∷ []))

-- The first loop of `nodeStatus`: the last condition of type Ready decides.
unfoldable pub ready_word : List Condition → String → String
ready_word [] word = word
ready_word (c ∷ cs) word =
    ready_word cs (
      if c.type_name == "Ready" then (if c.status == "True" then "Ready" else "NotReady") else word)

unfoldable pub extra_states : List Condition → List String
extra_states [] = []
extra_states (c ∷ cs) =
    let rest = extra_states cs in
    if c.type_name == "Ready" then rest else if c.status == "True" then c.type_name ∷ rest else rest

unfoldable pub node_status : NodeObject → String
unfolding ready_word extra_states
node_status n =
    let word : String = ready_word n.conditions "" in
    let ready : String = if word == "" then "Unknown" else word in
    let extra : List String = extra_states n.conditions in
    if is_empty extra then ready else ready <> "," <> join "," extra

-- A set of strings that `sets.List` sorts: each is in it once.
unfoldable pub distinct : List String → List String
distinct [] = []
distinct (t ∷ ts) = let rest = distinct ts in if any (λ u. u == t) rest then rest else t ∷ rest

abbrev pub role_prefix : String
role_prefix = "node-role.kubernetes.io/"

-- `strings.HasPrefix` and `strings.TrimPrefix` of the keys with the prefix; both cut at a byte.
unfoldable pub role_names : StringMap String → List String
role_names [] = []
role_names ((k, value) ∷ m) =
    let rest = role_names m in
    if slice k 0 (len role_prefix) == role_prefix
    then slice k (len role_prefix) (len k) ∷ rest
    else rest

unfoldable pub node_roles : NodeObject → String
unfolding role_names distinct
node_roles n =
    let roles : List String = distinct (role_names n.labels) in
    if is_empty roles then "<none>" else join "," (sort_keys roles)

unfoldable pub node_version : NodeObject → String
node_version n = if n.kubelet_version == "" then "<none>" else n.kubelet_version

unfoldable pub address_of : String → List (String × String) → Option String
address_of type_name [] = none
address_of type_name ((t, address) ∷ rest) =
    let later = address_of type_name rest in if t == type_name then some address else later

unfoldable pub node_internal_ip : NodeObject → String
unfolding address_of
node_internal_ip n = elim (address_of "InternalIP" n.addresses) [
  | some address ↦ address
  | none ↦ elim (address_of "ExternalIP" n.addresses) [ some address ↦ address | none ↦ "<none>" ]
]

unfoldable pub taint_text : Taint → String
taint_text t = t.key <> "=" <> t.value <> ":" <> t.effect

-- A quantity of a resource list; a missing one is the zero quantity, written "0".
unfoldable pub quantity_text : String → StringMap Quantity → String
quantity_text k m = elim (lookup k m) [ none ↦ "0" | some quantity ↦ quantity.text ]

unfoldable pub merge_keys : StringMap Quantity → StringMap Quantity → List String
unfolding distinct
merge_keys a b = sort_keys (distinct (map (λ x. x.0) a ++ map (λ x. x.0) b))

unfoldable pub resource_rows : NodeObject → List String → List (List (List ℕ))
unfolding quantity_text
resource_rows n [] = []
resource_rows n (k ∷ ks) =
    (utf8 k ∷ utf8 (quantity_text k n.capacity) ∷ utf8 (quantity_text k n.allocatable) ∷ [])
    ∷ resource_rows n ks

unfoldable pub describe_node_object : NodeObject → List Piece
unfolding node_status node_roles node_version node_internal_ip taint_text merge_keys resource_rows
describe_node_object n =
    s "Name:               "
    ∷ s n.name
    ∷ s "\nStatus:             "
    ∷ s (node_status n)
    ∷ s "\nRoles:              "
    ∷ s (node_roles n)
    ∷ s "\nAge:                "
    ∷ s (age_str n.age)
    ∷ s "\nVersion:            "
    ∷ s (node_version n)
    ∷ s "\nInternal IP:        "
    ∷ s (node_internal_ip n)
    ∷ s "\nOS/Image:           "
    ∷ s n.operating_system
    ∷ s " / "
    ∷ s n.os_image
    ∷ s "\nKernel:             "
    ∷ s n.kernel_version
    ∷ s "\nContainer runtime:  "
    ∷ s n.container_runtime_version
    ∷ s "\nTaints:             "
    ∷ s (if is_empty n.taints then "<none>" else join ", " (map taint_text n.taints))
    ∷ s "\n\nConditions:\n"
    ∷ bytes (condition_table 70 n.conditions)
    ∷ s "\nAllocatable / Capacity:\n"
    ∷ bytes (
        table ("RESOURCE" ∷ "CAPACITY" ∷ "ALLOCATABLE" ∷ [])
          (resource_rows n (sort_keys (merge_keys n.capacity n.allocatable))))
    ∷ []

-- `eventTime`, as the time since it.
unfoldable pub event_time : Event → Option ℕ
event_time ev = elim ev.last_seen [ none ↦ ev.age | some since ↦ some since ]
