-- ===== src/Troubleshoot/Top.antt =====
-- internal/tools/troubleshoot/top.go: top_nodes and top_pods. Addition of quantities is a parameter.
-- Where the error of a list is dropped, a failure reads as the empty list.
pub mod Laws
use go_kubernetes_mcp_server.Base.{
  ℕ, zero, suc, ◌+◌, ◌-◌, ◌*◌, ◌/◌, ◌%◌, ℤ, pos, negsuc, String, ◌==◌, Bool, true, false, Option,
  none, some, List, [], ◌∷◌, map, ltb, if◌then◌else◌, is_empty, ◌<>◌, utf8, show_int, StringMap,
  lookup, insert,
}
use go_kubernetes_mcp_server.Err.{Err, metrics_unavailable}
use go_kubernetes_mcp_server.Security.{Policy}
use go_kubernetes_mcp_server.Kube.{
  Prog, ret, call, Answer, ok, failed, namespaced, cluster, list_objects,
}
use go_kubernetes_mcp_server.Kube.Objects.{
  Quantity, Container, PodObject, NodeObject, NodeMetrics, PodMetrics, node_kind, pod_kind,
  node_metrics_kind, pod_metrics_kind, ListOptions,
}
use go_kubernetes_mcp_server.Tools.Handler.{Outcome, text, tool_error, ◌>>=◌, ◌>>◌, Handler, guard}
use go_kubernetes_mcp_server.Tools.Util.{resolve_ns}
use go_kubernetes_mcp_server.Tools.Listing.{table_text}
use go_kubernetes_mcp_server.Core.{check_listed}
use go_kubernetes_mcp_server.Core.Health.{no_options}

-- Go's integers of 64 bits: a product wraps around, and a quotient is rounded towards zero.
abbrev two_63 : ℕ
two_63 = 9223372036854775808

abbrev pub word : ℤ → ℕ
word (pos n) = n % (2 * two_63)
word (negsuc n) = 2 * two_63 - 1 - n % (2 * two_63)

unfoldable pub int64 : ℕ → ℤ
int64 w = if ltb w two_63 then pos w else negsuc (2 * two_63 - 1 - w)

unfoldable pub times_100 : ℤ → ℤ
unfolding int64
times_100 a = int64 (word a * 100 % (2 * two_63))

abbrev negated : ℕ → ℤ
negated zero = pos 0
negated (suc n) = negsuc n

unfoldable pub quotient : ℤ → ℤ → ℤ
unfolding int64
quotient (pos a) (pos b) = pos (a / b)
quotient (pos a) (negsuc b) = negated (a / suc b)
quotient (negsuc a) (pos b) = negated (suc a / b)
quotient (negsuc a) (negsuc b) = int64 (suc a / suc b)

-- `AsInt64` with its flag dropped: 0 where the quantity is no integer.
abbrev pub as_int64 : Quantity → ℤ
as_int64 quantity = if quantity.is_int64 then quantity.value else pos 0

abbrev pub is_zero_value : ℤ → Bool
is_zero_value (pos zero) = true
is_zero_value _ = false

unfoldable pub pct : Quantity → Quantity → String
unfolding times_100 quotient
pct used base =
    if base.is_zero
    then "-"
    else if is_zero_value (as_int64 base)
    then "-"
    else show_int (quotient (times_100 (as_int64 used)) (as_int64 base)) <> "%"

unfoldable pub mem_scaled : Quantity → String
unfolding quotient
mem_scaled quantity =
    if quantity.is_int64
    then show_int (quotient quantity.value (pos 1048576)) <> "Mi"
    else quantity.text

abbrev pub zero_quantity : Quantity
zero_quantity = record { text = "0"; value = pos 0; is_int64 = true; is_zero = true }

unfoldable pub quantity_at : String → StringMap Quantity → Quantity
quantity_at k m = elim (lookup k m) [ none ↦ zero_quantity | some x ↦ x ]

unfoldable pub resources_at : String → StringMap (StringMap Quantity) → StringMap Quantity
resources_at k m = elim (lookup k m) [ none ↦ [] | some x ↦ x ]

abbrev pub items_of : {A : Type 0} → Answer (List A) → List A
items_of (ok items) = items
items_of (failed err) = []

-- `rpc.ErrorResult("metrics unavailable ...")`
unfoldable pub measured : {A : Type 0} → (A → Prog Outcome) → Answer A → Prog Outcome
measured k (ok x) = k x
measured k (failed err) = ret (tool_error (metrics_unavailable err))

abbrev pub metrics : {A : Type 0} → Handler (Answer A) → Handler A
metrics m k = m (measured k)

unfoldable pub node_alloc :
    List NodeObject → StringMap (StringMap Quantity) → StringMap (StringMap Quantity)
node_alloc [] m = m
node_alloc (n ∷ ns) m = node_alloc ns (insert n.name n.allocatable m)

unfoldable pub node_metrics_row : StringMap (StringMap Quantity) → NodeMetrics → List (List ℕ)
unfolding pct mem_scaled quantity_at resources_at
node_metrics_row m nm =
    let alloc : StringMap Quantity = resources_at nm.name m in
    utf8 nm.name
    ∷ utf8 nm.cpu.text
    ∷ utf8 (pct nm.cpu (quantity_at "cpu" alloc))
    ∷ utf8 (mem_scaled nm.memory)
    ∷ utf8 (pct nm.memory (quantity_at "memory" alloc))
    ∷ []

unfoldable pub top_nodes : Prog Outcome
unfolding measured node_alloc node_metrics_row
top_nodes = do
  list ← metrics (call (list_objects node_metrics_kind cluster no_options))
  nodes ← call (list_objects node_kind cluster no_options)
  ret (
      table_text ("NAME" ∷ "CPU(cores)" ∷ "CPU%" ∷ "MEMORY(bytes)" ∷ "MEM%" ∷ [])
        (map (node_metrics_row (node_alloc (items_of nodes) [])) list))

pub record TopArgs : Type 0 where
  pub namespace : String
  pub all_namespaces : Bool
  pub selector : String

module _ (plus : Quantity → Quantity → Quantity) where
  unfoldable pub add_requests : StringMap Quantity → StringMap Quantity → StringMap Quantity
  add_requests [] out = out
  add_requests ((name, quantity) ∷ rest) out =
      add_requests rest (insert name (plus (quantity_at name out) quantity) out)

  unfoldable pub pod_requests : List Container → StringMap Quantity → StringMap Quantity
  unfolding add_requests
  pod_requests [] out = out
  pod_requests (c ∷ cs) out = pod_requests cs (add_requests c.requests out)

  unfoldable pub requests :
      List PodObject → StringMap (StringMap Quantity) → StringMap (StringMap Quantity)
  unfolding pod_requests
  requests [] m = m
  requests (pod ∷ pods) m =
      requests pods (insert (pod.namespace <> "/" <> pod.name) (pod_requests pod.containers []) m)

  unfoldable pub sum_usage : List (Quantity × Quantity) → Quantity × Quantity → Quantity × Quantity
  sum_usage [] used = used
  sum_usage ((cpu, memory) ∷ rest) used = sum_usage rest (plus used.0 cpu, plus used.1 memory)

  unfoldable pub pod_metrics_row : StringMap (StringMap Quantity) → PodMetrics → List (List ℕ)
  unfolding sum_usage pct mem_scaled quantity_at resources_at
  pod_metrics_row m pm =
      let used = sum_usage pm.containers (zero_quantity, zero_quantity) in
      let r : StringMap Quantity = resources_at (pm.namespace <> "/" <> pm.name) m in
      utf8 pm.namespace
      ∷ utf8 pm.name
      ∷ utf8 used.0.text
      ∷ utf8 (pct used.0 (quantity_at "cpu" r))
      ∷ utf8 (mem_scaled used.1)
      ∷ utf8 (pct used.1 (quantity_at "memory" r))
      ∷ []

  unfoldable pub top_pods : Policy → TopArgs → Prog Outcome
  unfolding measured requests pod_metrics_row
  top_pods p a = do
    let ns : String = if a.all_namespaces then "" else resolve_ns a.namespace
    guard (check_listed p ns)
    let opts : ListOptions = record no_options { label_selector = a.selector }
    list ← metrics (call (list_objects pod_metrics_kind (namespaced ns) opts))
    pods ← call (list_objects pod_kind (namespaced ns) opts)
    ret (
        table_text
          ("NAMESPACE" ∷ "NAME" ∷ "CPU(cores)" ∷ "CPU%(req)" ∷ "MEMORY(bytes)" ∷ "MEM%(req)" ∷ [])
          (map (pod_metrics_row (requests (items_of pods) [])) list))
