-- ===== src/Tools/Listing.antt =====
-- The steps that the tools which read share: internal/tools/util.go, ResolveList as a step, the
-- arguments of internal/tools/common.go, and the table of a list (internal/rpc/table.go).
pub mod Reads
use go_kubernetes_mcp_server.Base.{
  ℕ, String, Bool, true, false, Option, none, some, List, [], ◌∷◌, ◌++◌, map, ◌<>◌, utf8, encode,
  codes, StringMap, lookup, is_empty, join, sorted_keys,
}
use go_kubernetes_mcp_server.Security.{Policy}
use go_kubernetes_mcp_server.Rpc.{validate_name}
use go_kubernetes_mcp_server.Rpc.Table.{Table, new_table, add_row, render}
use go_kubernetes_mcp_server.Kube.{
  Prog, ret, call, attach, namespaced, cluster, list_objects, get_one, Answer, ok, failed,
}
use go_kubernetes_mcp_server.Kube.Objects.{Kind, Item, ListOptions, Condition}
use go_kubernetes_mcp_server.Tools.Handler.{
  Outcome, text, tool_error, Piece, bytes, Handler, ◌>>=◌, ◌>>◌, guard, answer,
}
use go_kubernetes_mcp_server.Tools.Util.{
  ListArgs, Listed, listed, refused, resolve_list, resolve_ns, check_scope, trunc_len,
}

pub record NamespaceNameArgs : Type 0 where
  pub namespace : String
  pub name : String

-- `TruncLen` of a text, as a cell.
unfoldable pub trunc_cell : ℕ → String → List ℕ
trunc_cell n t = encode (trunc_len (codes t) n)

-- The loop that adds a row for each item.
unfoldable pub add_rows : Table → List (List (List ℕ)) → Table
add_rows t [] = t
add_rows t (row ∷ rows) = add_rows (add_row t row) rows

unfoldable pub table : List String → List (List (List ℕ)) → List ℕ
unfolding add_rows
table headers rows = render (add_rows (new_table (map utf8 headers)) rows)

-- The table of conditions, their messages cut to a number of runes.
unfoldable pub condition_rows : ℕ → List Condition → List (List (List ℕ))
unfolding trunc_cell
condition_rows n [] = []
condition_rows n (c ∷ cs) =
    (utf8 c.type_name ∷ utf8 c.status ∷ utf8 c.reason ∷ trunc_cell n c.message ∷ [])
    ∷ condition_rows n cs

unfoldable pub condition_table : ℕ → List Condition → List ℕ
unfolding table condition_rows
condition_table n cs = table ("TYPE" ∷ "STATUS" ∷ "REASON" ∷ "MESSAGE" ∷ []) (condition_rows n cs)

-- `m[k]` of a map to strings.
unfoldable pub text_at : String → StringMap String → String
text_at k m = elim (lookup k m) [ none ↦ "" | some v ↦ v ]

-- `formatMap` of workloads and core, and `mapStr` of network.
unfoldable pub format_map : StringMap String → String
unfolding text_at
format_map m = elim (is_empty m) [
  | true ↦ "<none>"
  | false ↦ join "," (map (λ k. k <> "=" <> text_at k m) (sorted_keys m))
]

-- What follows `ns, opts, err := tk.ResolveList(a)`: an error is the result.
unfoldable pub resolved : Listed → Handler (String × ListOptions)
resolved (refused err) k = ret (tool_error err)
resolved (listed ns opts) k = k (ns, opts)

-- A list of namespaced objects up to the rendering of what it gives.
unfoldable pub list_tool :
    (k : Kind) → Policy → ListArgs → String → String → (List (Item k) → Outcome) → Prog Outcome
list_tool k p a kind action show = do
  found ← resolved (resolve_list p a)
  call (attach kind found.0 "" false)
  items ← answer action (call (list_objects k (namespaced found.0) found.1))
  ret (show items)

-- One namespaced object up to what is done with it.
unfoldable pub get_tool :
    (k : Kind)
    → Policy
    → NamespaceNameArgs
    → String
    → String
    → (String → Item k → Prog Outcome)
    → Prog Outcome
get_tool k p a kind action show = do
  guard (validate_name a.name)
  let ns : String = resolve_ns a.namespace
  guard (check_scope p ns false)
  call (attach kind ns a.name false)
  found ← answer (action <> " " <> ns <> "/" <> a.name) (call (get_one k (namespaced ns) a.name))
  show ns found

unfoldable pub table_text : List String → List (List (List ℕ)) → Outcome
unfolding table
table_text headers rows = text (bytes (table headers rows) ∷ [])
