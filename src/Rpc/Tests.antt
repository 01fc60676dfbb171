-- ===== src/Rpc/Tests.antt =====
-- The validators, the truncation and the table on concrete inputs.
use Prim.Native.String.{len}
use go_kubernetes_mcp_server.Base.{
  ℕ, ◌≤◌, ◌<◌, ◌-◌, pos, ◌≡◌, refl, ◌↔◌, ◌⊎◌, true, String, none, List, [], ◌∷◌, ◌++◌, codes, All,
  length, take,
}
use go_kubernetes_mcp_server.Rpc.{validate_namespace}
use go_kubernetes_mcp_server.Rpc.Valid.{validate_namespace_iff}
use go_kubernetes_mcp_server.Rpc.Valid.Labels.{is_label}
use go_kubernetes_mcp_server.Rpc.Truncate.{truncate_text}
use go_kubernetes_mcp_server.Rpc.Truncate.Laws.{IsBoundary, truncate_text_lem}
use go_kubernetes_mcp_server.Rpc.Table.{Table, widths, render}
use go_kubernetes_mcp_server.Rpc.Table.Widths.{Fits, AtMost}
use go_kubernetes_mcp_server.Rpc.Table.Laws.{lines, Pairs, IsLine, render_aligned}

validate_namespace_iff_example :
    (validate_namespace "shop-1" ≡ none)
    ↔ ((◌≡◌ {A = String} "shop-1" "") ⊎ ((len "shop-1" ≤ 63) × (is_label (codes "shop-1") ≡ true)))
validate_namespace_iff_example = validate_namespace_iff "shop-1"

abbrev marker : ℕ → List ℕ
marker n = b'.' ∷ []

-- A euro sign of three bytes, cut in its middle.
abbrev euro : List ℕ
euro = 65 ∷ 0xE2 ∷ 0x82 ∷ 0xAC ∷ []

truncate_text_lem_example :
    (((◌≡◌ {A = ℕ} 3 0) ⊎ (length euro ≤ 3)) × (truncate_text marker euro (pos 3) ≡ euro))
    ⊎ ((cut : ℕ) × (cut ≤ 3)
        × IsBoundary euro cut
        × ((k : ℕ) → cut < k → k ≤ 3 → IsBoundary euro k → ⊥)
        × (truncate_text marker euro (pos 3) ≡ take cut euro ++ marker (length euro - 3)))
truncate_text_lem_example = truncate_text_lem marker euro 3

truncate_text-euro : truncate_text marker euro (pos 3) ≡ 65 ∷ b'.' ∷ []
unfolding truncate_text
truncate_text-euro = refl

abbrev pods_table : Table
pods_table = record {
  title = [];
  headers = codes "NAME" ∷ codes "AGE" ∷ [];
  rows = (codes "web-1" ∷ codes "5d" ∷ []) ∷ (codes "db" ∷ []) ∷ [];
}

render_aligned_example :
    (body : List (List ℕ)) × (lines (render pods_table) ≡ [] ++ body)
    × Pairs (IsLine (widths pods_table)) (pods_table.headers ∷ pods_table.rows) body
    × ((vs : List ℕ)
        → length vs ≡ length pods_table.headers
        → All (Fits vs) (pods_table.headers ∷ pods_table.rows)
        → AtMost (widths pods_table) vs)
render_aligned_example =
    render_aligned pods_table refl ((refl, (refl, tt)), ((refl, (refl, tt)), ((refl, tt), tt)))

-- Every column is padded, the last one as well.
render-pods_table : render pods_table ≡ codes "NAME    AGE\nweb-1   5d \ndb         \n"
unfolding render
render-pods_table = refl
