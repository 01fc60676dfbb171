-- ===== src/Rpc/Table.antt =====
-- internal/rpc/table.go: the renderer of aligned columns. A cell is its bytes.
pub mod Laws
pub mod Widths
mod Columns
use go_kubernetes_mcp_server.Base.{
  ℕ, zero, suc, ◌-◌, Bool, List, [], ◌∷◌, ◌++◌, ltb, if◌then◌else◌, length, replicate, is_empty,
  map,
}

pub record Table : Type 0 where
  pub title : List ℕ
  pub headers : List (List ℕ)
  pub rows : List (List (List ℕ))

unfoldable pub new_table : List (List ℕ) → Table
new_table headers = record { title = []; headers = headers; rows = [] }

unfoldable pub set_title : Table → List ℕ → Table
set_title t s = record t { title = s }

unfoldable pub add_row : Table → List (List ℕ) → Table
add_row t values = record t { rows = t.rows ++ values ∷ [] }

-- One pass of the loop over a row: a cell that the row lacks is the empty text, and a cell past the
-- last column is dropped.
pub widen : List ℕ → List (List ℕ) → List ℕ
widen [] row = []
widen (w ∷ ws) [] = (if ltb w 0 then 0 else w) ∷ widen ws []
widen (w ∷ ws) (cell ∷ row) = (if ltb w (length cell) then length cell else w) ∷ widen ws row

pub widths_from : List ℕ → List (List (List ℕ)) → List ℕ
unfolding widen
widths_from ws [] = ws
widths_from ws (row ∷ rows) = widths_from (widen ws row) rows

pub widths : Table → List ℕ
unfolding widths_from
widths t = widths_from (map length t.headers) t.rows

-- `writeRow` from a column on; `first` is `i == 0`.
pub write_cells : Bool → List ℕ → List (List ℕ) → List ℕ
write_cells first [] cells = 10 ∷ []
write_cells first (w ∷ ws) [] =
    (if first then [] else replicate 3 32) ++ (replicate (w - 0) 32 ++ write_cells Bool.false ws [])
write_cells first (w ∷ ws) (cell ∷ cells) =
    (if first then [] else replicate 3 32)
    ++ (cell ++ (replicate (w - length cell) 32 ++ write_cells Bool.false ws cells))

pub write_row : List ℕ → List (List ℕ) → List ℕ
unfolding write_cells
write_row ws cells = write_cells Bool.true ws cells

pub write_rows : List ℕ → List (List (List ℕ)) → List ℕ
unfolding write_row
write_rows ws [] = []
write_rows ws (row ∷ rows) = write_row ws row ++ write_rows ws rows

unfoldable pub render : Table → List ℕ
unfolding widths write_row write_rows
render t =
    let ws = widths t in
    (if is_empty t.title then [] else t.title ++ 10 ∷ [])
    ++ (write_row ws t.headers ++ write_rows ws t.rows)
