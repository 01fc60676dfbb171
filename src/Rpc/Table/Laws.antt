-- ===== src/Rpc/Table/Laws.antt =====
-- The lines of a rendered table.
use go_kubernetes_mcp_server.Base.{
  ℕ, zero, suc, ◌-◌, ◌≡◌, refl, ap, ◌∙◌, Bool, true, false, List, [], ◌∷◌, ◌++◌, length, replicate,
  map, any, nat_eq, arith, if◌then◌else◌, if_either, All, is_empty,
}
use mathlib.Core.List.{append_assoc}
use go_kubernetes_mcp_server.Rpc.Table.{Table, widths, write_row, write_rows, render}
use go_kubernetes_mcp_server.Rpc.Table.Widths.{
  Fits, Fits-widths_from, widths_from-Fits, Fits-headers, AtMost, widths-AtMost,
}
use go_kubernetes_mcp_server.Rpc.Table.Columns.{
  line_width, Shows, row_line, write_cells-row_line, length-row_line, Shows-row_line,
}

-- A text on one line.
abbrev pub IsClear : List ℕ → Type 0
IsClear t = any (nat_eq 10) t ≡ false

-- The lines of a text, which its line feeds end.
pub lines : List ℕ → List (List ℕ)
lines [] = []
lines (c ∷ t) =
    let rest = lines t in
    if nat_eq 10 c then [] ∷ rest else elim rest [ [] ↦ (c ∷ []) ∷ [] | l ∷ ls ↦ (c ∷ l) ∷ ls ]

abbrev pub Pairs : {A B : Type 0} → (A → B → Type 0) → List A → List B → Type 0
Pairs R [] [] = Unit
Pairs R (x ∷ xs) (y ∷ ys) = R x y × Pairs R xs ys
Pairs R _ _ = ⊥

-- A line of clear cells is clear.
any-append :
    (f : ℕ → Bool) (xs ys : List ℕ) → any f xs ≡ false → any f ys ≡ false → any f (xs ++ ys) ≡ false
any-append f [] ys h k = k
any-append f (x ∷ xs) ys h k = ground (arith, any-append f xs ys)

blanks-IsClear : (n : ℕ) → IsClear (replicate n 32)
blanks-IsClear zero = refl
blanks-IsClear (suc n) = blanks-IsClear n

row_line-IsClear :
    (first : Bool) (ws : List ℕ) (cells : List (List ℕ))
    → All IsClear cells
    → IsClear (row_line first ws cells)
unfolding row_line
row_line-IsClear first [] cells h = refl
row_line-IsClear first (w ∷ ws) [] h =
    any-append _ (if first then [] else replicate 3 32) _ (if_either IsClear first _ _ refl refl) (
      any-append _ (replicate (w - 0) 32) _ (blanks-IsClear (w - 0))
        (row_line-IsClear false ws [] tt))
row_line-IsClear first (w ∷ ws) (cell ∷ cells) (p, h) =
    any-append _ (if first then [] else replicate 3 32) _ (if_either IsClear first _ _ refl refl) (
      any-append _ cell _ p (
        any-append _ (replicate (w - length cell) 32) _ (blanks-IsClear (w - length cell))
          (row_line-IsClear false ws cells h)))

lines-append : (l t : List ℕ) → IsClear l → lines (l ++ 10 ∷ t) ≡ l ∷ lines t
unfolding lines
lines-append [] t h = refl
lines-append (c ∷ l) t h = ground (arith, lines-append l t)

lines-write_row :
    (ws : List ℕ) (row : List (List ℕ)) (t : List ℕ)
    → All IsClear row
    → lines (write_row ws row ++ t) ≡ row_line true ws row ∷ lines t
unfolding write_row
lines-write_row ws row t h =
    ap lines (
      ap (λ l. l ++ t) (write_cells-row_line true ws row)
      ∙ append_assoc (row_line true ws row) (10 ∷ []) t)
    ∙ lines-append (row_line true ws row) t (row_line-IsClear true ws row h)

lines-write_rows :
    (ws : List ℕ) (rows : List (List (List ℕ)))
    → All (All IsClear) rows
    → lines (write_rows ws rows) ≡ map (row_line true ws) rows
unfolding write_rows lines
lines-write_rows ws [] h = refl
lines-write_rows ws (row ∷ rows) (p, h) =
    lines-write_row ws row (write_rows ws rows) p
    ∙ ap (λ ls. row_line true ws row ∷ ls) (lines-write_rows ws rows h)

lines-title :
    (title rest : List ℕ)
    → IsClear title
    → lines ((if is_empty title then [] else title ++ 10 ∷ []) ++ rest)
      ≡ (if is_empty title then [] else title ∷ []) ++ lines rest
lines-title [] rest h = refl
lines-title (c ∷ l) rest h =
    ap lines (append_assoc (c ∷ l) (10 ∷ []) rest) ∙ lines-append (c ∷ l) rest h

-- What a line of a row is: in the width of the columns, it shows the row.
abbrev pub IsLine : List ℕ → List (List ℕ) → List ℕ → Type 0
IsLine ws row line = (length line ≡ line_width true ws) × Shows ws row line

Pairs-row_line :
    (ws : List ℕ) (rows : List (List (List ℕ)))
    → All (Fits ws) rows
    → Pairs (IsLine ws) rows (map (row_line true ws) rows)
Pairs-row_line ws [] h = tt
Pairs-row_line ws (row ∷ rows) (p, h) =
    ((length-row_line true ws row p, Shows-row_line ws row p), Pairs-row_line ws rows h)

-- The lines of a rendered table, where neither the title nor a cell holds a line feed, are its title, if
-- it has one, and a line for the headers and for each row in their order. All but the title have one
-- length, that of the columns with three blanks between two; in each, every column holds its cell (or
-- nothing, where the row is too short) with blanks up to the width of the column. No narrower columns
-- hold the headers and the cells.
pub render_aligned :
    (t : Table)
    → IsClear t.title
    → All (All IsClear) (t.headers ∷ t.rows)
    → (body : List (List ℕ)) × (lines (render t)
        ≡ (if is_empty t.title then [] else t.title ∷ []) ++ body)
      × Pairs (IsLine (widths t)) (t.headers ∷ t.rows) body
      × ((vs : List ℕ)
          → length vs ≡ length t.headers
          → All (Fits vs) (t.headers ∷ t.rows)
          → AtMost (widths t) vs)
unfolding render write_rows
render_aligned t title cells =
    let ws = widths t in
    let body = map (row_line true ws) (t.headers ∷ t.rows) in
    let shown = lines-write_rows ws (t.headers ∷ t.rows) cells in
    (
      body,
      lines-title t.title _ title
          ∙ ap (λ ls. (if is_empty t.title then [] else t.title ∷ []) ++ ls) shown,
      Pairs-row_line ws (t.headers ∷ t.rows) (
          unfold widths in
          (
            Fits-widths_from (map length t.headers) t.rows t.headers (Fits-headers t.headers),
            widths_from-Fits (map length t.headers) t.rows,
          )),
      widths-AtMost t,
    )
