-- ===== src/Rpc/Table/Widths.antt =====
-- The widths of the columns hold the headers and every row.
use go_kubernetes_mcp_server.Base.{ℕ, ◌≤◌, ◌≡◌, List, [], ◌∷◌, length, map, arith, All}
use go_kubernetes_mcp_server.Rpc.Table.{Table, widen, widths_from, widths}

-- Each cell of a row that has a column fits its width.
abbrev pub Fits : List ℕ → List (List ℕ) → Type 0
Fits [] row = Unit
Fits (w ∷ ws) [] = Unit
Fits (w ∷ ws) (cell ∷ row) = (length cell ≤ w) × Fits ws row

pub Fits-nil : (vs : List ℕ) → Fits vs []
Fits-nil [] = tt
Fits-nil (v ∷ vs) = tt

widen-Fits : (ws : List ℕ) (row : List (List ℕ)) → Fits (widen ws row) row
unfolding widen
widen-Fits [] row = tt
widen-Fits (w ∷ ws) [] = tt
widen-Fits (w ∷ ws) (cell ∷ row) = (ground arith, widen-Fits ws row)

-- Widening for one row keeps what fits another.
Fits-widen : (ws : List ℕ) (row other : List (List ℕ)) → Fits ws other → Fits (widen ws row) other
unfolding widen
Fits-widen [] row other h = tt
Fits-widen (w ∷ ws) [] [] h = tt
Fits-widen (w ∷ ws) [] (c ∷ other) (p, h) = (ground arith, Fits-widen ws [] other h)
Fits-widen (w ∷ ws) (cell ∷ row) [] h = tt
Fits-widen (w ∷ ws) (cell ∷ row) (c ∷ other) (p, h) = (ground arith, Fits-widen ws row other h)

pub Fits-widths_from :
    (ws : List ℕ) (rows : List (List (List ℕ))) (other : List (List ℕ))
    → Fits ws other
    → Fits (widths_from ws rows) other
unfolding widths_from
Fits-widths_from ws [] other h = h
Fits-widths_from ws (row ∷ rows) other h =
    Fits-widths_from (widen ws row) rows other (Fits-widen ws row other h)

pub widths_from-Fits :
    (ws : List ℕ) (rows : List (List (List ℕ))) → All (Fits (widths_from ws rows)) rows
unfolding widths_from
widths_from-Fits ws [] = tt
widths_from-Fits ws (row ∷ rows) = (
  Fits-widths_from (widen ws row) rows row (widen-Fits ws row),
  widths_from-Fits (widen ws row) rows,
)

pub Fits-headers : (hs : List (List ℕ)) → Fits (map length hs) hs
Fits-headers [] = tt
Fits-headers (h ∷ hs) = (omega arith, Fits-headers hs)

-- Columns of no less width.
abbrev pub AtMost : List ℕ → List ℕ → Type 0
AtMost [] [] = Unit
AtMost (w ∷ ws) (v ∷ vs) = (w ≤ v) × AtMost ws vs
AtMost _ _ = ⊥

widen-AtMost :
    (ws vs : List ℕ) (row : List (List ℕ)) → AtMost ws vs → Fits vs row → AtMost (widen ws row) vs
unfolding widen
widen-AtMost [] [] row h k = tt
widen-AtMost [] (v ∷ vs) row h k = elim h [ ]
widen-AtMost (w ∷ ws) [] row h k = elim h [ ]
widen-AtMost (w ∷ ws) (v ∷ vs) [] (p, h) k = (ground arith, widen-AtMost ws vs [] h (Fits-nil vs))
widen-AtMost (w ∷ ws) (v ∷ vs) (cell ∷ row) (p, h) (q, k) =
    (ground arith, widen-AtMost ws vs row h k)

widths_from-AtMost :
    (ws vs : List ℕ) (rows : List (List (List ℕ)))
    → AtMost ws vs
    → All (Fits vs) rows
    → AtMost (widths_from ws rows) vs
unfolding widths_from
widths_from-AtMost ws vs [] h k = h
widths_from-AtMost ws vs (row ∷ rows) h (p, k) =
    widths_from-AtMost (widen ws row) vs rows (widen-AtMost ws vs row h p) k

headers-AtMost :
    (hs : List (List ℕ)) (vs : List ℕ)
    → length vs ≡ length hs
    → Fits vs hs
    → AtMost (map length hs) vs
headers-AtMost [] [] e h = tt
headers-AtMost [] (v ∷ vs) e h = let bad : ⊥ = omega (arith, e) in elim bad [ ]
headers-AtMost (x ∷ hs) [] e h = let bad : ⊥ = omega (arith, e) in elim bad [ ]
headers-AtMost (x ∷ hs) (v ∷ vs) e (p, h) = (p, headers-AtMost hs vs (omega (arith, e)) h)

-- No narrower columns hold the headers and the rows.
pub widths-AtMost :
    (t : Table) (vs : List ℕ)
    → length vs ≡ length t.headers
    → All (Fits vs) (t.headers ∷ t.rows)
    → AtMost (widths t) vs
unfolding widths
widths-AtMost t vs e (p, h) =
    widths_from-AtMost (map length t.headers) vs t.rows (headers-AtMost t.headers vs e p) h
