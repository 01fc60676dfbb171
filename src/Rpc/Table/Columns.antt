-- ===== src/Rpc/Table/Columns.antt =====
-- What stands where in the line of a row.
use go_kubernetes_mcp_server.Base.{
  ℕ, zero, suc, ◌+◌, ◌-◌, ◌≤◌, ◌≡◌, refl, sym, ap, ◌∙◌, subst, Bool, true, false, List, [], ◌∷◌,
  ◌++◌, length, replicate, take, drop, arith, length-append, length-replicate, if◌then◌else◌,
}
use mathlib.Core.List.{append_assoc}
use go_kubernetes_mcp_server.Rpc.Table.{write_cells}
use go_kubernetes_mcp_server.Rpc.Table.Widths.{Fits, Fits-nil}

-- The width of a line with these columns; three blanks stand between two.
abbrev pub line_width : Bool → List ℕ → ℕ
line_width first [] = 0
line_width first (w ∷ ws) = (if first then 0 else 3) + (w + line_width false ws)

-- What a line shows from a column on: in the width of each column the cell and blanks, and after three
-- more places the next column.
abbrev pub Shows : List ℕ → List (List ℕ) → List ℕ → Type 0
Shows [] row line = Unit
Shows (w ∷ ws) [] line = (take w line ≡ replicate w 32) × Shows ws [] (drop (w + 3) line)
Shows (w ∷ ws) (cell ∷ row) line =
    (take w line ≡ cell ++ replicate (w - length cell) 32) × Shows ws row (drop (w + 3) line)

take_append : {A : Type 0} (n : ℕ) (xs ys : List A) → length xs ≡ n → take n (xs ++ ys) ≡ xs
take_append zero [] ys e = refl
take_append zero (x ∷ xs) ys e = let bad : ⊥ = omega (arith, e) in elim bad [ ]
take_append (suc n) [] ys e = let bad : ⊥ = omega (arith, e) in elim bad [ ]
take_append (suc n) (x ∷ xs) ys e = ap (λ l. x ∷ l) (take_append n xs ys (omega (arith, e)))

drop_append :
    {A : Type 0} (m k : ℕ) (xs ys : List A) → m ≡ length xs + k → drop m (xs ++ ys) ≡ drop k ys
drop_append m k [] ys e = ap (λ n. drop n ys) (omega (arith, e))
drop_append zero k (x ∷ xs) ys e = let bad : ⊥ = omega (arith, e) in elim bad [ ]
drop_append (suc m) k (x ∷ xs) ys e = drop_append m k xs ys (omega (arith, e))

-- `writeRow` from a column on, without the line feed.
unfoldable pub row_line : Bool → List ℕ → List (List ℕ) → List ℕ
row_line first [] cells = []
row_line first (w ∷ ws) [] =
    (if first then [] else replicate 3 32) ++ (replicate (w - 0) 32 ++ row_line false ws [])
row_line first (w ∷ ws) (cell ∷ cells) =
    (if first then [] else replicate 3 32)
    ++ (cell ++ (replicate (w - length cell) 32 ++ row_line false ws cells))

assoc₃ : (xs ys zs ts : List ℕ) → xs ++ (ys ++ (zs ++ ts)) ≡ (xs ++ (ys ++ zs)) ++ ts
assoc₃ xs ys zs ts =
    ap (λ l. xs ++ l) (sym (append_assoc ys zs ts)) ∙ sym (append_assoc xs (ys ++ zs) ts)

pub write_cells-row_line :
    (first : Bool) (ws : List ℕ) (cells : List (List ℕ))
    → write_cells first ws cells ≡ row_line first ws cells ++ 10 ∷ []
unfolding write_cells row_line
write_cells-row_line first [] cells = refl
write_cells-row_line first (w ∷ ws) [] =
    let gap : List ℕ = if first then [] else replicate 3 32 in
    rw (write_cells-row_line false ws [])
      (assoc₃ gap (replicate (w - 0) 32) (row_line false ws []) (10 ∷ []))
write_cells-row_line first (w ∷ ws) (cell ∷ cells) =
    let gap : List ℕ = if first then [] else replicate 3 32 in
    let pad = replicate (w - length cell) 32 in
    rw (write_cells-row_line false ws cells) (
      ap (λ l. gap ++ l) (assoc₃ cell pad (row_line false ws cells) (10 ∷ []))
      ∙ sym (append_assoc gap (cell ++ (pad ++ row_line false ws cells)) (10 ∷ [])))

pub length-row_line :
    (first : Bool) (ws : List ℕ) (cells : List (List ℕ))
    → Fits ws cells
    → length (row_line first ws cells) ≡ line_width first ws
unfolding row_line
length-row_line first [] cells h = refl
length-row_line first (w ∷ ws) [] h =
    let gap : List ℕ = if first then [] else replicate 3 32 in
    ground (
      arith,
      length-append {A = ℕ} gap (replicate (w - 0) 32 ++ row_line false ws []),
      length-append {A = ℕ} (replicate (w - 0) 32) (row_line false ws []),
      length-replicate {A = ℕ} (w - 0) 32,
      length-row_line false ws [] (Fits-nil ws),
    )
length-row_line first (w ∷ ws) (cell ∷ cells) (p, h) =
    let gap : List ℕ = if first then [] else replicate 3 32 in
    let pad = replicate (w - length cell) 32 ++ row_line false ws cells in
    ground (
      arith,
      length-append {A = ℕ} gap (cell ++ pad),
      length-append {A = ℕ} cell pad,
      length-append {A = ℕ} (replicate (w - length cell) 32) (row_line false ws cells),
      length-replicate {A = ℕ} (w - length cell) 32,
      length-row_line false ws cells h,
    )

-- A cell in the width of its column, and what follows the column.
shows_cell :
    (w : ℕ) (cell rest : List ℕ)
    → length cell ≤ w
    → take w (cell ++ (replicate (w - length cell) 32 ++ rest))
      ≡ cell ++ replicate (w - length cell) 32
shows_cell w cell rest h =
    let pad = replicate (w - length cell) 32 in
    subst (λ l. take w l ≡ cell ++ pad) (append_assoc cell pad rest)
      (take_append w (cell ++ pad) rest
        (omega (arith, h, length-append cell pad, length-replicate {A = ℕ} (w - length cell) 32)))

drop_gap :
    (v : ℕ) (vs : List ℕ) (cells : List (List ℕ))
    → drop 3 (row_line false (v ∷ vs) cells) ≡ row_line true (v ∷ vs) cells
unfolding row_line
drop_gap v vs [] = refl
drop_gap v vs (cell ∷ cells) = refl

-- The columns after the first stand behind their gap.
Shows-after :
    (w : ℕ) (ws : List ℕ) (cell : List ℕ) (cells : List (List ℕ))
    → length cell ≤ w
    → Shows ws cells (row_line true ws cells)
    → Shows ws cells
        (drop (w + 3) (cell ++ (replicate (w - length cell) 32 ++ row_line false ws cells)))
Shows-after w [] cell cells p k = tt
Shows-after w (v ∷ vs) cell cells p k =
    let pad = replicate (w - length cell) 32 in
    let behind : List ℕ = row_line false (v ∷ vs) cells in
    let e : drop (w + 3) (cell ++ (pad ++ behind)) ≡ row_line true (v ∷ vs) cells =
      ap (drop (w + 3)) (sym (append_assoc cell pad behind))
      ∙ (drop_append (w + 3) 3 (cell ++ pad) behind (
            omega (arith, p, length-append cell pad, length-replicate {A = ℕ} (w - length cell) 32))
          ∙ drop_gap v vs cells) in
    subst (Shows (v ∷ vs) cells) (sym e) k

pub Shows-row_line :
    (ws : List ℕ) (cells : List (List ℕ)) → Fits ws cells → Shows ws cells (row_line true ws cells)
unfolding row_line
Shows-row_line [] cells h = tt
Shows-row_line (w ∷ ws) [] h = (
  shows_cell w [] (row_line false ws []) (omega arith) ∙ ap (λ n. replicate n 32) (omega arith),
  Shows-after w ws [] [] (omega arith) (Shows-row_line ws [] (Fits-nil ws)),
)
Shows-row_line (w ∷ ws) (cell ∷ cells) (p, h) = (
  shows_cell w cell (row_line false ws cells) p,
  Shows-after w ws cell cells p (Shows-row_line ws cells h),
)
