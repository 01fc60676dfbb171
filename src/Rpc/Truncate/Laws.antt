-- ===== src/Rpc/Truncate/Laws.antt =====
-- Where a text is cut.
use go_kubernetes_mcp_server.Base.{
  ℕ, zero, suc, ◌-◌, ◌≤◌, ◌<◌, pos, ◌≡◌, refl, ◌⊎◌, inl, inr, true, false, some, List, [], ◌∷◌,
  ◌++◌, length, take, get_elem?, arith, leb, leb→le, subst, Bool-cases,
}
use go_kubernetes_mcp_server.Rpc.Truncate.{utf8_rune_start, back_to_boundary, truncate_text}

-- The start of the text, or of one of its runes.
abbrev pub IsBoundary : List ℕ → ℕ → Type 0
IsBoundary s k = (k ≡ 0) ⊎ ((b : ℕ) × (get_elem? s k ≡ some b) × (utf8_rune_start b ≡ true))

get_elem?-some : (s : List ℕ) (k : ℕ) → k < length s → (b : ℕ) × (get_elem? s k ≡ some b)
get_elem?-some [] k h = elim h [ ]
get_elem?-some (x ∷ s) zero h = (x, refl)
get_elem?-some (x ∷ s) (suc k) h = get_elem?-some s k (omega arith)

-- The loop goes back to the last boundary that is not past its start.
abbrev IsLast : List ℕ → ℕ → ℕ → Type 0
IsLast s n cut = (cut ≤ n) × IsBoundary s cut × ((k : ℕ) → cut < k → k ≤ n → IsBoundary s k → ⊥)

IsLast-step :
    (s : List ℕ) (n cut b : ℕ)
    → get_elem? s (suc n) ≡ some b
    → utf8_rune_start b ≡ false
    → IsLast s n cut
    → IsLast s (suc n) cut
IsLast-step s n cut b e f (le, here, most) = (
  omega arith,
  here,
  λ k lt to at. elim (ℕ-cases k to) [
    | inl below ↦ most k lt below at
    | inr same ↦ not_here (subst (IsBoundary s) same at)
  ],
)
  where
    ℕ-cases : (k : ℕ) → k ≤ suc n → (k ≤ n) ⊎ (k ≡ suc n)
    ℕ-cases k h = omega arith

    not_here : IsBoundary s (suc n) → ⊥
    not_here (inl z) = omega arith
    not_here (inr (d, g, start)) = ground arith

back_to_boundary-start :
    (s : List ℕ) (n b : ℕ)
    → get_elem? s (suc n) ≡ some b
    → utf8_rune_start b ≡ true
    → back_to_boundary s (suc n) ≡ suc n
unfolding back_to_boundary
back_to_boundary-start s n b e f = ground arith

back_to_boundary-inside :
    (s : List ℕ) (n b : ℕ)
    → get_elem? s (suc n) ≡ some b
    → utf8_rune_start b ≡ false
    → back_to_boundary s (suc n) ≡ back_to_boundary s n
unfolding back_to_boundary
back_to_boundary-inside s n b e f = ground arith

back_to_boundary-IsLast : (s : List ℕ) (n : ℕ) → n < length s → IsLast s n (back_to_boundary s n)
back_to_boundary-IsLast s zero h =
    let e : back_to_boundary s zero ≡ zero = unfold back_to_boundary in refl in
    rw e (omega arith, inl refl, λ k p q at. omega arith)
back_to_boundary-IsLast s (suc n) h =
    let (b, e) = get_elem?-some s (suc n) h in
    elim (Bool-cases (utf8_rune_start b)) [
      | inl start ↦
          rw (back_to_boundary-start s n b e start)
            (omega arith, inr (b, e, start), λ k p q at. omega arith)
      | inr inside ↦
          rw (back_to_boundary-inside s n b e inside)
            (IsLast-step s n _ b e inside (back_to_boundary-IsLast s n (omega arith)))
    ]

-- A text longer than a positive cap is cut at the last boundary of a rune that is not past the cap, or
-- at its start, and the marker follows; another text, and every text under a cap that is not positive,
-- stays as it is.
pub truncate_text_lem :
    (marker : ℕ → List ℕ) (s : List ℕ) (max_bytes : ℕ)
    → (((max_bytes ≡ 0) ⊎ (length s ≤ max_bytes)) × (truncate_text marker s (pos max_bytes) ≡ s))
      ⊎ ((cut : ℕ) × (cut ≤ max_bytes)
          × IsBoundary s cut
          × ((k : ℕ) → cut < k → k ≤ max_bytes → IsBoundary s k → ⊥)
          × (truncate_text marker s (pos max_bytes) ≡ take cut s ++ marker (length s - max_bytes)))
unfolding truncate_text
truncate_text_lem marker s max_bytes = elim (Bool-cases (leb max_bytes 0)) [
  | inl z ↦ inl (inl (omega (arith, leb→le max_bytes 0 z)), ground arith)
  | inr p ↦ elim (Bool-cases (leb (length s) max_bytes)) [
    | inl fits ↦ inl (inr (leb→le _ _ fits), ground arith)
    | inr long ↦
        let (le, here, most) = back_to_boundary-IsLast s max_bytes (ground arith) in
        inr (back_to_boundary s max_bytes, le, here, most, ground arith)
  ]
]
