-- ===== src/Operations/Undo/Choice.antt =====
-- The revision that a rollback without a revision goes to.
use go_kubernetes_mcp_server.Base.{
  ◌≡◌, ◌≢◌, sym, ◌∙◌, ◌⊎◌, inl, inr, true, false, String, ◌==◌, some, List, [], ◌∷◌, map, arith,
  IsIn, eq_iff, StringMap, Bool-cases, All, ℤ,
}
use go_kubernetes_mcp_server.Kube.{ReplicaSet}
use go_kubernetes_mcp_server.Operations.Undo.{first_other, previous_revision}
use go_kubernetes_mcp_server.Operations.Undo.Order.{
  atoi, ltb_ℤ, insert_desc, sort_desc, sorted_revisions_desc,
}

ltb_ℤ-trans : (a b c : ℤ) → ltb_ℤ a b ≡ false → ltb_ℤ b c ≡ false → ltb_ℤ a c ≡ false
ltb_ℤ-trans a b c h k = ground arith

ltb_ℤ-asym : (a b : ℤ) → ltb_ℤ a b ≡ true → ltb_ℤ b a ≡ false
ltb_ℤ-asym a b h = ground arith

-- No revision of the list has a higher number.
abbrev Tops : String → List String → Type 0
Tops r ts = All (λ t. ltb_ℤ (atoi r) (atoi t) ≡ false) ts

abbrev IsDescending : List String → Type 0
IsDescending [] = Unit
IsDescending (r ∷ rs) = Tops r rs × IsDescending rs

Tops-trans :
    (r t : String) (ts : List String) → ltb_ℤ (atoi r) (atoi t) ≡ false → Tops t ts → Tops r ts
Tops-trans r t [] h k = tt
Tops-trans r t (x ∷ ts) h (k, ks) =
    (ltb_ℤ-trans (atoi r) (atoi t) (atoi x) h k, Tops-trans r t ts h ks)

Tops-insert_desc :
    (x r : String) (ts : List String)
    → ltb_ℤ (atoi x) (atoi r) ≡ false
    → Tops x ts
    → Tops x (insert_desc r ts)
unfolding insert_desc
Tops-insert_desc x r [] h k = (h, tt)
Tops-insert_desc x r (t ∷ ts) h (k, ks) = elim (Bool-cases (ltb_ℤ (atoi r) (atoi t))) [
  | inl e ↦ rw e (k, Tops-insert_desc x r ts h ks)
  | inr e ↦ rw e (h, (k, ks))
]

insert_desc-IsDescending :
    (r : String) (ts : List String) → IsDescending ts → IsDescending (insert_desc r ts)
unfolding insert_desc
insert_desc-IsDescending r [] h = (tt, tt)
insert_desc-IsDescending r (t ∷ ts) (k, h) = elim (Bool-cases (ltb_ℤ (atoi r) (atoi t))) [
  | inl e ↦
      rw e (
        Tops-insert_desc t r ts (ltb_ℤ-asym (atoi r) (atoi t) e) k,
        insert_desc-IsDescending r ts h,
      )
  | inr e ↦ rw e ((e, Tops-trans r t ts e k), (k, h))
]

sort_desc-IsDescending : (rs : List String) → IsDescending (sort_desc rs)
unfolding sort_desc
sort_desc-IsDescending [] = tt
sort_desc-IsDescending (r ∷ rs) =
    insert_desc-IsDescending r (sort_desc rs) (sort_desc-IsDescending rs)

IsIn-insert_desc_iff :
    (x r : String) (ts : List String)
    → (IsIn x (insert_desc r ts) → (r ≡ x) ⊎ IsIn x ts)
      × ((r ≡ x) ⊎ IsIn x ts → IsIn x (insert_desc r ts))
unfolding insert_desc
IsIn-insert_desc_iff x r [] = (λ h. h, λ h. h)
IsIn-insert_desc_iff x r (t ∷ ts) = ground (arith, IsIn-insert_desc_iff x r ts)

IsIn-sort_desc_iff :
    (x : String) (rs : List String)
    → (IsIn x (sort_desc rs) → IsIn x rs) × (IsIn x rs → IsIn x (sort_desc rs))
unfolding sort_desc
IsIn-sort_desc_iff x [] = (λ h. h, λ h. h)
IsIn-sort_desc_iff x (r ∷ rs) =
    ground (arith, IsIn-insert_desc_iff x r (sort_desc rs), IsIn-sort_desc_iff x rs)

Tops-IsIn :
    (r t : String) (ts : List String) → Tops r ts → IsIn t ts → ltb_ℤ (atoi r) (atoi t) ≡ false
Tops-IsIn r t (x ∷ ts) (h, hs) (inl e) = rw (← e) h
Tops-IsIn r t (x ∷ ts) (h, hs) (inr i) = Tops-IsIn r t ts hs i
Tops-IsIn r t [] h i = elim i [ ]

first_other-best :
    (current r : String) (ts : List String)
    → IsDescending ts
    → first_other current ts ≡ some r
    → (r ≢ current)
      × IsIn r ts
      × ((t : String) → IsIn t ts → t ≢ current → ltb_ℤ (atoi r) (atoi t) ≡ false)
unfolding first_other
first_other-best current r [] h e = cc
first_other-best current r (x ∷ ts) (top, h) e = elim (Bool-cases (x == current)) [
  | inl same ↦
      let (ne, i, best) = first_other-best current r ts h (rw same at e) in
      (
        ne,
        inr i,
        λ t. elim [
          | inl at ↦ λ other. absurd (other (sym at ∙ (eq_iff x current).0 same))
          | inr later ↦ best t later
        ],
      )
  | inr other ↦
      let chosen : x ≡ r = some_inj (rw other at e) in
      (
        λ same. not_same (chosen ∙ same) other,
        inl chosen,
        λ t. elim [
          | inl at ↦ λ ne. rw (← chosen, ← at) (ltb_ℤ_irrefl (atoi x))
          | inr later ↦ λ ne. rw (← chosen) (Tops-IsIn x t ts top later)
        ],
      )
]
  where
    some_inj : {a b : String} → some a ≡ some b → a ≡ b
    some_inj p = cc

    ltb_ℤ_irrefl : (a : ℤ) → ltb_ℤ a a ≡ false
    ltb_ℤ_irrefl a = ground arith

    not_same : x ≡ current → (x == current) ≡ false → ⊥
    not_same p q = ground (arith, eq_iff x current)

-- The revision that a rollback without a revision goes to is one of the deployment's history, is not
-- the current one, and no other revision of the history but the current one has a higher number.
pub previous_revision-best :
    (current r : String) (by_rev : StringMap ReplicaSet)
    → previous_revision current by_rev ≡ some r
    → let revisions : List String = map (λ e. e.0) by_rev in
      (r ≢ current)
      × IsIn r revisions
      × ((t : String) → IsIn t revisions → t ≢ current → ltb_ℤ (atoi r) (atoi t) ≡ false)
unfolding previous_revision sorted_revisions_desc
previous_revision-best current r by_rev e =
    let revisions : List String = map (λ x. x.0) by_rev in
    let (ne, i, best) =
      first_other-best current r (sort_desc revisions) (sort_desc-IsDescending revisions) e in
    (ne, (IsIn-sort_desc_iff r revisions).0 i, λ t j. best t ((IsIn-sort_desc_iff t revisions).1 j))
