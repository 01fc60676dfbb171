-- ===== src/Base/Sort/Laws.antt =====
-- What sorting keeps and what it brings about, and the order of texts.
use Prim.Native.Nat.{ℕ}
use mathlib.Core.Path.{◌≡◌, refl}
use mathlib.Core.Logic.{◌↔◌, ◌⊎◌, inl, inr}
use mathlib.Core.Bool.{Bool, true, false}
use mathlib.Core.List.{List, [], ◌∷◌, Perm}
use mathlib.Core.List.Perm
use native.Mathlib.Omega.{arith}
use go_kubernetes_mcp_server.Base.Tests.{Bool-cases}
use go_kubernetes_mcp_server.Base.Lists.{All, IsIn}
use go_kubernetes_mcp_server.Base.Sort.{text_ltb, insert_by, sort_by}

-- Whichever of two texts is smaller, the other is not; and not being smaller is transitive.
pub text_ltb_asymmetric : (xs ys : List ℕ) → text_ltb xs ys ≡ true → text_ltb ys xs ≡ false
unfolding text_ltb
text_ltb_asymmetric [] [] h = refl
text_ltb_asymmetric [] (c ∷ ys) h = refl
text_ltb_asymmetric (b ∷ xs) [] h = ground arith
text_ltb_asymmetric (b ∷ xs) (c ∷ ys) h = ground (arith, text_ltb_asymmetric xs ys)

pub text_ltb_negative :
    (xs ys zs : List ℕ) → text_ltb xs ys ≡ false → text_ltb ys zs ≡ false → text_ltb xs zs ≡ false
unfolding text_ltb
text_ltb_negative xs ys [] h k = ground arith
text_ltb_negative xs [] (d ∷ zs) h k = ground arith
text_ltb_negative [] (c ∷ ys) (d ∷ zs) h k = ground arith
text_ltb_negative (b ∷ xs) (c ∷ ys) (d ∷ zs) h k = ground (arith, text_ltb_negative xs ys zs)

module _ {A : Type 0} (less : A → A → Bool) where
  -- No element is less than one that stands before it.
  abbrev pub Sorted : List A → Type 0
  Sorted [] = Unit
  Sorted (a ∷ bs) = All (λ b. less b a ≡ false) bs × Sorted bs

  pub insert_by-All :
      (P : A → Type 0) (a : A) (bs : List A) → P a → All P bs → All P (insert_by less a bs)
  unfolding insert_by
  insert_by-All P a [] h hs = (h, tt)
  insert_by-All P a (b ∷ bs) h (k, hs) = elim (Bool-cases (less b a)) [
    | inl e ↦ rw e (k, insert_by-All P a bs h hs)
    | inr e ↦ rw e (h, (k, hs))
  ]

  pub insert_by-IsIn :
      (x a : A) (bs : List A) → IsIn x (insert_by less a bs) ↔ ((a ≡ x) ⊎ IsIn x bs)
  unfolding insert_by
  insert_by-IsIn x a [] = ground arith
  insert_by-IsIn x a (b ∷ bs) = ground (arith, insert_by-IsIn x a bs)

  -- Sorting keeps the elements.
  pub sort_by-IsIn : (x : A) (xs : List A) → IsIn x (sort_by less xs) ↔ IsIn x xs
  unfolding sort_by
  sort_by-IsIn x [] = ground arith
  sort_by-IsIn x (a ∷ rest) =
      ground (arith, sort_by-IsIn x rest, insert_by-IsIn x a (sort_by less rest))

  insert_by-Perm : (a : A) (bs : List A) → Perm (insert_by less a bs) (a ∷ bs)
  unfolding insert_by
  insert_by-Perm a [] = Perm.refl _
  insert_by-Perm a (b ∷ bs) = elim (Bool-cases (less b a)) [
    | inl e ↦ rw e (Perm.trans (Perm.cons b (insert_by-Perm a bs)) (Perm.swap a b bs))
    | inr e ↦ rw e (Perm.refl _)
  ]

  pub sort_by-Perm : (xs : List A) → Perm (sort_by less xs) xs
  unfolding sort_by
  sort_by-Perm [] = Perm.refl _
  sort_by-Perm (a ∷ rest) =
      Perm.trans (insert_by-Perm a (sort_by less rest)) (Perm.cons a (sort_by-Perm rest))

  pub sort_by-All : (P : A → Type 0) (xs : List A) → All P xs → All P (sort_by less xs)
  unfolding sort_by
  sort_by-All P [] h = tt
  sort_by-All P (a ∷ rest) (h, hs) = insert_by-All P a (sort_by less rest) h (sort_by-All P rest hs)

  module _ (asymmetric : (a b : A) → less a b ≡ true → less b a ≡ false)
      (negative : (a b c : A) → less a b ≡ false → less b c ≡ false → less a c ≡ false) where
    insert_by-Sorted : (a : A) (bs : List A) → Sorted bs → Sorted (insert_by less a bs)
    unfolding insert_by
    insert_by-Sorted a [] h = (tt, tt)
    insert_by-Sorted a (b ∷ bs) (h, hs) = elim (Bool-cases (less b a)) [
      | inl e ↦ rw e (
        insert_by-All (λ x. less x b ≡ false) a bs (asymmetric b a e) h,
        insert_by-Sorted a bs hs,
      )
      | inr e ↦ rw e ((e, raise bs e h), (h, hs))
    ]
      where
        raise :
            (xs : List A)
            → less b a ≡ false
            → All (λ x. less x b ≡ false) xs
            → All (λ x. less x a ≡ false) xs
        raise [] e k = tt
        raise (x ∷ xs) e (k, ks) = (negative x b a k e, raise xs e ks)

    pub sort_by-Sorted : (xs : List A) → Sorted (sort_by less xs)
    unfolding sort_by
    sort_by-Sorted [] = tt
    sort_by-Sorted (a ∷ rest) = insert_by-Sorted a (sort_by less rest) (sort_by-Sorted rest)
