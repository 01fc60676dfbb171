-- ===== src/Base/Maps.antt =====
-- Go maps with string keys, as association lists without repeated keys; the order of the entries
-- stands for the order of iteration, which Go leaves open. A set is a map to `true`.
use Prim.Native.String.{String}
use mathlib.Core.Path.{◌≡◌, refl}
use mathlib.Core.Logic.{◌↔◌, ◌⊎◌, inl, inr}
use mathlib.Core.Bool.{Bool, true, false}
use mathlib.Core.Option.{Option, none, some}
use mathlib.Core.List.{List, [], ◌∷◌}
use native.Mathlib.Omega.{arith}
use text.Mathlib.Text.{◌==◌}
use text.Mathlib.TextEquality.{eq_iff}
use go_kubernetes_mcp_server.Base.Tests.{if◌then◌else◌}
use go_kubernetes_mcp_server.Base.Lists.{IsIn}

abbrev pub StringMap {ℓ} : Type ℓ → Type ℓ
StringMap V = List (String × V)

module _ {ℓ} {V : Type ℓ} where
  unfoldable pub lookup : String → StringMap V → Option V
  lookup k [] = none
  lookup k ((j, v) ∷ m) = if j == k then some v else lookup k m

  unfoldable pub insert : String → V → StringMap V → StringMap V
  insert k v [] = (k, v) ∷ []
  insert k v ((j, w) ∷ m) = if j == k then (k, v) ∷ m else (j, w) ∷ insert k v m

  -- A key reads as what was last put under it; the other keys read as before.
  pub lookup-insert :
      (m : StringMap V) (put read : String) (x : V)
      → lookup read (insert put x m) ≡ (if put == read then some x else lookup read m)
  unfolding insert lookup
  lookup-insert [] put read x = refl
  lookup-insert ((key, y) ∷ rest) put read x =
      ground
        (arith, lookup-insert rest put read x, eq_iff key read, eq_iff key put, eq_iff put read)

-- `m[k]` of a `map[string]bool`: a missing key reads as false.
unfoldable pub has : String → StringMap Bool → Bool
unfolding lookup
has k m = elim (lookup k m) [ none ↦ false | some b ↦ b ]

-- `for _, k := range keys { m[k] = true }`
unfoldable pub add_all : List String → StringMap Bool → StringMap Bool
unfolding insert
add_all [] m = m
add_all (k ∷ ks) m = add_all ks (insert k true m)

pub has-insert :
    (k j : String) (m : StringMap Bool)
    → has j (insert k true m) ≡ (if k == j then true else has j m)
unfolding has
has-insert k j m = ground (arith, lookup-insert m k j true)

pub has-add_all :
    (j : String) (ks : List String) (m : StringMap Bool)
    → (has j (add_all ks m) ≡ true) ↔ (IsIn j ks ⊎ (has j m ≡ true))
unfolding add_all
has-add_all j [] m = (λ h. inr h, elim [ inl e ↦ elim e [ ] | inr h ↦ h ])
has-add_all j (k ∷ ks) m =
    ground (arith, has-add_all j ks (insert k true m), has-insert k j m, eq_iff k j)

-- A map stays not empty when a key is added, and the map of no keys is empty.
pub add_all-ne-nil :
    (k : String) (ks : List String) (m : StringMap Bool) → add_all (k ∷ ks) m ≡ [] → ⊥
unfolding add_all
add_all-ne-nil k ks m = insert_later ks k m
  where
    insert_ne : (i : String) (n : StringMap Bool) → insert i true n ≡ [] → ⊥
    insert_ne i [] e = cc
    insert_ne i ((j, w) ∷ n) e = ground (arith, eq_iff j i)

    insert_later :
        (js : List String) (i : String) (n : StringMap Bool) → add_all js (insert i true n) ≡ [] → ⊥
    insert_later [] i n e = insert_ne i n e
    insert_later (j ∷ js) i n e = insert_later js j (insert i true n) e
