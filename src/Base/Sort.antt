-- ===== src/Base/Sort.antt =====
-- `sort.Strings` and `sort.Slice`. Go leaves the order of equals open; here they keep theirs.
pub mod Laws
use Prim.Native.Nat.{ℕ}
use Prim.Native.String.{String}
use mathlib.Core.Bool.{Bool, true, false}
use mathlib.Core.List.{List, [], ◌∷◌, map}
use go_kubernetes_mcp_server.Base.Tests.{ltb, nat_eq, if◌then◌else◌}
use go_kubernetes_mcp_server.Base.Text.{codes}
use go_kubernetes_mcp_server.Base.Maps.{StringMap}

-- The order of Go's strings, which is that of their code points.
pub text_ltb : List ℕ → List ℕ → Bool
text_ltb xs [] = false
text_ltb [] (c ∷ ys) = true
text_ltb (b ∷ xs) (c ∷ ys) =
    let rest = text_ltb xs ys in if ltb b c then true else if nat_eq b c then rest else false

unfoldable pub before : String → String → Bool
unfolding text_ltb
before s t = text_ltb (codes s) (codes t)

pub insert_key : String → List String → List String
unfolding before
insert_key k [] = k ∷ []
insert_key k (j ∷ ks) = let later = insert_key k ks in if before j k then j ∷ later else k ∷ j ∷ ks

-- `sortedKeys` and `sortedStringKeys`; `sort.Strings` on keys that differ.
unfoldable pub sort_keys : List String → List String
unfolding insert_key
sort_keys [] = []
sort_keys (k ∷ ks) = insert_key k (sort_keys ks)

unfoldable pub sorted_keys {ℓ} : {V : Type ℓ} → StringMap V → List String
unfolding sort_keys
sorted_keys m = sort_keys (map (λ e. e.0) m)

module _ {A : Type 0} (less : A → A → Bool) where
  unfoldable pub insert_by : A → List A → List A
  insert_by a [] = a ∷ []
  insert_by a (b ∷ bs) = let later = insert_by a bs in if less b a then b ∷ later else a ∷ b ∷ bs

  unfoldable pub sort_by : List A → List A
  unfolding insert_by
  sort_by [] = []
  sort_by (a ∷ rest) = insert_by a (sort_by rest)
