-- ===== src/Operations/Undo/Tests.antt =====
-- A rollback over a concrete history.
use go_kubernetes_mcp_server.Base.{
  ◌≡◌, ◌≢◌, refl, false, String, [], ◌∷◌, IsIn, StringMap, some, true, lookup, show_nat, arith,
  List, ℕ, map,
}
use mathlib.Core.List.{Perm}
use go_kubernetes_mcp_server.Base.Sort.Laws.{Sorted}
use go_kubernetes_mcp_server.Kube.{ReplicaSet}
use go_kubernetes_mcp_server.Operations.Undo.{previous_revision, collect}
use go_kubernetes_mcp_server.Operations.Undo.Order.{atoi, ltb_ℤ, sorted_revisions_desc}
use go_kubernetes_mcp_server.Operations.Undo.Order.Digits.{larger, sorted_revisions_desc-numbers}
use go_kubernetes_mcp_server.Operations.Undo.Collected.{last_owned, lookup-collect}
use go_kubernetes_mcp_server.Operations.Undo.Choice.{previous_revision-best}

abbrev set_of_web : ReplicaSet
set_of_web = record { owner_references = []; annotations = []; template = 0 }

-- Revision 10 is current; by their texts "9" would stand above it, and "2" above neither.
abbrev history : StringMap ReplicaSet
history = ("9", set_of_web) ∷ ("10", set_of_web) ∷ ("2", set_of_web) ∷ []

previous_revision-best_example :
    (◌≢◌ {A = String} "9" "10")
    × IsIn {A = String} "9" ("9" ∷ "10" ∷ "2" ∷ [])
    × ((t : String) → IsIn t ("9" ∷ "10" ∷ "2" ∷ []) → t ≢ "10" → ltb_ℤ (atoi "9") (atoi t) ≡ false)
unfolding previous_revision go_kubernetes_mcp_server.Operations.Undo.Order.sorted_revisions_desc
    atoi
previous_revision-best_example = previous_revision-best "10" "9" history refl

abbrev web_set : ReplicaSet
web_set = record {
  owner_references = record { kind = "Deployment"; name = "web"; controller = some true } ∷ [];
  annotations = ("deployment.kubernetes.io/revision", "3") ∷ [];
  template = 5;
}

lookup-collect_example :
    lookup "3" (collect "web" (web_set ∷ []) []) ≡ last_owned "web" "3" (web_set ∷ [])
lookup-collect_example = lookup-collect "web" "3" (web_set ∷ []) refl

sorted_revisions_desc-numbers_example :
    (ms : List ℕ) × Perm ms (9 ∷ 10 ∷ 2 ∷ [])
    × Sorted larger ms
    × (sorted_revisions_desc history ≡ map show_nat ms)
unfolding show_nat
sorted_revisions_desc-numbers_example =
    sorted_revisions_desc-numbers history (9 ∷ 10 ∷ 2 ∷ []) refl
      (omega arith, (omega arith, (omega arith, tt)))
