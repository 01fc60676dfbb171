-- ===== src/Operations/Undo/Collected.antt =====
-- The map that rollout_undo collects, against what it is to hold.
use go_kubernetes_mcp_server.Base.{
  String, ◌==◌, ◌≡◌, refl, false, not, ◌&&◌, Option, none, some, List, [], ◌∷◌, if◌then◌else◌,
  StringMap, lookup, insert, lookup-insert, ◌∙◌, arith, eq_iff,
}
use go_kubernetes_mcp_server.Kube.{ReplicaSet}
use go_kubernetes_mcp_server.Operations.Undo.{owned_by, collect, revision_key, value_or_empty}

-- The revision that a replica set is annotated with.
abbrev pub revision_of : ReplicaSet → String
revision_of rs = value_or_empty (lookup revision_key rs.annotations)

-- The last of the replica sets that a deployment owns with a revision.
unfoldable pub last_owned : String → String → List ReplicaSet → Option ReplicaSet
last_owned name rev [] = none
last_owned name rev (rs ∷ sets) =
    let later = last_owned name rev sets in
    elim later [
      | some found ↦ some found
      | none ↦
          if owned_by rs.owner_references name "Deployment" && revision_of rs == rev
          then some rs
          else none
    ]

abbrev pub or_else : Option ReplicaSet → Option ReplicaSet → Option ReplicaSet
or_else (some rs) other = some rs
or_else none other = other

-- One round of the loop.
abbrev put : String → ReplicaSet → StringMap ReplicaSet → StringMap ReplicaSet
put name rs m =
    if not (owned_by rs.owner_references name "Deployment")
    then m
    else if revision_of rs == ""
    then m
    else insert (revision_of rs) rs m

lookup-put :
    (name rev : String) (rs : ReplicaSet) (m : StringMap ReplicaSet)
    → (rev == "") ≡ false
    → lookup rev (put name rs m) ≡ (
        if owned_by rs.owner_references name "Deployment" && revision_of rs == rev
        then some rs
        else lookup rev m)
lookup-put name rev rs m h = ground (
  arith,
  lookup-insert m (revision_of rs) rev rs,
  eq_iff (revision_of rs) "",
  eq_iff rev "",
  eq_iff (revision_of rs) rev,
)

lookup-collect_from :
    (name rev : String) (sets : List ReplicaSet) (m : StringMap ReplicaSet)
    → (rev == "") ≡ false
    → lookup rev (collect name sets m) ≡ or_else (last_owned name rev sets) (lookup rev m)
unfolding collect last_owned
lookup-collect_from name rev [] m h = refl
lookup-collect_from name rev (rs ∷ sets) m h =
    lookup-collect_from name rev sets (put name rs m) h ∙ ground (arith, lookup-put name rev rs m h)

-- Under each revision, the map that rollout_undo collects from a list of replica sets holds the last of
-- those that the deployment owns as their controller with that revision, and nothing where there is
-- none.
pub lookup-collect :
    (name rev : String) (sets : List ReplicaSet)
    → (rev == "") ≡ false
    → lookup rev (collect name sets []) ≡ last_owned name rev sets
unfolding lookup
lookup-collect name rev sets h = lookup-collect_from name rev sets [] h ∙ ground arith
