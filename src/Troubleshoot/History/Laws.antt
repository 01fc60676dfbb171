-- ===== src/Troubleshoot/History/Laws.antt =====
-- Which revision rollout_history calls the current one.
use go_kubernetes_mcp_server.Base.{
  String, ◌≡◌, inl, inr, Bool, false, List, [], ◌∷◌, codes, before, map, Bool-cases, at_IsIn,
  All-IsIn, map-IsIn, sort_by, All, IsIn,
}
use go_kubernetes_mcp_server.Base.Sort.{text_ltb}
use go_kubernetes_mcp_server.Base.Sort.Laws.{
  text_ltb_asymmetric, text_ltb_negative, Sorted, sort_by-Sorted, sort_by-IsIn, sort_by-All,
}
use go_kubernetes_mcp_server.Kube.Objects.{ReplicaSetObject}
use go_kubernetes_mcp_server.Troubleshoot.History.{
  Revision, revisions, sort_revisions, last_revision, reported_current,
}

abbrev descends : Revision → Revision → Bool
descends r t = before t.revision r.revision

sort_revisions-Sorted : (revs : List Revision) → Sorted descends (sort_revisions revs)
unfolding sort_revisions before
sort_revisions-Sorted revs =
    sort_by-Sorted descends (λ r t h. text_ltb_asymmetric (codes t.revision) (codes r.revision) h)
      (λ r t u h k. text_ltb_negative (codes u.revision) (codes t.revision) (codes r.revision) k h)
      revs

before_irreflexive : (t : String) → before t t ≡ false
unfolding before
before_irreflexive t = elim (Bool-cases (text_ltb (codes t) (codes t))) [
  | inl h ↦ text_ltb_asymmetric (codes t) (codes t) h
  | inr h ↦ h
]

-- What holds of all holds of the last.
at_last :
    (Q : String → Type 0) (r : Revision) (revs : List Revision)
    → All (λ (t : Revision). Q t.revision) (r ∷ revs)
    → Q (last_revision (r ∷ revs))
unfolding last_revision
at_last Q r [] (h, hs) = h
at_last Q r (t ∷ revs) (h, hs) = at_last Q t revs hs

-- The last of a sorted list is the least.
last_revision-least :
    (r : Revision) (revs : List Revision)
    → Sorted descends (r ∷ revs)
    → All (λ (t : Revision). before t.revision (last_revision (r ∷ revs)) ≡ false) (r ∷ revs)
unfolding last_revision
last_revision-least r [] h = (before_irreflexive r.revision, tt)
last_revision-least r (t ∷ revs) (h, hs) =
    (at_last (λ rev. before r.revision rev ≡ false) t revs h, last_revision-least t revs hs)

-- What holds of all elements of a sorted list holds of those of the list.
unsort :
    (P : Revision → Type 0) (revs : List Revision)
    → All P (sort_revisions revs)
    → (r : Revision) → IsIn r revs
    → P r
unfolding sort_revisions
unsort P revs h r i = at_IsIn P (sort_by descends revs) h r ((sort_by-IsIn descends r revs).1 i)

least_of_Sorted :
    (revs : List Revision)
    → Sorted descends revs
    → All (λ (t : Revision). before t.revision (last_revision revs) ≡ false) revs
least_of_Sorted [] h = tt
least_of_Sorted (r ∷ revs) h = last_revision-least r revs h

texts : List Revision → List String
texts revs = map (λ t. t.revision) revs

last_of_sorted :
    (revs : List Revision) (r : Revision)
    → IsIn r (sort_revisions revs)
    → IsIn (last_revision (sort_revisions revs)) (texts revs)
unfolding sort_revisions texts
last_of_sorted revs r i =
    go (sort_by descends revs) i
      (sort_by-All descends _ revs (All-IsIn _ revs λ t j. map-IsIn (λ x. x.revision) t revs j))
  where
    go :
        (ts : List Revision)
        → IsIn r ts
        → All (λ t. IsIn t.revision (map (λ x. x.revision) revs)) ts
        → IsIn (last_revision ts) (map (λ x. x.revision) revs)
    go [] j h = elim j [ ]
    go (t ∷ ts) j h = at_last (λ rev. IsIn rev (map (λ x. x.revision) revs)) t ts h

-- The revision that rollout_history reports as the current one is that of a replica set that the
-- deployment owns, if it owns any, and in the order of texts it is not after that of any other: it is
-- the least of the texts, and not the highest number.
pub reported_current-least :
    (name : String) (sets : List ReplicaSetObject) (r : Revision)
    → IsIn r (revisions name sets)
    → IsIn (reported_current name sets) (map (λ t. t.revision) (revisions name sets))
      × (before r.revision (reported_current name sets) ≡ false)
unfolding reported_current texts sort_revisions
reported_current-least name sets r i = (
  last_of_sorted (revisions name sets) r ((sort_by-IsIn descends r (revisions name sets)).1 i),
  unsort (λ t. before t.revision (reported_current name sets) ≡ false) (revisions name sets)
      (least_of_Sorted _ (sort_revisions-Sorted (revisions name sets))) r i,
)
