-- ===== src/Operations/Safety/Apply.antt =====
-- apply_manifest, over every document of a manifest.
use go_kubernetes_mcp_server.Base.{
  ◌≡◌, refl, Bool, true, false, not, String, ◌==◌, none, List, [], ◌∷◌, if◌then◌else◌, ℕ, suc,
  Bool-cases, inl, inr,
}
use go_kubernetes_mcp_server.Security.{Policy, check_target, check_namespace}
use go_kubernetes_mcp_server.Kube.{namespaced, Document}
use go_kubernetes_mcp_server.Kube.Rules.{Acts, done, act, Attached, unattached}
use go_kubernetes_mcp_server.Tools.Handler.{Piece}
use go_kubernetes_mcp_server.Tools.Handler.Rules.{guard-Acts}
use go_kubernetes_mcp_server.Tools.Handler.Rules
use go_kubernetes_mcp_server.Operations.Manifest.{
  ApplyArgs, Decoded, documents, undecodable, apply_documents, apply_decoded, apply_manifest,
  or_else,
}
use go_kubernetes_mcp_server.Operations.Safety.{
  Permitted, Reachable, check_mutating-allow, resolve_ns-ne_empty, check_target-namespace,
  check_target-cluster,
}
use go_kubernetes_mcp_server.Operations.Safety.Creates.{go_on-Acts}

or_default-ne_empty :
    (ns default_ns : String)
    → (default_ns == "") ≡ false
    → ((if ns == "" then default_ns else ns) == "") ≡ false
or_default-ne_empty ns default_ns h = elim (Bool-cases (ns == "")) [
  | inl e ↦ rw e h
  | inr e ↦ rw e e
]

checks-Reachable :
    (p : Policy) (ns : String)
    → (ns == "") ≡ false
    → check_target p ns false ≡ none
    → (if not (ns == "") then check_namespace p ns else none) ≡ none
    → Reachable p (namespaced ns)
checks-Reachable p ns h t c = (rw h at c, check_target-namespace p ns false h t)

apply_documents-Acts :
    (p : Policy) (default_ns fm : String) (dry : Bool) (n : ℕ) (objs : List Document)
    (lines : List Piece) {r : Attached}
    → p.allow_writes ≡ true
    → (default_ns == "") ≡ false
    → Acts (Permitted p p.allow_writes dry) r (apply_documents p default_ns fm dry n objs lines)
unfolding apply_documents
apply_documents-Acts p default_ns fm dry n [] lines w h = done
apply_documents-Acts p default_ns fm dry n (obj ∷ objs) lines w h = guard-Acts _ _ λ i.
    act tt λ found.
      go_on-Acts _ _ _
        (λ gvr. guard-Acts _ _ λ m. guard-Acts _ _ λ t. guard-Acts _ _ λ c. act tt λ u.
          let near = checks-Reachable p _ (or_default-ne_empty obj.namespace default_ns h) t c in
          act (w, near, (refl, refl, refl), refl)
            λ y.
              Rules.settle-Acts _ _ y
                λ z. apply_documents-Acts p default_ns fm dry (suc n) objs _ w h)
        (λ gvr. guard-Acts _ _ λ m. guard-Acts _ _ λ t. guard-Acts _ _ λ c. act tt λ u.
          act (w, check_target-cluster p _ t, (refl, refl), refl)
            λ y.
              Rules.settle-Acts _ _ y
                λ z. apply_documents-Acts p default_ns fm dry (suc n) objs _ w h)

apply_decoded-Acts :
    (p : Policy) {r : Attached} (a : ApplyArgs) (decoded : Decoded)
    → p.allow_writes ≡ true
    → Acts (Permitted p p.allow_writes (or_else true a.dry_run)) r (apply_decoded p a decoded)
unfolding apply_decoded
apply_decoded-Acts p a (undecodable message) w = done
apply_decoded-Acts p a (documents objs) w =
    guard-Acts _ _
      λ i. act tt λ u. apply_documents-Acts p _ _ _ 1 objs [] w (resolve_ns-ne_empty a.namespace)

pub apply_manifest-Acts :
    (decode : List ℕ → Decoded) (max_manifest : ℕ) (p : Policy) (a : ApplyArgs)
    → Acts
        (Permitted p p.allow_writes (or_else true a.dry_run))
        unattached
        (apply_manifest decode max_manifest p a)
unfolding apply_manifest
apply_manifest-Acts decode max_manifest p a =
    guard-Acts _ _ λ w. guard-Acts _ _ λ i. apply_decoded-Acts p a _ (check_mutating-allow p w)
