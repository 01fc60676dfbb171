-- ===== src/Operations/Nodes/Evictions.antt =====
-- internal/tools/operations/nodes.go, the loop of drain_node: which pods it evicts and what it counts.
use go_kubernetes_mcp_server.Base.{
  ℕ, suc, ◌+◌, ◌≡◌, refl, Option, none, some, List, [], ◌∷◌, length, arith, ap, ◌++◌,
}
use go_kubernetes_mcp_server.Kube.{
  Act, Reply, Prog, ret, Pod, evict, namespaced, Answer, ok, failed,
}
use go_kubernetes_mcp_server.Kube.Rules.{Attached, run}
use go_kubernetes_mcp_server.Tools.Handler.{Outcome}
use go_kubernetes_mcp_server.Operations.Nodes.{
  DrainArgs, Drained, Reason, skip, count_eviction, skip_reason, drain_pod, drain_pods,
  drain_report,
}

-- How many pods a drain has dealt with.
abbrev pub tally : Drained → ℕ
tally t = t.evicted + (t.skipped + t.failures)

-- The evictions that a drain owes: one for each pod that no reason keeps, in their order.
abbrev pub owed_for : Attached → Pod → Option Reason → List (Attached × Act)
owed_for r p (some why) = []
owed_for r p none = (r, evict (namespaced p.namespace) p.name) ∷ []

abbrev pub owed : Attached → DrainArgs → List Pod → List (Attached × Act)
owed r a [] = []
owed r a (p ∷ ps) = owed_for r p (skip_reason p a) ++ owed r a ps

-- A run makes these acts, and its result is the report of `n` more pods than `t` has dealt with.
abbrev pub Deals : List (Attached × Act) → Drained → ℕ → Outcome × List (Attached × Act) → Type 0
Deals acts t n ran =
    (ran.1 ≡ acts) × ((t' : Drained) × (ran.0 ≡ drain_report t') × (tally t' ≡ tally t + n))

count_eviction-tally :
    (p : Pod) (t : Drained) (x : Answer (Unit {0})) → tally (count_eviction p t x) ≡ suc (tally t)
count_eviction-tally p t (ok _) = omega arith
count_eviction-tally p t (failed err) = omega arith

Deals-suc :
    (acts : List (Attached × Act)) (t u : Drained) (n : ℕ) (ran : Outcome × List (Attached × Act))
    → tally u ≡ suc (tally t)
    → Deals acts u n ran
    → Deals acts t (suc n) ran
Deals-suc acts t u n ran e (same, (t', report, count)) = (same, (t', report, omega arith))

module _ {S : Type 0} (serve : S → (a : Act) → S × Reply a) (r : Attached) where
  drain_pod-Deals :
      (p : Pod) (t : Drained) (rest : Drained → Prog Outcome) (o : Option Reason)
      (acts : List (Attached × Act)) (n : ℕ) (st : S)
      → ((st' : S) (u : Drained) → Deals acts u n (run serve st' r (rest u)))
      → Deals (owed_for r p o ++ acts) t (suc n) (run serve st r (drain_pod p t rest o))
  unfolding drain_pod run
  drain_pod-Deals p t rest (some why) acts n st ih =
      Deals-suc acts t (skip p why t) n _ (omega arith) (ih st (skip p why t))
  drain_pod-Deals p t rest none acts n st ih =
      let a : Act = evict (namespaced p.namespace) p.name in
      let u = count_eviction p t (serve st a).1 in
      let (same, ends) =
        Deals-suc acts t u n _ (count_eviction-tally p t (serve st a).1) (ih (serve st a).0 u) in
      (ap (λ l. (r, a) ∷ l) same, ends)

  -- Whatever the server answers, the loop of drain_node makes exactly the evictions that it owes,
  -- each once and in the order of the list, and its report counts every pod of the list once, as
  -- evicted, skipped or failed.
  pub drain_pods-Deals :
      (a : DrainArgs) (ps : List Pod) (t : Drained) (st : S)
      → Deals
          (owed r a ps)
          t
          (length ps)
          (run serve st r (drain_pods a ps t (λ t'. ret (drain_report t'))))
  unfolding drain_pods run
  drain_pods-Deals a [] t st = (refl, (t, refl, omega arith))
  drain_pods-Deals a (p ∷ ps) t st =
      drain_pod-Deals p t _ (skip_reason p a) _ _ st (λ st' u. drain_pods-Deals a ps u st')
