-- ===== src/Operations/Nodes.antt =====
-- internal/tools/operations/nodes.go: cordon, uncordon and drain. The time that a drain may take bounds
-- its calls: a call that runs out of time is one that answers with an error.
pub mod Evictions
use go_kubernetes_mcp_server.Base.{
  ℕ, suc, ltb, ℤ, pos, String, ◌==◌, Bool, true, false, ◌&&◌, ◌||◌, not, Option, none, some, List,
  [], ◌∷◌, ◌++◌, length, if◌then◌else◌, any, lookup, ◌<>◌,
}
use go_kubernetes_mcp_server.Security.{Policy, check_destructive, check_target}
use go_kubernetes_mcp_server.Rpc.{validate_name}
use go_kubernetes_mcp_server.Kube.{
  namespaced, cluster, Prog, ret, call, attach, patch, nodes, merge, unschedulable, list_pods,
  evict, Pod, OwnerReference, Answer, ok, failed,
}
use go_kubernetes_mcp_server.Tools.Handler.{
  Outcome, text, Piece, s, d, e, ◌>>=◌, ◌>>◌, guard, answer,
}
use go_kubernetes_mcp_server.Operations.Undo.{is_controller}

pub record NodeNameArgs : Type 0 where
  pub name : String

unfoldable pub set_node_unschedulable : Bool → Policy → NodeNameArgs → Prog Outcome
set_node_unschedulable flag p a = do
  guard (validate_name a.name)
  guard (check_target p "" true)
  call (attach "Node" "" a.name false)
  answer ((if flag then "cordon" else "uncordon") <> " node " <> a.name)
      (call (patch nodes cluster a.name merge (unschedulable flag) false))
  ret (
      text (
        s "node "
        ∷ s a.name
        ∷ s " marked "
        ∷ s (if flag then "unschedulable (cordoned)" else "schedulable (uncordoned)")
        ∷ s "\n"
        ∷ []))

unfoldable pub cordon_node : Policy → NodeNameArgs → Prog Outcome
unfolding set_node_unschedulable
cordon_node = set_node_unschedulable true

unfoldable pub uncordon_node : Policy → NodeNameArgs → Prog Outcome
unfolding set_node_unschedulable
uncordon_node = set_node_unschedulable false

pub record DrainArgs : Type 0 where
  pub name : String
  pub delete_empty_dir_data : Bool
  pub ignore_daemon_sets : Bool
  pub force : Bool

unfoldable pub has_controller : Pod → Bool
has_controller p = any (λ (r : OwnerReference). is_controller r.controller) p.owner_references

unfoldable pub has_owner_kind : Pod → String → Bool
has_owner_kind p kind = any (λ (r : OwnerReference). r.kind == kind) p.owner_references

unfoldable pub has_empty_dir : Pod → Bool
has_empty_dir p = any (λ b. b) p.volumes

-- `corev1.MirrorPodAnnotationKey`
abbrev pub mirror_pod_annotation_key : String
mirror_pod_annotation_key = "kubernetes.io/config.mirror"

abbrev pub has_key : Option String → Bool
has_key none = false
has_key (some _) = true

-- The texts that `skipReason` returns, and `none` for "".
pub data Reason : Type 0 where
  mirror standalone daemon_set empty_dir : Reason

unfoldable pub skip_reason : Pod → DrainArgs → Option Reason
skip_reason p a =
    if p.namespace == "kube-system" && has_key (lookup mirror_pod_annotation_key p.annotations)
    then some mirror
    else if not (has_controller p) && not a.force
    then some standalone
    else if has_owner_kind p "DaemonSet"
    then some daemon_set
    else if not a.delete_empty_dir_data && has_empty_dir p
    then some empty_dir
    else none

abbrev reason_text : Reason → String
reason_text mirror = "mirror/static pod"
reason_text standalone = "standalone pod (use force=true)"
reason_text daemon_set = "DaemonSet pod"
reason_text empty_dir = "uses emptyDir (use delete_emptydir_data=true)"

-- What the loop of a drain has counted and written.
pub record Drained : Type 0 where
  pub evicted : ℕ
  pub skipped : ℕ
  pub failures : ℕ
  pub lines : List Piece

abbrev pub skip : Pod → Reason → Drained → Drained
skip p r t = record t {
  skipped = suc t.skipped;
  lines =
      t.lines
      ++ s "  skip " ∷ s p.namespace ∷ s "/" ∷ s p.name ∷ s " (" ∷ s (reason_text r) ∷ s ")\n" ∷ [];
}

-- The answer to an eviction.
abbrev pub count_eviction : Pod → Drained → Answer (Unit {0}) → Drained
count_eviction p t (ok _) = record t {
  evicted = suc t.evicted;
  lines = t.lines ++ s "  evict " ∷ s p.namespace ∷ s "/" ∷ s p.name ∷ s "\n" ∷ [];
}
count_eviction p t (failed err) = record t {
  failures = suc t.failures;
  lines = t.lines ++ s "  FAIL  " ∷ s p.namespace ∷ s "/" ∷ s p.name ∷ s ": " ∷ e err ∷ s "\n" ∷ [];
}

-- One round of the loop over the pods of the node, with the rounds that follow.
unfoldable pub drain_pod : Pod → Drained → (Drained → Prog Outcome) → Option Reason → Prog Outcome
drain_pod p t rest (some r) = rest (skip p r t)
drain_pod p t rest none =
    call (evict (namespaced p.namespace) p.name) (λ x. rest (count_eviction p t x))

unfoldable pub drain_pods : DrainArgs → List Pod → Drained → (Drained → Prog Outcome) → Prog Outcome
unfolding drain_pod
drain_pods a [] t k = k t
drain_pods a (p ∷ ps) t k = drain_pod p t (λ t'. drain_pods a ps t' k) (skip_reason p a)

pub drain_report : Drained → Outcome
drain_report t = text (
    t.lines
    ++ (s "done: "
        ∷ d (pos t.evicted)
        ∷ s " evicted, "
        ∷ d (pos t.skipped)
        ∷ s " skipped, "
        ∷ d (pos t.failures)
        ∷ s " failed\n"
        ∷ (if ltb 0 t.failures
            then s
                "\nSome pods could not be evicted (likely blocked by a PodDisruptionBudget). Re-run after resolving, or increase the timeout.\n"
              ∷ []
            else [])))

unfoldable pub drain_node : Policy → DrainArgs → Prog Outcome
unfolding drain_pods drain_report
drain_node p a = do
  guard (check_destructive p)
  guard (validate_name a.name)
  guard (check_target p "" true)
  call (attach "Node" "" a.name false)
  answer ("cordon node " <> a.name <> " during drain")
      (call (patch nodes cluster a.name merge (unschedulable true) false))
  pods ← answer ("list pods on node " <> a.name) (call (list_pods ("spec.nodeName=" <> a.name)))
  let start : Drained = record {
    evicted = 0;
    skipped = 0;
    failures = 0;
    lines =
        s "draining node "
        ∷ s a.name
        ∷ s " (cordoned, "
        ∷ d (pos (length pods))
        ∷ s " resident pods)\n"
        ∷ [];
  }
  drain_pods a pods start (λ t. ret (drain_report t))
