-- ===== src/Operations/Safety.antt =====
-- What a tool may do to the cluster under a policy.
pub mod Writes
pub mod Apply
pub mod Nodes
pub mod Creates
use go_kubernetes_mcp_server.Base.{
  ◌≡◌, refl, ◌⊎◌, inl, inr, Bool, true, false, String, ◌==◌, Option, none, some, arith, not, ◌&&◌,
  if◌then◌else◌, Bool-cases, eq_iff,
}
use go_kubernetes_mcp_server.Err.{Err}
use go_kubernetes_mcp_server.Security.{
  Policy, check_namespace, check_target, check_mutating, check_destructive,
}
use go_kubernetes_mcp_server.Rpc.{is_privileged_namespace}
use go_kubernetes_mcp_server.Kube.{Scope, namespaced, cluster, Act}
use go_kubernetes_mcp_server.Kube.Rules.{Attached, Effect, reads, writes, effect}
use go_kubernetes_mcp_server.Tools.Util.{resolve_ns, check_scope}
use go_kubernetes_mcp_server.Operations.Scale.{policy_target}

-- A namespace that is on the allowlist, if there is one, and that is no namespace of the control
-- plane unless the policy allows those; or the cluster, which the policy must allow.
abbrev pub Reachable : Policy → Scope → Type 0
Reachable p (namespaced ns) =
    (check_namespace p ns ≡ none)
    × ((p.allow_privileged_targets ≡ true) ⊎ (is_privileged_namespace ns ≡ false))
Reachable p cluster = p.allow_privileged_targets ≡ true

-- The audit record names what is written: its name, its namespace if it has one, and whether this is
-- a dry run.
abbrev pub Recorded : Attached → Scope → String → Bool → Type 0
Recorded r (namespaced ns) name dry = (r.name ≡ name) × (r.namespace ≡ ns) × (r.dry_run ≡ dry)
Recorded r cluster name dry = (r.name ≡ name) × (r.dry_run ≡ dry)

-- A write under a flag of the policy, in reach of the policy, recorded, and a dry run exactly if one
-- was asked for. Reads are free.
abbrev pub OnWrite : Policy → Bool → Bool → Attached → Effect → Type 0
OnWrite p flag dry_run r reads = Unit
OnWrite p flag dry_run r (writes sc name dry) =
    (flag ≡ true) × Reachable p sc × Recorded r sc name dry × (dry ≡ dry_run)

abbrev pub Permitted : Policy → Bool → Bool → Attached → Act → Type 0
Permitted p flag dry_run r a = OnWrite p flag dry_run r (effect a)

pub check_mutating-allow : (p : Policy) → check_mutating p ≡ none → p.allow_writes ≡ true
unfolding check_mutating
check_mutating-allow p h = ground arith

pub check_destructive-allow : (p : Policy) → check_destructive p ≡ none → p.allow_destructive ≡ true
unfolding check_destructive
check_destructive-allow p h = ground arith

pub check_target-cluster :
    (p : Policy) (ns : String) → check_target p ns true ≡ none → p.allow_privileged_targets ≡ true
unfolding check_target
check_target-cluster p ns h = ground arith

pub resolve_ns-ne_empty : (ns : String) → (resolve_ns ns == "") ≡ false
unfolding resolve_ns
resolve_ns-ne_empty ns = elim (Bool-cases (ns == "")) [ inl h ↦ rw h refl | inr h ↦ rw h h ]

pub check_target-namespace :
    (p : Policy) (ns : String) (scoped : Bool)
    → (ns == "") ≡ false
    → check_target p ns scoped ≡ none
    → (p.allow_privileged_targets ≡ true) ⊎ (is_privileged_namespace ns ≡ false)
unfolding check_target
check_target-namespace p ns scoped h e = ground arith

pub policy_target-Reachable :
    (p : Policy) (ns : String)
    → (ns == "") ≡ false
    → policy_target p ns false ≡ none
    → Reachable p (namespaced ns)
unfolding policy_target check_target
policy_target-Reachable p ns h e = ground arith

pub policy_target-cluster :
    (p : Policy) (ns : String) → policy_target p ns true ≡ none → Reachable p cluster
unfolding policy_target check_target
policy_target-cluster p ns e = ground arith

pub check_scope-Reachable :
    (p : Policy) (ns : String)
    → (ns == "") ≡ false
    → check_scope p ns false ≡ none
    → Reachable p (namespaced ns)
unfolding check_scope check_target
check_scope-Reachable p ns h e = ground arith
