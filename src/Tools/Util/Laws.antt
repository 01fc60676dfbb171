-- ===== src/Tools/Util/Laws.antt =====
-- The scope of lists and of calls.
use go_kubernetes_mcp_server.Base.{
  ℕ, ◌+◌, ◌*◌, ◌≤◌, ◌<◌, ◌≡◌, ◌≢◌, ◌⊎◌, Bool, true, false, String, none, [], arith, eq_iff,
}
use go_kubernetes_mcp_server.Security.{Policy, check_namespace, check_target}
use go_kubernetes_mcp_server.Rpc.{is_privileged_namespace}
use go_kubernetes_mcp_server.Operations.Scale.{policy_target}
use go_kubernetes_mcp_server.Kube.Objects.{ListOptions}
use go_kubernetes_mcp_server.Tools.Util.{
  ListArgs, listed, resolve_list, check_scope, resolve_ns, Age, seconds, minutes, hours, days,
  short_duration, second, minute, hour,
}

-- Where an allowlist is configured, a list that the toolkit lets through is of one namespace of the
-- allowlist, which is of the control plane only if privileged targets are allowed; and its selector
-- is that of the call.
pub resolve_list-allowed :
    (p : Policy) (a : ListArgs) (ns : String) (opts : ListOptions)
    → resolve_list p a ≡ listed ns opts
    → p.namespaces ≢ []
    → (ns ≢ "")
      × (check_namespace p ns ≡ none)
      × ((p.allow_privileged_targets ≡ true) ⊎ (is_privileged_namespace ns ≡ false))
      × (opts.label_selector ≡ a.selector)
unfolding resolve_list check_target
resolve_list-allowed p a ns opts h e =
    ground (arith, eq_iff ns "", eq_iff (resolve_ns a.namespace) "")

-- The two guards of the tools, `CheckScope` and `policyTarget`, agree on every target with a namespace
-- and on every cluster-scoped one.
pub check_scope-eq-policy_target :
    (p : Policy) (ns : String) (cluster_scoped : Bool)
    → (ns ≢ "") ⊎ (cluster_scoped ≡ true)
    → check_scope p ns cluster_scoped ≡ policy_target p ns cluster_scoped
unfolding check_scope policy_target
check_scope-eq-policy_target p ns cluster_scoped h = ground (arith, eq_iff ns "")

-- How long an age says that it is at least, and less than what.
abbrev pub Shows : ℕ → Age → Type 0
Shows t (seconds n) = (n * second ≤ t) × (t < (n + 1) * second) × (n < 60)
Shows t (minutes n) = (n * minute ≤ t) × (t < (n + 1) * minute) × (1 ≤ n) × (n < 60)
Shows t (hours n) = (n * hour ≤ t) × (t < (n + 1) * hour) × (1 ≤ n) × (n < 24)
Shows t (days n) = (n * (24 * hour) ≤ t) × (t < (n + 1) * (24 * hour)) × (1 ≤ n)

-- An age is rounded down in the largest unit that is not more than the duration.
pub short_duration-Shows : (t : ℕ) → Shows t (short_duration t)
unfolding short_duration
short_duration-Shows t = ground arith
