-- ===== src/Tools/Listing/Reads.antt =====
-- Where the shared steps of the tools that read may read.
use go_kubernetes_mcp_server.Base.{
  ◌≡◌, refl, ◌⊎◌, inl, inr, String, ◌==◌, true, false, Option, none, some, List, arith, is_empty,
  eq_iff,
}
use go_kubernetes_mcp_server.Security.{Policy}
use go_kubernetes_mcp_server.Kube.{
  Act, Scope, namespaced, cluster, attach, list_objects, get_one, get_json, stream_logs,
  get_secret_object, get_configmap_object, server_groups_and_resources, server_version, lookup_ip,
  dial, Prog,
}
use go_kubernetes_mcp_server.Kube.Objects.{Kind, Item, ListOptions}
use go_kubernetes_mcp_server.Kube.Rules.{Acts, done, act, Attached, unattached}
use go_kubernetes_mcp_server.Tools.Handler.{Outcome}
use go_kubernetes_mcp_server.Tools.Handler.Rules.{guard-Acts, settle-Acts}
use go_kubernetes_mcp_server.Tools.Util.{
  ListArgs, Listed, listed, refused, resolve_list, resolve_ns, check_scope,
}
use go_kubernetes_mcp_server.Operations.Safety.{
  Reachable, check_scope-Reachable, resolve_ns-ne_empty,
}
use go_kubernetes_mcp_server.Tools.Listing.{NamespaceNameArgs, resolved, list_tool, get_tool}

-- A place that the policy lets be read: all namespaces where there is no allowlist, a namespace in
-- reach, or the cluster scope, which is not guarded. Beside them stands one namespace (`extra`) that a
-- tool reads whatever the policy says, if it does.
abbrev pub InReach : Policy → Option String → Scope → Type 0
InReach p extra (namespaced ns) =
    (((ns == "") ≡ true) × (is_empty p.namespaces ≡ true))
    ⊎ (Reachable p (namespaced ns) ⊎ (extra ≡ some ns))
InReach p extra cluster = Unit

-- An act that changes nothing and reads in such a place.
abbrev pub IsRead : Policy → Option String → Attached → Act → Type 0
IsRead p extra r (attach kind namespace name dry_run) = Unit
IsRead p extra r (list_objects k sc opts) = InReach p extra sc
IsRead p extra r (get_one k sc name) = InReach p extra sc
IsRead p extra r (get_json gvr sc name) = InReach p extra sc
IsRead p extra r (stream_logs sc name opts) = InReach p extra sc
IsRead p extra r (get_secret_object sc name) = InReach p extra sc
IsRead p extra r (get_configmap_object sc name) = InReach p extra sc
IsRead p extra r server_groups_and_resources = Unit
IsRead p extra r server_version = Unit
IsRead p extra r (lookup_ip host) = Unit
IsRead p extra r (dial addr port) = Unit
IsRead p extra r _ = ⊥

pub check_scope-InReach :
    (p : Policy) (extra : Option String) (ns : String)
    → check_scope p (resolve_ns ns) false ≡ none
    → InReach p extra (namespaced (resolve_ns ns))
check_scope-InReach p extra ns h =
    inr (inl (check_scope-Reachable p (resolve_ns ns) (resolve_ns-ne_empty ns) h))

pub resolve_list-InReach :
    (p : Policy) (extra : Option String) (a : ListArgs) (ns : String) (opts : ListOptions)
    → resolve_list p a ≡ listed ns opts
    → InReach p extra (namespaced ns)
unfolding resolve_list check_scope
resolve_list-InReach p extra a ns opts h = ground (arith, check_scope-Reachable p ns, eq_iff ns "")

pub resolved-Acts :
    {P : Attached → Act → Type 0} {r : Attached} (l : Listed)
    (k : String × ListOptions → Prog Outcome)
    → ((ns : String) (opts : ListOptions) → l ≡ listed ns opts → Acts P r (k (ns, opts)))
    → Acts P r (resolved l k)
unfolding resolved
resolved-Acts (refused err) k h = done
resolved-Acts (listed ns opts) k h = h ns opts refl

module _ (p : Policy) (extra : Option String) where
  pub list_tool-Acts :
      (k : Kind) (a : ListArgs) (kind action : String) (show : List (Item k) → Outcome)
      → Acts (IsRead p extra) unattached (list_tool k p a kind action show)
  unfolding list_tool
  list_tool-Acts k a kind action show = resolved-Acts _ _ λ ns opts h.
      act tt
        λ u. act (resolve_list-InReach p extra a ns opts h) λ x. settle-Acts _ _ x λ items. done

  pub get_tool-Acts :
      (k : Kind) (a : NamespaceNameArgs) (kind action : String)
      (show : String → Item k → Prog Outcome)
      → ((r : Attached) (x : Item k)
          → InReach p extra (namespaced (resolve_ns a.namespace))
          → Acts (IsRead p extra) r (show (resolve_ns a.namespace) x))
      → Acts (IsRead p extra) unattached (get_tool k p a kind action show)
  unfolding get_tool
  get_tool-Acts k a kind action show h = guard-Acts _ _ λ n. guard-Acts _ _ λ c.
      let near = check_scope-InReach p extra a.namespace c in
      act tt λ u. act near λ x. settle-Acts _ _ x λ found. h _ found near
