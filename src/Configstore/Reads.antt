-- ===== src/Configstore/Reads.antt =====
-- Where get_secret and get_configmap read.
use go_kubernetes_mcp_server.Base.{ℕ, List, String, Option}
use go_kubernetes_mcp_server.Security.{Policy}
use go_kubernetes_mcp_server.Kube.{Act, attach, get_secret_object, get_configmap_object}
use go_kubernetes_mcp_server.Kube.Rules.{Acts, done, act, Attached, unattached}
use go_kubernetes_mcp_server.Tools.Handler.Rules.{guard-Acts, settle-Acts}
use go_kubernetes_mcp_server.Tools.Util.{resolve_ns}
use go_kubernetes_mcp_server.Tools.Listing.Reads.{IsRead, check_scope-InReach}
use go_kubernetes_mcp_server.Configstore.Lists.{list_storage_classes}
use go_kubernetes_mcp_server.Operations.Safety.{
  Reachable, check_scope-Reachable, resolve_ns-ne_empty,
}
use go_kubernetes_mcp_server.Configstore.{
  GetSecretArgs, get_secret, GetConfigMapArgs, get_configmap,
}

-- A read in reach of the policy, or an entry in the audit record; no other act.
abbrev pub OnRead : Policy → Attached → Act → Type 0
OnRead p r (attach kind namespace name dry_run) = Unit
OnRead p r (get_secret_object sc name) = Reachable p sc
OnRead p r (get_configmap_object sc name) = Reachable p sc
OnRead p r _ = ⊥

-- Whatever the server answers, get_secret and get_configmap read in one place only, a namespace that is
-- on the allowlist, and of the control plane only with privileged targets allowed; and they write
-- nothing.
pub get_secret-Acts :
    (sha256_hex : List ℕ → List ℕ) (p : Policy) (a : GetSecretArgs) (b : GetConfigMapArgs)
    → Acts (OnRead p) unattached (get_secret sha256_hex p a)
      × Acts (OnRead p) unattached (get_configmap p b)
unfolding get_secret get_configmap
get_secret-Acts sha256_hex p a b = (
  guard-Acts _ _ λ n. guard-Acts _ _ λ c. guard-Acts _ _ λ v. act tt λ u.
      act (check_scope-Reachable p (resolve_ns a.namespace) (resolve_ns-ne_empty a.namespace) c)
        λ x. settle-Acts _ _ x λ y. done,
  guard-Acts _ _ λ n. guard-Acts _ _ λ c. act tt λ u.
      act (check_scope-Reachable p (resolve_ns b.namespace) (resolve_ns-ne_empty b.namespace) c)
        λ x. settle-Acts _ _ x λ y. done,
)

module _ (p : Policy) (extra : Option String) where
  pub get_secret-IsRead :
      (sha256_hex : List ℕ → List ℕ) (a : GetSecretArgs)
      → Acts (IsRead p extra) unattached (get_secret sha256_hex p a)
  unfolding get_secret
  get_secret-IsRead sha256_hex a = guard-Acts _ _ λ n. guard-Acts _ _ λ c. guard-Acts _ _ λ v.
      act tt λ u. act (check_scope-InReach p extra a.namespace c) λ x. settle-Acts _ _ x λ y. done

  pub get_configmap-IsRead :
      (a : GetConfigMapArgs) → Acts (IsRead p extra) unattached (get_configmap p a)
  unfolding get_configmap
  get_configmap-IsRead a = guard-Acts _ _ λ n. guard-Acts _ _ λ c.
      act tt λ u. act (check_scope-InReach p extra a.namespace c) λ x. settle-Acts _ _ x λ y. done

  pub list_storage_classes-Acts : Acts (IsRead p extra) unattached list_storage_classes
  unfolding list_storage_classes
  list_storage_classes-Acts = act tt λ u. act tt λ x. settle-Acts _ _ x λ items. done
