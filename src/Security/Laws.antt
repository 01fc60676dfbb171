-- ===== src/Security/Laws.antt =====
-- What the policy of a configuration permits.
use go_kubernetes_mcp_server.Base.{
  ◌≡◌, refl, ◌↔◌, ◌⊎◌, Bool, true, false, String, ◌==◌, none, List, [], ◌∷◌, arith, IsIn, eq_iff,
  if◌then◌else◌, has, add_all, has-add_all, add_all-ne-nil, is_empty, StringMap, lookup,
}
use go_kubernetes_mcp_server.Config.{Config, validate}
use go_kubernetes_mcp_server.Rpc.{is_privileged_namespace}
use go_kubernetes_mcp_server.Security.{
  Policy, from_config, check_namespace, check_image, check_debug_service_account, check_target,
}

-- A set made of a list is empty exactly if the list is, and holds exactly the list's members.
is_empty-add_all : (ks : List String) → is_empty (add_all ks []) ≡ is_empty ks
is_empty-add_all [] = unfold add_all in refl
is_empty-add_all (k ∷ ks) = go (add_all (k ∷ ks) []) (add_all-ne-nil k ks [])
  where
    go : (m : StringMap Bool) → (m ≡ [] → ⊥) → is_empty m ≡ false
    go [] h = absurd (h refl)
    go (x ∷ m) h = refl

has-add_all_nil : (j : String) (ks : List String) → (has j (add_all ks []) ≡ true) ↔ IsIn j ks
unfolding has lookup
has-add_all_nil j ks = ground (arith, has-add_all j ks [])

module _ (cfg : Config) where
  -- With the policy of a configuration, a namespace passes exactly if the configuration lists no
  -- namespace or lists this one.
  pub check_namespace_iff :
      (ns : String)
      → (check_namespace (from_config cfg) ns ≡ none)
        ↔ ((cfg.namespaces ≡ []) ⊎ IsIn ns cfg.namespaces)
  unfolding check_namespace from_config
  check_namespace_iff ns =
      ground (arith, is_empty-add_all cfg.namespaces, has-add_all_nil ns cfg.namespaces)

  -- An image passes exactly if the configuration does not forbid it.
  pub check_image_iff :
      (image : String)
      → (check_image (from_config cfg) image ≡ none) ↔ (IsIn image cfg.forbidden_images → ⊥)
  unfolding check_image from_config
  check_image_iff image = ground (arith, has-add_all_nil image cfg.forbidden_images)

  -- A service account of a debug pod, "default" where none is named, passes exactly if it is listed,
  -- or no account is listed and it is "default".
  pub check_debug_service_account_iff :
      (sa : String)
      → let used : String = if sa == "" then "default" else sa in
        (check_debug_service_account (from_config cfg) sa ≡ none) ↔ (
          ((cfg.allowed_debug_service_accounts ≡ []) × (used ≡ "default"))
          ⊎ IsIn used cfg.allowed_debug_service_accounts)
  unfolding check_debug_service_account from_config
  check_debug_service_account_iff sa =
      let used : String = if sa == "" then "default" else sa in
      ground (
        arith,
        is_empty-add_all cfg.allowed_debug_service_accounts,
        has-add_all_nil used cfg.allowed_debug_service_accounts,
        eq_iff used "default",
      )

  -- The policy is the same whether it is made of the configuration or of the one that `Validate`
  -- leaves, and its destructive tools imply its writing ones.
  pub from_config-validate :
      (from_config (validate cfg).0 ≡ from_config cfg)
      × ((from_config cfg).allow_destructive ≡ true → (from_config cfg).allow_writes ≡ true)
  unfolding from_config validate
  from_config-validate = ground arith

-- A target passes exactly if privileged targets are allowed, or it is neither cluster-scoped nor in a
-- namespace of the control plane.
pub check_target_iff :
    (p : Policy) (ns : String) (cluster_scoped : Bool)
    → (check_target p ns cluster_scoped ≡ none) ↔ (
        (p.allow_privileged_targets ≡ true)
        ⊎ ((cluster_scoped ≡ false) × ((ns ≡ "") ⊎ (is_privileged_namespace ns ≡ false))))
unfolding check_target
check_target_iff p ns cluster_scoped = ground (arith, eq_iff ns "")
