-- ===== src/Security.antt =====
-- internal/security/policy.go: the policy of a running server and its checks. A check returns the
-- error, or `none` for nil.
mod Laws
mod Tests
use go_kubernetes_mcp_server.Base.{
  String, ◌==◌, Bool, true, false, ◌&&◌, ◌||◌, not, Option, none, some, List, [], ◌∷◌,
  if◌then◌else◌, is_empty, StringMap, has, add_all,
}
use go_kubernetes_mcp_server.Config.{Config}
use go_kubernetes_mcp_server.Rpc.{is_privileged_namespace}
use go_kubernetes_mcp_server.Err.{
  Err, mutating_disabled, destructive_disabled, debug_disabled, namespace_outside_allowlist,
  cluster_scoped_needs_privileged, control_plane_namespace, kind_not_allowed, image_forbidden,
  service_account_not_permitted, service_account_not_listed, secret_reveal_disabled,
}

pub record Policy : Type 0 where
  pub allow_writes : Bool
  pub allow_destructive : Bool
  pub allow_debug : Bool
  pub allow_privileged_targets : Bool
  pub namespaces : StringMap Bool
  pub reveal_secrets : Bool
  pub allowed_manifest_kinds : StringMap Bool
  pub forbidden_images : StringMap Bool
  pub allowed_debug_service_accounts : StringMap Bool

unfoldable pub from_config : Config → Policy
from_config cfg = record {
  allow_writes = cfg.allow_writes || cfg.allow_destructive;
  allow_destructive = cfg.allow_destructive;
  allow_debug = cfg.allow_debug;
  allow_privileged_targets = cfg.allow_privileged_targets;
  namespaces = add_all cfg.namespaces [];
  reveal_secrets = cfg.reveal_secrets;
  allowed_manifest_kinds = add_all cfg.allowed_manifest_kinds [];
  forbidden_images = add_all cfg.forbidden_images [];
  allowed_debug_service_accounts = add_all cfg.allowed_debug_service_accounts [];
}

pub data Verb : Type 0 where
  read write destructive debug : Verb

unfoldable pub can_mutate : Policy → Bool
can_mutate p = p.allow_writes

unfoldable pub can_destroy : Policy → Bool
can_destroy p = p.allow_destructive

unfoldable pub can_debug : Policy → Bool
can_debug p = p.allow_debug

unfoldable pub check_mutating : Policy → Option Err
check_mutating p = if not p.allow_writes then some mutating_disabled else none

unfoldable pub check_destructive : Policy → Option Err
check_destructive p = if not p.allow_destructive then some destructive_disabled else none

unfoldable pub check_debug : Policy → Option Err
check_debug p = if not p.allow_debug then some debug_disabled else none

unfoldable pub check_namespace : Policy → String → Option Err
check_namespace p ns =
    if is_empty p.namespaces
    then none
    else if not (has ns p.namespaces)
    then some (namespace_outside_allowlist ns)
    else none

unfoldable pub check_target : Policy → String → Bool → Option Err
check_target p ns cluster_scoped =
    if cluster_scoped && not p.allow_privileged_targets
    then some cluster_scoped_needs_privileged
    else if not (ns == "") && (is_privileged_namespace ns && not p.allow_privileged_targets)
    then some (control_plane_namespace ns)
    else none

unfoldable pub check_manifest_kind : Policy → String → Option Err
check_manifest_kind p gvk =
    if is_empty p.allowed_manifest_kinds
    then none
    else if not (has gvk p.allowed_manifest_kinds)
    then some (kind_not_allowed gvk)
    else none

pub check_image : Policy → String → Option Err
check_image p image = if has image p.forbidden_images then some (image_forbidden image) else none

pub check_debug_service_account : Policy → String → Option Err
check_debug_service_account p given =
    let sa : String = if given == "" then "default" else given in
    if is_empty p.allowed_debug_service_accounts
    then (if not (sa == "default") then some (service_account_not_permitted sa) else none)
    else if not (has sa p.allowed_debug_service_accounts)
    then some (service_account_not_listed sa)
    else none

unfoldable pub check_secret_reveal : Policy → Bool → Option Err
check_secret_reveal p requested =
    if requested && not p.reveal_secrets then some secret_reveal_disabled else none
