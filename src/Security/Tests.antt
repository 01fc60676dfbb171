-- ===== src/Security/Tests.antt =====
-- The policies of concrete configurations.
use go_kubernetes_mcp_server.Base.{true, [], ◌∷◌}
use go_kubernetes_mcp_server.Config.{Config, defaults}

abbrev shop : Config
shop = record defaults {
  namespaces = "shop" ∷ "kube-system" ∷ [];
  forbidden_images = "evil:1" ∷ [];
  allowed_debug_service_accounts = "debugger" ∷ [];
  allow_destructive = true;
}
