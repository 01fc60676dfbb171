-- ===== src/Server/Register/Tests.antt =====
-- The tools of a read-only server.
use go_kubernetes_mcp_server.Base.{◌≡◌, refl, true, [], ◌∷◌}
use go_kubernetes_mcp_server.Config.{Config, defaults}
use go_kubernetes_mcp_server.Security.{from_config}
use go_kubernetes_mcp_server.Server.Register.{register}
use go_kubernetes_mcp_server.Server.Register.Catalogue.{catalogue, keep, register-catalogue}

abbrev operators : Config
operators = record defaults { allow_writes = true; enable_categories = "Operations" ∷ [] }

register-catalogue_example :
    register operators (from_config operators) ≡ keep operators (from_config operators) catalogue
unfolding from_config
register-catalogue_example = register-catalogue operators (from_config operators) (λ h. refl)
