-- ===== src/Tools/Util/Tests.antt =====
-- The scope of calls, and ages, on concrete inputs.
use go_kubernetes_mcp_server.Base.{
  ◌≡◌, ◌≢◌, refl, ◌⊎◌, inl, inr, Bool, true, false, String, none, some, List, [], ◌∷◌, pos, ◌*◌,
  arith, eq_iff, sym,
}
use go_kubernetes_mcp_server.Config.{defaults}
use go_kubernetes_mcp_server.Security.{Policy, from_config, check_namespace}
use go_kubernetes_mcp_server.Rpc.{is_privileged_namespace}
use go_kubernetes_mcp_server.Kube.Objects.{ListOptions}
use go_kubernetes_mcp_server.Tools.Util.{ListArgs, resolve_list, short_duration, hour, days}
use go_kubernetes_mcp_server.Tools.Util.Laws.{resolve_list-allowed}

abbrev shop_only : Policy
shop_only = from_config (record defaults { namespaces = "shop" ∷ [] })

abbrev list_shop : ListArgs
list_shop = record {
  namespace = "shop";
  selector = "app=web";
  field_selector = "";
  all_namespaces = false;
  limit = pos 20;
}

abbrev shop_options : ListOptions
shop_options = record { label_selector = "app=web"; field_selector = ""; limit = pos 20 }

resolve_list-allowed_example :
    (◌≢◌ {A = String} "shop" "")
    × (check_namespace shop_only "shop" ≡ none)
    × ((shop_only.allow_privileged_targets ≡ true) ⊎ (is_privileged_namespace "shop" ≡ false))
    × (◌≡◌ {A = String} "app=web" "app=web")
unfolding resolve_list go_kubernetes_mcp_server.Base.contains_any
    go_kubernetes_mcp_server.Security.check_target is_privileged_namespace
    go_kubernetes_mcp_server.Base.has check_namespace from_config
    go_kubernetes_mcp_server.Base.add_all
resolve_list-allowed_example =
    resolve_list-allowed shop_only list_shop "shop" shop_options refl (λ e. ground arith)

kube_system-ne : ◌≢◌ {A = String} "kube-system" ""
kube_system-ne = ground (arith, eq_iff "kube-system" "")

short_duration-days : short_duration (50 * hour) ≡ days 2
unfolding short_duration
short_duration-days = refl
