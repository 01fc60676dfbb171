-- ===== src/Server/ToolCalls/Tests.antt =====
-- Calls of registered tools.
use go_kubernetes_mcp_server.Base.{
  ℕ, ℤ, pos, String, ◌≡◌, refl, inl, inr, Bool, true, false, Option, none, some, List, [], ◌∷◌, All,
  IsIn,
}
use go_kubernetes_mcp_server.Err.{other}
use go_kubernetes_mcp_server.Config.{Config, defaults}
use go_kubernetes_mcp_server.Security.{from_config, read}
use go_kubernetes_mcp_server.Kube.{failed}
use go_kubernetes_mcp_server.Kube.Rules.{unattached, run, effect, reads}
use go_kubernetes_mcp_server.Kube.Fixtures.{serve_pods}
use go_kubernetes_mcp_server.Operations.Manifest.{Decoded, undecodable}
use go_kubernetes_mcp_server.Tools.Listing.{NamespaceNameArgs}
use go_kubernetes_mcp_server.Tools.Listing.Reads.{IsRead}
use go_kubernetes_mcp_server.Server.ReadCalls.{
  Outside, get_node_call, get_pod_call, handle_read, unchecked, handle_read-IsRead,
}
use go_kubernetes_mcp_server.Server.Register.{register}
use go_kubernetes_mcp_server.Server.ToolCalls.{
  ToolCall, read_call, uncordon_node_call, tool_of, handle_tool,
}
use go_kubernetes_mcp_server.Server.ToolCalls.Guard.{Guarded, register-Guarded, register-reads}

-- Stand-ins for the libraries.
abbrev outside : Outside
outside = record {
  sha256_hex = λ v. [];
  sha256_text = λ t. "";
  to_yaml = λ fs. failed (other "none");
  parse_duration = λ t. none;
  parse_time = λ t. none;
  plus = λ x y. x;
  max_log_lines = pos 1000;
  max_output_bytes = pos 262144;
}

abbrev no_decoder : List ℕ → Decoded
no_decoder bytes = undecodable "none"

abbrev no_duration : String → Option ℤ
no_duration t = none

abbrev node_1 : NamespaceNameArgs
node_1 = record { namespace = ""; name = "node-1" }

abbrev web : NamespaceNameArgs
web = record { namespace = "shop"; name = "web-0" }

handle_read-IsRead_example :
    All
      (λ t. IsRead (from_config defaults) (unchecked (get_pod_call web)) t.0 t.1)
      (run
        (serve_pods [])
        0
        unattached
        (handle_read outside (from_config defaults) (get_pod_call web))).1
handle_read-IsRead_example =
    handle_read-IsRead (serve_pods []) 0 outside (from_config defaults) (get_pod_call web)

register-reads_example :
    ((tool_of (read_call (get_node_call node_1))).1 ≡ read)
    × All
        (λ t. effect t.1 ≡ reads)
        (run (serve_pods []) 0 unattached (
          handle_tool outside no_decoder 1024 no_duration
            (from_config defaults)
            (read_call (get_node_call node_1)))).1
unfolding register go_kubernetes_mcp_server.Config.category_enabled
register-reads_example =
    register-reads outside no_decoder 1024 no_duration (serve_pods []) 0 defaults
      (read_call (get_node_call node_1)) refl refl refl (inr (inr (inr (inr (inr (inl refl))))))

abbrev operators : Config
operators = record defaults { allow_writes = true; enable_categories = "operations" ∷ [] }

abbrev uncordon : ToolCall
uncordon = uncordon_node_call (record { name = "node-1" })

register-Guarded_example :
    All
      (λ t. Guarded (from_config operators) (tool_of uncordon).1 (effect t.1))
      (run
        (serve_pods [])
        0
        unattached
        (handle_tool outside no_decoder 1024 no_duration (from_config operators) uncordon)).1
unfolding register go_kubernetes_mcp_server.Config.category_enabled
    go_kubernetes_mcp_server.Base.equal_fold go_kubernetes_mcp_server.Security.can_mutate
    from_config
register-Guarded_example =
    register-Guarded outside no_decoder 1024 no_duration (serve_pods []) 0 operators uncordon
      (inr (inr (inr (inr (inr (inr (inr (inr (inr (inr (inr (inr (inl refl)))))))))))))
