-- ===== src/Server/Oauth/Laws.antt =====
-- What the OAuth metadata tells a client.
use go_kubernetes_mcp_server.Base.{ℕ, String, ◌≡◌, List, arith}
use go_kubernetes_mcp_server.Config.{Config}
use go_kubernetes_mcp_server.Server.Oauth.{
  ResourceRequest, registered_metadata, absolute_resource, serve_metadata,
}

-- Whatever the configuration listens on, a request is answered the same: the address that is
-- registered with the endpoint is never shown.
serve_metadata-listen :
    (url_string : String → String → String → List ℕ) (c : Config) (r : ResourceRequest)
    (listen : String)
    → serve_metadata url_string (record c { listen = listen }) r ≡ serve_metadata url_string c r
unfolding serve_metadata registered_metadata absolute_resource
serve_metadata-listen url_string c r listen = ground arith
