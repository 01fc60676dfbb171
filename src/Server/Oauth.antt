-- ===== src/Server/Oauth.antt =====
-- internal/mcpserver/oauth.go: the metadata of the protected resource (RFC 9728). `url_string` is the
-- `String` of a `url.URL` with a scheme, a host and a path. Addresses are their code points.
mod Laws
use go_kubernetes_mcp_server.Base.{
  ℕ, String, ◌==◌, Bool, true, false, Option, none, some, List, [], ◌∷◌, ◌++◌, codes, is_empty,
  if◌then◌else◌,
}
use go_kubernetes_mcp_server.Config.{Config}
use go_kubernetes_mcp_server.Server.Http.{trim_prefix}

pub record ResourceMetadata : Type 0 where
  pub resource : List ℕ
  pub authorization_servers : List String
  pub scopes_supported : List String
  pub bearer_methods_supported : List String

-- What `absoluteResource` reads of a request; `forwarded_host` is "" without the header.
pub record ResourceRequest : Type 0 where
  pub is_tls : Bool
  pub forwarded_host : String
  pub host : String

abbrev or_localhost : List ℕ → List ℕ
or_localhost host = if is_empty host then codes "localhost" else host

unfoldable pub resource_url : Config → List ℕ
resource_url c =
    codes "http://" ++ (or_localhost (trim_prefix (codes ":") (codes c.listen)) ++ codes c.endpoint)

-- The metadata that is registered, if the endpoint is.
unfoldable pub registered_metadata : Config → Option ResourceMetadata
unfolding resource_url
registered_metadata c =
    if is_empty c.oauth_authorization_servers
    then none
    else some (record {
      resource = resource_url c;
      authorization_servers = c.oauth_authorization_servers;
      scopes_supported = c.oauth_scopes;
      bearer_methods_supported = "header" ∷ [];
    })

module _ (url_string : String → String → String → List ℕ) where
  unfoldable pub absolute_resource : ResourceRequest → Config → List ℕ
  absolute_resource r c =
      let scheme : String = if r.is_tls then "https" else "http" in
      if r.forwarded_host == ""
      then url_string scheme r.host c.endpoint
      else codes scheme ++ (codes "://" ++ (codes r.forwarded_host ++ codes c.endpoint))

  -- What the endpoint answers to a request: `none` where it is not registered.
  unfoldable pub serve_metadata : Config → ResourceRequest → Option ResourceMetadata
  unfolding registered_metadata absolute_resource
  serve_metadata c r = elim (registered_metadata c) [
    | none ↦ none
    | some meta ↦ some (record meta { resource = absolute_resource r c })
  ]
