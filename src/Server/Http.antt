-- ===== src/Server/Http.antt =====
-- internal/mcpserver/server.go: bearer authentication, CORS, TLS and the transport. Headers and tokens
-- are bytes where the code trims them.
mod Laws
mod Tests
use go_kubernetes_mcp_server.Base.{
  ℕ, String, ◌==◌, Bool, true, false, ◌&&◌, ◌||◌, not, Option, none, some, List, [], ◌∷◌, ◌++◌, any,
  is_empty, codes, codes_eq, nat_eq, if◌then◌else◌, ◌<>◌,
}
use go_kubernetes_mcp_server.Config.{Config, trim_space, resolved_auth_token}

-- What `bearerAuth` reads of a request: the password that `BasicAuth` finds, and the header.
pub record Credentials : Type 0 where
  pub basic_password : Option (List ℕ)
  pub authorization : List ℕ

strip_prefix : List ℕ → List ℕ → Option (List ℕ)
strip_prefix [] t = some t
strip_prefix (c ∷ p) [] = none
strip_prefix (c ∷ p) (b ∷ t) = let rest = strip_prefix p t in if nat_eq c b then rest else none

-- `strings.TrimPrefix(text, prefix)`
pub trim_prefix : List ℕ → List ℕ → List ℕ
unfolding strip_prefix
trim_prefix prefix text = elim (strip_prefix prefix text) [ some rest ↦ rest | none ↦ text ]

abbrev password_is : Option (List ℕ) → List ℕ → Bool
password_is none expected = false
password_is (some p) expected = codes_eq p expected

-- Whether the request reaches the handler behind `bearerAuth(token)`; if not, it is answered 401.
pub bearer_auth : List ℕ → Credentials → Bool
bearer_auth token r =
    if is_empty token
    then true
    else if password_is r.basic_password token
    then true
    else let got = trim_space (trim_prefix (codes "Bearer ") r.authorization) in
      not (is_empty got) && codes_eq got token

-- Headers that `withCORS` sets, and whether the wrapped handler is called.
pub record Cors : Type 0 where
  pub allow_origin : Option String
  pub vary_origin : Bool
  pub allow_authorization : Bool
  pub no_content : Bool

pub with_cors : List String → Bool → String → String → Cors
with_cors origins auth_enabled origin method =
    if is_empty origins
    then record {
      allow_origin = none;
      vary_origin = false;
      allow_authorization = false;
      no_content = false;
    }
    else let allow_all = any (λ o. o == "*") origins in
      let allowed = allow_all || any (λ o. o == origin) origins in
      record {
        allow_origin = if allowed then some origin else none;
        vary_origin = allowed && not allow_all;
        allow_authorization = allowed && auth_enabled;
        no_content = method == "OPTIONS";
      }

pub data Transport : Type 0 where
  http stdio : Transport

-- The `switch` of `Run`.
unfoldable pub run_transport : Config → Transport
run_transport c = if c.transport == "http" then http else stdio

pub serve_tls : Bool → Config → Bool
serve_tls has_tls_config c = has_tls_config && (not (c.tls_cert == "") && not (c.tls_key == ""))

-- `tlsConfig`: none, an error, or client verification. `read_pem` tells whether the file can be read
-- and, if so, whether it holds a certificate.
pub data TlsConfig : Type 0 where
  no_tls : TlsConfig
  tls_error : TlsConfig
  verify_clients : TlsConfig

pub tls_config : (String → Option Bool) → Config → TlsConfig
tls_config read_pem c = if c.tls_client_ca == "" then no_tls else elim (read_pem c.tls_client_ca) [
  | none ↦ tls_error
  | some ok ↦ if ok then verify_clients else tls_error
]

-- What `runHTTP` comes to before it serves: an error, or whether it serves TLS, and the token.
pub run_http : (String → Option Bool) → (String → Option (List ℕ)) → Config → Option (Bool × List ℕ)
unfolding tls_config serve_tls
run_http read_pem read_file c = elim (tls_config read_pem c) [
  | tls_error ↦ none
  | no_tls ↦ some (serve_tls false c, resolved_auth_token read_file c)
  | verify_clients ↦ some (serve_tls true c, resolved_auth_token read_file c)
]
