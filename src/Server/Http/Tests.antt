-- ===== src/Server/Http/Tests.antt =====
-- Authentication, CORS and TLS on concrete settings.
use go_kubernetes_mcp_server.Base.{
  ℕ, ◌≡◌, ◌≢◌, refl, ◌↔◌, ◌⊎◌, Bool, true, String, Option, none, some, List, [], ◌∷◌, codes, IsIn,
  arith,
}
use go_kubernetes_mcp_server.Config.{Config, defaults, resolved_auth_token}
use go_kubernetes_mcp_server.Server.Http.{Credentials, bearer_auth, with_cors, run_http}
use go_kubernetes_mcp_server.Server.Http.Laws.{
  presented, bearer_auth_iff, bearer_auth-unreadable, run_http-tls_iff, with_cors-listed,
}

abbrev token : List ℕ
token = codes "s3cret"

abbrev request : Credentials
request = record { basic_password = none; authorization = codes "Bearer s3cret" }

bearer_auth_iff_example :
    (bearer_auth token request ≡ true)
    ↔ ((request.basic_password ≡ some token) ⊎ (presented request ≡ token))
bearer_auth_iff_example = bearer_auth_iff token request (λ e. ground arith)

abbrev no_file : String → Option (List ℕ)
no_file path = none

abbrev by_file : Config
by_file = record defaults {
  transport = "http";
  listen = "0.0.0.0:8080";
  auth_token_file = "/run/token";
}

abbrev anonymous : Credentials
anonymous = record { basic_password = none; authorization = [] }

bearer_auth-unreadable_example : bearer_auth (resolved_auth_token no_file by_file) anonymous ≡ true
bearer_auth-unreadable_example = bearer_auth-unreadable no_file by_file anonymous refl refl

abbrev read_pem : String → Option Bool
read_pem path = some true

abbrev with_cert : Config
with_cert = record defaults { tls_cert = "tls.crt"; tls_key = "tls.key" }

run_http-tls_iff_example :
    (run_http read_pem no_file with_cert ≡ some (true, resolved_auth_token no_file with_cert)) ↔ (
      (with_cert.tls_client_ca ≢ "")
      × (read_pem with_cert.tls_client_ca ≡ some true)
      × (with_cert.tls_cert ≢ "")
      × (with_cert.tls_key ≢ ""))
run_http-tls_iff_example = run_http-tls_iff read_pem no_file with_cert

with_cors-listed_example :
    ((with_cors ("https://a.example" ∷ []) true "https://b.example" "GET").allow_origin
        ≡ some "https://b.example"
      → IsIn {A = String} "*" ("https://a.example" ∷ [])
        ⊎ IsIn {A = String} "https://b.example" ("https://a.example" ∷ []))
    × ((with_cors ("https://a.example" ∷ []) true "https://b.example" "GET").allow_authorization
          ≡ true
        → (true ≡ true)
          × ((with_cors ("https://a.example" ∷ []) true "https://b.example" "GET").allow_origin
              ≡ some "https://b.example"))
with_cors-listed_example =
    with_cors-listed ("https://a.example" ∷ []) true "https://b.example" "GET"
