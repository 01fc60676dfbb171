-- ===== src/Server/Http/Laws.antt =====
-- internal/mcpserver/server.go, `bearerAuth`, `withCORS` and `runHTTP`: who reaches the MCP handler.
use go_kubernetes_mcp_server.Base.{
  ℕ, String, ◌==◌, ◌≡◌, ◌≢◌, refl, ◌⊎◌, inl, inr, ◌↔◌, Bool, true, ◌&&◌, not, Option, none, some,
  List, [], ◌∷◌, ◌++◌, any, is_empty, codes, codes_eq, codes_eq_refl, codes_eq_lem, IsIn, arith,
  eq_iff, if◌then◌else◌, ap,
}
use go_kubernetes_mcp_server.Config.{Config, trim_space, resolved_auth_token}
use go_kubernetes_mcp_server.Server.Http.{
  Credentials, strip_prefix, trim_prefix, password_is, bearer_auth, with_cors, tls_config,
  serve_tls, run_http,
}

-- What the header says once "Bearer " and the white space are taken off.
abbrev pub presented : Credentials → List ℕ
presented r = trim_space (trim_prefix (codes "Bearer ") r.authorization)

served_by :
    (token : List ℕ) (password : Option (List ℕ)) (got : List ℕ)
    → token ≢ []
    → (if is_empty token
        then true
        else if password_is password token
        then true
        else (not (is_empty got) && codes_eq got token))
      ≡ true
    → (password ≡ some token) ⊎ (got ≡ token)
served_by token none got set h = ground (arith, codes_eq_lem got token)
served_by token (some p) got set h = ground (arith, codes_eq_lem p token, codes_eq_lem got token)

-- With a token that is not empty, `bearerAuth` passes on a request exactly when its Basic password is
-- that token, or its Authorization header, without "Bearer " and white space around, is.
pub bearer_auth_iff :
    (token : List ℕ) (r : Credentials)
    → token ≢ []
    → (bearer_auth token r ≡ true) ↔ ((r.basic_password ≡ some token) ⊎ (presented r ≡ token))
unfolding bearer_auth
bearer_auth_iff token r set = (
  served_by token r.basic_password (presented r) set,
  λ e. elim e [
    | inl password ↦ ground (arith, codes_eq_refl token)
    | inr header ↦ ground (arith, codes_eq_refl token)
  ],
)

strip_prefix-++ : (p t : List ℕ) → strip_prefix p (p ++ t) ≡ some t
unfolding strip_prefix
strip_prefix-++ [] t = refl
strip_prefix-++ (c ∷ p) t = ground (arith, strip_prefix-++ p t)

-- The header that a client sends with the token that the server has resolved from its settings, where
-- that token has no white space at its ends, is accepted.
pub bearer_auth-header :
    (token : List ℕ)
    → trim_space token ≡ token
    → bearer_auth token (record { basic_password = none; authorization = codes "Bearer " ++ token })
      ≡ true
unfolding bearer_auth trim_prefix
bearer_auth-header token trimmed =
    ground (arith, strip_prefix-++ (codes "Bearer ") token, trimmed, codes_eq_refl token)

resolved-unreadable :
    (read_file : String → Option (List ℕ)) (c : Config)
    → c.auth_token ≡ ""
    → read_file c.auth_token_file ≡ none
    → resolved_auth_token read_file c ≡ []
unfolding resolved_auth_token trim_space
resolved-unreadable read_file c e h = ground (arith, e, h, ap (λ t. trim_space (codes t)) e)

-- A token file that cannot be read, beside no token: every request is passed on.
pub bearer_auth-unreadable :
    (read_file : String → Option (List ℕ)) (c : Config) (r : Credentials)
    → c.auth_token ≡ ""
    → read_file c.auth_token_file ≡ none
    → bearer_auth (resolved_auth_token read_file c) r ≡ true
unfolding bearer_auth
bearer_auth-unreadable read_file c r e h = ground (arith, resolved-unreadable read_file c e h)

-- `runHTTP` serves TLS exactly when a client CA is given and its file holds a certificate, beside a
-- certificate and a key.
pub run_http-tls_iff :
    (read_pem : String → Option Bool) (read_file : String → Option (List ℕ)) (c : Config)
    → (run_http read_pem read_file c ≡ some (true, resolved_auth_token read_file c)) ↔ (
        (c.tls_client_ca ≢ "")
        × (read_pem c.tls_client_ca ≡ some true)
        × (c.tls_cert ≢ "")
        × (c.tls_key ≢ ""))
unfolding run_http serve_tls tls_config
run_http-tls_iff read_pem read_file c =
    ground (arith, eq_iff c.tls_client_ca "", eq_iff c.tls_cert "", eq_iff c.tls_key "")

any-IsIn : (x : String) (xs : List String) → any (λ o. o == x) xs ≡ true → IsIn x xs
any-IsIn x [] h = ground arith
any-IsIn x (y ∷ ys) h = ground (arith, eq_iff y x, any-IsIn x ys)

-- `withCORS` echoes an origin only if the allowlist holds it or holds "*", and credentials are allowed
-- only beside an echoed origin and with authentication on.
pub with_cors-listed :
    (origins : List String) (auth : Bool) (origin method : String)
    → ((with_cors origins auth origin method).allow_origin ≡ some origin
        → IsIn "*" origins ⊎ IsIn origin origins)
      × ((with_cors origins auth origin method).allow_authorization ≡ true
          → (auth ≡ true) × ((with_cors origins auth origin method).allow_origin ≡ some origin))
unfolding with_cors
with_cors-listed origins auth origin method =
    ground (arith, any-IsIn "*" origins, any-IsIn origin origins)
