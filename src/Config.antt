-- ===== src/Config.antt =====
-- internal/config/config.go: the configuration, its defaults and its validation.
-- Durations are nanoseconds. `qps`, a float64, is counted in thousandths, or is not a number.
pub mod Flags
mod Laws
mod Tests
use go_kubernetes_mcp_server.Base.{
  ℕ, ◌*◌, ℤ, pos, negsuc, is_negative, is_not_positive, String, ◌==◌, Bool, true, false, ◌&&◌, ◌||◌,
  not, Option, none, some, List, [], ◌∷◌, ◌++◌, if◌then◌else◌, codes, codes_eq, lower_is,
  equal_fold, any, is_empty, nat_eq, take, length,
}
use go_kubernetes_mcp_server.Err.{
  Err, invalid_transport, invalid_output_format, timeout_not_positive, qps_negative, burst_negative,
  max_output_not_positive, max_log_lines_not_positive, max_manifest_not_positive,
  max_concurrent_negative, auth_token_exclusive, refusing_plaintext,
}

pub data Float64 : Type 0 where
  thousandths : ℤ → Float64
  not_a_number : Float64

pub record Config : Type 0 where
  pub kubeconfig : String
  pub context : String
  pub cluster_name : String
  pub default_timeout : ℤ
  pub qps : Float64
  pub burst : ℤ
  pub transport : String
  pub listen : String
  pub endpoint : String
  pub cors_origins : List String
  pub tls_cert : String
  pub tls_key : String
  pub tls_client_ca : String
  pub auth_token : String
  pub auth_token_file : String
  pub insecure_http : Bool
  pub oauth_authorization_servers : List String
  pub oauth_scopes : List String
  pub allow_writes : Bool
  pub allow_destructive : Bool
  pub allow_debug : Bool
  pub allow_privileged_targets : Bool
  pub namespaces : List String
  pub reveal_secrets : Bool
  pub allowed_manifest_kinds : List String
  pub forbidden_images : List String
  pub allowed_debug_service_accounts : List String
  pub enable_categories : List String
  pub output_format : String
  pub max_output_bytes : ℤ
  pub max_log_lines : ℤ
  pub max_manifest_bytes : ℤ
  pub max_concurrent_calls : ℤ
  pub log_level : String
  pub log_format : String
  pub audit_path : String
  pub otlp_endpoint : String

-- A field that the literal of `Defaults` leaves out has Go's zero value.
abbrev pub defaults : Config
defaults = record {
  kubeconfig = "";
  context = "";
  cluster_name = "";
  default_timeout = pos (30 * 1000000000);
  qps = thousandths (pos 50000);
  burst = pos 100;
  transport = "stdio";
  listen = "127.0.0.1:8080";
  endpoint = "/mcp";
  cors_origins = [];
  tls_cert = "";
  tls_key = "";
  tls_client_ca = "";
  auth_token = "";
  auth_token_file = "";
  insecure_http = false;
  oauth_authorization_servers = [];
  oauth_scopes = [];
  allow_writes = false;
  allow_destructive = false;
  allow_debug = false;
  allow_privileged_targets = false;
  namespaces = [];
  reveal_secrets = false;
  allowed_manifest_kinds = [];
  forbidden_images = [];
  allowed_debug_service_accounts = [];
  enable_categories = [];
  output_format = "text";
  max_output_bytes = pos (256 * 1024);
  max_log_lines = pos 1000;
  max_manifest_bytes = pos (256 * 1024);
  max_concurrent_calls = pos 16;
  log_level = "info";
  log_format = "json";
  audit_path = "";
  otlp_endpoint = "";
}

-- `listenHost`: what stands before the last ':', or the whole address. `none` means that no ':' stands
-- in the text.
before_last_colon : List ℕ → Option (List ℕ)
before_last_colon [] = none
before_last_colon (c ∷ s) = elim (before_last_colon s) [
  | some host ↦ some (c ∷ host)
  | none ↦ if nat_eq c b':' then some [] else none
]

pub listen_host : List ℕ → List ℕ
unfolding before_last_colon
listen_host addr = elim (before_last_colon addr) [ some host ↦ host | none ↦ addr ]

pub is_loopback_listen : Config → Bool
unfolding listen_host
is_loopback_listen c =
    let host = listen_host (codes c.listen) in
    if codes_eq host (codes "") || (codes_eq host (codes "0.0.0.0") || codes_eq host (codes "::"))
    then false
    else codes_eq host (codes "127.0.0.1")
      || (codes_eq host (codes "localhost") || codes_eq host (codes "::1"))

pub validate_http_exposure : Config → Option Err
validate_http_exposure c =
    if is_loopback_listen c
    then none
    else let tls = not (c.tls_cert == "") && not (c.tls_key == "") in
      if tls || (not (c.auth_token == "") || not (c.auth_token_file == ""))
      then none
      else some (refusing_plaintext c.listen)

abbrev qps_is_negative : Float64 → Bool
qps_is_negative (thousandths q) = is_negative q
qps_is_negative not_a_number = false

-- The checks of `Validate` that stand above its implication, in their order.
pub check_fields : Config → Option Err
check_fields c =
    if not (lower_is c.transport "stdio" || lower_is c.transport "http")
    then some (invalid_transport c.transport)
    else if not (lower_is c.output_format "text" || lower_is c.output_format "json")
    then some (invalid_output_format c.output_format)
    else if is_not_positive c.default_timeout
    then some (timeout_not_positive c.default_timeout)
    else if qps_is_negative c.qps
    then some qps_negative
    else if is_negative c.burst
    then some (burst_negative c.burst)
    else if is_not_positive c.max_output_bytes
    then some (max_output_not_positive c.max_output_bytes)
    else if is_not_positive c.max_log_lines
    then some (max_log_lines_not_positive c.max_log_lines)
    else if is_not_positive c.max_manifest_bytes
    then some (max_manifest_not_positive c.max_manifest_bytes)
    else if is_negative c.max_concurrent_calls
    then some (max_concurrent_negative c.max_concurrent_calls)
    else if not (c.auth_token == "") && not (c.auth_token_file == "")
    then some auth_token_exclusive
    else none

-- `Validate` changes the configuration that it is called on: the new one, and the error.
unfoldable pub validate : Config → Config × Option Err
validate c = elim (check_fields c) [
  | some e ↦ (c, some e)
  | none ↦
      let c' = if c.allow_destructive then record c { allow_writes = true } else c in
      (
        c',
        if equal_fold c'.transport "http" && not c'.insecure_http
            then validate_http_exposure c'
            else none,
      )
]

-- `strings.TrimSpace`, for the white space of ASCII and U+0085 and U+00A0; a text with other Unicode
-- white space at its ends is outside the model.
is_space : ℕ → Bool
is_space c = any (nat_eq c) (9 ∷ 10 ∷ 11 ∷ 12 ∷ 13 ∷ 32 ∷ 0x85 ∷ 0xA0 ∷ [])

trim_left : List ℕ → List ℕ
unfolding is_space
trim_left [] = []
trim_left (c ∷ s) = let rest = trim_left s in if is_space c then rest else c ∷ s

-- The text without the white space at its end.
trim_right : List ℕ → List ℕ
unfolding is_space
trim_right [] = []
trim_right (c ∷ s) = elim (trim_right s) [
  | [] ↦ if is_space c then [] else c ∷ []
  | d ∷ t ↦ c ∷ d ∷ t
]

unfoldable pub trim_space : List ℕ → List ℕ
unfolding trim_left trim_right
trim_space s = trim_right (trim_left s)

-- `ResolvedAuthToken`. `read_file` is what the file system holds: `none` is an error of `os.ReadFile`.
unfoldable pub resolved_auth_token : (String → Option (List ℕ)) → Config → List ℕ
resolved_auth_token read_file c =
    if not (c.auth_token_file == "")
    then elim (read_file c.auth_token_file) [
      | some text ↦ trim_space text
      | none ↦ trim_space (codes c.auth_token)
    ]
    else trim_space (codes c.auth_token)

unfoldable pub has_namespace_allowlist : Config → Bool
has_namespace_allowlist c = not (is_empty c.namespaces)

unfoldable pub category_enabled : Config → String → Bool
category_enabled c name =
    if is_empty c.enable_categories then true else any (λ e. equal_fold e name) c.enable_categories
