-- ===== src/Config/Flags.antt =====
-- internal/config/flags.go and env.go: the configuration from the command line and the environment.
-- The flag library gives a flag the value of the command line or, where it is not given, the default
-- with which it was registered. An environment is a function of the key, which is code points; the
-- parsers of the standard library are parameters, and give none for an error.
mod Laws
mod Tests
use go_kubernetes_mcp_server.Base.{
  ℕ, ◌*◌, ◌-◌, ℤ, pos, String, ◌==◌, Bool, true, false, ◌&&◌, ◌||◌, Option, none, some, List, [],
  ◌∷◌, ◌++◌, map, leb, nat_eq, if◌then◌else◌, codes, equal_fold, StringMap, lookup,
}
use go_kubernetes_mcp_server.Err.{Err}
use go_kubernetes_mcp_server.Config.{Config, Float64, thousandths, validate}

-- `strings.ReplaceAll(flag, "-", "_")` and `strings.ToUpper`, on the names of flags, which are ASCII.
abbrev underscored : ℕ → ℕ
underscored c = if nat_eq c 45 then 95 else c

abbrev upper : ℕ → ℕ
upper c = if leb 97 c && leb c 122 then c - 32 else c

unfoldable pub env_key : String → List ℕ
env_key flag = codes "K8S_MCP_" ++ map upper (map underscored (codes flag))

-- What the command line gives to the flags of each type.
pub record Given : Type 0 where
  pub strings : StringMap String
  pub bools : StringMap Bool
  pub ints : StringMap ℤ
  pub floats : StringMap Float64
  pub durations : StringMap ℤ
  pub slices : StringMap (List String)

pub data Loaded : Type 0 where
  loaded : Config → Loaded
  refused_config : Err → Loaded

-- A default that is registered under the name of the flag.
abbrev flag : {A : Type 0} → (String → A → A) → String → A → String × A
flag from_env name default = (name, from_env name default)

-- `fs.GetString(name)` and the like, with the error dropped: the zero value for a name not registered.
unfoldable pub get_flag : {A : Type 0} → A → StringMap A → StringMap A → String → A
get_flag zero registered given name = elim (lookup name given) [
  | some v ↦ v
  | none ↦ elim (lookup name registered) [ some default ↦ default | none ↦ zero ]
]

unfoldable pub slice_flags : StringMap (List String)
slice_flags =
    ("cors-origins", [])
    ∷ ("oauth-authorization-servers", [])
    ∷ ("oauth-scopes", [])
    ∷ ("namespace", [])
    ∷ ("allowed-manifest-kinds", [])
    ∷ ("forbidden-images", [])
    ∷ ("allowed-debug-service-accounts", [])
    ∷ ("enable-categories", [])
    ∷ []

-- A value that does not parse leaves the default.
unfoldable pub parsed_or : {A : Type 0} → (String → Option A) → Option String → A → A
parsed_or parse none default = default
parsed_or parse (some v) default = elim (parse v) [ none ↦ default | some x ↦ x ]

module _ (env : List ℕ → Option String) (parse_int : String → Option ℤ)
    (parse_float : String → Option Float64) (parse_duration : String → Option ℤ) where
  unfoldable pub env_or_default : String → String → String
  env_or_default name default = elim (env (env_key name)) [
    | none ↦ default
    | some v ↦ if v == "" then default else v
  ]

  unfoldable pub bool_env_or_default : String → Bool → Bool
  bool_env_or_default name default = elim (env (env_key name)) [
    | none ↦ default
    | some v ↦ equal_fold v "true" || v == "1"
  ]

  unfoldable pub int_env_or_default : String → ℤ → ℤ
  unfolding parsed_or
  int_env_or_default name default = parsed_or parse_int (env (env_key name)) default

  unfoldable pub num_env_or_default : String → Float64 → Float64
  unfolding parsed_or
  num_env_or_default name default = parsed_or parse_float (env (env_key name)) default

  unfoldable pub dur_env_or_default : String → ℤ → ℤ
  unfolding parsed_or
  dur_env_or_default name default = parsed_or parse_duration (env (env_key name)) default

  unfoldable pub string_flags : StringMap String
  unfolding env_or_default
  string_flags =
      flag env_or_default "kubeconfig" ""
      ∷ flag env_or_default "context" ""
      ∷ flag env_or_default "cluster-name" ""
      ∷ flag env_or_default "transport" "stdio"
      ∷ flag env_or_default "listen" "127.0.0.1:8080"
      ∷ flag env_or_default "endpoint" "/mcp"
      ∷ flag env_or_default "tls-cert" ""
      ∷ flag env_or_default "tls-key" ""
      ∷ flag env_or_default "tls-client-ca" ""
      ∷ flag env_or_default "auth-token" ""
      ∷ flag env_or_default "auth-token-file" ""
      ∷ flag env_or_default "output-format" "text"
      ∷ flag env_or_default "log-level" "info"
      ∷ flag env_or_default "log-format" "json"
      ∷ flag env_or_default "audit-path" ""
      ∷ flag env_or_default "otel-endpoint" ""
      ∷ []

  unfoldable pub bool_flags : StringMap Bool
  unfolding bool_env_or_default
  bool_flags =
      flag bool_env_or_default "insecure-http" false
      ∷ flag bool_env_or_default "allow-writes" false
      ∷ flag bool_env_or_default "allow-destructive" false
      ∷ flag bool_env_or_default "allow-debug" false
      ∷ flag bool_env_or_default "allow-privileged-targets" false
      ∷ flag bool_env_or_default "reveal-secrets" false
      ∷ []

  unfoldable pub int_flags : StringMap ℤ
  unfolding int_env_or_default
  int_flags =
      flag int_env_or_default "burst" (pos 100)
      ∷ flag int_env_or_default "max-output-bytes" (pos (256 * 1024))
      ∷ flag int_env_or_default "max-log-lines" (pos 1000)
      ∷ flag int_env_or_default "max-manifest-bytes" (pos (256 * 1024))
      ∷ flag int_env_or_default "max-concurrent-calls" (pos 16)
      ∷ []

  unfoldable pub float_flags : StringMap Float64
  unfolding num_env_or_default
  float_flags = flag num_env_or_default "qps" (thousandths (pos 50000)) ∷ []

  unfoldable pub duration_flags : StringMap ℤ
  unfolding dur_env_or_default
  duration_flags = flag dur_env_or_default "default-timeout" (pos (30 * 1000000000)) ∷ []

  abbrev get_str : Given → String → String
  get_str given = get_flag "" string_flags given.strings

  abbrev get_bool : Given → String → Bool
  get_bool given = get_flag false bool_flags given.bools

  abbrev get_int : Given → String → ℤ
  get_int given = get_flag (pos 0) int_flags given.ints

  abbrev get_f : Given → String → Float64
  get_f given = get_flag (thousandths (pos 0)) float_flags given.floats

  abbrev get_dur : Given → String → ℤ
  get_dur given = get_flag (pos 0) duration_flags given.durations

  abbrev get_slice : Given → String → List String
  get_slice given = get_flag [] slice_flags given.slices

  unfoldable pub config_of : Given → Config
  unfolding get_flag string_flags bool_flags int_flags float_flags duration_flags slice_flags
  config_of given = record {
    kubeconfig = get_str given "kubeconfig";
    context = get_str given "context";
    cluster_name = get_str given "cluster-name";
    default_timeout = get_dur given "default-timeout";
    qps = get_f given "qps";
    burst = get_int given "burst";
    transport = get_str given "transport";
    listen = get_str given "listen";
    endpoint = get_str given "endpoint";
    cors_origins = get_slice given "cors-origins";
    tls_cert = get_str given "tls-cert";
    tls_key = get_str given "tls-key";
    tls_client_ca = get_str given "tls-client-ca";
    auth_token = get_str given "auth-token";
    auth_token_file = get_str given "auth-token-file";
    insecure_http = get_bool given "insecure-http";
    oauth_authorization_servers = get_slice given "oauth-authorization-servers";
    oauth_scopes = get_slice given "oauth-scopes";
    allow_writes = get_bool given "allow-writes";
    allow_destructive = get_bool given "allow-destructive";
    allow_debug = get_bool given "allow-debug";
    allow_privileged_targets = get_bool given "allow-privileged-targets";
    namespaces = get_slice given "namespace";
    reveal_secrets = get_bool given "reveal-secrets";
    allowed_manifest_kinds = get_slice given "allowed-manifest-kinds";
    forbidden_images = get_slice given "forbidden-images";
    allowed_debug_service_accounts = get_slice given "allowed-debug-service-accounts";
    enable_categories = get_slice given "enable-categories";
    output_format = get_str given "output-format";
    max_output_bytes = get_int given "max-output-bytes";
    max_log_lines = get_int given "max-log-lines";
    max_manifest_bytes = get_int given "max-manifest-bytes";
    max_concurrent_calls = get_int given "max-concurrent-calls";
    log_level = get_str given "log-level";
    log_format = get_str given "log-format";
    audit_path = get_str given "audit-path";
    otlp_endpoint = get_str given "otel-endpoint";
  }

  unfoldable pub from_flags : Given → Loaded
  unfolding config_of
  from_flags given = elim ((validate (config_of given)).1) [
    | some err ↦ refused_config err
    | none ↦ loaded ((validate (config_of given)).0)
  ]
