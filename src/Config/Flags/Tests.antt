-- ===== src/Config/Flags/Tests.antt =====
-- The flags on concrete command lines.
use go_kubernetes_mcp_server.Base.{
  ℕ, String, refl, ◌≡◌, true, Option, none, some, List, [], ◌∷◌, codes, codes_eq, if◌then◌else◌,
  equal_fold, lower_is, lookup,
}
use go_kubernetes_mcp_server.Config.{Config, defaults, validate, check_fields}
use go_kubernetes_mcp_server.Config.Flags.{
  Given, loaded, from_flags, config_of, get_flag, string_flags, bool_flags, int_flags, float_flags,
  duration_flags, slice_flags, env_or_default, bool_env_or_default, int_env_or_default,
  num_env_or_default, dur_env_or_default, parsed_or, env_key,
}
use go_kubernetes_mcp_server.Config.Flags.Laws.{Opened, from_flags-Opened}

abbrev some_env : List ℕ → Option String
some_env key =
    if codes_eq key (codes "K8S_MCP_ALLOW_DEBUG")
    then some "True"
    else if codes_eq key (codes "K8S_MCP_NAMESPACE")
    then some "team-a"
    else if codes_eq key (codes "K8S_MCP_LOG_LEVEL")
    then some "debug"
    else none

abbrev destructive_line : Given
destructive_line = record {
  strings = ("log-format", "text") ∷ [];
  bools = ("allow-destructive", true) ∷ [];
  ints = [];
  floats = [];
  durations = [];
  slices = [];
}

abbrev opened_config : Config
opened_config = record defaults {
  allow_writes = true;
  allow_destructive = true;
  allow_debug = true;
  log_level = "debug";
  log_format = "text";
}

-- The variable K8S_MCP_NAMESPACE gives no allowlist.
from_flags-opened_config :
    from_flags some_env (λ v. none) (λ v. none) (λ v. none) destructive_line ≡ loaded opened_config
unfolding from_flags config_of get_flag string_flags bool_flags int_flags float_flags duration_flags
    slice_flags env_or_default bool_env_or_default int_env_or_default num_env_or_default
    dur_env_or_default parsed_or env_key lookup validate check_fields equal_fold lower_is
from_flags-opened_config = refl

from_flags-Opened_example : Opened some_env destructive_line opened_config
from_flags-Opened_example =
    from_flags-Opened some_env (λ v. none) (λ v. none) (λ v. none) destructive_line opened_config
      from_flags-opened_config
