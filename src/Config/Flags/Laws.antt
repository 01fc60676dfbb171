-- ===== src/Config/Flags/Laws.antt =====
-- Whence the configuration comes.
use go_kubernetes_mcp_server.Base.{
  ℕ, ℤ, String, ◌==◌, ◌≡◌, refl, sym, ◌∙◌, subst, Bool, false, ◌||◌, Option, none, some, List, [],
  arith, equal_fold, lookup,
}
use go_kubernetes_mcp_server.Config.{Config, Float64, defaults, validate}
use go_kubernetes_mcp_server.Config.Flags.{
  Given, Loaded, loaded, refused_config, env_key, get_flag, bool_env_or_default, env_or_default,
  int_env_or_default, num_env_or_default, dur_env_or_default, parsed_or, string_flags, bool_flags,
  int_flags, float_flags, duration_flags, slice_flags, config_of, from_flags,
}

-- Whether a flag is given as true, or is not given and its variable says "1" or "true".
abbrev pub is_asked : (List ℕ → Option String) → Given → String → Bool
is_asked env given name = elim (lookup name given.bools) [
  | some v ↦ v
  | none ↦ elim (env (env_key name)) [ none ↦ false | some v ↦ equal_fold v "true" || v == "1" ]
]

abbrev pub listed_values : Given → String → List String
listed_values given name = elim (lookup name given.slices) [ some v ↦ v | none ↦ [] ]

-- The flags by which an operator opens the server, and the allowlist.
abbrev pub Opened : (List ℕ → Option String) → Given → Config → Type 0
Opened env given c =
    (c.allow_writes ≡ (is_asked env given "allow-destructive" || is_asked env given "allow-writes"))
    × (c.allow_destructive ≡ is_asked env given "allow-destructive")
    × (c.allow_debug ≡ is_asked env given "allow-debug")
    × (c.allow_privileged_targets ≡ is_asked env given "allow-privileged-targets")
    × (c.reveal_secrets ≡ is_asked env given "reveal-secrets")
    × (c.insecure_http ≡ is_asked env given "insecure-http")
    × (c.namespaces ≡ listed_values given "namespace")

validated :
    (c : Config)
    → (validate c).1 ≡ none
    → (validate c).0 ≡ record c { allow_writes = c.allow_destructive || c.allow_writes }
unfolding validate
validated c h = ground arith

loaded-validate :
    (c d : Config)
    → elim (validate c).1 as (λ _. Loaded) [
      | some err ↦ refused_config err
      | none ↦ loaded (validate c).0
    ]
      ≡ loaded d
    → ((validate c).1 ≡ none) × (d ≡ (validate c).0)
loaded-validate c d h = ground arith

module _ (env : List ℕ → Option String) (parse_int : String → Option ℤ)
    (parse_float : String → Option Float64) (parse_duration : String → Option ℤ) where
  -- A configuration that is loaded allows writes, destructive tools, debugging, privileged targets,
  -- revealed secrets and plaintext exactly if the flag is given as true, or is not given and its
  -- variable of the environment says "1" or "true"; --allow-destructive brings --allow-writes along.
  -- The allowlist of namespaces is that of the command line, whatever the environment holds.
  pub from_flags-Opened :
      (given : Given) (c : Config)
      → from_flags env parse_int parse_float parse_duration given ≡ loaded c
      → Opened env given c
  unfolding from_flags config_of get_flag bool_flags slice_flags bool_env_or_default lookup
  from_flags-Opened given c h =
      let split = loaded-validate (config_of env parse_int parse_float parse_duration given) c h in
      subst (Opened env given) (sym (split.1 ∙ validated _ split.0))
        (refl, refl, refl, refl, refl, refl, refl)

-- Without flags and variables the configuration is that of `Defaults`, before its validation.
config_of-defaults :
    (parse_int : String → Option ℤ) (parse_float : String → Option Float64)
    (parse_duration : String → Option ℤ)
    → config_of
        (λ key. none)
        parse_int
        parse_float
        parse_duration
        (record { strings = []; bools = []; ints = []; floats = []; durations = []; slices = [] })
      ≡ defaults
unfolding config_of get_flag string_flags bool_flags int_flags float_flags duration_flags
    slice_flags env_or_default bool_env_or_default int_env_or_default num_env_or_default
    dur_env_or_default parsed_or lookup
config_of-defaults parse_int parse_float parse_duration = refl
