-- ===== src/Err.antt =====
-- The errors of the program: each `fmt.Errorf` and each `rpc.ErrorResult` format of the modelled code
-- is a constructor over the values that it formats. The wording itself is not modelled.
use Prim.Native.Nat.{ℕ}
use Prim.Native.String.{String}
use go_kubernetes_mcp_server.Base.{ℤ, List}

-- What an API server or another called library answers in place of a result; `reason` and `message`
-- are those of a `StatusError`, and `other` is any error that is none.
pub data ApiError : Type 0 where
  status : String → String → ApiError
  other : String → ApiError

-- `RPCStatusError`: the class of message that a reason is turned into.
pub data StatusClass : Type 0 where
  not_found forbidden unauthorized conflict timed_out rate_limited invalid plain wrapped :
      StatusClass

pub data Err : Type 0 where
  -- internal/security/policy.go
  mutating_disabled destructive_disabled debug_disabled : Err
  namespace_outside_allowlist : String → Err
  cluster_scoped_needs_privileged : Err
  control_plane_namespace : String → Err
  kind_not_allowed : String → Err
  image_forbidden : String → Err
  service_account_not_permitted : String → Err
  service_account_not_listed : String → Err
  secret_reveal_disabled : Err
  -- internal/rpc/args.go
  name_required : Err
  invalid_name : String → Err
  invalid_namespace : String → Err
  label_selector_newlines : Err
  selector_token_chars : String → Err
  -- internal/tools/util.go
  selector_newlines : Err
  all_namespaces_not_permitted : Err
  -- internal/config/config.go
  invalid_transport : String → Err
  invalid_output_format : String → Err
  timeout_not_positive : ℤ → Err
  qps_negative : Err
  burst_negative : ℤ → Err
  max_output_not_positive : ℤ → Err
  max_log_lines_not_positive : ℤ → Err
  max_manifest_not_positive : ℤ → Err
  max_concurrent_negative : ℤ → Err
  auth_token_exclusive : Err
  refusing_plaintext : String → Err
  -- internal/tools/discovery.go
  discovery_failed : ApiError → Err
  kind_not_found : String → String → Err
  -- internal/tools/errors.go: the class, the action and its target, and the message
  api_failed : StatusClass → String → String → Err
  -- internal/tools/toolkit.go
  server_busy : Err
  internal_error : String → Err
  deadline_exceeded : Err
  panicked : Err
  -- internal/tools/operations
  port_required : Err
  invalid_service_type : String → Err
  unsupported_kind : String → Err
  -- over the kind in lower case
  unsupported_controller : String → Err
  undo_only_deployments : String → Err
  no_history : String → String → Err
  revision_not_found : String → Err
  no_previous_revision : String → Err
  key_exists : String → Err
  invalid_patch_type : String → Err
  manifest_too_large : ℕ → ℕ → Err
  manifest_undecodable : String → Err
  manifest_empty : Err
  missing_kind : Err
  missing_name : Err
  in_document : ℕ → Err → Err
  -- internal/tools/debug
  command_required : Err
  image_required : Err
  forward_limit : Err
  create_executor : ApiError → Err
  exec_failed : String → String → ApiError → List ℕ → Err
  create_transport create_forwarder forward_failed : ApiError → Err
  forward_not_ready : Err
  -- internal/tools/troubleshoot
  invalid_since_time : ApiError → Err
  read_failed : String → String → ApiError → Err
  metrics_unavailable : ApiError → Err
  cluster_scoped_kind : String → Err
  encode_failed : String → ApiError → Err
