-- ===== src/Debug/Forward.antt =====
-- internal/tools/debug/portforward.go: the port forwards and the count of the open ones.
pub mod Slots
pub mod Spec
use go_kubernetes_mcp_server.Base.{
  ℕ, zero, suc, ◌*◌, ℤ, pos, negsuc, String, ◌==◌, Bool, true, false, not, Option, none, some, List,
  [], ◌∷◌, leb, ltb, if◌then◌else◌, ◌<>◌, contains_char, cut_at,
}
use go_kubernetes_mcp_server.Err.{
  Err, ApiError, port_required, forward_limit, create_transport, create_forwarder, forward_failed,
  forward_not_ready,
}
use go_kubernetes_mcp_server.Security.{Policy, check_debug}
use go_kubernetes_mcp_server.Rpc.{validate_name}
use go_kubernetes_mcp_server.Kube.{Act, attach, attach_args, text}
use go_kubernetes_mcp_server.Tools.Handler.{Outcome, tool_error, fail, s, d}
use go_kubernetes_mcp_server.Tools.Util.{resolve_ns, check_scope, second, hour}

abbrev pub max_concurrent_forwards : ℕ
max_concurrent_forwards = 5

-- `acquireForward` on the counter `forwards`, under its mutex: the new counter, or the error.
unfoldable pub acquire_forward : ℕ → Option ℕ
acquire_forward forwards =
    if leb max_concurrent_forwards forwards then none else some (suc forwards)

pub release_forward : ℕ → ℕ
release_forward zero = zero
release_forward (suc n) = n

-- `normalizePort`
pub normalize_port : String → String
normalize_port p = if not (contains_char b':' p) then p <> ":" <> p else p

pub record PortForwardArgs : Type 0 where
  pub namespace : String
  pub pod : String
  pub port : String
  pub duration : String

-- How long a tunnel stays open; `parse_dur` is `time.ParseDuration`, `none` for its error.
abbrev requested : Option ℤ → ℕ
requested none = 120 * second
requested (some (pos zero)) = 120 * second
requested (some (pos (suc n))) = suc n
requested (some (negsuc n)) = 120 * second

pub tunnel_duration : (String → Option ℤ) → String → ℕ
tunnel_duration parse_dur duration =
    let wanted = if duration == "" then 120 * second else requested (parse_dur duration) in
    if ltb hour wanted then hour else wanted

-- What comes of the transport, the forwarder and the wait for it to be ready.
pub data Opening : Type 0 where
  no_transport no_forwarder broken : ApiError → Opening
  not_ready : Opening
  ready : Opening

-- What a call does up to its slot: it is refused, or it goes on in a namespace.
pub data Admission : Type 0 where
  refused : Err → Admission
  admitted : String → Admission

abbrev or_admit : Option Err → Admission → Admission
or_admit (some err) next = refused err
or_admit none next = next

pub admit : Policy → PortForwardArgs → Admission
admit p a = or_admit (check_debug p) (
    or_admit (validate_name a.pod) (
      or_admit (if a.port == "" then some port_required else none) (
        or_admit (check_scope p (resolve_ns a.namespace) false)
          (admitted (resolve_ns a.namespace)))))

-- The text of a tunnel; `strings.SplitN(local, ":", 2)` is indexed at 0 and at 1. `none` is the panic
-- of an index out of range.
pub tunnel_text : String → String → String → String → Option Outcome
tunnel_text ns pod local duration = elim (cut_at b':' local) [
  | none ↦ none
  | some (here, there) ↦ some (
      Outcome.text (
        s "Port forward active for pod "
        ∷ s ns
        ∷ s "/"
        ∷ s pod
        ∷ s ": 127.0.0.1:"
        ∷ s here
        ∷ s " -> pod:"
        ∷ s there
        ∷ s "\nThe tunnel will stay open for "
        ∷ s duration
        ∷ s ", then close automatically.\n"
        ∷ []))
]

-- What a call that has its slot adds to the audit record.
abbrev recorded_forward : String → PortForwardArgs → String → List Act
recorded_forward ns a duration =
    attach "Pod" ns a.pod false
    ∷ attach_args (("port", text a.port) ∷ ("duration", text duration) ∷ [])
    ∷ []

-- One call and the counter: the new counter, whether a tunnel is left open (whose teardown releases
-- the slot later), the result, where `none` is a panic, and what it adds to the audit record.
-- `show_duration` is the `String` of a duration.
unfoldable pub port_forward :
    (String → Option ℤ)
    → (ℕ → String)
    → Policy
    → PortForwardArgs
    → Opening
    → ℕ
    → ℕ × Bool × Option Outcome × List Act
unfolding admit
port_forward parse_dur show_duration p a opening forwards =
    let shown : String = show_duration (tunnel_duration parse_dur a.duration) in
    elim (admit p a) [
      | refused err ↦ (forwards, false, some (tool_error err), [])
      | admitted ns ↦
          let acts : List Act = recorded_forward ns a shown in
          elim (acquire_forward forwards) [
            | none ↦ (forwards, false, some (tool_error forward_limit), [])
            | some held ↦ elim opening [
              | no_transport err ↦
                  (release_forward held, false, some (tool_error (create_transport err)), acts)
              | no_forwarder err ↦
                  (release_forward held, false, some (tool_error (create_forwarder err)), acts)
              | broken err ↦
                  (release_forward held, false, some (tool_error (forward_failed err)), acts)
              | not_ready ↦ (release_forward held, false, some (tool_error forward_not_ready), acts)
              | ready ↦ (held, true, tunnel_text ns a.pod (normalize_port a.port) shown, acts)
            ]
          ]
    ]
