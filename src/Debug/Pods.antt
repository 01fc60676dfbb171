-- ===== src/Debug/Pods.antt =====
-- internal/tools/debug/ephemeral.go, and cleanupPodAfter (portforward.go). `parse_dur` is what
-- `time.ParseDuration` makes of a text, in nanoseconds, with `none` for its error.
use go_kubernetes_mcp_server.Base.{
  ℕ, ◌/◌, ℤ, pos, String, ◌==◌, Bool, false, Option, none, some, List, [], ◌∷◌, if◌then◌else◌, ◌<>◌,
}
use go_kubernetes_mcp_server.Err.{image_required}
use go_kubernetes_mcp_server.Security.{
  Policy, check_debug, check_image, check_debug_service_account,
}
use go_kubernetes_mcp_server.Rpc.{validate_name}
use go_kubernetes_mcp_server.Kube.{
  namespaced, Prog, ret, call, attach, attach_args, words, get_object, add_ephemeral, Ephemeral,
  create, pods, debug_pod, rand_suffix, start_cleanup, delete,
}
use go_kubernetes_mcp_server.Kube
use go_kubernetes_mcp_server.Tools.Handler.{
  Outcome, text, s, d, q, ◌>>=◌, ◌>>◌, Handler, guard, answer,
}
use go_kubernetes_mcp_server.Tools.Util.{resolve_ns, check_scope, second}

pub record EphemeralArgs : Type 0 where
  pub namespace : String
  pub pod : String
  pub image : String
  pub name : String
  pub target_container : String
  pub command : List String

unfoldable pub add_ephemeral_container : Policy → EphemeralArgs → Prog Outcome
add_ephemeral_container p a = do
  guard (check_debug p)
  guard (validate_name a.pod)
  guard (if a.image == "" then some image_required else none)
  guard (check_image p a.image)
  let ns : String = resolve_ns a.namespace
  guard (check_scope p ns false)
  call (attach "Pod" ns a.pod false)
  call (
      attach_args
        (("image", Kube.text a.image) ∷ ("target_container", Kube.text a.target_container) ∷ []))
  answer ("get pod " <> ns <> "/" <> a.pod) (call (get_object pods (namespaced ns) a.pod))
  let name : String = if a.name == "" then "debugger" else a.name
  answer ("attach ephemeral container to " <> ns <> "/" <> a.pod) (
      call (
        add_ephemeral (namespaced ns) a.pod (record {
          name = name;
          image = a.image;
          command = a.command;
          target_container = a.target_container;
        })))
  ret (
      text (
        s "Attached ephemeral container "
        ∷ q name
        ∷ s " (image "
        ∷ s a.image
        ∷ s ") to pod "
        ∷ s ns
        ∷ s "/"
        ∷ s a.pod
        ∷ s ".\nUse exec_command with container="
        ∷ q name
        ∷ s
            " to run commands inside it.\nNote: ephemeral containers require Kubernetes 1.25+ and are removed when the pod is restarted.\n"
        ∷ []))

pub record RunDebugPodArgs : Type 0 where
  pub image : String
  pub namespace : String
  pub name : String
  pub node : String
  pub command : List String
  pub duration : String
  pub service_account : String

-- `int64(d.Seconds())` of a positive duration, and 600 without one.
abbrev seconds_of : Option ℤ → ℕ
seconds_of none = 600
seconds_of (some (pos ℕ.zero)) = 600
seconds_of (some (pos (ℕ.suc n))) = ℕ.suc n / second
seconds_of (some (ℤ.negsuc n)) = 600

pub debug_pod_ttl : (String → Option ℤ) → String → ℕ
debug_pod_ttl parse_dur duration = if duration == "" then 600 else seconds_of (parse_dur duration)

-- The default name takes a random suffix, which is drawn only then.
pod_name : String → Handler String
pod_name name k = if name == "" then call rand_suffix (λ suffix. k ("debug-" <> suffix)) else k name

pub node_or_none : String → String
node_or_none n = if n == "" then "<auto>" else n

abbrev pub service_account_of : String → String
service_account_of sa = if sa == "" then "default" else sa

-- The command defaults to `sleep` for the life of the pod; the debug pod keeps that as no words.
unfoldable pub debug_pod_rest : Policy → RunDebugPodArgs → String → ℕ → String → Prog Outcome
unfolding node_or_none
debug_pod_rest p a ns ttl name = do
  let sa : String = service_account_of a.service_account
  guard (check_debug_service_account p sa)
  call (attach "Pod" ns name false)
  call (
      attach_args (
        ("image", Kube.text a.image)
        ∷ ("service_account", Kube.text sa)
        ∷ ("node", Kube.text a.node)
        ∷ ("command", words a.command)
        ∷ []))
  answer ("create debug pod " <> ns <> "/" <> name)
      (call (create pods (namespaced ns) name (debug_pod a.image sa a.node a.command ttl) false))
  call (start_cleanup (namespaced ns) name ttl)
  ret (
      text (
        s "Created debug pod "
        ∷ s ns
        ∷ s "/"
        ∷ s name
        ∷ s " (image "
        ∷ s a.image
        ∷ s ") on node "
        ∷ q (node_or_none a.node)
        ∷ s ".\nIt will auto-delete in "
        ∷ d (pos ttl)
        ∷ s "s. Use exec_command or get_logs to interact with it.\n"
        ∷ []))

unfoldable pub run_debug_pod : (String → Option ℤ) → Policy → RunDebugPodArgs → Prog Outcome
unfolding pod_name debug_pod_ttl debug_pod_rest
run_debug_pod parse_dur p a = do
  guard (check_debug p)
  guard (if a.image == "" then some image_required else none)
  guard (check_image p a.image)
  let ns : String = resolve_ns a.namespace
  guard (check_scope p ns false)
  name ← pod_name a.name
  debug_pod_rest p a ns (debug_pod_ttl parse_dur a.duration) name

-- `cleanupPodAfter`, which runs in the background: `timer_first` is whether its timer fires before the
-- server stops. The result of the deletion is dropped.
unfoldable pub cleanup_pod_after : Bool → Policy → String → String → Prog (Unit {0})
cleanup_pod_after timer_first p ns name =
    if timer_first
    then elim (check_debug p) [
      | some err ↦ ret tt
      | none ↦ call (delete pods (namespaced ns) name none none false) (λ _. ret tt)
    ]
    else ret tt
