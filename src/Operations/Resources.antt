-- ===== src/Operations/Resources.antt =====
-- internal/tools/operations/resources.go: the tools that create, and update_configmap.
use go_kubernetes_mcp_server.Base.{
  ℤ, pos, ℕ, String, ◌==◌, Bool, true, false, ◌||◌, Option, none, some, [], ◌∷◌, map, length,
  if◌then◌else◌, StringMap, upper_is, ◌<>◌,
}
use go_kubernetes_mcp_server.Err.{port_required, invalid_service_type}
use go_kubernetes_mcp_server.Security.{Policy, check_mutating, check_target}
use go_kubernetes_mcp_server.Rpc.{validate_name}
use go_kubernetes_mcp_server.Kube.{
  namespaced, cluster, Prog, ret, call, attach, get_object, create, update, namespaces, configmaps,
  secrets, services, namespace_object, configmap, secret, service, Unstructured, Answer, ok, failed,
}
use go_kubernetes_mcp_server.Tools.Handler.{
  Outcome, text, tool_error, s, d, q, v, ◌>>=◌, ◌>>◌, guard, answer,
}
use go_kubernetes_mcp_server.Tools.Util.{resolve_ns}
use go_kubernetes_mcp_server.Operations.Scale.{policy_target}

pub dry_note : Bool → String
dry_note b = if b then " (dry run)" else ""

pub record CreateNamespaceArgs : Type 0 where
  pub name : String
  pub labels : StringMap String
  pub dry_run : Bool

unfoldable pub create_namespace : Policy → CreateNamespaceArgs → Prog Outcome
create_namespace p a = do
  guard (check_mutating p)
  guard (validate_name a.name)
  guard (check_target p "" true)
  call (attach "Namespace" "" a.name a.dry_run)
  answer ("create namespace " <> a.name)
      (call (create namespaces cluster a.name (namespace_object a.name a.labels) a.dry_run))
  ret (
      text (
        s "namespace "
        ∷ q a.name
        ∷ s " "
        ∷ s (if a.dry_run then "validated (dry run)" else "created")
        ∷ s "\n"
        ∷ []))

pub record ConfigMapArgs : Type 0 where
  pub namespace : String
  pub name : String
  pub entries : StringMap String
  pub dry_run : Bool

unfoldable pub create_configmap : Policy → ConfigMapArgs → Prog Outcome
unfolding dry_note
create_configmap p a = do
  guard (check_mutating p)
  guard (validate_name a.name)
  let ns : String = resolve_ns a.namespace
  guard (policy_target p ns false)
  call (attach "ConfigMap" ns a.name a.dry_run)
  answer ("create configmap " <> ns <> "/" <> a.name)
      (call (create configmaps (namespaced ns) a.name (configmap a.name a.entries "") a.dry_run))
  ret (
      text (
        s "configmap "
        ∷ s ns
        ∷ s "/"
        ∷ s a.name
        ∷ s " created ("
        ∷ d (pos (length a.entries))
        ∷ s " keys)"
        ∷ s (dry_note a.dry_run)
        ∷ s "\n"
        ∷ []))

-- The resource version of the configmap that stands, or "" where it cannot be read.
pub version_or_empty : Answer Unstructured → String
version_or_empty (ok cur) = cur.resource_version
version_or_empty (failed err) = ""

unfoldable pub update_configmap : Policy → ConfigMapArgs → Prog Outcome
unfolding dry_note version_or_empty
update_configmap p a = do
  guard (check_mutating p)
  guard (validate_name a.name)
  let ns : String = resolve_ns a.namespace
  guard (policy_target p ns false)
  call (attach "ConfigMap" ns a.name a.dry_run)
  cur ← call (get_object configmaps (namespaced ns) a.name)
  answer ("update configmap " <> ns <> "/" <> a.name) (
      call (
        update configmaps (namespaced ns) a.name (configmap a.name a.entries (version_or_empty cur))
          a.dry_run))
  ret (
      text (
        s "configmap "
        ∷ s ns
        ∷ s "/"
        ∷ s a.name
        ∷ s " updated ("
        ∷ d (pos (length a.entries))
        ∷ s " keys)"
        ∷ s (dry_note a.dry_run)
        ∷ s "\n"
        ∷ []))

pub record SecretArgs : Type 0 where
  pub namespace : String
  pub name : String
  pub type_name : String
  pub string_data : StringMap String
  pub dry_run : Bool

unfoldable pub create_secret : Policy → SecretArgs → Prog Outcome
unfolding dry_note
create_secret p a = do
  guard (check_mutating p)
  guard (validate_name a.name)
  let ns : String = resolve_ns a.namespace
  guard (policy_target p ns false)
  call (attach "Secret" ns a.name a.dry_run)
  let st : String = if a.type_name == "" then "Opaque" else a.type_name
  answer ("create secret " <> ns <> "/" <> a.name)
      (call (create secrets (namespaced ns) a.name (secret a.name st a.string_data) a.dry_run))
  ret (
      text (
        s "secret "
        ∷ s ns
        ∷ s "/"
        ∷ s a.name
        ∷ s " created (type="
        ∷ s st
        ∷ s ", keys="
        ∷ v (map (λ e. e.0) a.string_data)
        ∷ s ")"
        ∷ s (dry_note a.dry_run)
        ∷ s " — values are not echoed\n"
        ∷ []))

pub record CreateServiceArgs : Type 0 where
  pub namespace : String
  pub name : String
  pub selector : StringMap String
  pub port : ℤ
  pub target_port : ℤ
  pub type_name : String
  pub dry_run : Bool

-- `x == 0`
abbrev pub is_zero : ℤ → Bool
is_zero (pos ℕ.zero) = true
is_zero _ = false

-- The `switch` over the type of the service; `none` is its default case.
pub service_type : String → Option String
service_type t =
    if t == "" || upper_is t "CLUSTERIP"
    then some "ClusterIP"
    else if upper_is t "NODEPORT"
    then some "NodePort"
    else if upper_is t "LOADBALANCER"
    then some "LoadBalancer"
    else none

unfoldable pub create_service_as :
    String → String → CreateServiceArgs → Option String → Prog Outcome
unfolding dry_note
create_service_as ns given a none = ret (tool_error (invalid_service_type given))
create_service_as ns given a (some svc_type) = do
  let target : ℤ = if is_zero a.target_port then a.port else a.target_port
  answer ("create service " <> ns <> "/" <> a.name) (
      call (
        create services (namespaced ns) a.name (service a.name svc_type a.selector a.port target)
          a.dry_run))
  ret (
      text (
        s "service "
        ∷ s ns
        ∷ s "/"
        ∷ s a.name
        ∷ s " created (type="
        ∷ s svc_type
        ∷ s ", port="
        ∷ d a.port
        ∷ s "→"
        ∷ d target
        ∷ s ")"
        ∷ s (dry_note a.dry_run)
        ∷ s "\n"
        ∷ []))

unfoldable pub create_service : Policy → CreateServiceArgs → Prog Outcome
unfolding service_type create_service_as
create_service p a = do
  guard (check_mutating p)
  guard (validate_name a.name)
  guard (if is_zero a.port then some port_required else none)
  let ns : String = resolve_ns a.namespace
  guard (policy_target p ns false)
  call (attach "Service" ns a.name a.dry_run)
  create_service_as ns a.type_name a (service_type a.type_name)
