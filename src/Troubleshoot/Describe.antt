-- ===== src/Troubleshoot/Describe.antt =====
-- internal/tools/troubleshoot/describe.go: describe, with its masking of secrets. Its `resolveGVR` is
-- that of internal/tools/discovery.go, line by line. SHA-256 in hexadecimal and the YAML encoder are
-- parameters.
pub mod Masking
use go_kubernetes_mcp_server.Base.{
  ℕ, String, ◌==◌, Bool, true, false, not, Option, none, some, List, [], ◌∷◌, ◌++◌, if◌then◌else◌,
  ◌<>◌, equal_fold,
}
use Prim.Native.String.{slice}
use go_kubernetes_mcp_server.Err.{Err, cluster_scoped_kind, encode_failed}
use go_kubernetes_mcp_server.Security.{Policy}
use go_kubernetes_mcp_server.Rpc.{validate_name}
use go_kubernetes_mcp_server.Kube.{
  Prog, ret, call, Gvr, namespaced, cluster, attach, get_json, Answer, ok, failed,
}
use go_kubernetes_mcp_server.Kube.Dynamic.{
  Json, Items, Fields, null, boolean, number, string, array, object, nil, cons, end, field, at,
  as_object, as_string,
}
use go_kubernetes_mcp_server.Tools.Handler.{
  Outcome, text, tool_error, bytes, ◌>>=◌, ◌>>◌, guard, answer,
}
use go_kubernetes_mcp_server.Tools.Util.{resolve_ns, check_scope}
use go_kubernetes_mcp_server.Tools.Discovery.{with_gvr}

pub record DescribeArgs : Type 0 where
  pub kind : String
  pub api_version : String
  pub namespace : String
  pub name : String

-- `delete(md, key)`
unfoldable pub without : String → Fields → Fields
without key end = end
without key (field k x fs) = let rest = without key fs in if k == key then rest else field k x rest

-- What the code does to the value under a key, in place, where that is a map.
unfoldable pub change_object : String → (Fields → Fields) → Fields → Fields
change_object key f end = end
change_object key f (field k x fs) =
    let rest = change_object key f fs in
    field k (if k == key then elim x [ object inner ↦ object (f inner) | other ↦ other ] else x)
      rest

-- `kind, _ := obj["kind"].(string)`
unfoldable pub kind_of : Fields → String
kind_of obj = elim (as_string (at "kind" obj)) [ none ↦ "" | some kind ↦ kind ]

unfoldable pub show_yaml : String → Answer (List ℕ) → Outcome
show_yaml kind (ok b) = text (bytes b ∷ [])
show_yaml kind (failed err) = tool_error (encode_failed kind err)

-- The guards between the resolution of the kind and the call, which is `""` for a cluster.
unfoldable pub describe_scope : Policy → DescribeArgs → Bool → Option Err
describe_scope p a scoped =
    if scoped
    then check_scope p (resolve_ns a.namespace) false
    else if not (a.namespace == "")
    then some (cluster_scoped_kind a.kind)
    else none

module _ (sha256_hex : String → String) where
  -- `shortHash`: twelve digits.
  unfoldable pub short_hash : String → String
  short_hash t = slice (sha256_hex t) 0 12

  unfoldable pub mask_value : Json → Json
  unfolding short_hash
  mask_value (string t) = string ("•••• (sha256:" <> short_hash t <> ")")
  mask_value x = x

  unfoldable pub mask_values : Fields → Fields
  unfolding mask_value
  mask_values end = end
  mask_values (field k x fs) = field k (mask_value x) (mask_values fs)

  unfoldable pub mask_secret : Fields → Fields
  unfolding mask_values
  mask_secret obj =
      if not (equal_fold (kind_of obj) "Secret")
      then obj
      else change_object "stringData" mask_values (change_object "data" mask_values obj)

  unfoldable pub clean_unstructured : Fields → Fields
  unfolding mask_secret
  clean_unstructured obj = mask_secret (change_object "metadata" (without "managedFields") obj)

  module _ (to_yaml : Fields → Answer (List ℕ)) where
    unfoldable pub describe : Policy → DescribeArgs → Prog Outcome
    unfolding describe_scope show_yaml
    describe p a = do
      guard (validate_name a.name)
      found ← with_gvr (λ err. err) a.kind a.api_version
      guard (describe_scope p a found.1)
      let ns : String = if found.1 then resolve_ns a.namespace else ""
      call (attach a.kind ns a.name false)
      obj ←
          answer ("get " <> a.kind <> " " <> (if found.1 then ns <> "/" else "") <> a.name)
            (call (get_json found.0 (if found.1 then namespaced ns else cluster) a.name))
      ret (show_yaml a.kind (to_yaml (clean_unstructured (as_object obj))))
