-- ===== src/Operations/Manifest.antt =====
-- internal/tools/operations/operations.go: apply_manifest and patch. The YAML decoder is a library:
-- `decoded` is what it makes of the manifest's bytes, the documents that are not empty or its error.
use go_kubernetes_mcp_server.Base.{
  ℕ, suc, String, ◌==◌, Bool, true, ◌||◌, not, Option, none, some, List, [], ◌∷◌, ◌++◌, length, ltb,
  is_empty, if◌then◌else◌, lower_is, ◌<>◌,
}
use go_kubernetes_mcp_server.Err.{
  Err, manifest_too_large, manifest_undecodable, manifest_empty, missing_kind, missing_name,
  in_document, invalid_patch_type,
}
use go_kubernetes_mcp_server.Security.{
  Policy, check_mutating, check_target, check_namespace, check_manifest_kind,
}
use go_kubernetes_mcp_server.Rpc.{validate_name}
use go_kubernetes_mcp_server.Kube.{
  Prog, ret, call, attach, attach_args, Value, number, apply, patch, dynamic, raw, Document,
  PatchType, strategic_merge, merge, json_patch,
}
use go_kubernetes_mcp_server.Kube
use go_kubernetes_mcp_server.Tools.Handler.{
  Outcome, text, tool_error, Piece, s, q, ◌>>=◌, ◌>>◌, guard, answer,
}
use go_kubernetes_mcp_server.Tools.Util.{resolve_ns}
use go_kubernetes_mcp_server.Tools.Discovery.{with_gvr}
use go_kubernetes_mcp_server.Operations.Scale.{policy_target}
use go_kubernetes_mcp_server.Operations.Meta.{scope_of}

pub record ApplyArgs : Type 0 where
  pub manifest : List ℕ
  pub namespace : String
  pub dry_run : Option Bool
  pub field_manager : String

pub data Decoded : Type 0 where
  documents : List Document → Decoded
  undecodable : String → Decoded

pub validate_ident : String → String → Option Err
validate_ident kind name =
    if kind == "" then some missing_kind else if name == "" then some missing_name else none

pub gvr_kind_key : String → String → String
gvr_kind_key kind api_version = kind <> "." <> api_version

abbrev numbered : ℕ → Option Err → Option Err
numbered n none = none
numbered n (some err) = some (in_document n err)

-- The loop over the documents from number `n` on; `lines` is the builder `b`.
unfoldable pub apply_documents :
    Policy → String → String → Bool → ℕ → List Document → List Piece → Prog Outcome
unfolding validate_ident gvr_kind_key
apply_documents p default_ns fm dry n [] lines = ret (
    text (
      lines
      ++ (if dry
          then s "\nNOTE: this was a dry run. Pass dry_run=false to apply for real.\n" ∷ []
          else [])))
apply_documents p default_ns fm dry n (obj ∷ objs) lines =
    let rest =
      λ (more : List Piece). apply_documents p default_ns fm dry (suc n) objs (lines ++ more) in
    do
      let ns : String = if obj.namespace == "" then default_ns else obj.namespace
      let doc = record obj { namespace = ns }
      guard (numbered n (validate_ident obj.kind obj.name))
      found ← with_gvr (in_document n) obj.kind obj.api_version
      guard (check_manifest_kind p (gvr_kind_key obj.kind obj.api_version))
      guard (check_target p ns (not found.1))
      guard (if not (ns == "") then check_namespace p ns else none)
      call (attach obj.kind ns obj.name dry)
      answer ("apply " <> obj.kind <> " " <> ns <> "/" <> obj.name)
          (call (apply (dynamic found.0) (scope_of found.1 ns) obj.name doc fm dry))
      rest (
          s obj.kind
          ∷ s " "
          ∷ s obj.name
          ∷ s " in namespace "
          ∷ q ns
          ∷ s " "
          ∷ s (if dry then "validated (dry run)" else "applied")
          ∷ s "\n"
          ∷ [])

abbrev pub or_else {ℓ} : {A : Type ℓ} → A → Option A → A
or_else x none = x
or_else x (some y) = y

unfoldable pub apply_decoded : Policy → ApplyArgs → Decoded → Prog Outcome
unfolding apply_documents
apply_decoded p a (undecodable message) = ret (tool_error (manifest_undecodable message))
apply_decoded p a (documents objs) = do
  guard (if is_empty objs then some manifest_empty else none)
  call (
      attach_args
        (("documents", number (length objs)) ∷ ("manifest_bytes", number (length a.manifest)) ∷ []))
  apply_documents p (resolve_ns a.namespace)
      (if a.field_manager == "" then "k8s-mcp" else a.field_manager) (or_else true a.dry_run) 1 objs
      []

-- `max_manifest` is `tk.Cfg.MaxManifestBytes`, and `decode` the decoder.
unfoldable pub apply_manifest : (List ℕ → Decoded) → ℕ → Policy → ApplyArgs → Prog Outcome
unfolding apply_decoded
apply_manifest decode max_manifest p a = do
  guard (check_mutating p)
  guard (
      if ltb max_manifest (length a.manifest)
      then some (manifest_too_large (length a.manifest) max_manifest)
      else none)
  apply_decoded p a (decode a.manifest)

pub record PatchArgs : Type 0 where
  pub kind : String
  pub api_version : String
  pub namespace : String
  pub name : String
  pub patch : List ℕ
  pub patch_type : String
  pub dry_run : Bool

pub data ParsedType : Type 0 where
  parsed : PatchType → ParsedType
  unparsed : Err → ParsedType

unfoldable pub parse_patch_type : String → ParsedType
parse_patch_type t =
    if t == "" || lower_is t "strategic"
    then parsed strategic_merge
    else if lower_is t "merge"
    then parsed merge
    else if lower_is t "json"
    then parsed json_patch
    else unparsed (invalid_patch_type t)

unfoldable pub go_on_parsed : (PatchType → Prog Outcome) → ParsedType → Prog Outcome
go_on_parsed k (parsed pt) = k pt
go_on_parsed k (unparsed err) = ret (tool_error err)

unfoldable pub patch_tool : Policy → PatchArgs → Prog Outcome
patch_tool p a = do
  guard (check_mutating p)
  guard (validate_name a.name)
  pt ← λ k. go_on_parsed k (parse_patch_type a.patch_type)
  found ← with_gvr (λ err. err) a.kind a.api_version
  let ns : String = resolve_ns a.namespace
  guard (policy_target p ns (not found.1))
  call (attach a.kind ns a.name a.dry_run)
  call (
      attach_args
        (("patch_type", Kube.text a.patch_type) ∷ ("patch_bytes", number (length a.patch)) ∷ []))
  res ←
      answer ("patch " <> a.kind <> " " <> ns <> "/" <> a.name)
        (call (patch (dynamic found.0) (scope_of found.1 ns) a.name pt (raw a.patch) a.dry_run))
  ret (
      text (
        s a.kind
        ∷ s " "
        ∷ s ns
        ∷ s "/"
        ∷ s a.name
        ∷ s " "
        ∷ s (if a.dry_run then "validated (dry run)" else "patched")
        ∷ s ". resourceVersion="
        ∷ s res.resource_version
        ∷ s "\n"
        ∷ []))
