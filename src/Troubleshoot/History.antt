-- ===== src/Troubleshoot/History.antt =====
-- internal/tools/troubleshoot/rollout.go: rollout_history.
pub mod Laws
use go_kubernetes_mcp_server.Base.{
  ℕ, pos, String, ◌==◌, Bool, true, false, ◌&&◌, Option, none, some, List, [], ◌∷◌, ◌++◌, map,
  if◌then◌else◌, ◌<>◌, utf8, before, sort_by, any,
}
use go_kubernetes_mcp_server.Security.{Policy}
use go_kubernetes_mcp_server.Rpc.{validate_name}
use go_kubernetes_mcp_server.Kube.{Prog, ret, call, namespaced, attach, list_objects}
use go_kubernetes_mcp_server.Kube.Objects.{replica_set_kind, ReplicaSetObject, ListOptions}
use go_kubernetes_mcp_server.Tools.Handler.{
  Outcome, text, Piece, s, bytes, ◌>>=◌, ◌>>◌, guard, answer,
}
use go_kubernetes_mcp_server.Tools.Util.{resolve_ns, check_scope, age_str}
use go_kubernetes_mcp_server.Tools.Listing.{table, text_at}
use go_kubernetes_mcp_server.Core.Health.{no_options}
use go_kubernetes_mcp_server.Troubleshoot.Rollout.{RolloutArgs}

unfoldable pub is_owned_by : List (String × String × Option Bool) → String → String → Bool
is_owned_by [] name kind = false
is_owned_by ((k, n, controller) ∷ refs) name kind =
    let rest = is_owned_by refs name kind in
    if k == kind && (n == name && elim controller [ none ↦ false | some b ↦ b ]) then true else rest

pub record Revision : Type 0 where
  pub revision : String
  pub change_cause : String
  pub image : String
  pub age : Option ℕ

abbrev first_image : List String → String
first_image [] = ""
first_image (image ∷ images) = image

abbrev or_unknown : String → String
or_unknown rev = if rev == "" then "?" else rev

unfoldable pub revision_of : ReplicaSetObject → Revision
revision_of rs = record {
  revision = or_unknown (text_at "deployment.kubernetes.io/revision" rs.annotations);
  change_cause = text_at "kubernetes.io/change-cause" rs.annotations;
  image = first_image rs.images;
  age = rs.age;
}

unfoldable pub revisions : String → List ReplicaSetObject → List Revision
unfolding revision_of is_owned_by
revisions name [] = []
revisions name (rs ∷ sets) =
    let rest = revisions name sets in
    if is_owned_by rs.owners name "Deployment" then revision_of rs ∷ rest else rest

-- `sort.Slice` with `revs[i].revision > revs[j].revision`, which compares texts.
unfoldable pub sort_revisions : List Revision → List Revision
sort_revisions revs = sort_by (λ a b. before b.revision a.revision) revs

unfoldable pub last_revision : List Revision → String
last_revision [] = ""
last_revision (r ∷ []) = r.revision
last_revision (r ∷ t ∷ revs) = last_revision (t ∷ revs)

abbrev revision_row : Revision → List (List ℕ)
revision_row r =
    utf8 r.revision
    ∷ utf8 (if r.change_cause == "" then "<none>" else r.change_cause)
    ∷ utf8 r.image
    ∷ utf8 (age_str r.age)
    ∷ []

-- The revision that the report calls the current one.
unfoldable pub reported_current : String → List ReplicaSetObject → String
unfolding revisions sort_revisions last_revision
reported_current name sets = last_revision (sort_revisions (revisions name sets))

abbrev history_head : String → String → List Piece
history_head ns name = s "Rollout history for Deployment " ∷ s ns ∷ s "/" ∷ s name ∷ s "\n\n" ∷ []

unfoldable pub show_history : String → String → List ReplicaSetObject → Outcome
unfolding reported_current
show_history ns name sets = elim (sort_revisions (revisions name sets)) [
  | [] ↦ text (history_head ns name ++ s "No revisions found.\n" ∷ [])
  | r ∷ revs ↦ text (
      history_head ns name
      ++ (bytes (
            table ("REVISION" ∷ "CHANGE-CAUSE" ∷ "IMAGE" ∷ "AGE" ∷ [])
              (map revision_row (r ∷ revs)))
          ∷ s "\nCurrent revision: "
          ∷ s (reported_current name sets)
          ∷ s "\n"
          ∷ []))
]

unfoldable pub rollout_history : Policy → RolloutArgs → Prog Outcome
unfolding show_history
rollout_history p a = do
  guard (validate_name a.name)
  let ns : String = resolve_ns a.namespace
  guard (check_scope p ns false)
  call (attach "Deployment" ns a.name false)
  sets ← answer "list replicasets" (call (list_objects replica_set_kind (namespaced ns) no_options))
  ret (show_history ns a.name sets)
