-- ===== src/Troubleshoot/ReadTests.antt =====
-- The laws of the troubleshooting tools on concrete inputs.
use go_kubernetes_mcp_server.Base.{
  ℕ, ◌+◌, ◌++◌, ◌≤◌, ◌<◌, ◌*◌, ◌/◌, suc, ℤ, pos, String, ◌≡◌, ◌≢◌, refl, inl, inr, Bool, true,
  false, none, some, List, [], ◌∷◌, IsIn, map, before, show_nat, ◌<>◌, if◌then◌else◌, arith, length,
  equal_fold,
}
use go_kubernetes_mcp_server.Kube.{Chunk}
use go_kubernetes_mcp_server.Kube.Dynamic.{Fields, string, object, end, field}
use go_kubernetes_mcp_server.Kube.Objects.{ReplicaSetObject, Quantity}
use go_kubernetes_mcp_server.Troubleshoot.History.{Revision, revisions, reported_current}
use go_kubernetes_mcp_server.Troubleshoot.History.Laws.{reported_current-least}
use go_kubernetes_mcp_server.Troubleshoot.Logs.{read_at_most}
use go_kubernetes_mcp_server.Troubleshoot.Logs.Laws.{
  buffer, all_bytes, stream_end, read_at_most_lem,
}
use go_kubernetes_mcp_server.Troubleshoot.Top.{pct}
use go_kubernetes_mcp_server.Troubleshoot.Top.Laws.{pct_lem}
use go_kubernetes_mcp_server.Troubleshoot.Describe.{kind_of, clean_unstructured}
use go_kubernetes_mcp_server.Troubleshoot.Describe.Masking.{clean_unstructured-masked}

abbrev set_at : String → ReplicaSetObject
set_at rev = record {
  namespace = "shop";
  name = "web-" <> rev;
  replicas = some (pos 1);
  total_replicas = pos 1;
  ready_replicas = pos 1;
  owners = ("Deployment", "web", some true) ∷ [];
  annotations = ("deployment.kubernetes.io/revision", rev) ∷ [];
  images = [];
  age = none;
}

abbrev web_sets : List ReplicaSetObject
web_sets = set_at "1" ∷ set_at "2" ∷ []

abbrev second : Revision
second = record { revision = "2"; change_cause = ""; image = ""; age = none }

reported_current-least_example :
    IsIn (reported_current "web" web_sets) (map (λ t. t.revision) (revisions "web" web_sets))
    × (before "2" (reported_current "web" web_sets) ≡ false)
unfolding revisions go_kubernetes_mcp_server.Tools.Listing.text_at
    go_kubernetes_mcp_server.Base.lookup
reported_current-least_example = reported_current-least "web" web_sets second (inr (inl refl))

-- Of the revisions 1 and 2 the older one is said to be the current one.
reported_current-text : ◌≡◌ {A = String} (reported_current "web" web_sets) "1"
unfolding reported_current go_kubernetes_mcp_server.Base.sort_by before
    go_kubernetes_mcp_server.Tools.Listing.text_at go_kubernetes_mcp_server.Base.lookup
reported_current-text = refl

abbrev two_reads : List Chunk
two_reads =
    record { read_bytes = 104 ∷ 105 ∷ []; error = none }
    ∷ record { read_bytes = 10 ∷ []; error = none }
    ∷ []

read_at_most_lem_example :
    (length (read_at_most two_reads (pos 1024) []).0 < 1024 + buffer)
    × ((rest : List ℕ) × ((read_at_most two_reads (pos 1024) []).0 ++ rest ≡ all_bytes two_reads))
    × (length (all_bytes two_reads) < 1024
        → read_at_most two_reads (pos 1024) [] ≡ (all_bytes two_reads, stream_end two_reads))
    × (1024 ≤ length (all_bytes two_reads) → 1024 ≤ length (read_at_most two_reads (pos 1024) []).0)
read_at_most_lem_example = read_at_most_lem two_reads 1024 (omega arith, (omega arith, tt))

abbrev quarter : Quantity
quarter = record { text = "250m"; value = pos 0; is_int64 = false; is_zero = false }

abbrev two_cores : Quantity
two_cores = record { text = "2"; value = pos 2; is_int64 = true; is_zero = false }

pct_lem_example :
    ◌≡◌ {A = String}
      (pct quarter two_cores)
      (show_nat ((if quarter.is_int64 then 0 else 0) * 100 / suc 1) <> "%")
pct_lem_example = pct_lem quarter two_cores 0 1 refl refl refl refl (omega arith)

abbrev secret_of : String → Fields
secret_of value =
    field "kind" (string "Secret") (field "data" (object (field "password" (string value) end)) end)

clean_unstructured-masked_example :
    clean_unstructured (λ t. "0123456789abcdef") (secret_of "aHVudGVyMg==")
    ≡ clean_unstructured (λ t. "0123456789abcdef") (secret_of "bGV0bWUxbg==")
unfolding equal_fold kind_of go_kubernetes_mcp_server.Kube.Dynamic.at
    go_kubernetes_mcp_server.Troubleshoot.Describe.short_hash
clean_unstructured-masked_example =
    clean_unstructured-masked (λ t. "0123456789abcdef") (secret_of "aHVudGVyMg==")
      (secret_of "bGV0bWUxbg==") refl
      (refl, inl refl, (refl, inr (inl refl, (_, _, refl, refl, (refl, refl, tt))), tt))
