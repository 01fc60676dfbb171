-- ===== src/Configstore/Lists.antt =====
-- internal/tools/configstore/configstore.go: the lists of config maps, secrets, claims and storage
-- classes.
use go_kubernetes_mcp_server.Base.{
  ℕ, String, ◌==◌, false, not, Option, none, some, List, [], ◌∷◌, map, if◌then◌else◌, is_empty,
  join, sort_keys, show_nat, utf8,
}
use go_kubernetes_mcp_server.Security.{Policy}
use go_kubernetes_mcp_server.Kube.{Prog, ret, call, cluster, attach, list_objects}
use go_kubernetes_mcp_server.Kube.Objects.{
  configmap_kind, secret_kind, claim_kind, storage_class_kind, Stored, Claim, StorageClass,
}
use go_kubernetes_mcp_server.Tools.Handler.{Outcome, ◌>>=◌, ◌>>◌, answer}
use go_kubernetes_mcp_server.Tools.Util.{ListArgs, age_str}
use go_kubernetes_mcp_server.Tools.Listing.{list_tool, table_text, text_at}
use go_kubernetes_mcp_server.Core.Health.{no_options}

unfoldable pub list_configmaps : Policy → ListArgs → Prog Outcome
list_configmaps p a = list_tool configmap_kind p a "ConfigMap" "list configmaps" λ items.
    table_text ("NAMESPACE" ∷ "NAME" ∷ "DATA" ∷ "AGE" ∷ []) (
      map
        (λ (c : Stored).
          utf8 c.namespace ∷ utf8 c.name ∷ utf8 (show_nat c.keys) ∷ utf8 (age_str c.age) ∷ [])
        items)

unfoldable pub list_secrets : Policy → ListArgs → Prog Outcome
list_secrets p a = list_tool secret_kind p a "Secret" "list secrets" λ items.
    table_text ("NAMESPACE" ∷ "NAME" ∷ "TYPE" ∷ "DATA" ∷ "AGE" ∷ []) (
      map
        (λ (x : Stored).
          utf8 x.namespace
          ∷ utf8 x.name
          ∷ utf8 x.type_name
          ∷ utf8 (show_nat x.keys)
          ∷ utf8 (age_str x.age)
          ∷ [])
        items)

unfoldable pub access_mode : String → String
access_mode mode =
    if mode == "ReadWriteOnce"
    then "RWO"
    else if mode == "ReadOnlyMany"
    then "ROX"
    else if mode == "ReadWriteMany"
    then "RWX"
    else if mode == "ReadWriteOncePod"
    then "RWOP"
    else mode

unfoldable pub access_modes_str : List String → String
unfolding access_mode
access_modes_str modes =
    if is_empty modes then "<none>" else join "," (sort_keys (map access_mode modes))

-- The three assignments to `capStr`.
unfoldable pub claim_capacity : Claim → String
claim_capacity c =
    let asked : String = elim c.requested [ none ↦ "<pending>" | some quantity ↦ quantity.text ] in
    elim c.capacity [
      | none ↦ asked
      | some quantity ↦ if not quantity.is_zero then quantity.text else asked
    ]

abbrev claim_row : Claim → List (List ℕ)
claim_row c =
    utf8 c.namespace
    ∷ utf8 c.name
    ∷ utf8 c.phase
    ∷ utf8 (claim_capacity c)
    ∷ utf8 (access_modes_str c.access_modes)
    ∷ utf8 (elim c.storage_class [ none ↦ "<none>" | some name ↦ name ])
    ∷ utf8 c.volume
    ∷ utf8 (age_str c.age)
    ∷ []

unfoldable pub list_pvcs : Policy → ListArgs → Prog Outcome
list_pvcs p a = list_tool claim_kind p a "PersistentVolumeClaim" "list pvcs" λ items.
    table_text
      ("NAMESPACE" ∷ "NAME" ∷ "STATUS" ∷ "CAPACITY" ∷ "ACCESS MODES" ∷ "STORAGECLASS" ∷ "VOLUME"
        ∷ "AGE" ∷ [])
      (map claim_row items)

abbrev or_text : String → Option String → String
or_text other none = other
or_text other (some t) = t

abbrev storage_class_row : StorageClass → List (List ℕ)
storage_class_row sc =
    utf8 sc.name
    ∷ utf8 sc.provisioner
    ∷ utf8 (or_text "Delete" sc.reclaim_policy)
    ∷ utf8 (or_text "WaitForFirstConsumer" sc.binding_mode)
    ∷ utf8 (
        if text_at "storageclass.kubernetes.io/is-default-class" sc.annotations == "true"
        then "yes"
        else "no")
    ∷ utf8 (age_str sc.age)
    ∷ []

unfoldable pub list_storage_classes : Prog Outcome
list_storage_classes = do
  call (attach "StorageClass" "" "" false)
  items ← answer "list storageclasses" (call (list_objects storage_class_kind cluster no_options))
  ret (
      table_text
        ("NAME" ∷ "PROVISIONER" ∷ "RECLAIMPOLICY" ∷ "VOLUMEBINDINGMODE" ∷ "DEFAULT" ∷ "AGE" ∷ [])
        (map storage_class_row items))
