-- ===== src/Operations/Calls.antt =====
-- The tools that write as one type of calls, by the names under which they are registered.
use go_kubernetes_mcp_server.Base.{ℕ, ℤ, String, Bool, true, false, Option, List, All}
use go_kubernetes_mcp_server.Security.{Policy}
use go_kubernetes_mcp_server.Kube.{Prog, Act, Reply}
use go_kubernetes_mcp_server.Kube.Rules.{Acts, unattached, run}
use go_kubernetes_mcp_server.Kube.Rules.Sound.{Acts-run}
use go_kubernetes_mcp_server.Tools.Handler.{Outcome}
use go_kubernetes_mcp_server.Operations.Scale.{ScaleArgs, scale, RolloutMutArgs, rollout_restart}
use go_kubernetes_mcp_server.Operations.Undo.{rollout_undo}
use go_kubernetes_mcp_server.Operations.Meta.{MetaPatchArgs, label, annotate}
use go_kubernetes_mcp_server.Operations.Resources.{
  CreateNamespaceArgs, create_namespace, ConfigMapArgs, create_configmap, update_configmap,
  SecretArgs, create_secret, CreateServiceArgs, create_service,
}
use go_kubernetes_mcp_server.Operations.Manifest.{
  ApplyArgs, Decoded, apply_manifest, PatchArgs, patch_tool, or_else,
}
use go_kubernetes_mcp_server.Operations.Delete.{DeleteArgs, delete_manifest}
use go_kubernetes_mcp_server.Operations.Safety.{Permitted}
use go_kubernetes_mcp_server.Operations.Safety.Writes.{
  scale-Acts, rollout_restart-Acts, rollout_undo-Acts,
}
use go_kubernetes_mcp_server.Operations.Safety.Creates.{
  create_namespace-Acts, create_configmap-Acts, update_configmap-Acts, create_secret-Acts,
  create_service-Acts, meta_patcher-Acts, patch_tool-Acts, delete_manifest-Acts,
}
use go_kubernetes_mcp_server.Operations.Safety.Apply.{apply_manifest-Acts}
use go_kubernetes_mcp_server.Debug.Exec.{ExecArgs, exec_command}
use go_kubernetes_mcp_server.Debug.Pods.{
  EphemeralArgs, add_ephemeral_container, RunDebugPodArgs, run_debug_pod,
}
use go_kubernetes_mcp_server.Debug.Safety.{
  exec_command-Acts, add_ephemeral_container-Acts, run_debug_pod-Acts,
}

pub data Call : Type 0 where
  apply_manifest_call : ApplyArgs → Call
  patch_call : PatchArgs → Call
  scale_call : ScaleArgs → Call
  rollout_restart_call rollout_undo_call : RolloutMutArgs → Call
  label_call annotate_call : MetaPatchArgs → Call
  create_namespace_call : CreateNamespaceArgs → Call
  create_configmap_call update_configmap_call : ConfigMapArgs → Call
  create_secret_call : SecretArgs → Call
  create_service_call : CreateServiceArgs → Call
  delete_manifest_call : DeleteArgs → Call
  exec_command_call : ExecArgs → Call
  add_ephemeral_container_call : EphemeralArgs → Call
  run_debug_pod_call : RunDebugPodArgs → Call

-- The flag of the policy that a call stands under.
abbrev pub flag_of : Policy → Call → Bool
flag_of p (delete_manifest_call a) = p.allow_destructive
flag_of p (exec_command_call a) = p.allow_debug
flag_of p (add_ephemeral_container_call a) = p.allow_debug
flag_of p (run_debug_pod_call a) = p.allow_debug
flag_of p _ = p.allow_writes

-- Whether a call asks for a dry run. apply_manifest does unless it is told not to.
abbrev pub asks_dry_run : Call → Bool
asks_dry_run (apply_manifest_call a) = or_else true a.dry_run
asks_dry_run (patch_call a) = a.dry_run
asks_dry_run (scale_call a) = a.dry_run
asks_dry_run (create_namespace_call a) = a.dry_run
asks_dry_run (create_configmap_call a) = a.dry_run
asks_dry_run (update_configmap_call a) = a.dry_run
asks_dry_run (create_secret_call a) = a.dry_run
asks_dry_run (create_service_call a) = a.dry_run
asks_dry_run (delete_manifest_call a) = a.dry_run
asks_dry_run _ = false

module _ (decode : List ℕ → Decoded) (max_manifest : ℕ) (parse_dur : String → Option ℤ) where
  pub handle : Policy → Call → Prog Outcome
  unfolding label annotate
  handle p (apply_manifest_call a) = apply_manifest decode max_manifest p a
  handle p (patch_call a) = patch_tool p a
  handle p (scale_call a) = scale p a
  handle p (rollout_restart_call a) = rollout_restart p a
  handle p (rollout_undo_call a) = rollout_undo p a
  handle p (label_call a) = label p a
  handle p (annotate_call a) = annotate p a
  handle p (create_namespace_call a) = create_namespace p a
  handle p (create_configmap_call a) = create_configmap p a
  handle p (update_configmap_call a) = update_configmap p a
  handle p (create_secret_call a) = create_secret p a
  handle p (create_service_call a) = create_service p a
  handle p (delete_manifest_call a) = delete_manifest p a
  handle p (exec_command_call a) = exec_command p a
  handle p (add_ephemeral_container_call a) = add_ephemeral_container p a
  handle p (run_debug_pod_call a) = run_debug_pod parse_dur p a

  handle-Acts :
      (p : Policy) (c : Call)
      → Acts (Permitted p (flag_of p c) (asks_dry_run c)) unattached (handle p c)
  unfolding handle
  handle-Acts p (apply_manifest_call a) = apply_manifest-Acts decode max_manifest p a
  handle-Acts p (patch_call a) = patch_tool-Acts p a
  handle-Acts p (scale_call a) = scale-Acts p a
  handle-Acts p (rollout_restart_call a) = rollout_restart-Acts p a
  handle-Acts p (rollout_undo_call a) = rollout_undo-Acts p a
  handle-Acts p (label_call a) = meta_patcher-Acts "label" "labels" p a
  handle-Acts p (annotate_call a) = meta_patcher-Acts "annotate" "annotations" p a
  handle-Acts p (create_namespace_call a) = create_namespace-Acts p a
  handle-Acts p (create_configmap_call a) = create_configmap-Acts p a
  handle-Acts p (update_configmap_call a) = update_configmap-Acts p a
  handle-Acts p (create_secret_call a) = create_secret-Acts p a
  handle-Acts p (create_service_call a) = create_service-Acts p a
  handle-Acts p (delete_manifest_call a) = delete_manifest-Acts p a
  handle-Acts p (exec_command_call a) = exec_command-Acts p a
  handle-Acts p (add_ephemeral_container_call a) = add_ephemeral_container-Acts p a
  handle-Acts p (run_debug_pod_call a) = run_debug_pod-Acts parse_dur p a

  -- Whatever the server answers, each write of a run of one of these tools stands under the flag of
  -- the policy for that tool, goes to a namespace that is allowed (on the allowlist, and of the control
  -- plane only with privileged targets) or to the cluster with privileged targets, is named by the
  -- audit record as it stands then, and is a dry run exactly if one was asked for.
  pub handle-Permitted :
      {S : Type 0} (serve : S → (a : Act) → S × Reply a) (st : S) (p : Policy) (c : Call)
      → All
          (λ t. Permitted p (flag_of p c) (asks_dry_run c) t.0 t.1)
          (run serve st unattached (handle p c)).1
  handle-Permitted serve st p c = Acts-run _ serve st (handle-Acts p c)
