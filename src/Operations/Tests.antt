-- ===== src/Operations/Tests.antt =====
-- Runs of the tools on concrete inputs.
use go_kubernetes_mcp_server.Base.{
  ℕ, ℤ, pos, String, true, false, Option, none, some, List, [], ◌∷◌, All,
}
use go_kubernetes_mcp_server.Config.{defaults}
use go_kubernetes_mcp_server.Security.{Policy, from_config}
use go_kubernetes_mcp_server.Kube.{Pod, ret}
use go_kubernetes_mcp_server.Kube.Rules.{Acts, unattached, run, effect}
use go_kubernetes_mcp_server.Kube.Fixtures.{serve_pods}
use go_kubernetes_mcp_server.Operations.Scale.{ScaleArgs}
use go_kubernetes_mcp_server.Operations.Manifest.{Decoded, undecodable}
use go_kubernetes_mcp_server.Operations.Delete.{DeletePodArgs, delete_pod}
use go_kubernetes_mcp_server.Operations.Nodes.{
  DrainArgs, Drained, drain_node, drain_pods, drain_report,
}
use go_kubernetes_mcp_server.Operations.Nodes.Evictions.{Deals, owed, drain_pods-Deals}
use go_kubernetes_mcp_server.Operations.Safety.{Permitted}
use go_kubernetes_mcp_server.Operations.Safety.Nodes.{
  OnNode, OnDelete, delete_pod-Acts, drain_node-Acts,
}
use go_kubernetes_mcp_server.Operations.Calls.{
  scale_call, flag_of, asks_dry_run, handle, handle-Permitted,
}

abbrev policy : Policy
policy = from_config (record defaults { allow_destructive = true })

abbrev scale_web : ScaleArgs
scale_web = record {
  kind = "Deployment";
  namespace = "shop";
  name = "web";
  replicas = pos 3;
  dry_run = false;
}

abbrev no_decoder : List ℕ → Decoded
no_decoder text = undecodable "none"

abbrev no_duration : String → Option ℤ
no_duration text = none

handle-Permitted_example :
    All
      (λ t.
        Permitted policy
          (flag_of policy (scale_call scale_web))
          (asks_dry_run (scale_call scale_web))
          t.0
          t.1)
      (run
        (serve_pods [])
        0
        unattached
        (handle no_decoder 65536 no_duration policy (scale_call scale_web))).1
handle-Permitted_example =
    handle-Permitted no_decoder 65536 no_duration (serve_pods []) 0 policy (scale_call scale_web)

abbrev web_pod : Pod
web_pod = record {
  namespace = "shop";
  name = "web-1";
  annotations = [];
  volumes = [];
  owner_references = record { kind = "ReplicaSet"; name = "web"; controller = some true } ∷ [];
}

abbrev bare_pod : Pod
bare_pod = record {
  namespace = "shop";
  name = "bare";
  annotations = [];
  volumes = [];
  owner_references = [];
}

abbrev drain_args : DrainArgs
drain_args = record {
  name = "node-1";
  delete_empty_dir_data = false;
  ignore_daemon_sets = true;
  force = false;
}

abbrev privileged : Policy
privileged =
    from_config (record defaults { allow_destructive = true; allow_privileged_targets = true })

drain_node-Acts_example :
    Acts
      (λ r x. OnNode privileged true "node-1" (effect x))
      unattached
      (drain_node privileged drain_args)
unfolding from_config
drain_node-Acts_example = drain_node-Acts privileged drain_args

abbrev nothing_drained : Drained
nothing_drained = record { evicted = 0; skipped = 0; failures = 0; lines = [] }

drain_pods-Deals_example :
    Deals (owed unattached drain_args (web_pod ∷ bare_pod ∷ [])) nothing_drained 2 (
      run (serve_pods []) 0 unattached (
        drain_pods drain_args
          (web_pod ∷ bare_pod ∷ [])
          nothing_drained
          (λ t. ret (drain_report t))))
drain_pods-Deals_example =
    drain_pods-Deals (serve_pods []) unattached drain_args (web_pod ∷ bare_pod ∷ []) nothing_drained
      0

abbrev delete_dns : DeletePodArgs
delete_dns = record {
  namespace = "kube-system";
  name = "coredns";
  grace_period = none;
  dry_run = false;
}

delete_pod-Acts_example :
    Acts (λ r x. OnDelete policy false r (effect x)) unattached (delete_pod policy delete_dns)
delete_pod-Acts_example = delete_pod-Acts policy delete_dns
