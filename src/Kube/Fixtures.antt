-- ===== src/Kube/Fixtures.antt =====
-- A server for runs on concrete inputs: every call succeeds, and every list is the one given.
use go_kubernetes_mcp_server.Base.{String, ℕ, pos, false, none, some, List, []}
use go_kubernetes_mcp_server.Err.{status}
use go_kubernetes_mcp_server.Kube.Dynamic.{Json}
use go_kubernetes_mcp_server.Kube.Objects.{PodObject, NodeObject}
use go_kubernetes_mcp_server.Kube.{
  Act, attach, attach_args, now, rand_suffix, server_groups_and_resources, list_pods,
  list_replica_sets, get_annotations, get_object, get_scale, get_secret_object,
  get_configmap_object, list_objects, get_one, get_json, server_version, stream_logs, lookup_ip,
  dial, failed, SecretObject, update_scale, create, update, patch, apply, delete, evict, exec,
  add_ephemeral, start_cleanup, Reply, ok, streamed, Unstructured, Pod,
}

abbrev empty_object : Unstructured
empty_object = record { labels = []; annotations = []; resource_version = "7" }

abbrev some_secret : String → SecretObject
some_secret name = record { name = name; namespace = "shop"; type_name = "Opaque"; entries = [] }

abbrev pub some_pod : PodObject
some_pod = record {
  namespace = "shop";
  name = "web-0";
  phase = "Running";
  deleting = false;
  conditions = [];
  container_statuses = [];
  node_name = "node-1";
  pod_ip = "10.1.0.7";
  host_ip = "";
  labels = [];
  service_account_name = "";
  containers = [];
  claims = [];
  age = some 90000000000;
}

abbrev pub some_node : NodeObject
some_node = record {
  name = "node-1";
  conditions = [];
  labels = [];
  kubelet_version = "v1.31.0";
  addresses = [];
  operating_system = "linux";
  os_image = "Debian";
  kernel_version = "6.1";
  container_runtime_version = "containerd://1.7";
  taints = [];
  capacity = [];
  allocatable = [];
  age = none;
}

abbrev pub answers : List Pod → (a : Act) → Reply a
answers ps (attach _ _ _ _) = tt
answers ps (attach_args _) = tt
answers ps now = "2025-01-01T00:00:00Z"
answers ps rand_suffix = "x7k2p"
answers ps server_groups_and_resources = ([], none)
answers ps (list_pods _) = ok ps
answers ps (list_replica_sets _) = ok []
answers ps (get_annotations _ _ _) = ok []
answers ps (get_object _ _ _) = ok empty_object
answers ps (get_scale _ _ _) = ok (pos 1)
answers ps (get_secret_object _ name) = ok (some_secret name)
answers ps (get_configmap_object _ _) = ok (record { entries = []; binary_entries = [] })
answers ps (list_objects _ _ _) = ok []
answers ps (get_one _ _ _) = failed (status "NotFound" "not found")
answers ps (get_json _ _ _) = ok Json.null
answers ps server_version = ok ("v1.31.0", "linux/amd64")
answers ps (stream_logs _ _ _) = ok []
answers ps (lookup_ip _) = ok []
answers ps (dial _ _) = ok tt
answers ps (update_scale _ _ _ _ _) = ok tt
answers ps (create _ _ _ _ _) = ok tt
answers ps (update _ _ _ _ _) = ok tt
answers ps (patch _ _ _ _ _ _) = ok empty_object
answers ps (apply _ _ _ _ _ _) = ok tt
answers ps (delete _ _ _ _ _ _) = ok tt
answers ps (evict _ _) = ok tt
answers ps (exec _ _ _ _) = streamed [] [] none
answers ps (add_ephemeral _ _ _) = ok tt
answers ps (start_cleanup _ _ _) = tt

abbrev pub serve_pods : List Pod → ℕ → (a : Act) → ℕ × Reply a
serve_pods ps st a = (st, answers ps a)
