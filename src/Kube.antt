-- ===== src/Kube.antt =====
-- What a tool's handler does to the world around it, as a tree: the calls of the Kubernetes API, the
-- additions to the audit record (internal/audit/audit.go), the clock and the random suffix. Client
-- libraries and the API server are not modelled: a handler is a function of every answer they give.
pub mod Dynamic
pub mod Objects
pub mod Rules
pub mod Fixtures
use go_kubernetes_mcp_server.Base.{
  ℕ, ℤ, String, Bool, true, false, Option, none, some, List, StringMap, if◌then◌else◌,
}
use go_kubernetes_mcp_server.Err.{Err, ApiError}
use go_kubernetes_mcp_server.Kube.Dynamic.{Json}
use go_kubernetes_mcp_server.Kube.Objects.{Kind, Item, ListOptions, LogOptions}

pub record Gvr : Type 0 where
  pub group : String
  pub version : String
  pub resource : String

-- The typed clients that the handlers use, and the dynamic one.
pub data Resource : Type 0 where
  pods nodes namespaces configmaps secrets services : Resource
  deployments stateful_sets daemon_sets replica_sets : Resource
  dynamic : Gvr → Resource

-- A resource in a namespace, or at cluster scope.
pub data Scope : Type 0 where
  namespaced : String → Scope
  cluster : Scope

pub data PatchType : Type 0 where
  strategic_merge merge json_patch : PatchType

pub data Propagation : Type 0 where
  background foreground orphan : Propagation

pub record OwnerReference : Type 0 where
  pub kind : String
  pub name : String
  pub controller : Option Bool

-- The parts of a pod that the handlers read. A volume is whether its `EmptyDir` is set.
pub record Pod : Type 0 where
  pub namespace : String
  pub name : String
  pub annotations : StringMap String
  pub owner_references : List OwnerReference
  pub volumes : List Bool

-- A pod template is opaque to the handlers.
pub record ReplicaSet : Type 0 where
  pub owner_references : List OwnerReference
  pub annotations : StringMap String
  pub template : ℕ

-- A dynamic object, as far as the handlers read it.
pub record Unstructured : Type 0 where
  pub labels : StringMap String
  pub annotations : StringMap String
  pub resource_version : String

pub record ApiResource : Type 0 where
  pub kind : String
  pub name : String
  pub namespaced : Bool
  pub verbs : List String

pub record ApiResourceList : Type 0 where
  pub group_version : String
  pub api_resources : List ApiResource

pub record Ephemeral : Type 0 where
  pub name : String
  pub image : String
  pub command : List String
  pub target_container : String

-- A secret, as it is read: its values are bytes.
pub record SecretObject : Type 0 where
  pub name : String
  pub namespace : String
  pub type_name : String
  pub entries : StringMap (List ℕ)

pub record ConfigMapObject : Type 0 where
  pub entries : StringMap String
  pub binary_entries : StringMap (List ℕ)

-- What a create, an update or a patch sends. A debug pod is its image, service account, node, command
-- and the seconds that it sleeps where the command is empty.
pub data Body : Type 0 where
  namespace_object : String → StringMap String → Body
  configmap : String → StringMap String → String → Body
  secret : String → String → StringMap String → Body
  service : String → String → StringMap String → ℤ → ℤ → Body
  debug_pod : String → String → String → List String → ℕ → Body
  unschedulable : Bool → Body
  restarted_at : String → Body
  template : ℕ → Body
  metadata : String → StringMap String → Body
  raw : List ℕ → Body

-- A document of a manifest, as `decodeManifests` returns it.
pub record Document : Type 0 where
  pub kind : String
  pub api_version : String
  pub name : String
  pub namespace : String

-- The values that `AttachArgs` is given.
pub data Value : Type 0 where
  text : String → Value
  words : List String → Value
  number : ℕ → Value

pub data Act : Type 0 where
  attach : String → String → String → Bool → Act
  attach_args : StringMap Value → Act
  now rand_suffix : Act
  server_groups_and_resources : Act
  list_pods : String → Act
  list_replica_sets : String → Act
  get_annotations : Resource → Scope → String → Act
  get_object : Resource → Scope → String → Act
  get_scale : Resource → Scope → String → Act
  get_secret_object : Scope → String → Act
  get_configmap_object : Scope → String → Act
  -- The reads of the tools that only read. A list of all namespaces is `namespaced ""`.
  list_objects : Kind → Scope → ListOptions → Act
  get_one : Kind → Scope → String → Act
  get_json : Gvr → Scope → String → Act
  server_version : Act
  stream_logs : Scope → String → LogOptions → Act
  lookup_ip : String → Act
  dial : String → ℤ → Act
  -- The writes: resource, scope, name, what is sent, and whether `DryRun` is "All".
  update_scale : Resource → Scope → String → ℤ → Bool → Act
  create : Resource → Scope → String → Body → Bool → Act
  update : Resource → Scope → String → Body → Bool → Act
  patch : Resource → Scope → String → PatchType → Body → Bool → Act
  apply : Resource → Scope → String → Document → String → Bool → Act
  delete : Resource → Scope → String → Option ℤ → Option Propagation → Bool → Act
  evict : Scope → String → Act
  -- internal/tools/debug
  exec : Scope → String → String → List String → Act
  add_ephemeral : Scope → String → Ephemeral → Act
  start_cleanup : Scope → String → ℕ → Act

pub data Answer {ℓ} (A : Type ℓ) : Type ℓ where
  ok : A → Answer A
  failed : ApiError → Answer A

-- What one `Read` of a stream gives: the bytes, and `io.EOF` or another error beside them.
pub data ReadError : Type 0 where
  eof : ReadError
  broken_read : ApiError → ReadError

pub record Chunk : Type 0 where
  pub read_bytes : List ℕ
  pub error : Option ReadError

-- What `remotecommand` gives: no executor, or the two streams and the error of the run.
pub data Executed : Type 0 where
  no_executor : ApiError → Executed
  streamed : List ℕ → List ℕ → Option ApiError → Executed

-- What each act answers. `ServerGroupsAndResources` returns its lists beside an error.
abbrev pub Reply : Act → Type 0
Reply now = String
Reply rand_suffix = String
Reply server_groups_and_resources = List ApiResourceList × Option ApiError
Reply (list_pods _) = Answer (List Pod)
Reply (list_replica_sets _) = Answer (List ReplicaSet)
Reply (get_annotations _ _ _) = Answer (StringMap String)
Reply (get_object _ _ _) = Answer Unstructured
Reply (get_scale _ _ _) = Answer ℤ
Reply (get_secret_object _ _) = Answer SecretObject
Reply (get_configmap_object _ _) = Answer ConfigMapObject
Reply (list_objects k _ _) = Answer (List (Item k))
Reply (get_one k _ _) = Answer (Item k)
Reply (get_json _ _ _) = Answer Json
Reply server_version = Answer (String × String)
Reply (stream_logs _ _ _) = Answer (List Chunk)
Reply (lookup_ip _) = Answer (List String)
Reply (attach _ _ _ _) = Unit {0}
Reply (attach_args _) = Unit {0}
Reply (start_cleanup _ _ _) = Unit {0}
Reply (patch _ _ _ _ _ _) = Answer Unstructured
Reply (exec _ _ _ _) = Executed
Reply _ = Answer (Unit {0})

-- A handler: its result, or an act and what it does with each answer.
pub data Prog {ℓ} (A : Type ℓ) : Type ℓ where
  ret : A → Prog A
  call : (a : Act) → (Reply a → Prog A) → Prog A

infixl 5 ◌>>=◌
abbrev pub ◌>>=◌ {ℓ κ} : {A : Type ℓ} {B : Type κ} → Prog A → (A → Prog B) → Prog B
ret x >>= k = k x
call a f >>= k = call a (λ r. f r >>= k)
