-- ===== src/Kube/Objects/Nodes.antt =====
-- Pods, nodes, namespaces and events, as far as the tools read them.
use go_kubernetes_mcp_server.Base.{ℕ, ℤ, String, Bool, Option, List, StringMap}

pub record Quantity : Type 0 where
  -- `String()`, `AsInt64()`, which may fail, and `IsZero()`
  pub text : String
  pub value : ℤ
  pub is_int64 : Bool
  pub is_zero : Bool

-- A condition of a pod, of a node or of a deployment.
pub record Condition : Type 0 where
  pub type_name : String
  pub status : String
  pub reason : String
  pub message : String

pub record Waiting : Type 0 where
  pub reason : String
  pub message : String

pub record Terminated : Type 0 where
  pub reason : String
  pub exit_code : ℤ
  pub message : String

-- `restart_count` is an int32, as a word of 32 bits.
pub record ContainerStatus : Type 0 where
  pub name : String
  pub running : Option String
  pub waiting : Option Waiting
  pub terminated : Option Terminated
  pub ready : Bool
  pub restart_count : ℕ

pub record Taint : Type 0 where
  pub key : String
  pub value : String
  pub effect : String

pub record Event : Type 0 where
  pub reason : String
  pub message : String
  pub type_name : String
  pub object_kind : String
  pub object_name : String
  pub last_seen : Option ℕ
  pub age : Option ℕ

pub record Container : Type 0 where
  pub name : String
  pub image : String
  pub ports : List (ℤ × String)
  pub requests : StringMap Quantity

pub record PodObject : Type 0 where
  pub namespace : String
  pub name : String
  pub phase : String
  pub deleting : Bool
  pub conditions : List Condition
  pub container_statuses : List ContainerStatus
  pub node_name : String
  pub pod_ip : String
  pub host_ip : String
  pub labels : StringMap String
  pub service_account_name : String
  pub containers : List Container
  pub claims : List (Option String)
  pub age : Option ℕ

pub record NodeObject : Type 0 where
  pub name : String
  pub conditions : List Condition
  pub labels : StringMap String
  pub kubelet_version : String
  pub addresses : List (String × String)
  pub operating_system : String
  pub os_image : String
  pub kernel_version : String
  pub container_runtime_version : String
  pub taints : List Taint
  pub capacity : StringMap Quantity
  pub allocatable : StringMap Quantity
  pub age : Option ℕ

pub record Namespace : Type 0 where
  pub name : String
  pub phase : String
  pub labels : StringMap String
  pub annotations : StringMap String
  pub age : Option ℕ
