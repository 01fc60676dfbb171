-- ===== src/Kube/Objects/Services.antt =====
-- Services, what stands behind them, storage and metrics, as far as the tools read them.
use go_kubernetes_mcp_server.Base.{ℕ, ℤ, String, Option, List, StringMap}
use go_kubernetes_mcp_server.Kube.Objects.Nodes.{Quantity}

pub record ServicePort : Type 0 where
  pub port : ℤ
  pub node_port : ℤ
  pub protocol : String

-- An ingress of a load balancer is its address and its host name.
pub record Service : Type 0 where
  pub namespace : String
  pub name : String
  pub type_name : String
  pub cluster_ips : List String
  pub load_balancer : List (String × String)
  pub external_ips : List String
  pub ports : List ServicePort
  pub selector : StringMap String
  pub age : Option ℕ

pub record Subset : Type 0 where
  pub addresses : List String
  pub not_ready_addresses : List String
  pub ports : List (ℤ × String)

pub record Endpoints : Type 0 where
  pub namespace : String
  pub name : String
  pub subsets : List Subset

pub record Ingress : Type 0 where
  pub namespace : String
  pub name : String
  pub class_name : Option String
  pub hosts : List String
  pub load_balancer : List (String × String)
  pub age : Option ℕ

-- Of expressions and rules only the number is read.
pub record NetworkPolicy : Type 0 where
  pub namespace : String
  pub name : String
  pub match_labels : StringMap String
  pub match_expressions : ℕ
  pub ingress : ℕ
  pub egress : ℕ
  pub age : Option ℕ

-- A config map or a secret in a list: the number of its keys.
pub record Stored : Type 0 where
  pub namespace : String
  pub name : String
  pub type_name : String
  pub keys : ℕ
  pub age : Option ℕ

-- `requested` and `capacity` are the answers of `Storage()`.
pub record Claim : Type 0 where
  pub namespace : String
  pub name : String
  pub phase : String
  pub requested : Option Quantity
  pub capacity : Option Quantity
  pub access_modes : List String
  pub storage_class : Option String
  pub volume : String
  pub age : Option ℕ

pub record StorageClass : Type 0 where
  pub name : String
  pub provisioner : String
  pub annotations : StringMap String
  pub reclaim_policy : Option String
  pub binding_mode : Option String
  pub age : Option ℕ

pub record NodeMetrics : Type 0 where
  pub name : String
  pub cpu : Quantity
  pub memory : Quantity

pub record PodMetrics : Type 0 where
  pub namespace : String
  pub name : String
  pub containers : List (Quantity × Quantity)
