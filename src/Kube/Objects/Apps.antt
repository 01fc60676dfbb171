-- ===== src/Kube/Objects/Apps.antt =====
-- The workloads of the groups apps and batch, as far as the tools read them.
use go_kubernetes_mcp_server.Base.{ℕ, ℤ, String, Bool, Option, List, StringMap}
use go_kubernetes_mcp_server.Kube.Objects.Nodes.{Condition, Container}

pub record Deployment : Type 0 where
  pub namespace : String
  pub name : String
  pub generation : ℤ
  pub replicas : Option ℤ
  pub strategy : String
  pub containers : List Container
  pub observed_generation : ℤ
  pub updated_replicas : ℤ
  pub total_replicas : ℤ
  pub ready_replicas : ℤ
  pub available_replicas : ℤ
  pub unavailable_replicas : ℤ
  pub conditions : List Condition
  pub age : Option ℕ

pub record StatefulSet : Type 0 where
  pub namespace : String
  pub name : String
  pub replicas : Option ℤ
  pub update_strategy : String
  pub ready_replicas : ℤ
  pub updated_replicas : ℤ
  pub update_revision : String
  pub current_revision : String
  pub age : Option ℕ

pub record DaemonSet : Type 0 where
  pub namespace : String
  pub name : String
  pub desired : ℤ
  pub current : ℤ
  pub ready : ℤ
  pub updated : ℤ
  pub age : Option ℕ

-- An owner is its kind, its name and its `controller`; `images` are those of the template.
pub record ReplicaSetObject : Type 0 where
  pub namespace : String
  pub name : String
  pub replicas : Option ℤ
  pub total_replicas : ℤ
  pub ready_replicas : ℤ
  pub owners : List (String × String × Option Bool)
  pub annotations : StringMap String
  pub images : List String
  pub age : Option ℕ

-- `ran` is the time from the start to the completion, or to now; absent before the start.
pub record Job : Type 0 where
  pub namespace : String
  pub name : String
  pub failed : ℤ
  pub succeeded : ℤ
  pub active : ℤ
  pub completions : Option ℤ
  pub parallelism : Option ℤ
  pub suspend : Option Bool
  pub ran : Option ℕ
  pub age : Option ℕ

pub record CronJob : Type 0 where
  pub namespace : String
  pub name : String
  pub schedule : String
  pub suspend : Option Bool
  pub active : ℕ
  pub last_schedule : Option ℕ
  pub age : Option ℕ
