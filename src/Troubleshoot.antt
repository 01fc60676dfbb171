-- ===== src/Troubleshoot.antt =====
-- internal/tools/troubleshoot: the tools that read logs, metrics, objects and rollouts, and the
-- classification of what is wrong with a pod or a node.
pub mod Findings
pub mod Rollout
pub mod History
pub mod Logs
pub mod Top
pub mod Describe
pub mod Diagnose
pub mod Reads
pub mod Pods
pub mod Nodes
mod Adds
mod ReadTests
mod Tests
