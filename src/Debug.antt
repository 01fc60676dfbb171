-- ===== src/Debug.antt =====
-- internal/tools/debug: exec_command, the debug containers and pods, and the port forwards.
pub mod Exec
pub mod Pods
pub mod Forward
pub mod Safety
mod Tests
