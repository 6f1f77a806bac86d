-- ===== src/Docker.antt =====
-- internal/executor/docker_executor.go: the pools of warm containers. The Docker daemon, the clock and
-- Go's select are the environment's choices.
pub mod Pool
pub mod Command
pub mod Exec
pub mod Accounting
pub mod Containers
pub mod Service
pub mod Readiness
