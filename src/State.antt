-- ===== src/State.antt =====
-- pkg/state: where the state of datacenters, environments, components and resources is kept.
-- State/Manager is the manager, over an interface of a backend that pkg/state/backend/backend.go
-- documents; State/Local is the backend for local files, over the operating system of State/Os.
pub mod Backend
pub mod Paths
pub mod Manager
pub mod Views
pub mod Apart
pub mod Under
pub mod Refine
pub mod Runs
pub mod Prefixes
pub mod Local
pub mod Os
