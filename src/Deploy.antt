-- ===== src/Deploy.antt =====
-- internal/controller/deployment_controller.go: the controller that watches deployments and creates
-- PrePullImages. `Images` and `Match` are its pure parts, `Handlers` the reconciler; the other
-- modules prove.
pub mod Images
pub mod Match
pub mod Handlers
pub mod Current
pub mod Recorded
pub mod Changes
pub mod Names
pub mod Create
pub mod Idle
pub mod Storage
pub mod Complete
pub mod Limiter
pub mod Rounds
pub mod Finished
pub mod Handover
pub mod Fleet
