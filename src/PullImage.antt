-- ===== src/PullImage.antt =====
-- internal/controller/prepullimage_controller.go: the controller that pulls an image onto nodes.
-- `Node` is the loop over the nodes, `Handlers` the rest of the reconciler; the other modules prove.
pub mod Census
pub mod Node
pub mod Handlers
pub mod Summary
pub mod Keeps
pub mod Slots
pub mod Steps
pub mod Passes
pub mod Fleet
pub mod Restarts
pub mod Measure
pub mod Effort
pub mod Reconciles
pub mod Stored
pub mod Others
pub mod Fair
pub mod Alone
pub mod Termination
pub mod Phases
pub mod Lifecycle
pub mod Reports
pub mod Targets
