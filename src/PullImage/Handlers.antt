-- ===== src/PullImage/Handlers.antt =====
-- prepullimage_controller.go: the reconciler and the handlers of the phases.
mod Status
mod Pending
mod Progress
mod Reconcile
unfoldable pub use Status.*
unfoldable pub use Pending.*
unfoldable pub use Progress.*
unfoldable pub use Reconcile.*
