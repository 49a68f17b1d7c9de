-- ===== src/PullImage/Fair.antt =====
-- Several PrePullImages in the API server that share the rate limiter, reconciled in turn.
pub mod Stage
pub mod Turn
pub mod Apart
pub mod Round
pub mod Rounds
