-- ===== src/Examples.antt =====
-- Tests, and the theorems at concrete inputs: `World` is a small cluster in memory,
-- `Store` one that keeps PrePullImages by key, and `Jobs` one that keeps jobs by their labels.
mod World
mod Limiter
mod Pulls
mod Fleets
mod Endings
mod Operators
mod Deploys
mod Jobs
mod Store
mod Storages
mod Memories
