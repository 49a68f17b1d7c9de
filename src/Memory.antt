-- ===== src/Memory.antt =====
-- The custom resources of api/v1alpha1 in memory, and their copies in zz_generated.deepcopy.go.
pub mod Copier
pub mod Types
pub mod Layout
pub mod DeepCopy
pub mod Parts
pub mod Copied
pub mod Apart
