-- ===== src/Memory/Copied.antt =====
-- What the functions of zz_generated.deepcopy.go copy.
pub mod Image
pub mod Policy
