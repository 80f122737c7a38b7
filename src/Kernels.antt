-- ===== src/Kernels.antt =====
-- kernels/sparse_decoder.cu and include/codedllm/kernels/tuning.cuh.
pub mod Xor
pub mod Tuning
pub mod Launch
pub mod Decode
pub mod Staging
pub mod Pair
