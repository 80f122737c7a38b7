-- ===== src/Kernels/Launch.antt =====
-- kernels/sparse_decoder.cu: `LaunchXorOperationCuda`. The shard table is the device's buffers by
-- shard, the source IDs are those from the operation's offset on.
pub mod Refines
use coded_llm.Base.{ℕ, List, Bool, true, false, ◌&&◌, leb, Result, ok, err, ◌>>=◌, ◌>>◌, length}
use coded_llm.Coding.Plan.{XorOperation}
use coded_llm.Coding.Codec.{WordShard, ShardSlots}
use coded_llm.Kernels.Xor.{
  Thread, Writes, run_threads, xor_reconstruct_kernel_dynamic, xor_reconstruct_kernel_optimized,
}
use coded_llm.Kernels.Tuning.{
  Cuda, Kernel, optimized, dynamic, DeviceTuningConfig, Tuning, get_cached_optimal_launch_config,
  calculate_grid_blocks,
}

-- The `switch` over the count of sources, with cases from 2 to 6 and a default.
unfoldable pub kernel_of : ℕ → Kernel
kernel_of source_count = elim (leb 2 source_count && leb source_count 6) [
  | true ↦ optimized source_count
  | false ↦ dynamic
]

-- What the kernel of a launch does in one thread.
unfoldable pub run_kernel : Kernel → ℕ → ℕ → ShardSlots → List ℕ → ℕ → ℕ → Thread → Result Writes
unfolding xor_reconstruct_kernel_dynamic xor_reconstruct_kernel_optimized
run_kernel (optimized degree) grid_dim block_dim shard_table source_ids source_count word_count =
    xor_reconstruct_kernel_optimized degree grid_dim block_dim shard_table source_ids word_count
run_kernel dynamic grid_dim block_dim shard_table source_ids source_count word_count =
    xor_reconstruct_kernel_dynamic grid_dim block_dim shard_table source_ids source_count word_count

-- The output buffer after the kernel, and the tuning after the call.
unfoldable pub launch_xor_operation_cuda :
    Cuda
    → XorOperation
    → ℕ
    → ShardSlots
    → List ℕ
    → WordShard
    → ℕ
    → Tuning
    → Result WordShard × Tuning
unfolding kernel_of run_kernel get_cached_optimal_launch_config calculate_grid_blocks run_threads
launch_xor_operation_cuda cuda operation word_count device_shard_table device_source_ids
      device_output device_id tuning =
    let source_count = length operation.sources in
    let kernel = kernel_of source_count in
    let (answer, after) = get_cached_optimal_launch_config cuda kernel device_id tuning in
    (
      answer >>= λ config.
          let grid_blocks = calculate_grid_blocks word_count 4 config in
          let block_dim = config.threads_per_block in
          run_threads (cuda.threads grid_blocks block_dim)
            (run_kernel kernel grid_blocks block_dim device_shard_table device_source_ids
              source_count word_count)
            device_output
          >>= λ written. cuda.get_last_error >> ok written,
      after,
    )
