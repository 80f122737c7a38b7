-- ===== src/Kernels/Launch/Refines.antt =====
-- A launch against the loop of the codec.
use coded_llm.Base.{
  ℕ, ◌≤◌, ◌<◌, ◌≡◌, refl, ◌⊎◌, ◌&&◌, inl, inr, List, length, take, replicate, leb, Bool-cases, ok,
  arith, ap, ◌∙◌,
}
use coded_llm.Coding.Plan.{XorOperation}
use coded_llm.Coding.Codec.{WordShard, ShardSlots, decode_sources}
use coded_llm.Kernels.Xor.{run_threads}
use coded_llm.Kernels.Xor.Grid.{IsComplete, xor_reconstruct-decode_sources}
use coded_llm.Kernels.Tuning.{
  Cuda, Kernel, optimized, dynamic, DeviceTuningConfig, Tuning, calculate_grid_blocks,
  get_cached_optimal_launch_config,
}
use coded_llm.Kernels.Tuning.Bounds.{calculate_grid_blocks-bounds, tune-IsConfig}
use coded_llm.Kernels.Tuning.Cache.{IsCache, get_cached_optimal_launch_config-IsAnswered}
use coded_llm.Kernels.Launch.{kernel_of, run_kernel, launch_xor_operation_cuda}

kernel_of_cases : (count : ℕ) → (kernel_of count ≡ optimized count) ⊎ (kernel_of count ≡ dynamic)
unfolding kernel_of
kernel_of_cases count = elim (Bool-cases (leb 2 count && leb count 6)) [
  | inl e ↦ inl (rw (kernel_of, e) refl)
  | inr e ↦ inr (rw (kernel_of, e) refl)
]

-- What CUDA documents: a grid runs all of its threads, and the block size that it recommends is a
-- multiple of the warp, of 32 threads.
pub record IsCuda (cuda : Cuda) : Type 0 where
  pub complete :
      (grid_dim block_dim : ℕ) → IsComplete grid_dim block_dim (cuda.threads grid_dim block_dim)
  pub warp :
      (device_id : ℕ) (kernel : Kernel) (min_grid_size block_size : ℕ)
      → cuda.occupancy_max_potential_block_size device_id kernel ≡ ok (min_grid_size, block_size)
      → 32 ≤ block_size

run_kernel-decode_sources :
    (count grid_dim block_dim : ℕ) (table : ShardSlots) (source_ids : List ℕ) (n : ℕ)
    (order : List (ℕ × ℕ)) (output result : WordShard)
    → 0 < grid_dim
    → 3 ≤ block_dim
    → IsComplete grid_dim block_dim order
    → length output ≡ n
    → decode_sources table n (replicate n 0) (take count source_ids) ≡ ok result
    → run_threads order
        (run_kernel (kernel_of count) grid_dim block_dim table source_ids count n)
        output
      ≡ ok result
unfolding run_kernel
run_kernel-decode_sources count grid_dim block_dim table source_ids n order output result some_block
      warp complete l decoded =
    let (by_dynamic, by_optimized) =
      xor_reconstruct-decode_sources grid_dim block_dim table source_ids count n order output result
        some_block warp complete l decoded in
    elim (kernel_of_cases count) [ inl e ↦ rw e by_optimized | inr e ↦ rw e by_dynamic ]

-- If the device runs every thread of a grid and recommends at least one warp for a block, the cache
-- holds answers of the CUDA runtime, the operation's sources are the first of the source IDs, the
-- loop of `execute_decode_plan_cpu` over them gives a result, and the output buffer has its size,
-- then a launch whose configuration and error check succeed leaves that result in the output buffer,
-- whatever the degree, the grid and the order of the threads.
pub launch_xor_operation_cuda-decode_sources :
    (cuda : Cuda) (operation : XorOperation) (n : ℕ) (table : ShardSlots) (source_ids : List ℕ)
    (output result : WordShard) (device_id : ℕ) (tuning after : Tuning)
    (config : DeviceTuningConfig)
    → IsCuda cuda
    → IsCache cuda tuning.cache
    → length output ≡ n
    → take (length operation.sources) source_ids ≡ operation.sources
    → decode_sources table n (replicate n 0) operation.sources ≡ ok result
    → get_cached_optimal_launch_config cuda (kernel_of (length operation.sources)) device_id tuning
      ≡ (ok config, after)
    → cuda.get_last_error ≡ ok tt
    → launch_xor_operation_cuda cuda operation n table source_ids output device_id tuning
      ≡ (ok result, after)
unfolding launch_xor_operation_cuda
launch_xor_operation_cuda-decode_sources cuda operation n table source_ids output result device_id
      tuning after config device cache l ids decoded answered no_error =
    let a =
      get_cached_optimal_launch_config-IsAnswered cuda (kernel_of (length operation.sources))
        device_id tuning after config cache answered in
    let c = tune-IsConfig cuda _ device_id config a.tuned in
    let warp = device.warp device_id _ c.min_grid_size config.threads_per_block c.potential in
    let (some_block, at_most, enough, full) =
      calculate_grid_blocks-bounds n 4 config (omega arith) (omega arith) in
    let run =
      run_kernel-decode_sources (length operation.sources) (calculate_grid_blocks n 4 config)
        config.threads_per_block table source_ids n
        (cuda.threads (calculate_grid_blocks n 4 config) config.threads_per_block) output result
        (omega arith) (omega arith)
        (device.complete (calculate_grid_blocks n 4 config) config.threads_per_block) l
        (ap (decode_sources table n (replicate n 0)) ids ∙ decoded) in
    rw (answered, run, no_error) refl
