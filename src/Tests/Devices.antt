-- ===== src/Tests/Devices.antt =====
-- A device, and runs of the kernels on it.
use coded_llm.Base.{
  ℕ, zero, suc, ◌+◌, ◌-◌, ◌*◌, ◌≤◌, ◌<◌, max, ◌⊎◌, ◌≡◌, refl, List, [], ◌∷◌, ◌++◌, some, none,
  get_elem?, ◌==◌, Bool-cases, inl, inr, ok, arith,
}
use coded_llm.Coding.Plan.{XorOperation}
use coded_llm.Coding.Codec.{WordShard, ShardSlots, decode_sources, slot}
use coded_llm.Base.Words.{xor_words}
use coded_llm.Kernels.Xor.{
  Thread, run_threads, xor_reconstruct_kernel_dynamic, xor_reconstruct_kernel_optimized,
}
use coded_llm.Kernels.Xor.Grid.{IsComplete, xor_reconstruct-decode_sources}
use coded_llm.Kernels.Tuning.{
  Cuda, optimized, dynamic, DeviceTuningConfig, Tuning, tune, calculate_grid_blocks,
  get_cached_optimal_launch_config, get_optimal_launch_config,
}
use coded_llm.Kernels.Tuning.Bounds.{
  IsConfig, calculate_grid_blocks-bounds, get_optimal_launch_config-IsConfig,
}
use coded_llm.Kernels.Tuning.Cache.{IsAnswered, get_cached_optimal_launch_config-IsAnswered}
use coded_llm.Kernels.Pair.{dummy_reconstruct_kernel, run_sparse_decode_cpu}
use coded_llm.Kernels.Pair.Agrees.{dummy_reconstruct_kernel-run_sparse_decode_cpu}
use coded_llm.Kernels.Launch.{kernel_of, launch_xor_operation_cuda}
use coded_llm.Kernels.Launch.Refines.{IsCuda, launch_xor_operation_cuda-decode_sources}

-- The threads of a block and of a grid, the last one first.
abbrev pub row : ℕ → ℕ → List Thread
row block zero = []
row block (suc thread) = (block, thread) ∷ row block thread

abbrev pub grid : ℕ → ℕ → List Thread
grid zero block_dim = []
grid (suc block) block_dim = row block block_dim ++ grid block block_dim

row_lem :
    (block block_dim thread : ℕ) (rest : List Thread)
    → thread < block_dim
    → (p : ℕ) × (get_elem? (row block block_dim ++ rest) p ≡ some (block, thread))
row_lem block zero thread rest lt = absurd (omega arith)
row_lem block (suc n) thread rest lt = elim (Bool-cases (thread == n)) [
  | inl e ↦ (0, (let same : thread ≡ n = ground arith in rw same refl))
  | inr e ↦ let (p, h) = row_lem block n thread rest (ground arith) in (suc p, h)
]

shifted :
    (block n p : ℕ) (rest : List Thread) (thread : Thread)
    → get_elem? rest p ≡ some thread
    → get_elem? (row block n ++ rest) (n + p) ≡ some thread
shifted block zero p rest thread h = let same : 0 + p ≡ p = omega arith in rw same h
shifted block (suc n) p rest thread h =
    let next : suc n + p ≡ suc (n + p) = omega arith in rw next (shifted block n p rest thread h)

grid-IsComplete : (grid_dim block_dim : ℕ) → IsComplete grid_dim block_dim (grid grid_dim block_dim)
grid-IsComplete zero block_dim block thread in_grid in_block = absurd (omega arith)
grid-IsComplete (suc n) block_dim block thread in_grid in_block = elim (Bool-cases (block == n)) [
  | inl e ↦
      let same : block ≡ n = ground arith in
      rw same (row_lem n block_dim thread (grid n block_dim) in_block)
  | inr e ↦
      let (p, h) = grid-IsComplete n block_dim block thread (ground arith) in_block in
      (block_dim + p, shifted n block_dim p (grid n block_dim) (block, thread) h)
]

abbrev pub device : Cuda
device = record {
  get_device = ok tt;
  set_device = λ id. ok tt;
  get_device_properties = λ id. ok (record { multi_processor_count = 2; max_grid_size = 1000 });
  occupancy_max_potential_block_size = λ id kernel. ok (5, 32);
  occupancy_max_active_blocks = λ id kernel block_size. ok 4;
  get_last_error = ok tt;
  threads = grid;
}

pub device-IsCuda : IsCuda device
device-IsCuda = record {
  complete = grid-IsComplete;
  warp = λ id kernel least block_size e. ground arith;
}

abbrev table : ShardSlots
table = some (1 ∷ 2 ∷ 3 ∷ 4 ∷ 5 ∷ []) ∷ none ∷ some (16 ∷ 16 ∷ 16 ∷ 16 ∷ 7 ∷ []) ∷ []

abbrev garbage : WordShard
garbage = 9 ∷ 9 ∷ 9 ∷ 9 ∷ 9 ∷ []

abbrev decoded : WordShard
decoded = 17 ∷ 18 ∷ 19 ∷ 20 ∷ 2 ∷ []

abbrev config : DeviceTuningConfig
config = record {
  threads_per_block = 32;
  blocks_per_sm = 3;
  max_grid_blocks = 12;
  vectorization_threshold_words = 128;
}

abbrev pub idle : Tuning
idle = record { device = 1; cache = [] }

xor_reconstruct-decode_sources_example :
    (run_threads (grid 2 3) (xor_reconstruct_kernel_dynamic 2 3 table (0 ∷ 2 ∷ 0 ∷ []) 2 5) garbage
      ≡ ok decoded)
    × (run_threads
          (grid 2 3)
          (xor_reconstruct_kernel_optimized 2 2 3 table (0 ∷ 2 ∷ 0 ∷ []) 5)
          garbage
        ≡ ok decoded)
unfolding decode_sources slot xor_words
xor_reconstruct-decode_sources_example =
    xor_reconstruct-decode_sources 2 3 table (0 ∷ 2 ∷ 0 ∷ []) 2 5 (grid 2 3) garbage decoded
      (omega arith) (omega arith) (grid-IsComplete 2 3) refl refl

abbrev words : ℕ
words = 256

calculate_grid_blocks-bounds_example :
    let blocks = calculate_grid_blocks words 4 config in
    (1 ≤ blocks)
    × (blocks ≤ max 1 12)
    × ((words ≤ blocks * (32 * 4)) ⊎ (12 ≤ blocks))
    × (((words ≡ zero) × (blocks ≡ suc zero)) ⊎ ((blocks - 1) * (32 * 4) < words))
calculate_grid_blocks-bounds_example =
    calculate_grid_blocks-bounds words 4 config (omega arith) (omega arith)

get_optimal_launch_config-IsConfig_example :
    (idle.device ≡ idle.device)
    × (tune device dynamic 0 0 ≡ ok config)
    × IsConfig device dynamic 0 config
unfolding get_optimal_launch_config
get_optimal_launch_config-IsConfig_example =
    get_optimal_launch_config-IsConfig device dynamic 0 1 1 config refl

abbrev tuned : Tuning
tuned = record {
  device = 1;
  cache = record { device_id = 0; kernel = optimized 2; config = config } ∷ [];
}

get_cached_optimal_launch_config-IsAnswered_example :
    IsAnswered device (optimized 2) 0 idle tuned config
unfolding get_cached_optimal_launch_config
get_cached_optimal_launch_config-IsAnswered_example =
    get_cached_optimal_launch_config-IsAnswered device (optimized 2) 0 idle tuned config tt refl

abbrev operation : XorOperation
operation = record { output = 1; sources = 0 ∷ 2 ∷ [] }

launch_xor_operation_cuda-decode_sources_example :
    launch_xor_operation_cuda device operation 5 table (0 ∷ 2 ∷ 0 ∷ []) garbage 0 idle
    ≡ (ok decoded, tuned)
unfolding decode_sources slot xor_words kernel_of get_cached_optimal_launch_config
launch_xor_operation_cuda-decode_sources_example =
    launch_xor_operation_cuda-decode_sources device operation 5 table (0 ∷ 2 ∷ 0 ∷ []) garbage
      decoded 0 idle tuned config device-IsCuda tt refl refl refl refl refl

abbrev shard_a : WordShard
shard_a = 1 ∷ 2 ∷ 3 ∷ 4 ∷ 5 ∷ []

abbrev shard_b : WordShard
shard_b = 16 ∷ 16 ∷ 16 ∷ 16 ∷ 7 ∷ []

dummy_reconstruct_kernel-run_sparse_decode_cpu_example :
    (run_threads (grid 2 2) (dummy_reconstruct_kernel 2 2 shard_a shard_b 5) garbage
      ≡ ok (xor_words shard_a shard_b))
    × (run_sparse_decode_cpu shard_a shard_b garbage 5 ≡ ok (xor_words shard_a shard_b))
dummy_reconstruct_kernel-run_sparse_decode_cpu_example =
    dummy_reconstruct_kernel-run_sparse_decode_cpu shard_a shard_b 5 refl refl 2 2 (omega arith)
      (omega arith) (grid 2 2) garbage (grid-IsComplete 2 2) refl
