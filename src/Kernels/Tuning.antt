-- ===== src/Kernels/Tuning.antt =====
-- include/codedllm/kernels/tuning.cuh, and the grid size of kernels/sparse_decoder.cu. The CUDA
-- runtime is a parameter; its `int` answers are not negative, and the sum of two of them does not
-- overflow. The current device of the calling thread is explicit, also where a call throws.
pub mod Bounds
pub mod Cache
use coded_llm.Base.{
  ℕ, ◌+◌, ◌-◌, ◌*◌, ◌/◌, ◌%◌, max, min, List, [], ◌∷◌, ◌++◌, Bool, true, false, ◌&&◌, Option, none,
  some, ◌==◌, Result, ok, err, ◌>>=◌, ◌>>◌, throw_if, no_multiprocessors,
}

-- The kernels of kernels/sparse_decoder.cu, as pointers to functions.
pub data Kernel : Type 0 where
  optimized : (degree : ℕ) → Kernel
  dynamic : Kernel

unfoldable pub same_kernel : Kernel → Kernel → Bool
same_kernel (optimized degree) (optimized other) = degree == other
same_kernel (optimized degree) dynamic = false
same_kernel dynamic (optimized other) = false
same_kernel dynamic dynamic = true

-- What the code reads of `cudaDeviceProp`.
pub record DeviceProperties : Type 0 where
  pub multi_processor_count : ℕ
  pub max_grid_size : ℕ

-- What the code uses of the CUDA runtime, each behind `CUDA_CHECK`; a device is by its number. The
-- occupancy functions answer for the current device. `threads` is the order in which the device
-- runs the threads of a grid.
pub record Cuda : Type 0 where
  pub get_device : Result (Unit {0})
  pub set_device : ℕ → Result (Unit {0})
  pub get_device_properties : ℕ → Result DeviceProperties
  pub occupancy_max_potential_block_size : ℕ → Kernel → Result (ℕ × ℕ)
  pub occupancy_max_active_blocks : ℕ → Kernel → ℕ → Result ℕ
  pub get_last_error : Result (Unit {0})
  pub threads : ℕ → ℕ → List (ℕ × ℕ)

pub record DeviceTuningConfig : Type 0 where
  pub threads_per_block : ℕ
  pub blocks_per_sm : ℕ
  pub max_grid_blocks : ℕ
  pub vectorization_threshold_words : ℕ

abbrev pub int_max : ℕ
int_max = 2147483647

-- The statements between the two changes of the current device. Only the properties are asked for by
-- the number of a device.
unfoldable pub tune : Cuda → Kernel → ℕ → ℕ → Result DeviceTuningConfig
tune cuda kernel device_id current_device = do
  properties ← cuda.get_device_properties device_id
  throw_if (properties.multi_processor_count == 0) no_multiprocessors
  potential ← cuda.occupancy_max_potential_block_size current_device kernel
  let (min_grid_size, block_size) = potential
  let potential_blocks_per_sm =
      max 1
        ((min_grid_size + properties.multi_processor_count - 1) / properties.multi_processor_count)
  active_blocks_per_sm ← cuda.occupancy_max_active_blocks current_device kernel block_size
  let blocks_per_sm = max 1 (min potential_blocks_per_sm active_blocks_per_sm)
  let requested_grid_blocks = properties.multi_processor_count * blocks_per_sm * 2
  let bounded_grid_blocks = min requested_grid_blocks properties.max_grid_size
  ok (record {
    threads_per_block = block_size;
    blocks_per_sm = blocks_per_sm;
    max_grid_blocks = min bounded_grid_blocks int_max;
    vectorization_threshold_words = block_size * 4;
  })

-- With the current device before and after. `get_device` says whether `cudaGetDevice` succeeds.
unfoldable pub get_optimal_launch_config : Cuda → Kernel → ℕ → ℕ → Result DeviceTuningConfig × ℕ
unfolding tune
get_optimal_launch_config cuda kernel device_id previous_device = elim cuda.get_device [
  | err thrown ↦ (err thrown, previous_device)
  | ok got ↦ elim (previous_device == device_id) [
    | true ↦ (tune cuda kernel device_id previous_device, previous_device)
    | false ↦ elim (cuda.set_device device_id) [
      | err thrown ↦ (err thrown, previous_device)
      | ok set ↦ elim (tune cuda kernel device_id device_id) [
        | err thrown ↦ (err thrown, device_id)
        | ok config ↦ elim (cuda.set_device previous_device) [
          | err thrown ↦ (err thrown, device_id)
          | ok back ↦ (ok config, previous_device)
        ]
      ]
    ]
  ]
]

-- Each instance of the template has a cache of its own; kernels of different instances are never
-- equal, so that one list holds all of them.
pub record CacheEntry : Type 0 where
  pub device_id : ℕ
  pub kernel : Kernel
  pub config : DeviceTuningConfig

unfoldable pub find_entry : List CacheEntry → Kernel → ℕ → Option DeviceTuningConfig
unfolding same_kernel
find_entry [] kernel device_id = none
find_entry (entry ∷ rest) kernel device_id =
    elim (entry.device_id == device_id && same_kernel entry.kernel kernel) [
      | true ↦ some entry.config
      | false ↦ find_entry rest kernel device_id
    ]

-- The current device and the cache.
pub record Tuning : Type 0 where
  pub device : ℕ
  pub cache : List CacheEntry

unfoldable pub get_cached_optimal_launch_config :
    Cuda → Kernel → ℕ → Tuning → Result DeviceTuningConfig × Tuning
unfolding find_entry get_optimal_launch_config
get_cached_optimal_launch_config cuda kernel device_id tuning =
    elim (find_entry tuning.cache kernel device_id) [
      | some config ↦ (ok config, tuning)
      | none ↦
          let (answer, device) = get_optimal_launch_config cuda kernel device_id tuning.device in
          elim answer [
            | err thrown ↦ (err thrown, record { device = device; cache = tuning.cache })
            | ok config ↦ (
              ok config,
              record {
                device = device;
                cache =
                    tuning.cache
                    ++ (record { device_id = device_id; kernel = kernel; config = config } ∷ []);
              },
            )
          ]
    ]

-- `CalculateGridBlocks`; a true test counts as 1.
unfoldable pub calculate_grid_blocks : ℕ → ℕ → DeviceTuningConfig → ℕ
calculate_grid_blocks word_count words_per_thread config =
    let words_per_block = config.threads_per_block * words_per_thread in
    let required_blocks =
      word_count / words_per_block
      + elim (word_count % words_per_block == 0) [ true ↦ 0 | false ↦ 1 ] in
    max 1 (min required_blocks config.max_grid_blocks)
