-- ===== src/Kernels/Tuning/Bounds.antt =====
-- The bounds of a launch.
use coded_llm.Base.{
  ℕ, zero, suc, ◌+◌, ◌-◌, ◌*◌, ◌/◌, ◌%◌, ◌≤◌, ◌<◌, ◌≡◌, max, min, ◌==◌, leb, ◌⊎◌, inl, inr,
  Bool-cases, true, false, arith, ok, >>=-eq-ok, throw_if-eq-ok, ok-injective, subst,
}
use coded_llm.Kernels.Tuning.{
  Cuda, Kernel, DeviceProperties, DeviceTuningConfig, tune, get_optimal_launch_config,
  calculate_grid_blocks, int_max,
}

no_quotient : (n w : ℕ) → n ≡ 0 → n / w + 0 ≡ 0
no_quotient n w empty = grind arith

last_full : (q w n : ℕ) → 0 < w → 0 < n → q * w ≡ n → (q + 0 - 1) * w < n
last_full zero w n positive words whole = absurd (omega arith)
last_full (suc q) w n positive words whole = grind arith

rounded_up :
    (n w : ℕ)
    → 0 < w
    → let b = n / w + elim (n % w == 0) [ true ↦ 0 | false ↦ 1 ] in
      (n ≤ b * w) × (((n ≡ 0) × (b ≡ 0)) ⊎ ((b - 1) * w < n))
rounded_up n w positive = elim (Bool-cases (n % w == 0)) [
  | inl e ↦
      let whole : n % w ≡ 0 = ground arith in
      let split : n / w * w + n % w ≡ n = grind arith in
      rw e (
        grind arith,
        elim (Bool-cases (n == 0)) [
          | inl none_left ↦ let empty : n ≡ 0 = ground arith in inl (empty, no_quotient n w empty)
          | inr some_left ↦
              let words : 0 < n = ground arith in
              inr (last_full (n / w) w n positive words (omega arith))
        ],
      )
  | inr e ↦
      let split : n / w * w + n % w ≡ n = grind arith in
      let rest : n % w < w = grind arith in
      let some_left : 0 < n % w = ground arith in rw e (grind arith, inr (grind arith))
]

mul_monotone : (a b w : ℕ) → a ≤ b → a * w ≤ b * w
mul_monotone a b w le = grind arith

positive_product : (a b : ℕ) → 0 < a → 1 ≤ b → 1 ≤ a * b
positive_product a b some one = grind arith

clamped :
    (n w r g : ℕ)
    → n ≤ r * w
    → ((n ≡ 0) × (r ≡ 0)) ⊎ ((r - 1) * w < n)
    → let b = max 1 (min r g) in
      (1 ≤ b) × (b ≤ max 1 g) × ((n ≤ b * w) ⊎ (g ≤ b)) × (((n ≡ 0) × (b ≡ 1)) ⊎ ((b - 1) * w < n))
clamped n w r g enough used =
    let b = max 1 (min r g) in
    let less : (b - 1) * w ≤ (r - 1) * w = mul_monotone (b - 1) (r - 1) w (omega arith) in
    let covers = elim (Bool-cases (leb r g)) as (λ _. (n ≤ b * w) ⊎ (g ≤ b)) [
      | inl le ↦ inl (let more = mul_monotone r b w (ground arith) in omega arith)
      | inr gt ↦ inr (ground arith)
    ] in
    let busy = elim used as (λ _. ((n ≡ 0) × (b ≡ 1)) ⊎ ((b - 1) * w < n)) [
      | inl (empty, none_needed) ↦ inl (empty, omega arith)
      | inr full ↦ inr (omega arith)
    ] in
    (omega arith, omega arith, covers, busy)

-- With threads in a block and words for a thread, a launch has at least one block and no more than
-- the configuration allows (except that there is always one), and it has a block for every word or
-- the most blocks allowed. Either there are no words and one block, or the last block has a word of
-- its own behind those of the others.
pub calculate_grid_blocks-bounds :
    (word_count words_per_thread : ℕ) (config : DeviceTuningConfig)
    → 0 < config.threads_per_block
    → 0 < words_per_thread
    → let blocks = calculate_grid_blocks word_count words_per_thread config in
      let words_per_block = config.threads_per_block * words_per_thread in
      (1 ≤ blocks)
      × (blocks ≤ max 1 config.max_grid_blocks)
      × ((word_count ≤ blocks * words_per_block) ⊎ (config.max_grid_blocks ≤ blocks))
      × (((word_count ≡ 0) × (blocks ≡ 1)) ⊎ ((blocks - 1) * words_per_block < word_count))
unfolding calculate_grid_blocks
calculate_grid_blocks-bounds word_count words_per_thread config threads words =
    let words_per_block = config.threads_per_block * words_per_thread in
    let positive : 0 < words_per_block = grind arith in
    let (enough, used) = rounded_up word_count words_per_block positive in
    clamped word_count words_per_block _ config.max_grid_blocks enough used

-- What a successful `tune` has found.
pub record IsConfig (cuda : Cuda) (kernel : Kernel) (device_id : ℕ) (config : DeviceTuningConfig)
    : Type 0 where
  pub properties : DeviceProperties
  pub found : cuda.get_device_properties device_id ≡ ok properties
  pub some_block : 1 ≤ config.blocks_per_sm
  pub fits : config.max_grid_blocks ≤ min properties.max_grid_size int_max
  pub launches : min 1 properties.max_grid_size ≤ config.max_grid_blocks
  pub oversubscribed :
      config.max_grid_blocks ≤ 2 * (properties.multi_processor_count * config.blocks_per_sm)
  pub min_grid_size : ℕ
  pub potential :
      cuda.occupancy_max_potential_block_size device_id kernel
      ≡ ok (min_grid_size, config.threads_per_block)
  pub active : ℕ
  pub resident :
      cuda.occupancy_max_active_blocks device_id kernel config.threads_per_block ≡ ok active
  pub resides : config.blocks_per_sm ≤ max 1 active

pub tune-IsConfig :
    (cuda : Cuda) (kernel : Kernel) (device_id : ℕ) (config : DeviceTuningConfig)
    → tune cuda kernel device_id device_id ≡ ok config
    → IsConfig cuda kernel device_id config
unfolding tune
tune-IsConfig cuda kernel device_id config h =
    let (properties, found, h₁) = >>=-eq-ok (cuda.get_device_properties device_id) _ h in
    let (some_sm, h₂) = throw_if-eq-ok (properties.multi_processor_count == 0) _ _ h₁ in
    let ((min_grid_size, block_size), potential, h₃) =
      >>=-eq-ok (cuda.occupancy_max_potential_block_size device_id kernel) _ h₂ in
    let (active, resident, h₄) =
      >>=-eq-ok (cuda.occupancy_max_active_blocks device_id kernel block_size) _ h₃ in
    let same = ok-injective h₄ in
    let some : 0 < properties.multi_processor_count = ground arith in
    let blocks_per_sm = max 1 (
      min
        (max 1 (
          (min_grid_size + properties.multi_processor_count - 1)
          / properties.multi_processor_count))
        active) in
    let product : 1 ≤ properties.multi_processor_count * blocks_per_sm =
      positive_product _ _ some (omega arith) in
    subst (IsConfig cuda kernel device_id) same (record {
      properties = properties;
      found = found;
      some_block = omega arith;
      fits = omega arith;
      launches = omega arith;
      oversubscribed = omega arith;
      min_grid_size = min_grid_size;
      potential = potential;
      active = active;
      resident = resident;
      resides = omega arith;
    })

-- A successful answer is that of `tune` on the device asked for, with its bounds, and leaves the
-- current device as it was.
pub get_optimal_launch_config-IsConfig :
    (cuda : Cuda) (kernel : Kernel) (device_id previous_device after : ℕ)
    (config : DeviceTuningConfig)
    → get_optimal_launch_config cuda kernel device_id previous_device ≡ (ok config, after)
    → (after ≡ previous_device)
      × (tune cuda kernel device_id device_id ≡ ok config)
      × IsConfig cuda kernel device_id config
unfolding get_optimal_launch_config
get_optimal_launch_config-IsConfig cuda kernel device_id previous_device after config h =
    let (restored, tuned) = answers in
    (restored, tuned, tune-IsConfig cuda kernel device_id config tuned)
  where
    answers : (after ≡ previous_device) × (tune cuda kernel device_id device_id ≡ ok config)
    answers = ground arith
