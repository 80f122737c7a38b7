-- ===== src/Kernels/Tuning/Cache.antt =====
-- The cache of launch configurations.
use coded_llm.Base.{
  ℕ, ◌≡◌, refl, List, [], ◌∷◌, ◌++◌, true, ◌&&◌, ◌==◌, Bool-cases, Option-cases, Result-cases,
  ok-injective, inl, inr, none, some, ok, arith, All, ap, ◌∙◌,
}
use coded_llm.Kernels.Tuning.{
  Cuda, Kernel, optimized, dynamic, same_kernel, DeviceTuningConfig, CacheEntry, Tuning, tune,
  find_entry, get_optimal_launch_config, get_cached_optimal_launch_config,
}
use coded_llm.Kernels.Tuning.Bounds.{get_optimal_launch_config-IsConfig}

-- Every entry is an answer of the CUDA runtime.
abbrev pub IsCache : Cuda → List CacheEntry → Type 0
IsCache cuda =
    All (λ entry. tune cuda entry.kernel entry.device_id entry.device_id ≡ ok entry.config)

same_kernel_lem : (kernel other : Kernel) → same_kernel kernel other ≡ true → kernel ≡ other
unfolding same_kernel
same_kernel_lem (optimized degree) (optimized other) h = ap optimized (ground arith)
same_kernel_lem (optimized degree) dynamic h = cc
same_kernel_lem dynamic (optimized other) h = cc
same_kernel_lem dynamic dynamic h = refl

same_kernel_refl : (kernel : Kernel) → same_kernel kernel kernel ≡ true
unfolding same_kernel
same_kernel_refl (optimized degree) = ground arith
same_kernel_refl dynamic = refl

module _ (cuda : Cuda) (kernel : Kernel) (device_id : ℕ) where
  find_entry-IsCache :
      (cache : List CacheEntry) (config : DeviceTuningConfig)
      → IsCache cuda cache
      → find_entry cache kernel device_id ≡ some config
      → tune cuda kernel device_id device_id ≡ ok config
  unfolding find_entry
  find_entry-IsCache [] config c h = cc
  find_entry-IsCache (entry ∷ rest) config c h =
      elim (Bool-cases (entry.device_id == device_id && same_kernel entry.kernel kernel)) [
        | inl e ↦
            let k = same_kernel_lem entry.kernel kernel (ground arith) in
            let d : entry.device_id ≡ device_id = ground arith in
            let found : entry.config ≡ config = ground arith in rw (← k, ← d, ← found) c.0
        | inr e ↦ find_entry-IsCache rest config c.1 (ground arith)
      ]

  find_entry-append :
      (cache : List CacheEntry) (config : DeviceTuningConfig)
      → find_entry cache kernel device_id ≡ none
      → find_entry
          (cache ++ (record { device_id = device_id; kernel = kernel; config = config } ∷ []))
          kernel
          device_id
        ≡ some config
  unfolding find_entry
  find_entry-append [] config h =
      let same : device_id == device_id ≡ true = ground arith in
      rw (find_entry, same, same_kernel_refl kernel) refl
  find_entry-append (entry ∷ rest) config h =
      elim (Bool-cases (entry.device_id == device_id && same_kernel entry.kernel kernel)) [
        | inl e ↦ absurd (ground arith)
        | inr e ↦ rw (find_entry, e) (find_entry-append rest config (ground arith))
      ]

  IsCache-append :
      (cache : List CacheEntry) (entry : CacheEntry)
      → IsCache cuda cache
      → tune cuda entry.kernel entry.device_id entry.device_id ≡ ok entry.config
      → IsCache cuda (cache ++ (entry ∷ []))
  IsCache-append [] entry c t = (t, tt)
  IsCache-append (first ∷ rest) entry c t = (c.0, IsCache-append rest entry c.1 t)

  -- What a call of the cached function leaves.
  pub record IsAnswered (tuning after : Tuning) (config : DeviceTuningConfig) : Type 0 where
    pub tuned : tune cuda kernel device_id device_id ≡ ok config
    pub cached : find_entry after.cache kernel device_id ≡ some config
    pub device : after.device ≡ tuning.device
    pub valid : IsCache cuda after.cache

  -- On a cache of answers of the CUDA runtime, a successful call gives what the runtime would answer
  -- now, keeps the current device, and leaves a cache of answers that holds this one.
  pub get_cached_optimal_launch_config-IsAnswered :
      (tuning after : Tuning) (config : DeviceTuningConfig)
      → IsCache cuda tuning.cache
      → get_cached_optimal_launch_config cuda kernel device_id tuning ≡ (ok config, after)
      → IsAnswered tuning after config
  unfolding get_cached_optimal_launch_config
  get_cached_optimal_launch_config-IsAnswered tuning after config c h =
      elim (Option-cases (find_entry tuning.cache kernel device_id)) [
        | inr (entry, e) ↦
            let config_same : entry ≡ config =
              ok-injective (ap (λ r. r.0) (rw (get_cached_optimal_launch_config, e) at h)) in
            let same : tuning ≡ after =
              ap (λ r. r.1) (rw (get_cached_optimal_launch_config, e) at h) in
            let found = e ∙ ap some config_same in
            rw (← same) (record {
              tuned = find_entry-IsCache tuning.cache config c found;
              cached = found;
              device = refl;
              valid = c;
            })
        | inl e ↦
            elim (Result-cases (get_optimal_launch_config cuda kernel device_id tuning.device).0) [
              | inr (thrown, failed) ↦ absurd (
                  let b = ap (λ r. r.0) (rw (get_cached_optimal_launch_config, e, failed) at h) in
                  cc)
              | inl (answer, given) ↦
                  let config_same : answer ≡ config =
                    ok-injective
                      (ap (λ r. r.0) (rw (get_cached_optimal_launch_config, e, given) at h)) in
                  let same = ap (λ r. r.1) (rw (get_cached_optimal_launch_config, e, given) at h) in
                  let (restored, tuned, bounds) =
                    get_optimal_launch_config-IsConfig cuda kernel device_id tuning.device _ answer
                      (ap
                        (λ r.
                          (r, (get_optimal_launch_config cuda kernel device_id tuning.device).1))
                        given) in
                  let tuned_now = tuned ∙ ap ok config_same in
                  rw (← same) (record {
                    tuned = tuned_now;
                    cached = find_entry-append tuning.cache answer e ∙ ap some config_same;
                    device = restored;
                    valid = IsCache-append tuning.cache _ c tuned;
                  })
            ]
      ]
