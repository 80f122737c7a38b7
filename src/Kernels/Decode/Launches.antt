-- ===== src/Kernels/Decode/Launches.antt =====
-- The launches of a plan, one after another.
use coded_llm.Base.{
  ℕ, suc, ◌≡◌, refl, List, [], ◌∷◌, ◌++◌, Bool, ◌==◌, Bool-cases, none, some, some-eq, length,
  get_elem?-lt, get_elem?-set_self, get_elem?-set_ne, get_or, set, take, drop, replicate, ok, ◌>>=◌,
  Result-cases, >>=-eq-ok, ok-injective, inl, inr, arith, All, sym, ap, subst, ◌∙◌,
}
use coded_llm.Coding.Plan.{XorOperation}
use coded_llm.Coding.Codec.{WordShard, ShardSlots, decode_sources}
use coded_llm.Coding.Codec.Decode.{Holds, slot-Holds}
use coded_llm.Kernels.Tuning.{Cuda, DeviceTuningConfig, Tuning, get_cached_optimal_launch_config}
use coded_llm.Kernels.Tuning.Cache.{IsCache, get_cached_optimal_launch_config-IsAnswered}
use coded_llm.Kernels.Launch.{kernel_of, launch_xor_operation_cuda}
use coded_llm.Kernels.Launch.Refines.{IsCuda, launch_xor_operation_cuda-decode_sources}
use coded_llm.Kernels.Decode.{Metadata, launch_operations}
use coded_llm.Kernels.Decode.Runs.{
  Lacks, HasSources, Runs, done, step, decode_sources_agree, set-Holds, Runs-Holds,
}
use coded_llm.Kernels.Decode.Scan.{get_or-size, Required}
use coded_llm.Kernels.Decode.Collect.{Describes, Placed}
use coded_llm.Kernels.Decode.Upload.{IsLoaded}

take-append {ℓ} : {A : Type ℓ} (xs ys : List A) → take (length xs) (xs ++ ys) ≡ xs
take-append [] ys = refl
take-append (x ∷ xs) ys = ap (λ r. x ∷ r) (take-append xs ys)

-- A launch that succeeds had a configuration and no error.
record Launched (cuda : Cuda) (operation : XorOperation) (device_id : ℕ) (tuning after : Tuning)
    : Type 0 where
  config : DeviceTuningConfig
  answered :
      get_cached_optimal_launch_config cuda (kernel_of (length operation.sources)) device_id tuning
      ≡ (ok config, after)
  no_error : cuda.get_last_error ≡ ok tt

launch_xor_operation_cuda-Launched :
    (cuda : Cuda) (operation : XorOperation) (n : ℕ) (table : ShardSlots) (source_ids : List ℕ)
    (output written : WordShard) (device_id : ℕ) (tuning after : Tuning)
    → launch_xor_operation_cuda cuda operation n table source_ids output device_id tuning
      ≡ (ok written, after)
    → Launched cuda operation device_id tuning after
unfolding launch_xor_operation_cuda
launch_xor_operation_cuda-Launched cuda operation n table source_ids output written device_id tuning
      after h =
    let answer =
      get_cached_optimal_launch_config cuda (kernel_of (length operation.sources)) device_id
        tuning in
    let (config, e, h₁) = >>=-eq-ok answer.0 _ (ap (λ r. r.0) h) in
    let (ran, e', h₂) = >>=-eq-ok _ (λ r. cuda.get_last_error >>= λ passed. ok r) h₁ in
    let (passed, e'', h₃) = >>=-eq-ok cuda.get_last_error _ h₂ in
    let same = ap (λ r. r.1) h in
    record {
      config = config;
      answered = ap (λ r. (r, answer.1)) e ∙ ap (λ t. (ok config, t)) same;
      no_error = e'';
    }

-- The device holds the sources of an operation.
sources_loaded :
    (required : List Bool) (shards after buffers : ShardSlots) (n : ℕ) (sources : List ℕ)
    → IsLoaded required shards after buffers
    → HasSources shards n sources
    → All (Required required) sources
    → All
        (λ source. (shard : WordShard) × Holds shards source shard × Holds buffers source shard)
        sources
sources_loaded required shards after buffers n [] l h r = tt
sources_loaded required shards after buffers n (source ∷ rest) l ((shard, held, sized), later)
      (r, rs) =
    (
      (shard, held, l.same source shard r held),
      sources_loaded required shards after buffers n rest l later rs,
    )

-- After a launch.
set-IsLoaded :
    (required : List Bool) (shards after buffers : ShardSlots) (i : ℕ) (result buffer : WordShard)
    → IsLoaded required shards after buffers
    → Lacks shards i
    → Holds after i result
    → Holds buffers i buffer
    → IsLoaded required (set shards i (some result)) after (set buffers i (some result))
set-IsLoaded required shards after buffers i result buffer l lacks final held = record {
  room = λ j shard r h. elim (Bool-cases (i == j)) [
    | inl e ↦
        let same : i ≡ j = ground arith in
        let equal = some-eq (some-eq (sym final ∙ rw (← same) at h)) in
        (result, rw (← same) here, ap length equal)
    | inr e ↦
        let (room, found, sized) = l.room j shard r h in
        (room, get_elem?-set_ne buffers i j (some result) (λ same. ground arith) ∙ found, sized)
  ];
  same = λ j shard r h. elim (Bool-cases (i == j)) [
    | inl e ↦
        let same : i ≡ j = ground arith in
        let equal = some-eq (some-eq (sym (set-Holds shards i result lacks) ∙ rw (← same) at h)) in
        rw (← same, ← equal) here
    | inr e ↦
        get_elem?-set_ne buffers i j (some result) (λ same. ground arith)
        ∙ l.same j shard r
            (sym (get_elem?-set_ne shards i j (some result) (λ same. ground arith)) ∙ h)
  ];
}
  where
    here : Holds (set buffers i (some result)) i result
    here = get_elem?-set_self buffers i (some result) (get_elem?-lt buffers i held)

module _ (cuda : Cuda) (device : IsCuda cuda) (final : Metadata) (last : ShardSlots)
    (d : Describes last final) (device_id : ℕ) where
  pub launch_operations-IsLoaded :
      (index : ℕ) (operations : List XorOperation) (shards buffers after : ShardSlots)
      (tuning tuned : Tuning)
      → Runs operations shards last
      → Placed final index operations
      → IsLoaded final.required_shards shards last buffers
      → IsCache cuda tuning.cache
      → launch_operations cuda final final.flattened_sources device_id index operations buffers
          tuning
        ≡ (ok after, tuned)
      → IsLoaded final.required_shards last last after
  unfolding launch_operations
  launch_operations-IsLoaded index [] shards buffers after tuning tuned done p l c h =
      subst (IsLoaded final.required_shards last last) (ok-injective (ap (λ r. r.0) h)) l
  launch_operations-IsLoaded index (operation ∷ rest) shards buffers after tuning tuned
        (step n result some_word some_source has lacks e sized runs) (p, ps) l c h =
      let out = operation.output in
      let kept = Runs-Holds out result runs (set-Holds shards out result lacks) in
      let (buffer, room, fits) = l.room out result p.output kept in
      let count : get_or final.word_counts out none ≡ some (length result) =
        ap (λ r. get_or r out none) d.counts ∙ get_or-size last out kept in
      let h₁ = rw (launch_operations, count, p.at_index, slot-Holds buffers out room) at h in
      let ids = drop p.offset final.flattened_sources in
      elim (Result-cases
        (launch_xor_operation_cuda cuda operation (length result) buffers ids buffer device_id
          tuning).0) [
            | inr (thrown, failed) ↦ absurd (let b = ap (λ r. r.0) (rw failed at h₁) in cc)
            | inl (written, launched) ↦
                let tuned' =
                  (launch_xor_operation_cuda cuda operation (length result) buffers ids buffer
                    device_id tuning).1 in
                let went =
                  launch_xor_operation_cuda-Launched cuda operation (length result) buffers ids
                    buffer written device_id tuning tuned' (ap (λ r. (r, tuned')) launched) in
                let answer =
                  get_cached_optimal_launch_config-IsAnswered cuda
                    (kernel_of (length operation.sources)) device_id tuning tuned' went.config c
                    went.answered in
                let decoded =
                  decode_sources_agree shards buffers n (replicate n 0) operation.sources (
                    sources_loaded final.required_shards shards last buffers n operation.sources l
                      has p.sources)
                  ∙ e in
                let run =
                  launch_xor_operation_cuda-decode_sources cuda operation (length result) buffers
                    ids buffer result device_id tuning tuned' went.config device c fits
                    (ap (take (length operation.sources)) p.ids
                      ∙ take-append operation.sources p.later)
                    (subst
                      (λ m. decode_sources buffers m (replicate m 0) operation.sources ≡ ok result)
                      (sym sized) decoded)
                    went.answered went.no_error in
                let same : written ≡ result = ok-injective (sym launched ∙ ap (λ r. r.0) run) in
                launch_operations-IsLoaded (suc index) rest (set shards out (some result))
                  (set buffers out (some result)) after tuned' tuned runs ps
                  (set-IsLoaded final.required_shards shards last buffers out result buffer l lacks
                    kept room)
                  answer.valid
                  (ap
                      (λ w.
                        launch_operations cuda final final.flattened_sources device_id (suc index)
                          rest (set buffers out (some w)) tuned')
                      (sym same)
                    ∙ rw launched at h₁)
          ]
