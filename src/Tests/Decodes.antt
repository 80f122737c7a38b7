-- ===== src/Tests/Decodes.antt =====
-- A plan of two operations on a device, and on one whose second copy back fails.
use coded_llm.Base.{
  ℕ, false, ◌⊎◌, Error, get_elem?, zero, suc, ◌≡◌, refl, List, [], ◌∷◌, ◌++◌, true, some, none,
  replicate, length-replicate, Result, ok, err, cuda_failed, ok-injective, sym,
}
use coded_llm.Coding.Plan.{XorOperation, DecodePlan}
use coded_llm.Coding.Codec.{
  WordShard, ShardSlots, execute_operations, execute_decode_plan_cpu, check_dependencies,
  check_earlier,
}
use coded_llm.Kernels.Xor.{xor_vector}
use coded_llm.Kernels.Decode.{Memory, run_decode_plan_cuda}
use coded_llm.Kernels.Decode.Upload.{IsMemory}
use coded_llm.Kernels.Decode.Refines.{
  run_decode_plan_cuda-execute_decode_plan_cpu, run_decode_plan_cuda-prefix,
}
use coded_llm.Kernels.Staging.{
  StagingContext, create_staging_context, stage_decode_shard, run_staged_decode_plan,
}
use coded_llm.Kernels.Staging.Buffers.{IsStaged}
use coded_llm.Kernels.Staging.Refines.{run_staged_decode_plan-execute_decode_plan_cpu}
use coded_llm.Kernels.Staging.Stage.{create_staging_context-IsStaged, stage_decode_shard-IsStaged}
use coded_llm.Coding.Codec.Decode.{Holds}
use coded_llm.Tests.Devices.{device, device-IsCuda, idle}

abbrev memory : Memory
memory = record {
  malloc = λ n. ok (replicate n 7);
  memcpy = λ destination source. ok source;
  memcpy_table = λ n. ok tt;
  device_synchronize = ok tt;
}

memory-IsMemory : IsMemory memory
memory-IsMemory = record {
  malloc = λ n buffer h. rw (← ok-injective h) (length-replicate n 7);
  memcpy = λ destination source after l h. sym (ok-injective h);
}

-- A copy of words that begin with 0 fails.
copy : WordShard → Result WordShard
copy [] = ok []
copy (zero ∷ rest) = err cuda_failed
copy (suc word ∷ rest) = ok (suc word ∷ rest)

copy_lem : (source after : WordShard) → copy source ≡ ok after → after ≡ source
unfolding copy
copy_lem [] after h = sym (ok-injective h)
copy_lem (zero ∷ rest) after h = cc
copy_lem (suc word ∷ rest) after h = sym (ok-injective h)

abbrev fragile : Memory
fragile = record {
  malloc = λ n. ok (replicate n 7);
  memcpy = λ destination source. copy source;
  memcpy_table = λ n. ok tt;
  device_synchronize = ok tt;
}

fragile-IsMemory : IsMemory fragile
fragile-IsMemory = record {
  malloc = λ n buffer h. rw (← ok-injective h) (length-replicate n 7);
  memcpy = λ destination source after l h. copy_lem source after h;
}

abbrev first : XorOperation
first = record { output = 1; sources = 2 ∷ 0 ∷ [] }

abbrev second : XorOperation
second = record { output = 3; sources = 0 ∷ 1 ∷ 2 ∷ [] }

abbrev plan : DecodePlan
plan = record {
  operations = first ∷ second ∷ [];
  dependencies = [] ∷ (0 ∷ []) ∷ [];
  is_recoverable = true;
}

abbrev before : ShardSlots
before = some (1 ∷ 2 ∷ 3 ∷ 4 ∷ 5 ∷ []) ∷ none ∷ some (16 ∷ 16 ∷ 16 ∷ 16 ∷ 7 ∷ []) ∷ none ∷ []

abbrev one_decoded : ShardSlots
one_decoded =
    some (1 ∷ 2 ∷ 3 ∷ 4 ∷ 5 ∷ [])
    ∷ some (17 ∷ 18 ∷ 19 ∷ 20 ∷ 2 ∷ [])
    ∷ some (16 ∷ 16 ∷ 16 ∷ 16 ∷ 7 ∷ [])
    ∷ none
    ∷ []

abbrev all_decoded : ShardSlots
all_decoded =
    some (1 ∷ 2 ∷ 3 ∷ 4 ∷ 5 ∷ [])
    ∷ some (17 ∷ 18 ∷ 19 ∷ 20 ∷ 2 ∷ [])
    ∷ some (16 ∷ 16 ∷ 16 ∷ 16 ∷ 7 ∷ [])
    ∷ some (0 ∷ 0 ∷ 0 ∷ 0 ∷ 0 ∷ [])
    ∷ []

run_all : (run_decode_plan_cuda device memory plan before idle).0 ≡ ok tt
unfolding run_decode_plan_cuda check_dependencies check_earlier xor_vector
run_all = refl

run_decode_plan_cuda-execute_decode_plan_cpu_example :
    execute_decode_plan_cpu plan before ≡ (ok tt, all_decoded)
unfolding run_decode_plan_cuda check_dependencies check_earlier xor_vector
run_decode_plan_cuda-execute_decode_plan_cpu_example =
    run_decode_plan_cuda-execute_decode_plan_cpu device memory device-IsCuda memory-IsMemory plan
      before idle tt all_decoded (run_decode_plan_cuda device memory plan before idle).2 refl

run_decode_plan_cuda-prefix_example :
    (copied rest : List XorOperation) × (plan.operations ≡ copied ++ rest)
    × (execute_operations copied before ≡ (ok tt, one_decoded))
unfolding run_decode_plan_cuda copy check_dependencies check_earlier xor_vector
run_decode_plan_cuda-prefix_example =
    run_decode_plan_cuda-prefix device fragile device-IsCuda fragile-IsMemory plan before idle tt
      (err cuda_failed) one_decoded (run_decode_plan_cuda device fragile plan before idle).2 refl

abbrev fresh : StagingContext
fresh = record {
  word_counts = none ∷ none ∷ none ∷ none ∷ [];
  staged_shards = none ∷ none ∷ none ∷ none ∷ [];
  device_shards = none ∷ none ∷ none ∷ none ∷ [];
  device_id = 1;
  finalized = false;
}

created : create_staging_context device idle 4 ≡ ok fresh
unfolding create_staging_context
created = refl

fresh-IsStaged : IsStaged fresh
fresh-IsStaged = create_staging_context-IsStaged device idle 4 fresh created

abbrev half : StagingContext
half = record {
  word_counts = some 5 ∷ none ∷ none ∷ none ∷ [];
  staged_shards = some (1 ∷ 2 ∷ 3 ∷ 4 ∷ 5 ∷ []) ∷ none ∷ none ∷ none ∷ [];
  device_shards = some (1 ∷ 2 ∷ 3 ∷ 4 ∷ 5 ∷ []) ∷ none ∷ none ∷ none ∷ [];
  device_id = 1;
  finalized = false;
}

staged_one : stage_decode_shard device memory fresh 0 (1 ∷ 2 ∷ 3 ∷ 4 ∷ 5 ∷ []) ≡ (ok tt, half)
unfolding stage_decode_shard
staged_one = refl

abbrev two : ℕ
two = 2

stage_decode_shard-IsStaged_example :
    IsStaged half
    × Holds half.staged_shards 0 (1 ∷ 2 ∷ 3 ∷ 4 ∷ 5 ∷ [])
    × ((two ≡ zero) ⊎ (get_elem? half.staged_shards 2 ≡ get_elem? fresh.staged_shards 2))
stage_decode_shard-IsStaged_example =
    stage_decode_shard-IsStaged device memory fresh half 0 2 (1 ∷ 2 ∷ 3 ∷ 4 ∷ 5 ∷ [])
      memory-IsMemory fresh-IsStaged staged_one

half-IsStaged : IsStaged half
half-IsStaged =
    (stage_decode_shard-IsStaged device memory fresh half 0 2 (1 ∷ 2 ∷ 3 ∷ 4 ∷ 5 ∷ [])
      memory-IsMemory fresh-IsStaged staged_one).0

abbrev staged : StagingContext
staged = record {
  word_counts = some 5 ∷ none ∷ some 5 ∷ none ∷ [];
  staged_shards = before;
  device_shards = before;
  device_id = 1;
  finalized = false;
}

staged_two : stage_decode_shard device memory half 2 (16 ∷ 16 ∷ 16 ∷ 16 ∷ 7 ∷ []) ≡ (ok tt, staged)
unfolding stage_decode_shard
staged_two = refl

staged-IsStaged : IsStaged staged
staged-IsStaged =
    (stage_decode_shard-IsStaged device memory half staged 2 0 (16 ∷ 16 ∷ 16 ∷ 16 ∷ 7 ∷ [])
      memory-IsMemory half-IsStaged staged_two).0

abbrev answered : Result (Unit {0})
answered = ok tt

run_staged : run_staged_decode_plan device memory staged plan before idle ≡ (ok tt, all_decoded)
unfolding run_staged_decode_plan check_dependencies check_earlier xor_vector
run_staged = refl

run_staged_decode_plan-execute_decode_plan_cpu_example :
    ((answered ≡ ok tt) × (execute_decode_plan_cpu plan before ≡ (ok tt, all_decoded)))
    ⊎ ((thrown : Error) × (answered ≡ err thrown) × (all_decoded ≡ before))
run_staged_decode_plan-execute_decode_plan_cpu_example =
    run_staged_decode_plan-execute_decode_plan_cpu device memory device-IsCuda memory-IsMemory
      staged staged-IsStaged plan before idle tt (ok tt) all_decoded run_staged
