-- ===== src/Kernels/Staging.antt =====
-- kernels/sparse_decoder.cu: the staged contexts, without their transfers' timings. The work of a
-- stream is done in order, so that a copy is written as done when it is enqueued.
pub mod Buffers
pub mod Refines
pub mod Stage
use coded_llm.Base.{
  ℕ, ◌||◌, not, List, [], ◌∷◌, map, Bool, true, false, ◌&&◌, Option, none, some, length, get_or,
  set, replicate, leb, ◌==◌, Result, ok, err, ◌>>=◌, ◌>>◌, throw_if, at, staged_no_slots,
  staged_finalized, staged_out_of_bounds, staged_empty, staged_present, staged_executed,
  staged_slots_differ, staged_shards_differ,
}
use coded_llm.Base.Sets.{is_empty}
use coded_llm.Coding.Plan.{XorOperation, DecodePlan}
use coded_llm.Coding.Codec.{WordShard, ShardSlots, slot, has_value, validate_plan_shape}
use coded_llm.Kernels.Tuning.{Cuda, Tuning}
use coded_llm.Kernels.Decode.{Memory, Metadata, Uploaded, scan_operations, launch_operations}

pub record StagingContext : Type 0 where
  pub word_counts : List (Option ℕ)
  pub staged_shards : ShardSlots
  pub device_shards : ShardSlots
  pub device_id : ℕ
  pub finalized : Bool

unfoldable pub create_staging_context : Cuda → Tuning → ℕ → Result StagingContext
create_staging_context cuda tuning shard_count = do
  throw_if (shard_count == 0) staged_no_slots
  cuda.get_device
  ok (record {
    word_counts = replicate shard_count none;
    staged_shards = replicate shard_count none;
    device_shards = replicate shard_count none;
    device_id = tuning.device;
    finalized = false;
  })

-- The checks before a shard is staged.
unfoldable pub check_stage : StagingContext → ℕ → WordShard → Result (Unit {0})
unfolding is_empty
check_stage context shard_id shard = do
  throw_if context.finalized staged_finalized
  throw_if (leb (length context.device_shards) shard_id) staged_out_of_bounds
  throw_if (is_empty shard) staged_empty
  throw_if (has_value (get_or context.device_shards shard_id none)) staged_present

-- The context is as it is left, errors included.
unfoldable pub stage_decode_shard :
    Cuda → Memory → StagingContext → ℕ → WordShard → Result (Unit {0}) × StagingContext
unfolding check_stage
stage_decode_shard cuda memory context shard_id shard =
    elim (check_stage context shard_id shard >> cuda.set_device context.device_id) [
      | err thrown ↦ (err thrown, context)
      | ok passed ↦
          let marked : StagingContext = record {
            word_counts = set context.word_counts shard_id (some (length shard));
            staged_shards = set context.staged_shards shard_id (some shard);
            device_shards = context.device_shards;
            device_id = context.device_id;
            finalized = context.finalized;
          } in
          elim (memory.malloc (length shard)) [
            | err thrown ↦ (err thrown, marked)
            | ok buffer ↦
                let placed : WordShard → StagingContext = λ words. record {
                  word_counts = marked.word_counts;
                  staged_shards = marked.staged_shards;
                  device_shards = set context.device_shards shard_id (some words);
                  device_id = context.device_id;
                  finalized = context.finalized;
                } in
                elim (memory.memcpy buffer shard) [
                  | err thrown ↦ (err thrown, placed buffer)
                  | ok written ↦ (ok tt, placed written)
                ]
          ]
    ]

-- `==` on vectors of words, on optionals of them and on the slots.
unfoldable pub same_words : WordShard → WordShard → Bool
same_words [] [] = true
same_words (x ∷ xs) (y ∷ ys) = x == y && same_words xs ys
same_words xs ys = false

unfoldable pub same_slots : ShardSlots → ShardSlots → Bool
unfolding same_words
same_slots [] [] = true
same_slots (none ∷ xs) (none ∷ ys) = same_slots xs ys
same_slots (some x ∷ xs) (some y ∷ ys) = same_words x y && same_slots xs ys
same_slots xs ys = false

-- The loop that allocates a buffer for each required shard without one.
unfoldable pub allocate_missing :
    Memory → List Bool → List (Option ℕ) → ShardSlots → Result ShardSlots
allocate_missing memory (true ∷ required) (word_count ∷ counts) (none ∷ buffers) = do
  words ← at word_count
  buffer ← memory.malloc words
  later ← allocate_missing memory required counts buffers
  ok (some buffer ∷ later)
allocate_missing memory (true ∷ required) (word_count ∷ counts) (some held ∷ buffers) = do
  later ← allocate_missing memory required counts buffers
  ok (some held ∷ later)
allocate_missing memory (false ∷ required) (word_count ∷ counts) (buffer ∷ buffers) = do
  later ← allocate_missing memory required counts buffers
  ok (buffer ∷ later)
allocate_missing memory required counts buffers = ok []

-- The source IDs on the device, if there are operations.
unfoldable pub upload_sources : Memory → List XorOperation → ℕ → List ℕ → Result (List ℕ)
upload_sources memory [] shard_count flattened_sources = ok []
upload_sources memory (operation ∷ rest) shard_count flattened_sources = do
  memory.memcpy_table shard_count
  id_buffer ← memory.malloc (length flattened_sources)
  memory.memcpy id_buffer flattened_sources

-- The loop that copies the outputs back, and the one that moves them to the slots.
unfoldable pub download_outputs :
    Memory → List (Option ℕ) → ShardSlots → List XorOperation → Result (List WordShard)
unfolding slot
download_outputs memory word_counts buffers [] = ok []
download_outputs memory word_counts buffers (operation ∷ rest) = do
  word_count ← at (get_or word_counts operation.output none)
  buffer ← at (slot buffers operation.output)
  output ← memory.memcpy (replicate word_count 0) buffer
  later ← download_outputs memory word_counts buffers rest
  ok (output ∷ later)

unfoldable pub move_outputs : List XorOperation → List WordShard → ShardSlots → ShardSlots
move_outputs (operation ∷ rest) (output ∷ outputs) shards =
    move_outputs rest outputs (set shards operation.output (some output))
move_outputs operations outputs shards = shards

-- The statements before the first launch; `device` is the current device.
unfoldable pub finalize : Cuda → Memory → StagingContext → DecodePlan → ShardSlots → Result Uploaded
unfolding validate_plan_shape same_slots scan_operations allocate_missing upload_sources
finalize cuda memory context plan shards = do
  throw_if context.finalized staged_executed
  throw_if (not (length shards == length context.device_shards)) staged_slots_differ
  validate_plan_shape plan
  cuda.set_device context.device_id
  throw_if (not (same_slots context.staged_shards shards)) staged_shards_differ
  metadata ←
      scan_operations (length context.device_shards)
        (record {
          word_counts = context.word_counts;
          required_shards = replicate (length context.device_shards) false;
          available_shards = map has_value context.word_counts;
          source_offsets = [];
          flattened_sources = [];
        })
        plan.operations
  buffers ←
      allocate_missing memory metadata.required_shards metadata.word_counts context.device_shards
  source_ids ←
      upload_sources memory plan.operations (length context.device_shards)
        metadata.flattened_sources
  ok (record { metadata = metadata; buffers = buffers; source_ids = source_ids })

-- The slots of the host, as they are left. The context after the run, which takes neither shards nor
-- plans any more, is left out.
unfoldable pub run_staged_decode_plan :
    Cuda
    → Memory
    → StagingContext
    → DecodePlan
    → ShardSlots
    → Tuning
    → Result (Unit {0}) × ShardSlots
unfolding finalize launch_operations download_outputs move_outputs
run_staged_decode_plan cuda memory context plan shards tuning =
    let outputs = finalize cuda memory context plan shards >>= λ uploaded.
    (launch_operations cuda uploaded.metadata uploaded.source_ids context.device_id 0
      plan.operations uploaded.buffers
      (record { device = context.device_id; cache = tuning.cache })).0
    >>= λ buffers.
        download_outputs memory uploaded.metadata.word_counts buffers plan.operations >>= λ outputs.
        memory.device_synchronize >> ok outputs in
    elim outputs [
      | err thrown ↦ (err thrown, shards)
      | ok words ↦ (ok tt, move_outputs plan.operations words shards)
    ]
