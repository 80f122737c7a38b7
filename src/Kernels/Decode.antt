-- ===== src/Kernels/Decode.antt =====
-- kernels/sparse_decoder.cu: `RunDecodePlanCuda` without timings. A device buffer is the list of its
-- words, and the table of the buffers' pointers is the list of the buffers by shard. The kernel reads
-- the table as it is before the launch: an output is no source of its own operation.
pub mod Runs
pub mod Scan
pub mod Collect
pub mod Upload
pub mod Launches
pub mod Refines
use coded_llm.Base.{
  ℕ, suc, ◌+◌, ◌||◌, not, List, [], ◌∷◌, ◌++◌, Bool, true, false, Option, none, some, length,
  get_or, get_elem?, set, replicate, drop, map, leb, ◌==◌, Result, ok, err, ◌>>=◌, ◌>>◌, throw_if,
  at, decode_output_bounds, decode_no_sources, decode_output_present, decode_source_unavailable,
  decode_source_empty, decode_sources_unequal,
}
use coded_llm.Base.Sets.{is_empty}
use coded_llm.Coding.Plan.{XorOperation, DecodePlan}
use coded_llm.Coding.Codec.{WordShard, ShardSlots, slot, has_value, validate_plan_shape}
use coded_llm.Kernels.Tuning.{Cuda, Tuning}
use coded_llm.Kernels.Launch.{launch_xor_operation_cuda}

-- The memory functions of the CUDA runtime, each behind `CUDA_CHECK`: `cudaMalloc` of a number of
-- words, `cudaMemcpy` of a source's words to the start of a destination, the allocation and copy of the
-- table of pointers, and `cudaDeviceSynchronize`.
pub record Memory : Type 0 where
  pub malloc : ℕ → Result WordShard
  pub memcpy : WordShard → WordShard → Result WordShard
  pub memcpy_table : ℕ → Result (Unit {0})
  pub device_synchronize : Result (Unit {0})

-- The vectors that the loop over the operations fills.
pub record Metadata : Type 0 where
  pub word_counts : List (Option ℕ)
  pub required_shards : List Bool
  pub available_shards : List Bool
  pub source_offsets : List ℕ
  pub flattened_sources : List ℕ

-- The loop over the host's shards.
unfoldable pub count_words : ShardSlots → Result (List (Option ℕ))
unfolding is_empty
count_words [] = ok []
count_words (none ∷ rest) = do later ← count_words rest; ok (none ∷ later)
count_words (some shard ∷ rest) = do
  throw_if (is_empty shard) decode_source_empty
  later ← count_words rest
  ok (some (length shard) ∷ later)

unfoldable pub initial_metadata : ShardSlots → Result Metadata
unfolding count_words
initial_metadata shards = do
  word_counts ← count_words shards
  ok (record {
    word_counts = word_counts;
    required_shards = replicate (length shards) false;
    available_shards = map has_value word_counts;
    source_offsets = [];
    flattened_sources = [];
  })

-- The first source gives the count, the others have to agree with it.
unfoldable pub agree_count : Option ℕ → Option ℕ → Result (Option ℕ)
agree_count none source_count = ok source_count
agree_count (some count) none = err decode_sources_unequal
agree_count (some count) (some source_count) = do
  throw_if (not (count == source_count)) decode_sources_unequal
  ok (some count)

-- The loop over an operation's sources: the count that they agree on, and the required shards.
unfoldable pub scan_sources :
    ℕ → List (Option ℕ) → List Bool → List Bool → Option ℕ → List ℕ → Result (Option ℕ × List Bool)
unfolding agree_count
scan_sources shard_count word_counts available_shards required_shards count [] =
    ok (count, required_shards)
scan_sources shard_count word_counts available_shards required_shards count (source ∷ rest) = do
  throw_if
      (leb shard_count source
        || not (get_or available_shards source false)
        || not (has_value (get_or word_counts source none)))
      decode_source_unavailable
  agreed ← agree_count count (get_or word_counts source none)
  scan_sources shard_count word_counts available_shards (set required_shards source true) agreed
      rest

-- The loop over the operations; the sources are pushed back one by one by the loop over them.
unfoldable pub scan_operation : ℕ → Metadata → XorOperation → Result Metadata
unfolding scan_sources is_empty
scan_operation shard_count metadata operation = do
  throw_if (leb shard_count operation.output) decode_output_bounds
  throw_if (is_empty operation.sources) decode_no_sources
  throw_if (get_or metadata.available_shards operation.output false) decode_output_present
  scanned ←
      scan_sources shard_count metadata.word_counts metadata.available_shards
        metadata.required_shards none operation.sources
  ok (record {
    word_counts = set metadata.word_counts operation.output scanned.0;
    required_shards = set scanned.1 operation.output true;
    available_shards = set metadata.available_shards operation.output true;
    source_offsets = metadata.source_offsets ++ (length metadata.flattened_sources ∷ []);
    flattened_sources = metadata.flattened_sources ++ operation.sources;
  })

unfoldable pub scan_operations : ℕ → Metadata → List XorOperation → Result Metadata
unfolding scan_operation
scan_operations shard_count metadata [] = ok metadata
scan_operations shard_count metadata (operation ∷ rest) = do
  next ← scan_operation shard_count metadata operation
  scan_operations shard_count next rest

-- The loop that allocates a buffer for each required shard.
unfoldable pub allocate : Memory → List Bool → List (Option ℕ) → Result ShardSlots
allocate memory (true ∷ required) (word_count ∷ counts) = do
  words ← at word_count
  buffer ← memory.malloc words
  later ← allocate memory required counts
  ok (some buffer ∷ later)
allocate memory (false ∷ required) (word_count ∷ counts) = do
  later ← allocate memory required counts
  ok (none ∷ later)
allocate memory required counts = ok []

-- One round of the next loop.
unfoldable pub upload_one :
    Memory → Bool → Option WordShard → Option WordShard → Result (Option WordShard)
upload_one memory true (some shard) (some buffer) = do
  written ← memory.memcpy buffer shard
  ok (some written)
upload_one memory required shard buffer = ok buffer

-- The loop that copies the required shards that the host has.
unfoldable pub upload : Memory → List Bool → ShardSlots → ShardSlots → Result ShardSlots
unfolding upload_one
upload memory (required ∷ rest) (shard ∷ shards) (buffer ∷ buffers) = do
  written ← upload_one memory required shard buffer
  later ← upload memory rest shards buffers
  ok (written ∷ later)
upload memory required shards buffers = ok buffers

-- The loop of the launches, from `operation_index` on; its `switch` is that of
-- `LaunchXorOperationCuda`.
unfoldable pub launch_operations :
    Cuda
    → Metadata
    → List ℕ
    → ℕ
    → ℕ
    → List XorOperation
    → ShardSlots
    → Tuning
    → Result ShardSlots × Tuning
unfolding launch_xor_operation_cuda slot
launch_operations cuda metadata source_ids device_id operation_index [] buffers tuning =
    (ok buffers, tuning)
launch_operations cuda metadata source_ids device_id operation_index (operation ∷ rest) buffers
      tuning =
    let located = at (get_or metadata.word_counts operation.output none) >>= λ word_count.
    at (get_elem? metadata.source_offsets operation_index) >>= λ offset.
    at (slot buffers operation.output) >>= λ output. ok (word_count, (offset, output)) in
    elim located [
      | err thrown ↦ (err thrown, tuning)
      | ok found ↦
          let (word_count, (offset, output)) = found in
          let (answer, after) =
            launch_xor_operation_cuda cuda operation word_count buffers (drop offset source_ids)
              output device_id tuning in
          elim answer [
            | err thrown ↦ (err thrown, after)
            | ok written ↦
                launch_operations cuda metadata source_ids device_id (suc operation_index) rest
                  (set buffers operation.output (some written)) after
          ]
    ]

-- The loop that copies the outputs back: the slots of the host as they are left, errors included.
unfoldable pub download :
    Memory
    → List (Option ℕ)
    → ShardSlots
    → List XorOperation
    → ShardSlots
    → Result (Unit {0}) × ShardSlots
unfolding slot
download memory word_counts buffers [] shards = (ok tt, shards)
download memory word_counts buffers (operation ∷ rest) shards =
    let copied = at (get_or word_counts operation.output none) >>= λ word_count.
    at (slot buffers operation.output) >>= λ buffer.
    memory.memcpy (replicate word_count 0) buffer in
    elim copied [
      | err thrown ↦ (err thrown, shards)
      | ok output ↦
          download memory word_counts buffers rest (set shards operation.output (some output))
    ]

-- What is on the device before the first launch.
pub record Uploaded : Type 0 where
  pub metadata : Metadata
  pub buffers : ShardSlots
  pub source_ids : List ℕ

unfoldable pub prepare : Cuda → Memory → DecodePlan → ShardSlots → Result Uploaded
unfolding initial_metadata scan_operations allocate upload
prepare cuda memory plan shards = do
  cuda.get_device
  initial ← initial_metadata shards
  metadata ← scan_operations (length shards) initial plan.operations
  allocated ← allocate memory metadata.required_shards metadata.word_counts
  buffers ← upload memory metadata.required_shards shards allocated
  memory.memcpy_table (length shards)
  id_buffer ← memory.malloc (length metadata.flattened_sources)
  source_ids ← memory.memcpy id_buffer metadata.flattened_sources
  ok (record { metadata = metadata; buffers = buffers; source_ids = source_ids })

-- The host's slots, and the tuning, as they are left.
unfoldable pub run_decode_plan_cuda :
    Cuda → Memory → DecodePlan → ShardSlots → Tuning → Result (Unit {0}) × ShardSlots × Tuning
unfolding validate_plan_shape is_empty prepare launch_operations download
run_decode_plan_cuda cuda memory plan shards tuning = elim (validate_plan_shape plan) [
  | err thrown ↦ (err thrown, shards, tuning)
  | ok valid ↦ elim (is_empty plan.operations) [
    | true ↦ (ok tt, shards, tuning)
    | false ↦ elim (prepare cuda memory plan shards) [
      | err thrown ↦ (err thrown, shards, tuning)
      | ok uploaded ↦
          let (launched, after) =
            launch_operations cuda uploaded.metadata uploaded.source_ids tuning.device 0
              plan.operations uploaded.buffers tuning in
          elim (launched >>= λ buffers. memory.device_synchronize >> ok buffers) [
            | err thrown ↦ (err thrown, shards, after)
            | ok buffers ↦
                let (answer, left) =
                  download memory uploaded.metadata.word_counts buffers plan.operations shards in
                (answer, left, after)
          ]
    ]
  ]
]
