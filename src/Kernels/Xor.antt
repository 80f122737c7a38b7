-- ===== src/Kernels/Xor.antt =====
-- kernels/sparse_decoder.cu: the kernels. What a thread does is the list of its writes, each an
-- index and a word; a read or a write outside of a buffer is `err out_of_range`. The device runs
-- the threads of a grid in an order of its own.
pub mod Words
pub mod Stores
pub mod Grid
use Prim.Native.Nat.{bit_xor}
use coded_llm.Base.{
  ℕ, zero, suc, ◌+◌, ◌-◌, ◌*◌, ◌/◌, List, [], ◌∷◌, ◌++◌, Bool, true, false, ◌&&◌, Option, none,
  some, length, get_elem?, set, take, leb, ltb, ◌==◌, if◌then◌else◌, Result, ok, err, ◌>>=◌, ◌>>◌,
  at, out_of_fuel, throw_if, out_of_range,
}
use coded_llm.Coding.Codec.{WordShard, ShardSlots, slot}

-- A thread by its block and its place in the block.
abbrev pub Thread : Type 0
Thread = ℕ × ℕ

abbrev pub Writes : Type 0
Writes = List (ℕ × ℕ)

-- `value ^= shard_table[source_ids[source_index]][word_index]` for all sources.
unfoldable pub xor_word : ShardSlots → List ℕ → ℕ → ℕ → Result ℕ
xor_word shard_table [] word_index value = ok value
xor_word shard_table (source ∷ rest) word_index value = do
  buffer ← at (slot shard_table source)
  input ← at (get_elem? buffer word_index)
  xor_word shard_table rest word_index (bit_xor value input)

pub record Uint4 : Type 0 where
  pub x : ℕ
  pub y : ℕ
  pub z : ℕ
  pub w : ℕ

-- `reinterpret_cast<const uint4*>(buffer)[vector_index]`
unfoldable pub load_uint4 : WordShard → ℕ → Result Uint4
load_uint4 buffer vector_index = do
  x ← at (get_elem? buffer (vector_index * 4))
  y ← at (get_elem? buffer (vector_index * 4 + 1))
  z ← at (get_elem? buffer (vector_index * 4 + 2))
  w ← at (get_elem? buffer (vector_index * 4 + 3))
  ok (record { x = x; y = y; z = z; w = w })

-- The loop over the sources for one vector.
unfoldable pub xor_vector : ShardSlots → List ℕ → ℕ → Uint4 → Result Uint4
unfolding load_uint4
xor_vector shard_table [] vector_index value = ok value
xor_vector shard_table (source ∷ rest) vector_index value = do
  buffer ← at (slot shard_table source)
  input ← load_uint4 buffer vector_index
  xor_vector shard_table rest vector_index (record {
    x = bit_xor value.x input.x;
    y = bit_xor value.y input.y;
    z = bit_xor value.z input.z;
    w = bit_xor value.w input.w;
  })

-- The grid-stride loop over the vectors, on fuel.
unfoldable pub vector_loop : ShardSlots → List ℕ → ℕ → ℕ → ℕ → ℕ → Result Writes
vector_loop shard_table source_ids vector_word_count stride zero vector_index = err out_of_fuel
vector_loop shard_table source_ids vector_word_count stride (suc fuel) vector_index =
    elim (ltb vector_index vector_word_count) [
      | false ↦ ok []
      | true ↦
          xor_vector shard_table source_ids vector_index (record { x = 0; y = 0; z = 0; w = 0 })
          >>= λ value.
              vector_loop shard_table source_ids vector_word_count stride fuel
                (vector_index + stride)
              >>= λ later. ok (
                  (vector_index * 4, value.x)
                  ∷ (vector_index * 4 + 1, value.y)
                  ∷ (vector_index * 4 + 2, value.z)
                  ∷ (vector_index * 4 + 3, value.w)
                  ∷ later)
    ]

-- The words behind the last whole vector: the first threads of the first block take one each.
unfoldable pub tail_word : ShardSlots → List ℕ → ℕ → Thread → Result Writes
unfolding xor_word
tail_word shard_table source_ids word_count (block, thread) =
    let tail_start = word_count / 4 * 4 in
    elim (block == 0 && ltb thread (word_count - tail_start)) [
      | false ↦ ok []
      | true ↦ xor_word shard_table source_ids (tail_start + thread) 0 >>= λ value.
          ok ((tail_start + thread, value) ∷ [])
    ]

-- One thread of `xor_reconstruct_kernel_dynamic`. An index rises by at least one in each round.
unfoldable pub xor_reconstruct_kernel_dynamic :
    ℕ → ℕ → ShardSlots → List ℕ → ℕ → ℕ → Thread → Result Writes
unfolding vector_loop tail_word
xor_reconstruct_kernel_dynamic grid_dim block_dim shard_table source_ids source_count word_count
      (block, thread) =
    do
      let ids = take source_count source_ids
      vectors ←
          vector_loop shard_table ids (word_count / 4) (block_dim * grid_dim) (suc (word_count / 4))
            (block * block_dim + thread)
      words ← tail_word shard_table ids word_count (block, thread)
      ok (vectors ++ words)

-- The template: the count of sources is a constant.
unfoldable pub xor_reconstruct_kernel_optimized :
    (degree : ℕ) → ℕ → ℕ → ShardSlots → List ℕ → ℕ → Thread → Result Writes
unfolding vector_loop tail_word
xor_reconstruct_kernel_optimized degree grid_dim block_dim shard_table source_ids word_count
      (block, thread) =
    do
      let ids = take degree source_ids
      vectors ←
          vector_loop shard_table ids (word_count / 4) (block_dim * grid_dim) (suc (word_count / 4))
            (block * block_dim + thread)
      words ← tail_word shard_table ids word_count (block, thread)
      ok (vectors ++ words)

-- The writes of a thread.
unfoldable pub store_all : Writes → WordShard → Result WordShard
store_all [] output = ok output
store_all ((index, word) ∷ rest) output = do
  throw_if (leb (length output) index) out_of_range
  store_all rest (set output index word)

-- A grid: its threads one after another, in the order in which the device runs them.
unfoldable pub run_threads : List Thread → (Thread → Result Writes) → WordShard → Result WordShard
unfolding store_all
run_threads [] kernel output = ok output
run_threads (thread ∷ rest) kernel output = do
  writes ← kernel thread
  stored ← store_all writes output
  run_threads rest kernel stored
