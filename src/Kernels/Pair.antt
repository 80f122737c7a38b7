-- ===== src/Kernels/Pair.antt =====
-- kernels/sparse_decoder.cu: `dummy_reconstruct_kernel`, thread by thread, and src/cpu_reference.cpp.
pub mod Agrees
use Prim.Native.Nat.{bit_xor}
use coded_llm.Base.{
  ℕ, zero, suc, ◌+◌, ◌*◌, List, [], ◌∷◌, Bool, true, false, length, get_elem?, set, leb, ltb,
  Result, ok, err, ◌>>=◌, ◌>>◌, at, out_of_fuel, throw_if, out_of_range,
}
use coded_llm.Coding.Codec.{WordShard}
use coded_llm.Kernels.Xor.{Thread, Writes}

-- The grid-stride loop, on fuel.
unfoldable pub pair_loop : WordShard → WordShard → ℕ → ℕ → ℕ → ℕ → Result Writes
pair_loop shard_a shard_b size stride zero index = err out_of_fuel
pair_loop shard_a shard_b size stride (suc fuel) index = elim (ltb index size) [
  | false ↦ ok []
  | true ↦ at (get_elem? shard_a index) >>= λ a. at (get_elem? shard_b index) >>= λ b.
      pair_loop shard_a shard_b size stride fuel (index + stride) >>= λ later.
      ok ((index, bit_xor a b) ∷ later)
]

-- An index rises by at least one in each round.
unfoldable pub dummy_reconstruct_kernel : ℕ → ℕ → WordShard → WordShard → ℕ → Thread → Result Writes
unfolding pair_loop
dummy_reconstruct_kernel grid_dim block_dim shard_a shard_b size (block, thread) =
    pair_loop shard_a shard_b size (block_dim * grid_dim) (suc size) (block * block_dim + thread)

-- The loop of `run_sparse_decode_cpu`, from `i` on.
unfoldable pub pair_words : WordShard → WordShard → ℕ → ℕ → WordShard → Result WordShard
pair_words shard_a shard_b i zero reconstructed_c = ok reconstructed_c
pair_words shard_a shard_b i (suc remaining) reconstructed_c = do
  a ← at (get_elem? shard_a i)
  b ← at (get_elem? shard_b i)
  throw_if (leb (length reconstructed_c) i) out_of_range
  pair_words shard_a shard_b (suc i) remaining (set reconstructed_c i (bit_xor a b))

unfoldable pub run_sparse_decode_cpu : WordShard → WordShard → WordShard → ℕ → Result WordShard
unfolding pair_words
run_sparse_decode_cpu shard_a shard_b reconstructed_c size =
    pair_words shard_a shard_b 0 size reconstructed_c
