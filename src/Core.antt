-- ===== src/Core.antt =====
-- include/codedllm/core/types.hpp: identifiers, and the dimensions of a shard.
use coded_llm.Base.{
  ℕ, ◌*◌, ◌/◌, ◌^◌, ◌||◌, ltb, ◌==◌, Result, ok, ◌>>=◌, ◌>>◌, throw_if, zero_dimension,
  byte_length_overflow,
}

-- A `ShardId` is a `uint32_t`.
abbrev pub shard_id_mod : ℕ
shard_id_mod = 2 ^ 32

abbrev pub max_shard_id : ℕ
max_shard_id = 4294967295

-- `std::numeric_limits<std::size_t>::max()`
abbrev pub max_size : ℕ
max_size = 18446744073709551615

pub record ShardLayout : Type 0 where
  pub word_width : ℕ
  pub element_count : ℕ
  pub byte_length : ℕ

unfoldable pub calculate_byte_length : ℕ → ℕ → Result ℕ
calculate_byte_length word_width element_count = do
  throw_if (word_width == 0 || element_count == 0) zero_dimension
  throw_if (ltb (max_size / word_width) element_count) byte_length_overflow
  ok (word_width * element_count)

-- The constructor.
unfoldable pub shard_layout : ℕ → ℕ → Result ShardLayout
unfolding calculate_byte_length
shard_layout word_width element_count = do
  byte_length ← calculate_byte_length word_width element_count
  ok (record { word_width = word_width; element_count = element_count; byte_length = byte_length })
