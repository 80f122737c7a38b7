-- ===== src/Coding/Codec.antt =====
-- src/coding/codec.cpp, include/codedllm/coding/codec.hpp: parity generation and the execution of
-- decode plans. Shards are lists of words, and an empty optional of the slots is `none`.
pub mod Algebra
pub mod Decode
pub mod Encode
use coded_llm.Base.{
  ℕ, zero, suc, ◌+◌, ◌-◌, ◌%◌, ◌||◌, not, List, [], ◌∷◌, Bool, true, false, Option, none, some,
  length, get_elem?, set, replicate, leb, ◌==◌, Result, ok, err, ◌>>=◌, ◌>>◌, throw_if, at,
  shards_empty, shards_unequal, plan_unrecoverable, plan_dependency_count, plan_dependency_order,
  encode_shard_count, encode_source_not_systematic, decode_output_bounds, decode_no_sources,
  decode_output_present, decode_source_unavailable, decode_source_empty, decode_sources_unequal,
}
use coded_llm.Base.Sets.{is_empty}
use coded_llm.Base.Words.{xor_words}
use coded_llm.Core.{shard_id_mod}
use coded_llm.Coding.Plan.{XorOperation, DecodePlan}
use coded_llm.Coding.Graph.{ParityEquation, CodeGraph}

abbrev pub WordShard : Type 0
WordShard = List ℕ

abbrev pub ShardSlots : Type 0
ShardSlots = List (Option WordShard)

-- The loop that compares every size with that of the first shard.
unfoldable pub check_sizes : ℕ → List WordShard → Result (Unit {0})
check_sizes word_count [] = ok tt
check_sizes word_count (shard ∷ rest) = do
  throw_if (not (length shard == word_count)) shards_unequal
  check_sizes word_count rest

unfoldable pub validate_shard_words : List WordShard → Result ℕ
unfolding check_sizes is_empty
validate_shard_words [] = err shards_empty
validate_shard_words (front ∷ rest) = do
  throw_if (is_empty front) shards_empty
  check_sizes (length front) (front ∷ rest)
  ok (length front)

-- The loop over one operation's dependencies.
unfoldable pub check_earlier : ℕ → List ℕ → Result (Unit {0})
check_earlier operation_index [] = ok tt
check_earlier operation_index (dependency ∷ rest) = do
  throw_if (leb operation_index dependency) plan_dependency_order
  check_earlier operation_index rest

-- The loop over the operations' dependencies, from `operation_index` on.
unfoldable pub check_dependencies : ℕ → List (List ℕ) → Result (Unit {0})
check_dependencies operation_index [] = ok tt
check_dependencies operation_index (dependencies ∷ rest) = do
  check_earlier operation_index dependencies
  check_dependencies (operation_index + 1) rest

unfoldable pub validate_plan_shape : DecodePlan → Result (Unit {0})
validate_plan_shape plan = do
  throw_if (not plan.is_recoverable) plan_unrecoverable
  throw_if (not (length plan.dependencies == length plan.operations)) plan_dependency_count
  check_dependencies 0 plan.dependencies

-- The loop over an equation's sources.
unfoldable pub encode_sources : ℕ → List WordShard → WordShard → List ℕ → Result WordShard
encode_sources k systematic_shards parity [] = ok parity
encode_sources k systematic_shards parity (source ∷ rest) = do
  throw_if (leb k source) encode_source_not_systematic
  input ← at (get_elem? systematic_shards source)
  encode_sources k systematic_shards (xor_words parity input) rest

-- The loop over the equations. The index of a parity shard is a difference of two `uint32_t`.
unfoldable pub encode_equations :
    ℕ → List WordShard → List WordShard → List ParityEquation → Result (List WordShard)
encode_equations k systematic_shards parity_shards [] = ok parity_shards
encode_equations k systematic_shards parity_shards (equation ∷ rest) = do
  let parity_index = (equation.output + shard_id_mod - k) % shard_id_mod
  parity ← at (get_elem? parity_shards parity_index)
  parity' ← encode_sources k systematic_shards parity equation.sources
  encode_equations k systematic_shards (set parity_shards parity_index parity') rest

unfoldable pub encode_parity_cpu : CodeGraph → List WordShard → Result (List WordShard)
encode_parity_cpu graph systematic_shards = do
  throw_if (not (length systematic_shards == graph.systematic_shard_count)) encode_shard_count
  word_count ← validate_shard_words systematic_shards
  encode_equations graph.systematic_shard_count systematic_shards
      (replicate graph.parity_shard_count (replicate word_count 0)) graph.parity_equations

-- The shard in a slot, if the slot is in range and holds one.
unfoldable pub slot : ShardSlots → ℕ → Option WordShard
slot shards i = elim (get_elem? shards i) [ none ↦ none | some held ↦ held ]

abbrev pub or_throw {ℓ} : {A : Type ℓ} → Option A → Result A → Result A
or_throw none e = e
or_throw (some a) e = ok a

abbrev pub has_value {ℓ} : {A : Type ℓ} → Option A → Bool
has_value none = false
has_value (some a) = true

-- The loop over an operation's sources.
unfoldable pub decode_sources : ShardSlots → ℕ → WordShard → List ℕ → Result WordShard
decode_sources shards word_count output [] = ok output
decode_sources shards word_count output (source ∷ rest) = do
  input ← or_throw (slot shards source) (err decode_sources_unequal)
  throw_if (not (length input == word_count)) decode_sources_unequal
  decode_sources shards word_count (xor_words output input) rest

-- The new shard, for sources that are not empty.
unfoldable pub decode_output : ShardSlots → List ℕ → Result WordShard
decode_output shards [] = err decode_no_sources
decode_output shards (first_source ∷ rest) = do
  first ← or_throw (slot shards first_source) (err decode_source_unavailable)
  throw_if (length first == 0) decode_source_empty
  decode_sources shards (length first) (replicate (length first) 0) (first_source ∷ rest)

unfoldable pub execute_operation : XorOperation → ShardSlots → Result ShardSlots
execute_operation operation shards = do
  throw_if (leb (length shards) operation.output) decode_output_bounds
  throw_if (is_empty operation.sources) decode_no_sources
  throw_if (has_value (slot shards operation.output)) decode_output_present
  output ← decode_output shards operation.sources
  ok (set shards operation.output (some output))

-- The loop over the operations. The slots are the caller's: a throw leaves them as they are then.
unfoldable pub execute_operations : List XorOperation → ShardSlots → Result (Unit {0}) × ShardSlots
execute_operations [] shards = (ok tt, shards)
execute_operations (operation ∷ rest) shards = elim (execute_operation operation shards) [
  | ok shards' ↦ execute_operations rest shards'
  | err e ↦ (err e, shards)
]

unfoldable pub execute_decode_plan_cpu : DecodePlan → ShardSlots → Result (Unit {0}) × ShardSlots
execute_decode_plan_cpu plan shards = elim (validate_plan_shape plan) [
  | ok _ ↦ execute_operations plan.operations shards
  | err e ↦ (err e, shards)
]
