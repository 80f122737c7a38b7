-- ===== src/Coding/GraphGenerator.antt =====
-- src/coding/graph_generator.cpp, include/codedllm/coding/graph_generator.hpp. The random
-- generator and the shuffle of the standard library are parameters.
use coded_llm.Base.{
  ℕ, zero, suc, ◌+◌, ◌-◌, ◌%◌, ◌||◌, List, [], ◌∷◌, ltb, ◌==◌, take, Result, ok, ◌>>◌, throw_if,
  regular_zero, regular_degree, regular_overflow,
}
use coded_llm.Core.{shard_id_mod, max_shard_id}

-- The map is the list of its entries by rising key.
pub record BipartiteGraph : Type 0 where
  pub systematic_shard_count : ℕ
  pub parity_shard_count : ℕ
  pub parity_to_systematic : List (ℕ × List ℕ)

-- `std::iota`: the `n` numbers from `start` on.
unfoldable pub iota : ℕ → ℕ → List ℕ
iota zero start = []
iota (suc n) start = start ∷ iota n (start + 1)

module _ {Generator : Type 0} (shuffle : Generator → List ℕ → List ℕ × Generator) where
  -- The loop over the parity indices, `n` of them left.
  unfoldable pub regular_equations : ℕ → ℕ → ℕ → ℕ → List ℕ → Generator → List (ℕ × List ℕ)
  regular_equations k degree zero parity_index candidates generator = []
  regular_equations k degree (suc n) parity_index candidates generator =
      let (shuffled, generator') = shuffle generator candidates in
      ((k + parity_index) % shard_id_mod, take degree shuffled)
      ∷ regular_equations k degree n (parity_index + 1) shuffled generator'

  -- `seeded` makes the generator from a seed.
  unfoldable pub generate_regular_graph : (ℕ → Generator) → ℕ → ℕ → ℕ → ℕ → Result BipartiteGraph
  generate_regular_graph seeded k m degree seed = do
    throw_if (k == 0 || m == 0 || degree == 0) regular_zero
    throw_if (ltb k degree) regular_degree
    throw_if (ltb max_shard_id k || ltb (max_shard_id + 1 - k) m) regular_overflow
    ok (record {
      systematic_shard_count = k;
      parity_shard_count = m;
      parity_to_systematic = regular_equations k degree m 0 (iota k 0) (seeded seed);
    })
