-- ===== src/Coding/Graph.antt =====
-- src/coding/graph.cpp, include/codedllm/coding/graph.hpp: the validated code graph.
use coded_llm.Base.{
  ℕ, ◌+◌, ◌-◌, ◌%◌, ◌||◌, not, List, [], ◌∷◌, length, ltb, leb, ◌==◌, Result, ok, ◌>>◌, throw_if,
  graph_zero_counts, graph_count_overflow, graph_equation_count, graph_output_bounds,
  graph_duplicate_output, graph_empty_equation, graph_source_bounds, graph_duplicate_edge,
}
use coded_llm.Base.Sets.{contains, insert, is_empty}
use coded_llm.Core.{shard_id_mod, max_shard_id}

pub record ParityEquation : Type 0 where
  pub output : ℕ
  pub sources : List ℕ

pub record CodeGraph : Type 0 where
  pub systematic_shard_count : ℕ
  pub parity_shard_count : ℕ
  pub parity_equations : List ParityEquation

-- A sum of two `uint32_t`.
unfoldable pub total_shard_count : CodeGraph → ℕ
total_shard_count g = (g.systematic_shard_count + g.parity_shard_count) % shard_id_mod

-- The loop over one equation's sources; `sources` holds those that were seen.
unfoldable pub validate_sources : ℕ → List ℕ → List ℕ → Result (Unit {0})
validate_sources total_shards sources [] = ok tt
validate_sources total_shards sources (source ∷ rest) = do
  throw_if (leb total_shards source) graph_source_bounds
  throw_if (contains sources source) graph_duplicate_edge
  validate_sources total_shards (insert sources source) rest

-- The loop over the equations; `outputs` holds the outputs that were seen.
unfoldable pub validate_equations : ℕ → ℕ → List ℕ → List ParityEquation → Result (Unit {0})
validate_equations k total_shards outputs [] = ok tt
validate_equations k total_shards outputs (equation ∷ rest) = do
  throw_if (ltb equation.output k || leb total_shards equation.output) graph_output_bounds
  throw_if (contains outputs equation.output) graph_duplicate_output
  throw_if (is_empty equation.sources) graph_empty_equation
  validate_sources total_shards [] equation.sources
  validate_equations k total_shards (insert outputs equation.output) rest

unfoldable pub validate : CodeGraph → Result (Unit {0})
validate g = do
  throw_if (g.systematic_shard_count == 0 || g.parity_shard_count == 0) graph_zero_counts
  throw_if (ltb (max_shard_id - g.parity_shard_count) g.systematic_shard_count) graph_count_overflow
  throw_if (not (length g.parity_equations == g.parity_shard_count)) graph_equation_count
  validate_equations g.systematic_shard_count (total_shard_count g) [] g.parity_equations

-- The constructor.
unfoldable pub code_graph : ℕ → ℕ → List ParityEquation → Result CodeGraph
code_graph k m equations = do
  let g : CodeGraph = record {
    systematic_shard_count = k;
    parity_shard_count = m;
    parity_equations = equations;
  }
  validate g
  ok g
