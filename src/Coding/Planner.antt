-- ===== src/Coding/Planner.antt =====
-- src/coding/planner.cpp, include/codedllm/coding/planner.hpp: decode plans by peeling. A set is
-- a list of its members, and a map the list of its entries.
pub mod Scan
pub mod Rules
pub mod Inputs
pub mod Stopping
use coded_llm.Base.{
  ℕ, zero, suc, ◌+◌, ◌-◌, ◌%◌, ◌||◌, ◌&&◌, not, List, [], ◌∷◌, ◌++◌, map, Bool, true, false, Option,
  none, some, length, ltb, leb, ◌==◌, if◌then◌else◌, Result, ok, err, ◌>>=◌, ◌>>◌, throw_if,
  out_of_fuel, bipartite_zero_counts, bipartite_overflow, bipartite_equation_count,
  bipartite_not_contiguous, bipartite_empty_equation, bipartite_not_systematic,
  bipartite_duplicate_edge, missing_not_systematic, available_not_parity,
}
use coded_llm.Base.Maps.{find}
use coded_llm.Base.Sets.{contains, insert, erase, is_empty}
use coded_llm.Core.{shard_id_mod, max_shard_id}
use coded_llm.Coding.Plan.{XorOperation, DecodePlan, unrecoverable}
use coded_llm.Coding.GraphGenerator.{BipartiteGraph}

-- The loop over an equation's neighbours; `unique_neighbors` holds those that were seen.
unfoldable pub validate_neighbors : ℕ → List ℕ → List ℕ → Result (Unit {0})
validate_neighbors k unique_neighbors [] = ok tt
validate_neighbors k unique_neighbors (systematic ∷ rest) = do
  throw_if (leb k systematic) bipartite_not_systematic
  throw_if (contains unique_neighbors systematic) bipartite_duplicate_edge
  validate_neighbors k (insert unique_neighbors systematic) rest

abbrev or_throw {ℓ} : {A : Type ℓ} → Option A → Result A → Result A
or_throw none e = e
or_throw (some a) e = ok a

-- The loop over the parity indices, `n` of them left.
unfoldable pub validate_parities : BipartiteGraph → ℕ → ℕ → Result (Unit {0})
validate_parities graph zero parity_index = ok tt
validate_parities graph (suc n) parity_index = do
  let expected_parity = (graph.systematic_shard_count + parity_index) % shard_id_mod
  equation ←
      or_throw (find graph.parity_to_systematic expected_parity) (err bipartite_not_contiguous)
  throw_if (is_empty equation) bipartite_empty_equation
  validate_neighbors graph.systematic_shard_count [] equation
  validate_parities graph n (parity_index + 1)

unfoldable pub validate_graph : BipartiteGraph → Result (Unit {0})
validate_graph graph = do
  throw_if (graph.systematic_shard_count == 0 || graph.parity_shard_count == 0)
      bipartite_zero_counts
  throw_if
      (ltb max_shard_id graph.systematic_shard_count
        || ltb (max_shard_id + 1 - graph.systematic_shard_count) graph.parity_shard_count)
      bipartite_overflow
  throw_if (not (length graph.parity_to_systematic == graph.parity_shard_count))
      bipartite_equation_count
  validate_parities graph graph.parity_shard_count 0

-- The locals of the peeling loop.
pub record Peeling : Type 0 where
  pub remaining : List ℕ
  pub operations : List XorOperation
  pub dependencies : List (List ℕ)
  pub producing_operation : List (ℕ × ℕ)

-- The last missing neighbour of an equation, and how many there are.
unfoldable pub scan_neighbors : List ℕ → List ℕ → ℕ → ℕ → ℕ × ℕ
scan_neighbors remaining [] missing_neighbor missing_neighbor_count =
    (missing_neighbor, missing_neighbor_count)
scan_neighbors remaining (systematic ∷ rest) missing_neighbor missing_neighbor_count =
    let hit = contains remaining systematic in
    scan_neighbors remaining rest (if hit then systematic else missing_neighbor)
      (if hit then missing_neighbor_count + 1 else missing_neighbor_count)

-- The sources of an operation, and the operations that produce some of them.
unfoldable pub gather_sources : List (ℕ × ℕ) → ℕ → List ℕ → List ℕ → List ℕ → List ℕ × List ℕ
gather_sources producing missing_neighbor [] sources dependencies = (sources, dependencies)
gather_sources producing missing_neighbor (systematic ∷ rest) sources dependencies =
    let skip = systematic == missing_neighbor in
    let dependencies' : List ℕ = elim (find producing systematic) [
      | none ↦ dependencies
      | some producer ↦ dependencies ++ producer ∷ []
    ] in
    gather_sources producing missing_neighbor rest
      (if skip then sources else sources ++ systematic ∷ [])
      (if skip then dependencies else dependencies')

-- `std::sort`
unfoldable pub insert_sorted : ℕ → List ℕ → List ℕ
insert_sorted a [] = a ∷ []
insert_sorted a (x ∷ xs) = if leb a x then a ∷ x ∷ xs else x ∷ insert_sorted a xs

unfoldable pub sort : List ℕ → List ℕ
unfolding insert_sorted
sort [] = []
sort (x ∷ xs) = insert_sorted x (sort xs)

-- `std::unique` with the `erase` behind it
unfoldable pub unique : List ℕ → List ℕ
unique [] = []
unique (x ∷ []) = x ∷ []
unique (x ∷ y ∷ xs) = let rest = unique (y ∷ xs) in if x == y then rest else x ∷ rest

-- The part of the loop body that follows the test for a single missing neighbour.
unfoldable pub peel : Peeling → ℕ → List ℕ → ℕ → Peeling
peel state parity neighbors missing_neighbor =
    let (sources, dependencies) =
      gather_sources state.producing_operation missing_neighbor neighbors (parity ∷ []) [] in
    record {
      remaining = erase state.remaining missing_neighbor;
      operations = state.operations ++ record { output = missing_neighbor; sources = sources } ∷ [];
      dependencies = state.dependencies ++ unique (sort dependencies) ∷ [];
      producing_operation =
          state.producing_operation ++ (missing_neighbor, length state.operations) ∷ [];
    }

-- The loop body: the new state, and whether it made progress.
unfoldable pub visit_equation : List ℕ → Peeling → ℕ × List ℕ → Peeling × Bool
visit_equation available state (parity, neighbors) =
    if not (contains available parity)
    then (state, false)
    else let (missing_neighbor, missing_neighbor_count) =
        scan_neighbors state.remaining neighbors 0 0 in
      if not (missing_neighbor_count == 1)
      then (state, false)
      else (peel state parity neighbors missing_neighbor, true)

-- The `for` loop, left early when nothing remains.
unfoldable pub peel_pass : List ℕ → List (ℕ × List ℕ) → Peeling → Bool → Peeling × Bool
peel_pass available [] state made_progress = (state, made_progress)
peel_pass available (equation ∷ rest) state made_progress =
    let (state', peeled) = visit_equation available state equation in
    let later = peel_pass available rest state' (made_progress || peeled) in
    if peeled && is_empty state'.remaining then (state', true) else later

-- The `while` loop, on fuel.
unfoldable pub peel_loop : List ℕ → List (ℕ × List ℕ) → ℕ → Peeling → Result DecodePlan
peel_loop available equations zero state = err out_of_fuel
peel_loop available equations (suc fuel) state =
    let (state', made_progress) = peel_pass available equations state false in
    let rest = peel_loop available equations fuel state' in
    if is_empty state.remaining
    then ok (record {
      operations = state.operations;
      dependencies = state.dependencies;
      is_recoverable = true;
    })
    else if made_progress
    then rest
    else ok unrecoverable

unfoldable pub check_missing : ℕ → List ℕ → Result (Unit {0})
check_missing k [] = ok tt
check_missing k (missing ∷ rest) = do
  throw_if (leb k missing) missing_not_systematic
  check_missing k rest

unfoldable pub check_available : ℕ → ℕ → List ℕ → Result (Unit {0})
check_available k total_shard_count [] = ok tt
check_available k total_shard_count (parity ∷ rest) = do
  throw_if (ltb parity k || leb total_shard_count parity) available_not_parity
  check_available k total_shard_count rest

abbrev pub start : List ℕ → Peeling
start missing = record {
  remaining = missing;
  operations = [];
  dependencies = [];
  producing_operation = [];
}

-- Each round of the loop takes a shard from `remaining`, so one round more than it has is enough.
unfoldable pub create_plan : BipartiteGraph → List ℕ → List ℕ → Result DecodePlan
create_plan graph missing available = do
  validate_graph graph
  check_missing graph.systematic_shard_count missing
  check_available graph.systematic_shard_count
      (graph.systematic_shard_count + graph.parity_shard_count) available
  peel_loop available graph.parity_to_systematic (suc (length missing)) (start missing)

-- The overload for which every parity shard is available.
unfoldable pub create_plan_all : BipartiteGraph → List ℕ → Result DecodePlan
create_plan_all graph missing =
    create_plan graph missing (map (λ equation. equation.0) graph.parity_to_systematic)
