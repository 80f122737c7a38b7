-- ===== src/Runtime/Policy.antt =====
-- src/runtime/policy.cpp, include/codedllm/runtime/policy.hpp: which shards have arrived, and
-- whether to recover the others. Times are integers, of which no sum overflows.
pub mod Tracker
use coded_llm.Base.{
  ℕ, zero, suc, ◌+◌, ◌%◌, ◌^◌, ◌||◌, not, List, [], ◌∷◌, ◌++◌, Bool, true, false, Option, none,
  some, length, get_elem?, set, replicate, ltb, leb, ◌==◌, if◌then◌else◌, Result, ok, ◌>>=◌, ◌>>◌,
  throw_if, tracker_zero_counts, tracker_overflow, arrived_out_of_bounds, shard_out_of_bounds,
  tracker_dimensions,
}
use coded_llm.Base.Int.{ℤ, ltb_ℤ}
use coded_llm.Core.{max_shard_id}
use coded_llm.Coding.Plan.{DecodePlan}
use coded_llm.Coding.GraphGenerator.{BipartiteGraph}
use coded_llm.Coding.Planner.{create_plan, create_plan_all}

pub data PolicyDecision : Type 0 where
  wait recover unrecoverable : PolicyDecision

pub record CostEstimates : Type 0 where
  pub expected_wait_remaining : ℤ
  pub expected_recovery_cost : ℤ

pub record ShardArrivalTracker : Type 0 where
  pub systematic_shard_count : ℕ
  pub parity_shard_count : ℕ
  pub arrivals : List (Option ℤ)

-- The constructor. The total is a sum of two `uint64_t`.
unfoldable pub shard_arrival_tracker : ℕ → ℕ → Result ShardArrivalTracker
shard_arrival_tracker k m = do
  throw_if (k == 0 || m == 0) tracker_zero_counts
  let total_shard_count = (k + m) % 2 ^ 64
  throw_if (ltb max_shard_id k || ltb max_shard_id m || ltb (max_shard_id + 1) total_shard_count)
      tracker_overflow
  ok (record {
    systematic_shard_count = k;
    parity_shard_count = m;
    arrivals = replicate total_shard_count none;
  })

-- The earlier of the recorded arrival, if there is one, and the new one.
unfoldable pub earlier : Option ℤ → ℤ → ℤ
earlier none now = now
earlier (some recorded) now = if ltb_ℤ now recorded then now else recorded

-- `arrivals_.at(id)`, which the constructor makes long enough for every id that is asked for.
unfoldable pub recorded_at : List (Option ℤ) → ℕ → Option ℤ
recorded_at arrivals id = elim (get_elem? arrivals id) [ none ↦ none | some recorded ↦ recorded ]

unfoldable pub mark_arrived : ShardArrivalTracker → ℕ → ℤ → Result ShardArrivalTracker
unfolding recorded_at earlier
mark_arrived tracker id now = do
  throw_if (leb (length tracker.arrivals) id) arrived_out_of_bounds
  ok (record tracker {
    arrivals = set tracker.arrivals id (some (earlier (recorded_at tracker.arrivals id) now));
  })

unfoldable pub has_value_at : List (Option ℤ) → ℕ → Bool
unfolding recorded_at
has_value_at arrivals id = elim (recorded_at arrivals id) [ none ↦ false | some _ ↦ true ]

-- The loop over the ids from `id` on, `n` of them left.
unfoldable pub all_arrived : List (Option ℤ) → ℕ → ℕ → Bool
all_arrived arrivals zero id = true
all_arrived arrivals (suc n) id =
    let rest = all_arrived arrivals n (id + 1) in
    if not (has_value_at arrivals id) then false else rest

unfoldable pub is_systematic_complete : ShardArrivalTracker → Bool
is_systematic_complete tracker = all_arrived tracker.arrivals tracker.systematic_shard_count 0

unfoldable pub missing_from : List (Option ℤ) → ℕ → ℕ → List ℕ
missing_from arrivals zero id = []
missing_from arrivals (suc n) id =
    let rest = missing_from arrivals n (id + 1) in
    if not (has_value_at arrivals id) then id ∷ rest else rest

unfoldable pub get_missing_systematic : ShardArrivalTracker → List ℕ
get_missing_systematic tracker = missing_from tracker.arrivals tracker.systematic_shard_count 0

unfoldable pub has_arrived : ShardArrivalTracker → ℕ → Result Bool
has_arrived tracker id = do
  throw_if (leb (length tracker.arrivals) id) shard_out_of_bounds
  ok (has_value_at tracker.arrivals id)

pub record RecoveryPolicy : Type 0 where
  pub graph : BipartiteGraph

-- The constructor: it plans for no missing shard, which checks the graph.
unfoldable pub recovery_policy : BipartiteGraph → Result RecoveryPolicy
recovery_policy graph = do _ ← create_plan_all graph []; ok (record { graph = graph })

-- The loop that gathers the parity shards that have arrived.
unfoldable pub available_parity : ShardArrivalTracker → List (ℕ × List ℕ) → Result (List ℕ)
available_parity tracker [] = ok []
available_parity tracker ((parity, systematic) ∷ rest) = do
  arrived ← has_arrived tracker parity
  later ← available_parity tracker rest
  ok (if arrived then parity ∷ later else later)

unfoldable pub policy_create_plan : RecoveryPolicy → ShardArrivalTracker → Result DecodePlan
policy_create_plan policy tracker = do
  throw_if
      (not (tracker.systematic_shard_count == policy.graph.systematic_shard_count)
        || not (tracker.parity_shard_count == policy.graph.parity_shard_count))
      tracker_dimensions
  available ← available_parity tracker policy.graph.parity_to_systematic
  create_plan policy.graph (get_missing_systematic tracker) available

unfoldable pub evaluate_plan : DecodePlan → CostEstimates → PolicyDecision
evaluate_plan plan costs =
    if not plan.is_recoverable
    then unrecoverable
    else (if ltb_ℤ costs.expected_recovery_cost costs.expected_wait_remaining
        then recover
        else wait)

unfoldable pub evaluate :
    RecoveryPolicy → ShardArrivalTracker → CostEstimates → Result PolicyDecision
evaluate policy tracker costs =
    if is_systematic_complete tracker
    then ok wait
    else (do plan ← policy_create_plan policy tracker; ok (evaluate_plan plan costs))
