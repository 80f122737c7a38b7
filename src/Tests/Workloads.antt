-- ===== src/Tests/Workloads.antt =====
-- A workload of one request with two systematic shards and one parity shard, and its replication.
use coded_llm.Base.{ℕ, ◌+◌, ◌≡◌, refl, List, [], ◌∷◌, true, false, ok, leb, ltb}
use coded_llm.Base.Int.{ℤ, pos, ◌+ℤ◌}
use coded_llm.Base.Sets.{contains}
use coded_llm.Coding.GraphGenerator.{iota}
use coded_llm.Simulation.ClusterSimulator.{GlobalArrivalEvent}
use coded_llm.Simulation.Workload.{
  Random, WorkloadConfig, validate_config, validate_systematic_shard_count,
  validate_replication_events, generate_request_arrival_times, arrival_times, delay_sampler, sample,
  replicate_event, replicate_events, replicate_selected, is_replicated, pick_replicas,
  select_capacity_normalized_replicas, apply_replication, apply_capacity_normalized_replication,
}
use coded_llm.Simulation.Workload.Replication.{AllSooner, apply_replication-AllSooner}
use coded_llm.Simulation.Workload.Normalized.{
  AllNormalized, apply_capacity_normalized_replication-AllNormalized,
}
use coded_llm.Simulation.Workload.Selection.{
  IsShuffle, IsSelection, select_capacity_normalized_replicas-IsSelection,
}

-- Numbers without randomness: a request arrives after 3, a shard after 2.
abbrev constant : Random
constant = record {
  Real = ℕ;
  Generator = ℕ;
  Normal = ℤ;
  zero_real = 0;
  one_real = 1;
  is_finite = λ x. true;
  le_real = leb;
  lt_real = ltb;
  add_real = λ x y. x + y;
  in_microseconds = λ x. x;
  llround = pos;
  seeded = λ seed. seed;
  exponential = λ rate g. (3, g);
  bernoulli = λ p g. (false, g);
  normal = λ mean stddev. mean;
  draw = λ n g. (2, n, g);
  shuffle = λ xs g. (xs, g);
}

abbrev config : WorkloadConfig constant
config = record {
  num_requests = 1;
  request_arrival_rate_hz = 1;
  straggler_probability = 0;
  normal_mean = pos 2;
  normal_stddev = pos 0;
  straggler_mean = pos 9;
  straggler_stddev = pos 0;
  seed = 7;
}

abbrev arriving : ℕ → ℤ → GlobalArrivalEvent
arriving shard time = record {
  arrival_time = time;
  request_id = 0;
  shard_id = shard;
  request_start_time = pos 3;
}

abbrev events : List GlobalArrivalEvent
events = arriving 0 (pos 9) ∷ arriving 1 (pos 4) ∷ arriving 2 (pos 8) ∷ []

-- Shard 0 arrives at 5 with its replica; shard 1 is early already; shard 2 is a parity shard.
abbrev sooner : List GlobalArrivalEvent
sooner = arriving 0 (pos 5) ∷ arriving 1 (pos 4) ∷ arriving 2 (pos 8) ∷ []

apply_replication-sooner : apply_replication constant events config 2 11 ≡ ok sooner
unfolding apply_replication validate_config validate_systematic_shard_count
    validate_replication_events generate_request_arrival_times arrival_times delay_sampler sample
    replicate_event replicate_events ◌+ℤ◌
apply_replication-sooner = refl

apply_capacity_normalized_replication-sooner :
    apply_capacity_normalized_replication constant events config 2 1 11 ≡ ok sooner
unfolding apply_capacity_normalized_replication validate_config validate_systematic_shard_count
    validate_replication_events generate_request_arrival_times arrival_times delay_sampler sample
    replicate_event replicate_selected is_replicated select_capacity_normalized_replicas
    pick_replicas iota contains ◌+ℤ◌
apply_capacity_normalized_replication-sooner = refl

apply_replication-AllSooner_example : AllSooner 2 events sooner
apply_replication-AllSooner_example =
    apply_replication-AllSooner constant 2 events sooner config 11 apply_replication-sooner

apply_capacity_normalized_replication-AllNormalized_example :
    AllNormalized constant 2 1 11
      (generate_request_arrival_times constant config)
      (delay_sampler constant config 11)
      events
      sooner
apply_capacity_normalized_replication-AllNormalized_example =
    apply_capacity_normalized_replication-AllNormalized constant 2 events sooner config 1 11
      apply_capacity_normalized_replication-sooner

constant-IsShuffle : IsShuffle constant
constant-IsShuffle = record {
  reorders = λ xs g. record {
    sized = refl;
    position = λ i. i;
    entry = λ i lt. refl;
    once = λ i j p q same. same;
  };
}

selected_two : select_capacity_normalized_replicas constant 1 3 2 11 ≡ ok (2 ∷ 0 ∷ [])
unfolding select_capacity_normalized_replicas validate_systematic_shard_count pick_replicas iota
selected_two = refl

select_capacity_normalized_replicas-IsSelection_example : IsSelection 3 2 (2 ∷ 0 ∷ [])
select_capacity_normalized_replicas-IsSelection_example =
    select_capacity_normalized_replicas-IsSelection constant 1 3 2 11 (2 ∷ 0 ∷ [])
      constant-IsShuffle selected_two
