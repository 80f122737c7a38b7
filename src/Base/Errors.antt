-- ===== src/Base/Errors.antt =====
-- Exceptions as values: one constructor for each `throw` of the sources, grouped by file.
use mathlib.Core.Path.{◌≡◌, refl}
use mathlib.Core.Logic.{◌⊎◌, inl, inr}
use mathlib.Core.Bool.{Bool, true, false}
use mathlib.Core.Option.{Option, none, some}
use native.Mathlib.Omega.{arith}

pub data Error : Type 0 where
  -- a container's `at` out of its range
  out_of_range : Error
  -- a model's fuel used up
  out_of_fuel : Error
  -- types.hpp
  zero_dimension byte_length_overflow : Error
  -- graph.cpp
  graph_zero_counts graph_count_overflow graph_equation_count graph_output_bounds
        graph_duplicate_output graph_empty_equation graph_source_bounds graph_duplicate_edge :
      Error
  -- graph_generator.cpp
  regular_zero regular_degree regular_overflow : Error
  -- planner.cpp
  bipartite_zero_counts bipartite_overflow bipartite_equation_count bipartite_not_contiguous
        bipartite_empty_equation bipartite_not_systematic bipartite_duplicate_edge
        missing_not_systematic available_not_parity :
      Error
  -- codec.cpp
  shards_empty shards_unequal plan_unrecoverable plan_dependency_count plan_dependency_order
        encode_shard_count encode_source_not_systematic decode_output_bounds decode_no_sources
        decode_output_present decode_source_unavailable decode_source_empty decode_sources_unequal :
      Error
  -- policy.cpp
  tracker_zero_counts tracker_overflow arrived_out_of_bounds shard_out_of_bounds
        tracker_dimensions :
      Error
  -- coordinator.cpp
  no_executor no_oracle no_transport request_active unknown_request arrival_out_of_bounds
        arrival_empty arrival_unequal unknown_request_or_shard :
      Error
  -- recovery_queue.cpp
  service_time_not_positive concurrency_zero time_not_monotonic : Error
  -- simulator.cpp and cluster_simulator.cpp
  no_cost_oracle no_estimator arrival_negative recovery_cost_negative no_natural_arrival
        start_time_differs arrival_before_start wait_cost_negative :
      Error
  -- workload_generator.cpp
  no_requests rate_not_positive probability_out_of_range delay_negative shard_count_out_of_bounds
        workload_overflow replica_count_too_large replication_request_bounds
        replication_schedule_differs :
      Error
  -- cuda_utils.cuh and tuning.cuh
  cuda_failed no_multiprocessors : Error
  -- sparse_decoder.cu
  staged_no_slots staged_finalized staged_out_of_bounds staged_empty staged_present staged_executed
        staged_slots_differ staged_shards_differ :
      Error
  -- cuda_recovery_executor.cpp
  executor_concurrency_zero executor_capacity_overflow executor_cost_not_positive
        staged_count_differs no_completion submitted_count_differs :
      Error

pub data Result {ℓ} (A : Type ℓ) : Type ℓ where
  ok : A → Result A
  err : Error → Result A

-- The statements behind one that throws are not reached.
infixl 5 ◌>>=◌ ◌>>◌
abbrev pub ◌>>=◌ {ℓ κ} : {A : Type ℓ} {B : Type κ} → Result A → (A → Result B) → Result B
err thrown >>= next = err thrown
ok value >>= next = next value

abbrev pub ◌>>◌ {ℓ} : {B : Type ℓ} → Result (Unit {0}) → Result B → Result B
check >> next = check >>= λ passed. next

-- `if (test) throw e;`
abbrev pub throw_if : Bool → Error → Result (Unit {0})
throw_if true e = err e
throw_if false e = ok tt

-- `container.at(i)`
abbrev pub at {ℓ} : {A : Type ℓ} → Option A → Result A
at none = err out_of_range
at (some a) = ok a

-- What a result of two statements says of each of them.
pub >>=-eq-ok {ℓ κ} :
    {A : Type ℓ} {B : Type κ} (first : Result A) (next : A → Result B) {result : B}
    → (first >>= next) ≡ ok result
    → (value : A) × (first ≡ ok value) × (next value ≡ ok result)
>>=-eq-ok (err thrown) next h = cc
>>=-eq-ok (ok value) next h = (value, refl, h)

pub throw_if-eq-ok {ℓ} :
    {B : Type ℓ} (t : Bool) (e : Error) (k : Result B) {b : B}
    → (throw_if t e >> k) ≡ ok b
    → (t ≡ false) × (k ≡ ok b)
throw_if-eq-ok true e k h = cc
throw_if-eq-ok false e k h = (refl, h)

pub Result-cases {ℓ} :
    {A : Type ℓ} (r : Result A) → ((a : A) × (r ≡ ok a)) ⊎ ((e : Error) × (r ≡ err e))
Result-cases (ok a) = inl (a, refl)
Result-cases (err e) = inr (e, refl)

pub ok-injective {ℓ} : {A : Type ℓ} {a b : A} → ok a ≡ ok b → a ≡ b
ok-injective h = ground (h, arith)
