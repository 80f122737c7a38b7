-- ===== src/Simulation/RecoveryQueue.antt =====
-- src/simulation/recovery_queue.cpp, include/codedllm/simulation/recovery_queue.hpp: a bounded
-- queue of recovery jobs over a number of slots. Times are integers, of which no sum overflows.
pub mod Order
pub mod Invariant
pub mod Schedule
use coded_llm.Base.{
  ℕ, zero, suc, ◌+◌, ◌-◌, ◌%◌, ◌^◌, List, [], ◌∷◌, ◌++◌, Bool, true, false, Option, none, some, not,
  length, get_or, set, replicate, leb, ltb, ◌==◌, if◌then◌else◌, Result, ok, ◌>>=◌, ◌>>◌, throw_if,
  service_time_not_positive, concurrency_zero, time_not_monotonic,
}
use coded_llm.Base.Int.{ℤ, pos, negsuc, ◌+ℤ◌, ◌-ℤ◌, ltb_ℤ, max_ℤ}

pub record RecoveryQueue : Type 0 where
  pub slot_available_times : List ℤ
  pub max_queue_depth : ℕ
  pub current_queue_depth : ℕ
  -- the `std::multiset`, by rising time
  pub job_completion_times : List ℤ
  pub current_time : ℤ

unfoldable pub validate_service_time : ℤ → Result (Unit {0})
validate_service_time service_time =
    throw_if (not (ltb_ℤ (pos 0) service_time)) service_time_not_positive

-- The constructor.
unfoldable pub recovery_queue : ℕ → ℕ → Result RecoveryQueue
recovery_queue concurrency_limit max_queue_depth = do
  throw_if (concurrency_limit == 0) concurrency_zero
  ok (record {
    slot_available_times = replicate concurrency_limit (pos 0);
    max_queue_depth = max_queue_depth;
    current_queue_depth = 0;
    job_completion_times = [];
    current_time = pos 0;
  })

-- How many jobs of the multiset stand before `upper_bound(now)`, and the others.
unfoldable pub completed_count : ℤ → List ℤ → ℕ
completed_count now [] = 0
completed_count now (t ∷ times) = if ltb_ℤ now t then 0 else suc (completed_count now times)

unfoldable pub pending_jobs : ℤ → List ℤ → List ℤ
pending_jobs now [] = []
pending_jobs now (t ∷ times) = if ltb_ℤ now t then t ∷ times else pending_jobs now times

-- The depth is a `std::size_t`.
unfoldable pub advance_time : RecoveryQueue → ℤ → Result RecoveryQueue
advance_time queue now = do
  throw_if (ltb_ℤ now queue.current_time) time_not_monotonic
  let completed = completed_count now queue.job_completion_times
  ok (record queue {
    current_queue_depth = (queue.current_queue_depth + 2 ^ 64 - completed) % 2 ^ 64;
    job_completion_times = pending_jobs now queue.job_completion_times;
    current_time = now;
  })

-- `std::min_element`: the index of the first least time, `best` so far at `best_index`.
unfoldable pub min_element : ℕ → ℤ → ℕ → List ℤ → ℕ
min_element best_index best index [] = best_index
min_element best_index best index (t ∷ times) =
    min_element (if ltb_ℤ t best then index else best_index) (if ltb_ℤ t best then t else best)
      (index + 1) times

-- The constructor makes at least one slot.
unfoldable pub earliest_slot : List ℤ → ℕ
unfolding min_element
earliest_slot [] = 0
earliest_slot (t ∷ times) = min_element 0 t 1 times

unfoldable pub get_expected_recovery_cost : RecoveryQueue → ℤ → ℤ → Result (Option ℤ)
unfolding validate_service_time
get_expected_recovery_cost queue now service_time = do
  throw_if (ltb_ℤ now queue.current_time) time_not_monotonic
  validate_service_time service_time
  let earliest =
      get_or queue.slot_available_times (earliest_slot queue.slot_available_times) (pos 0)
  let start_time = max_ℤ now earliest
  ok (
      if leb queue.max_queue_depth queue.current_queue_depth
      then none
      else some (start_time -ℤ now +ℤ service_time))

-- `job_completion_times_.insert`
unfoldable pub insert_time : ℤ → List ℤ → List ℤ
insert_time a [] = a ∷ []
insert_time a (t ∷ times) = if ltb_ℤ a t then a ∷ t ∷ times else t ∷ insert_time a times

unfoldable pub submit_job : RecoveryQueue → ℤ → ℤ → Result (RecoveryQueue × Bool)
unfolding validate_service_time
submit_job queue now service_time = do
  throw_if (ltb_ℤ now queue.current_time) time_not_monotonic
  validate_service_time service_time
  let index = earliest_slot queue.slot_available_times
  let earliest = get_or queue.slot_available_times index (pos 0)
  let completion_time = max_ℤ now earliest +ℤ service_time
  ok (
      if leb queue.max_queue_depth queue.current_queue_depth then (queue, false) else (
        record queue {
          slot_available_times = set queue.slot_available_times index completion_time;
          job_completion_times = insert_time completion_time queue.job_completion_times;
          current_queue_depth = (queue.current_queue_depth + 1) % 2 ^ 64;
        },
        true,
      ))
