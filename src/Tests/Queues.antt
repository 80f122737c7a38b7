-- ===== src/Tests/Queues.antt =====
-- A queue of one slot in which one job waits and another one can.
use coded_llm.Base.{◌≡◌, refl, [], ◌∷◌, true, some, ok, arith}
use coded_llm.Base.Int.{pos, ◌+ℤ◌, ◌-ℤ◌}
use coded_llm.Simulation.RecoveryQueue.{
  RecoveryQueue, recovery_queue, advance_time, completed_count, pending_jobs, earliest_slot,
  min_element, get_expected_recovery_cost, insert_time, submit_job, validate_service_time,
}
use coded_llm.Simulation.RecoveryQueue.Invariant.{
  IsValid, recovery_queue-IsValid, advance_time-IsValid, submit_job-IsValid,
}
use coded_llm.Simulation.RecoveryQueue.Schedule.{IsScheduled, expected_cost-IsScheduled}

abbrev empty : RecoveryQueue
empty = record {
  slot_available_times = pos 0 ∷ [];
  max_queue_depth = 2;
  current_queue_depth = 0;
  job_completion_times = [];
  current_time = pos 0;
}

abbrev busy : RecoveryQueue
busy = record empty {
  slot_available_times = pos 5 ∷ [];
  current_queue_depth = 1;
  job_completion_times = pos 5 ∷ [];
}

abbrev idle : RecoveryQueue
idle = record empty { slot_available_times = pos 5 ∷ []; current_time = pos 6 }

recovery_queue-empty : recovery_queue 1 2 ≡ ok empty
unfolding recovery_queue
recovery_queue-empty = refl

submit_job-busy : submit_job empty (pos 1) (pos 4) ≡ ok (busy, true)
unfolding submit_job validate_service_time earliest_slot min_element insert_time ◌+ℤ◌
submit_job-busy = refl

advance_time-idle : advance_time busy (pos 6) ≡ ok idle
unfolding advance_time completed_count pending_jobs
advance_time-idle = refl

cost-busy : get_expected_recovery_cost busy (pos 2) (pos 4) ≡ ok (some (pos 7))
unfolding get_expected_recovery_cost validate_service_time earliest_slot min_element ◌+ℤ◌ ◌-ℤ◌
cost-busy = refl

recovery_queue-IsValid_example : IsValid empty
recovery_queue-IsValid_example = recovery_queue-IsValid 1 2 empty (omega arith) recovery_queue-empty

empty-IsValid : IsValid empty
empty-IsValid = recovery_queue-IsValid 1 2 empty (omega arith) recovery_queue-empty

submit_job-IsValid_example : IsValid busy
submit_job-IsValid_example =
    submit_job-IsValid empty busy (pos 1) (pos 4) true empty-IsValid submit_job-busy

busy-IsValid : IsValid busy
busy-IsValid = submit_job-IsValid empty busy (pos 1) (pos 4) true empty-IsValid submit_job-busy

advance_time-IsValid_example : IsValid idle
advance_time-IsValid_example = advance_time-IsValid busy idle (pos 6) busy-IsValid advance_time-idle

expected_cost-IsScheduled_example : IsScheduled busy (pos 2) (pos 4) (pos 7)
expected_cost-IsScheduled_example =
    expected_cost-IsScheduled busy (pos 2) (pos 4) (pos 7) busy-IsValid cost-busy
