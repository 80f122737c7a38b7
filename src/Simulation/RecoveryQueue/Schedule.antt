-- ===== src/Simulation/RecoveryQueue/Schedule.antt =====
-- The cost that the queue announces is the one that a submission then has.
use coded_llm.Base.{
  ℕ, ◌+◌, ◌%◌, ◌^◌, ◌≡◌, refl, Bool, true, false, none, some, get_or, set, arith, if◌then◌else◌, ap,
  ok, throw_if-eq-ok, ok-injective, leb, ◌∙◌, not, sym, some-eq,
}
use coded_llm.Base.Int.{ℤ, pos, ltb_ℤ, ◌+ℤ◌, ◌-ℤ◌, max_ℤ, int_laws}
use coded_llm.Simulation.RecoveryQueue.{
  RecoveryQueue, get_expected_recovery_cost, submit_job, validate_service_time, insert_time,
  earliest_slot,
}
use coded_llm.Simulation.RecoveryQueue.Order.{IsLeastAt, earliest_slot-IsLeastAt}
use coded_llm.Simulation.RecoveryQueue.Invariant.{IsValid, completion_of}

-- A submission that the queue accepts at the announced cost: the job is completed after that cost,
-- in a slot that is free first.
pub record IsScheduled (queue : RecoveryQueue) (now service_time cost : ℤ) : Type 0 where
  pub index : ℕ
  pub least : IsLeastAt queue.slot_available_times index
  pub accepted :
      submit_job queue now service_time
      ≡ ok (
        record queue {
          slot_available_times = set queue.slot_available_times index (now +ℤ cost);
          job_completion_times = insert_time (now +ℤ cost) queue.job_completion_times;
          current_queue_depth = (queue.current_queue_depth + 1) % 2 ^ 64;
        },
        true,
      )

add_back :
    (now start service_time : ℤ) → now +ℤ (start -ℤ now +ℤ service_time) ≡ start +ℤ service_time
add_back now start service_time = omega int_laws

-- What the checks of both operations have found.
record IsOpen (queue : RecoveryQueue) (now service_time : ℤ) : Type 0 where
  monotonic : ltb_ℤ now queue.current_time ≡ false
  positive : ltb_ℤ (pos 0) service_time ≡ true
  room : leb queue.max_queue_depth queue.current_queue_depth ≡ false

announced :
    (queue : RecoveryQueue) (now service_time : ℤ) (full : Bool) (cost : ℤ)
    → (if full
        then none
        else some (
            max_ℤ now
              (get_or queue.slot_available_times (earliest_slot queue.slot_available_times) (pos 0))
            -ℤ now
            +ℤ service_time))
      ≡ some cost
    → (full ≡ false) × (completion_of queue now service_time ≡ now +ℤ cost)
announced queue now service_time true cost h = cc
announced queue now service_time false cost h =
    (refl, sym (ap (λ c. now +ℤ c) (sym (some-eq h)) ∙ add_back now _ service_time))

expected_cost-IsOpen :
    (queue : RecoveryQueue) (now service_time cost : ℤ)
    → get_expected_recovery_cost queue now service_time ≡ ok (some cost)
    → IsOpen queue now service_time × (completion_of queue now service_time ≡ now +ℤ cost)
unfolding get_expected_recovery_cost validate_service_time
expected_cost-IsOpen queue now service_time cost h =
    let (monotonic, h₁) = throw_if-eq-ok (ltb_ℤ now queue.current_time) _ _ h in
    let (positive, h₂) = throw_if-eq-ok (not (ltb_ℤ (pos 0) service_time)) _ _ h₁ in
    let (room, e) = announced queue now service_time _ cost (ok-injective h₂) in
    (record { monotonic = monotonic; positive = ground arith; room = room }, e)

IsOpen-submit_job :
    (queue : RecoveryQueue) (now service_time : ℤ)
    → IsOpen queue now service_time
    → submit_job queue now service_time
      ≡ ok (
        record queue {
          slot_available_times =
              set queue.slot_available_times
                (earliest_slot queue.slot_available_times)
                (completion_of queue now service_time);
          job_completion_times =
              insert_time (completion_of queue now service_time) queue.job_completion_times;
          current_queue_depth = (queue.current_queue_depth + 1) % 2 ^ 64;
        },
        true,
      )
unfolding submit_job validate_service_time
IsOpen-submit_job queue now service_time o = rw (o.monotonic, o.positive, o.room)

-- The queue accepts a job for which it has announced a cost, completes it after that cost, and
-- takes a slot that is free first.
pub expected_cost-IsScheduled :
    (queue : RecoveryQueue) (now service_time cost : ℤ)
    → IsValid queue
    → get_expected_recovery_cost queue now service_time ≡ ok (some cost)
    → IsScheduled queue now service_time cost
expected_cost-IsScheduled queue now service_time cost v h =
    let (o, e) = expected_cost-IsOpen queue now service_time cost h in
    record {
      index = earliest_slot queue.slot_available_times;
      least = earliest_slot-IsLeastAt queue.slot_available_times v.some_slot;
      accepted = rw e at (IsOpen-submit_job queue now service_time o);
    }
