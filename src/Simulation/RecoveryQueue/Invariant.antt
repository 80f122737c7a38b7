-- ===== src/Simulation/RecoveryQueue/Invariant.antt =====
-- What every operation of the queue keeps.
use coded_llm.Base.{
  ℕ, suc, ◌+◌, ◌-◌, ◌%◌, ◌^◌, ◌≤◌, ◌<◌, ◌≡◌, refl, Bool, false, length, get_or, length-set,
  length-replicate, All, arith, ok, throw_if-eq-ok, ok-injective, subst, leb, ◌==◌, not, if_ind,
  leb→lt,
}
use coded_llm.Base.Int.{ℤ, pos, ltb_ℤ, ◌+ℤ◌, +ℤ_parts, max_ℤ}
use coded_llm.Simulation.RecoveryQueue.{
  RecoveryQueue, recovery_queue, advance_time, submit_job, validate_service_time, completed_count,
  pending_jobs, insert_time, earliest_slot,
}
use coded_llm.Simulation.RecoveryQueue.Order.{
  ◌<ℤ◌, Sorted, length-pending_jobs, pending_jobs-Sorted, pending_jobs-later, length-insert_time,
  insert_time-All, insert_time-Sorted,
}

-- There is a slot, the depth counts the jobs that are not completed and stays within its limit,
-- and those jobs stand by rising completion, all of them in the future.
pub record IsValid (queue : RecoveryQueue) : Type 0 where
  pub some_slot : 0 < length queue.slot_available_times
  pub counted : queue.current_queue_depth ≡ length queue.job_completion_times
  pub bounded : queue.current_queue_depth ≤ queue.max_queue_depth
  pub sized : queue.max_queue_depth < 2 ^ 64
  pub sorted : Sorted queue.job_completion_times
  pub in_future : All (λ t. ◌<ℤ◌ queue.current_time t) queue.job_completion_times

-- A queue that is made without an error, with a depth limit of 64 bits, is valid.
pub recovery_queue-IsValid :
    (limit depth : ℕ) (queue : RecoveryQueue)
    → depth < 2 ^ 64
    → recovery_queue limit depth ≡ ok queue
    → IsValid queue
unfolding recovery_queue
recovery_queue-IsValid limit depth queue h e =
    let (positive, made) = throw_if-eq-ok (limit == 0) _ _ e in
    subst IsValid (ok-injective made) (record {
      some_slot = omega (arith, length-replicate {0} limit (pos 0), nonzero positive);
      counted = refl;
      bounded = omega arith;
      sized = h;
      sorted = tt;
      in_future = tt;
    })
  where
    nonzero : (limit == 0) ≡ false → 0 < limit
    nonzero e = ground arith

-- A valid queue stays valid when its time is advanced without an error.
pub advance_time-IsValid :
    (queue after : RecoveryQueue) (now : ℤ)
    → IsValid queue
    → advance_time queue now ≡ ok after
    → IsValid after
unfolding advance_time
advance_time-IsValid queue after now v h =
    let (_, moved) = throw_if-eq-ok (ltb_ℤ now queue.current_time) _ _ h in
    let times = queue.job_completion_times in
    let depth : (queue.current_queue_depth + 2 ^ 64 - completed_count now times) % 2 ^ 64
        ≡ length (pending_jobs now times) =
      omega (arith, length-pending_jobs now times) in
    subst IsValid (ok-injective moved) (record {
      some_slot = v.some_slot;
      counted = depth;
      bounded = omega (arith, depth, length-pending_jobs now times);
      sized = v.sized;
      sorted = pending_jobs-Sorted now times v.sorted;
      in_future = pending_jobs-later now times v.sorted;
    })

-- When a job that is submitted now will be completed.
abbrev pub completion_of : RecoveryQueue → ℤ → ℤ → ℤ
completion_of queue now service_time =
    max_ℤ now (get_or queue.slot_available_times (earliest_slot queue.slot_available_times) (pos 0))
    +ℤ service_time

completes_later :
    (current now free service_time : ℤ)
    → ltb_ℤ now current ≡ false
    → not (ltb_ℤ (pos 0) service_time) ≡ false
    → ◌<ℤ◌ current (max_ℤ now free +ℤ service_time)
completes_later current now free service_time p q =
    ground (arith, +ℤ_parts (max_ℤ now free) service_time)

-- A valid queue stays valid when a submission does not throw, whether the job is taken or refused.
pub submit_job-IsValid :
    (queue after : RecoveryQueue) (now service_time : ℤ) (accepted : Bool)
    → IsValid queue
    → submit_job queue now service_time ≡ ok (after, accepted)
    → IsValid after
unfolding submit_job validate_service_time
submit_job-IsValid queue after now service_time accepted v h =
    let (monotonic, h₁) = throw_if-eq-ok (ltb_ℤ now queue.current_time) _ _ h in
    let (positive, h₂) = throw_if-eq-ok (not (ltb_ℤ (pos 0) service_time)) _ _ h₁ in
    let r = ok-injective h₂ in
    subst (λ (s : RecoveryQueue × Bool). IsValid s.0) r
      (if_ind (λ (s : RecoveryQueue × Bool). IsValid s.0)
        (leb queue.max_queue_depth queue.current_queue_depth) (λ _. v)
        (λ room. record {
          some_slot = omega (arith, v.some_slot, length-set queue.slot_available_times _ _);
          counted = grown room;
          bounded = omega (arith, v.counted, leb→lt _ _ room, grown room, longer);
          sized = v.sized;
          sorted = insert_time-Sorted _ _ v.sorted;
          in_future =
              insert_time-All (λ t. ◌<ℤ◌ queue.current_time t) _ _
                (completes_later queue.current_time now _ service_time monotonic positive)
                v.in_future;
        }))
  where
    longer :
        length (insert_time (completion_of queue now service_time) queue.job_completion_times)
        ≡ suc (length queue.job_completion_times)
    longer = length-insert_time _ queue.job_completion_times

    grown :
        leb queue.max_queue_depth queue.current_queue_depth ≡ false
        → (queue.current_queue_depth + 1) % 2 ^ 64
          ≡ length (insert_time (completion_of queue now service_time) queue.job_completion_times)
    grown room = omega (arith, v.counted, v.bounded, v.sized, leb→lt _ _ room, longer)
