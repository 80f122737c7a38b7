-- ===== src/Tests/Coordinators.antt =====
-- A coordinator with two requests, of which the second one is recovered.
use coded_llm.Base.{ℕ, ◌≤◌, ◌≡◌, refl, List, [], ◌∷◌, true, false, none, some, ok}
use coded_llm.Base.Int.{pos, ◌+ℤ◌, ◌-ℤ◌}
use coded_llm.Base.Maps.{find}
use coded_llm.Base.Sets.{contains, insert, erase, is_empty}
use coded_llm.Coding.Codec.{slot}
use coded_llm.Coding.Planner.{
  create_plan_all, validate_graph, validate_parities, validate_neighbors, check_missing,
  check_available, peel_loop, peel_pass, visit_equation, scan_neighbors, gather_sources, peel, sort,
  unique, create_plan,
}
use coded_llm.Runtime.Policy.{
  recovery_policy, shard_arrival_tracker, earlier, recorded_at, mark_arrived, has_value_at,
  all_arrived, is_systematic_complete, missing_from, get_missing_systematic, has_arrived,
  available_parity, evaluate, evaluate_plan, policy_create_plan,
}
use coded_llm.Runtime.Request.{
  arrive, is_terminal, store_shard, after_store, plan_recovery, add_planning, decide_recovery,
  after_submit, finish, complete, next_calls, request_state,
}
use coded_llm.Runtime.Request.{RequestState, Call, stage_shard, submit, start_request}
use coded_llm.Runtime.Request.Agreement.{IsConsistent}
use coded_llm.Runtime.Coordinator.{
  Coordinator, coordinator, attach_transport, start_request_locked, update_request,
  on_shard_arrived, on_submit_answered, on_recovery_complete,
}
use coded_llm.Runtime.Coordinator.Runs.{
  Operation, Run, nothing_yet, and_then, count_submits, Traced,
}
use coded_llm.Runtime.Coordinator.Traces.{Run-Traced, Run-IsConsistent}
use coded_llm.Tests.Requests.{
  graph, policy, answers, started, one_arrived, submitted, plan, task_result, ended,
}

abbrev without_transport : Coordinator
without_transport = record { graph = graph; policy = policy; requests = []; transport = false }

abbrev with_requests : List (ℕ × RequestState) → Coordinator
with_requests requests = record {
  graph = graph;
  policy = policy;
  requests = requests;
  transport = true;
}

abbrev calls : List Call
calls =
    start_request 4
    ∷ start_request 9
    ∷ stage_shard 9 3 1 (5 ∷ [])
    ∷ stage_shard 9 3 2 (6 ∷ [])
    ∷ submit 9 plan submitted.shards
    ∷ []

coordinator-made : coordinator graph true ≡ ok without_transport
unfolding coordinator recovery_policy validate_graph validate_parities validate_neighbors erase
    insert contains is_empty find create_plan_all create_plan check_missing check_available
    peel_loop
coordinator-made = refl

start-four :
    start_request_locked (with_requests []) 4 (some (λ _ _. pos 50))
    ≡ ok (with_requests ((4, started) ∷ []), start_request 4 ∷ [])
unfolding start_request_locked request_state shard_arrival_tracker find
start-four = refl

start-nine :
    start_request_locked (with_requests ((4, started) ∷ [])) 9 (some (λ _ _. pos 50))
    ≡ ok (with_requests ((4, started) ∷ (9, started) ∷ []), start_request 9 ∷ [])
unfolding start_request_locked request_state shard_arrival_tracker find
start-nine = refl

first-arrival :
    on_shard_arrived (with_requests ((4, started) ∷ (9, started) ∷ [])) 9 1 (5 ∷ []) (pos 3) answers
    ≡ ok (with_requests ((4, started) ∷ (9, one_arrived) ∷ []), stage_shard 9 3 1 (5 ∷ []) ∷ [])
unfolding on_shard_arrived find update_request next_calls arrive is_terminal store_shard slot
    mark_arrived recorded_at earlier after_store is_systematic_complete all_arrived has_value_at
    plan_recovery available_parity has_arrived get_missing_systematic missing_from add_planning ◌+ℤ◌
    ◌-ℤ◌ create_plan validate_graph validate_parities validate_neighbors check_missing
    check_available peel_loop peel_pass visit_equation scan_neighbors gather_sources peel sort
    unique contains insert erase is_empty decide_recovery evaluate policy_create_plan evaluate_plan
first-arrival = refl

second-arrival :
    on_shard_arrived
      (with_requests ((4, started) ∷ (9, one_arrived) ∷ []))
      9
      2
      (6 ∷ [])
      (pos 4)
      answers
    ≡ ok (
      with_requests ((4, started) ∷ (9, submitted) ∷ []),
      stage_shard 9 3 2 (6 ∷ []) ∷ submit 9 plan submitted.shards ∷ [],
    )
unfolding on_shard_arrived find update_request next_calls arrive is_terminal store_shard slot
    mark_arrived recorded_at earlier after_store is_systematic_complete all_arrived has_value_at
    plan_recovery available_parity has_arrived get_missing_systematic missing_from add_planning ◌+ℤ◌
    ◌-ℤ◌ create_plan validate_graph validate_parities validate_neighbors check_missing
    check_available peel_loop peel_pass visit_equation scan_neighbors gather_sources peel sort
    unique contains insert erase is_empty decide_recovery evaluate policy_create_plan evaluate_plan
second-arrival = refl

accepted :
    on_submit_answered (with_requests ((4, started) ∷ (9, submitted) ∷ [])) 9 true
    ≡ (with_requests ((4, started) ∷ (9, submitted) ∷ []), [])
unfolding on_submit_answered find update_request after_submit
accepted = refl

recovered_nine :
    on_recovery_complete (with_requests ((4, started) ∷ (9, submitted) ∷ [])) 9 task_result
    ≡ with_requests ((4, started) ∷ (9, ended) ∷ [])
unfolding on_recovery_complete find update_request finish complete is_terminal ◌+ℤ◌
recovered_nine = refl

one_recovery : Run without_transport (with_requests ((4, started) ∷ (9, ended) ∷ [])) calls
unfolding attach_transport
one_recovery =
    and_then
      (and_then
        (and_then
          (and_then
            (and_then
              (and_then (and_then nothing_yet (Operation.attached refl refl) refl)
                (Operation.started 4 _ start-four) refl)
              (Operation.started 9 _ start-nine) refl)
            (Operation.arrived 9 1 (5 ∷ []) (pos 3) answers first-arrival) refl)
          (Operation.arrived 9 2 (6 ∷ []) (pos 4) answers second-arrival) refl)
        (Operation.answered 9 true accepted) refl)
      (Operation.finished 9 task_result recovered_nine refl) refl

Run-Traced_example : Traced graph policy 9 none (some ended) 1
unfolding find count_submits
Run-Traced_example =
    Run-Traced without_transport (with_requests ((4, started) ∷ (9, ended) ∷ [])) calls 9
      one_recovery

Run-IsConsistent_example : (count_submits 9 calls ≤ 1) × IsConsistent ended
unfolding find
Run-IsConsistent_example =
    Run-IsConsistent graph true without_transport (with_requests ((4, started) ∷ (9, ended) ∷ []))
      calls 9 ended coordinator-made one_recovery refl
