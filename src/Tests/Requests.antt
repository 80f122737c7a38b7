-- ===== src/Tests/Requests.antt =====
-- A request of two systematic shards and one parity shard, from its start to its recovery.
use coded_llm.Base.{◌⊎◌, ◌≤◌, ◌<◌, ◌≡◌, ◌↔◌, refl, [], ◌∷◌, true, false, none, some, ok}
use coded_llm.Base.Int.{pos, ◌+ℤ◌, ◌-ℤ◌}
use coded_llm.Base.Maps.{find}
use coded_llm.Base.Sets.{contains, insert, erase, is_empty}
use coded_llm.Coding.Plan.{DecodePlan}
use coded_llm.Coding.GraphGenerator.{BipartiteGraph}
use coded_llm.Coding.Codec.{slot}
use coded_llm.Coding.Planner.{
  validate_graph, validate_parities, validate_neighbors, check_missing, check_available, peel_loop,
  peel_pass, visit_equation, scan_neighbors, gather_sources, peel, sort, unique, create_plan,
}
use coded_llm.Runtime.Policy.{
  ShardArrivalTracker, shard_arrival_tracker, earlier, recorded_at, mark_arrived, has_value_at,
  all_arrived, is_systematic_complete, missing_from, get_missing_systematic, has_arrived,
  RecoveryPolicy, available_parity, evaluate, evaluate_plan, policy_create_plan,
}
use coded_llm.Runtime.Policy.Tracker.{
  IsEarliest, mark_arrived-IsEarliest, get_missing_systematic_iff, is_systematic_complete-missing,
}
use coded_llm.Runtime.Request.{
  RequestState, RecoveryTaskResult, RequestStatus, Answers, nothing, should_submit, request_state,
  store_shard, after_store, plan_recovery, add_planning, decide_recovery, arrive, after_submit,
  complete, finish, no_metrics, is_terminal, recovered,
}
use coded_llm.Runtime.Request.Steps.{Steps, arrival, completion, submit_answer, here, next}
use coded_llm.Runtime.Request.Submission.{Steps-submit_once}
use coded_llm.Runtime.Request.Terminal.{IsFrozen, Steps-IsFrozen}
use coded_llm.Runtime.Request.Agreement.{
  IsConsistent, request_state-IsConsistent, Steps-IsConsistent,
}

abbrev pub graph : BipartiteGraph
graph = record {
  systematic_shard_count = 2;
  parity_shard_count = 1;
  parity_to_systematic = (2, 0 ∷ 1 ∷ []) ∷ [];
}

abbrev pub policy : RecoveryPolicy
policy = record { graph = graph }

abbrev pub answers : Answers
answers = record { estimate = some (pos 10); planning_start = pos 1; planning_end = pos 3 }

abbrev pub new_tracker : ShardArrivalTracker
new_tracker = record {
  systematic_shard_count = 2;
  parity_shard_count = 1;
  arrivals = none ∷ none ∷ none ∷ [];
}

abbrev pub started : RequestState
started = record {
  tracker = new_tracker;
  shards = none ∷ none ∷ none ∷ [];
  wait_cost_oracle = λ _ _. pos 50;
  snapshot = record {
    status = RequestStatus.pending;
    recovery_submitted = false;
    recovery_rejected = false;
    late_arrivals = 0;
    metrics = no_metrics;
    error = [];
  };
  word_count = 0;
  recovery_closed = false;
}

-- Shard 1 has arrived: there is no parity shard to recover shard 0 with.
abbrev pub one_arrived : RequestState
one_arrived = record started {
  tracker = record new_tracker { arrivals = none ∷ some (pos 3) ∷ none ∷ [] };
  shards = none ∷ some (5 ∷ []) ∷ none ∷ [];
  word_count = 1;
  snapshot = record started.snapshot { metrics = record no_metrics { planning = pos 2 } };
}

-- The parity shard has arrived, and a recovery is submitted.
abbrev pub submitted : RequestState
submitted = record one_arrived {
  tracker = record new_tracker { arrivals = none ∷ some (pos 3) ∷ some (pos 4) ∷ [] };
  shards = none ∷ some (5 ∷ []) ∷ some (6 ∷ []) ∷ [];
  snapshot = record started.snapshot {
    metrics = record no_metrics { planning = pos 4 };
    recovery_submitted = true;
  };
}

abbrev pub plan : DecodePlan
plan = record {
  operations = record { output = 0; sources = 2 ∷ 1 ∷ [] } ∷ [];
  dependencies = [] ∷ [];
  is_recoverable = true;
}

abbrev pub task_result : RecoveryTaskResult
task_result = record {
  success = true;
  shards = some (3 ∷ []) ∷ some (5 ∷ []) ∷ some (6 ∷ []) ∷ [];
  metrics = record no_metrics { total = pos 7 };
  error = [];
}

abbrev pub ended : RequestState
ended = record submitted {
  shards = task_result.shards;
  snapshot = record submitted.snapshot {
    status = recovered;
    metrics = record no_metrics { planning = pos 4; total = pos 11 };
  };
}

abbrev ended_late : RequestState
ended_late = record ended { snapshot = record ended.snapshot { late_arrivals = 1 } }

request_state-started : request_state 2 1 (λ _ _. pos 50) ≡ ok started
unfolding request_state shard_arrival_tracker
request_state-started = refl

arrive-one :
    arrive graph policy 9 1 (5 ∷ []) (pos 3) answers started ≡ ok (one_arrived, true, nothing)
unfolding arrive is_terminal store_shard slot mark_arrived recorded_at earlier after_store
    is_systematic_complete all_arrived has_value_at plan_recovery available_parity has_arrived
    get_missing_systematic missing_from add_planning ◌+ℤ◌ ◌-ℤ◌ create_plan validate_graph
    validate_parities validate_neighbors check_missing check_available peel_loop peel_pass
    visit_equation scan_neighbors gather_sources peel sort unique find contains insert erase
    is_empty
arrive-one = refl

arrive-parity :
    arrive graph policy 9 2 (6 ∷ []) (pos 4) answers one_arrived
    ≡ ok (submitted, true, should_submit plan submitted.shards)
unfolding arrive is_terminal store_shard slot mark_arrived recorded_at earlier after_store
    is_systematic_complete all_arrived has_value_at plan_recovery available_parity has_arrived
    get_missing_systematic missing_from add_planning ◌+ℤ◌ ◌-ℤ◌ create_plan validate_graph
    validate_parities validate_neighbors check_missing check_available peel_loop peel_pass
    visit_equation scan_neighbors gather_sources peel sort unique find contains insert erase
    is_empty decide_recovery evaluate policy_create_plan evaluate_plan
arrive-parity = refl

after_submit-accepted : (after_submit 9 true submitted).0 ≡ submitted
unfolding after_submit
after_submit-accepted = refl

finish-recovered : finish task_result submitted ≡ ended
unfolding finish is_terminal complete ◌+ℤ◌
finish-recovered = refl

arrive-late :
    arrive graph policy 9 0 (3 ∷ []) (pos 8) answers ended ≡ ok (ended_late, false, nothing)
unfolding arrive is_terminal
arrive-late = refl

until_submitted : Steps graph policy 9 started submitted 1
until_submitted =
    next (next here (arrival 1 (5 ∷ []) (pos 3) answers true nothing arrive-one refl) refl)
      (arrival 2 (6 ∷ []) (pos 4) answers true (should_submit plan submitted.shards) arrive-parity
        refl)
      refl

until_ended : Steps graph policy 9 started ended 1
until_ended =
    next (next until_submitted (submit_answer true after_submit-accepted refl) refl)
      (completion task_result finish-recovered refl) refl

from_ended : Steps graph policy 9 ended ended_late 0
from_ended = next here (arrival 0 (3 ∷ []) (pos 8) answers false nothing arrive-late refl) refl

Steps-submit_once_example : 1 ≤ 1
Steps-submit_once_example = Steps-submit_once graph policy 9 started ended 1 until_ended

is_terminal-ended : is_terminal ended.snapshot.status ≡ true
unfolding is_terminal
is_terminal-ended = refl

Steps-IsFrozen_example : IsFrozen ended ended_late
Steps-IsFrozen_example =
    Steps-IsFrozen graph policy 9 ended ended_late 0 is_terminal-ended from_ended

request_state-IsConsistent_example : IsConsistent started
request_state-IsConsistent_example =
    request_state-IsConsistent 2 1 (λ _ _. pos 50) started request_state-started

started-IsConsistent : IsConsistent started
started-IsConsistent = request_state-IsConsistent 2 1 (λ _ _. pos 50) started request_state-started

Steps-IsConsistent_example : IsConsistent ended
Steps-IsConsistent_example =
    Steps-IsConsistent graph policy 9 started ended 1 started-IsConsistent until_ended

mark_arrived-again :
    mark_arrived submitted.tracker 2 (pos 3)
    ≡ ok (record new_tracker { arrivals = none ∷ some (pos 3) ∷ some (pos 3) ∷ [] })
unfolding mark_arrived recorded_at earlier
mark_arrived-again = refl

mark_arrived-IsEarliest_example :
    IsEarliest (some (pos 4)) (some (pos 3)) (pos 3)
    × ((new_tracker.parity_shard_count ≡ new_tracker.systematic_shard_count)
        ⊎ (recorded_at submitted.tracker.arrivals 1 ≡ recorded_at submitted.tracker.arrivals 1))
unfolding recorded_at
mark_arrived-IsEarliest_example =
    mark_arrived-IsEarliest submitted.tracker
      (record new_tracker { arrivals = none ∷ some (pos 3) ∷ some (pos 3) ∷ [] }) 2 (pos 3) 1
      mark_arrived-again

get_missing_systematic_iff_example :
    (contains (get_missing_systematic submitted.tracker) 0 ≡ true)
    ↔ ((0 < 2) × (has_value_at submitted.tracker.arrivals 0 ≡ false))
get_missing_systematic_iff_example = get_missing_systematic_iff submitted.tracker 0

is_systematic_complete-missing_example :
    is_systematic_complete submitted.tracker ≡ is_empty (get_missing_systematic submitted.tracker)
is_systematic_complete-missing_example = is_systematic_complete-missing submitted.tracker
