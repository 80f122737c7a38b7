-- ===== src/Simulation/ClusterSimulator.antt =====
-- src/simulation/cluster_simulator.cpp, include/codedllm/simulation/cluster_simulator.hpp: many
-- requests that share one recovery queue.
use coded_llm.Base.{
  ℕ, zero, suc, List, [], ◌∷◌, Bool, true, false, Option, none, some, not, ◌&&◌, ◌||◌, length, ltb,
  ◌==◌, if◌then◌else◌, Result, ok, err, ◌>>=◌, ◌>>◌, throw_if, at, out_of_fuel, no_cost_oracle,
  no_estimator, arrival_negative, no_natural_arrival, start_time_differs, arrival_before_start,
  wait_cost_negative,
}
use coded_llm.Base.Maps.{find, assign, emplace}
use coded_llm.Base.Int.{ℤ, pos, ◌+ℤ◌, ◌-ℤ◌, ltb_ℤ, eqb_ℤ}
use coded_llm.Coding.Plan.{DecodePlan}
use coded_llm.Coding.GraphGenerator.{BipartiteGraph}
use coded_llm.Runtime.Policy.{
  PolicyDecision, ShardArrivalTracker, shard_arrival_tracker, mark_arrived, is_systematic_complete,
  RecoveryPolicy, recovery_policy, policy_create_plan, evaluate_plan,
}
use coded_llm.Simulation.RecoveryQueue.{
  RecoveryQueue, advance_time, get_expected_recovery_cost, submit_job,
}

pub record GlobalArrivalEvent : Type 0 where
  pub arrival_time : ℤ
  pub request_id : ℕ
  pub shard_id : ℕ
  pub request_start_time : ℤ

pub record RequestMetrics : Type 0 where
  pub latency : ℤ
  pub recovery_won : Bool
  pub recovery_admitted : Bool
  pub recovery_rejected : Bool
  pub recovery_waited : Bool
  pub recovery_unrecoverable : Bool

abbrev pub WaitCostOracle : Type 0
WaitCostOracle = ℕ → ℤ → ℤ

abbrev pub RecoveryServiceTimeEstimator : Type 0
RecoveryServiceTimeEstimator = DecodePlan → ℤ

pub record ClusterSimulator : Type 0 where
  pub systematic_shard_count : ℕ
  pub parity_shard_count : ℕ
  pub queue : RecoveryQueue
  pub policy : RecoveryPolicy
  pub estimate_recovery_service_time : RecoveryServiceTimeEstimator

abbrev or_throw {ℓ} : {A : Type ℓ} → Option A → Result A → Result A
or_throw none e = e
or_throw (some a) e = ok a

-- The constructor.
unfoldable pub cluster_simulator :
    BipartiteGraph → RecoveryQueue → Option RecoveryServiceTimeEstimator → Result ClusterSimulator
cluster_simulator graph queue estimator = do
  policy ← recovery_policy graph
  estimate ← or_throw estimator (err no_estimator)
  ok (record {
    systematic_shard_count = graph.systematic_shard_count;
    parity_shard_count = graph.parity_shard_count;
    queue = queue;
    policy = policy;
    estimate_recovery_service_time = estimate;
  })

-- The order of `std::tie(arrival_time, request_id, shard_id)`.
unfoldable pub event_before : GlobalArrivalEvent → GlobalArrivalEvent → Bool
event_before l r =
    ltb_ℤ l.arrival_time r.arrival_time
    || eqb_ℤ l.arrival_time r.arrival_time
      && (ltb l.request_id r.request_id
          || l.request_id == r.request_id && ltb l.shard_id r.shard_id)

-- `std::sort`
unfoldable pub insert_event : GlobalArrivalEvent → List GlobalArrivalEvent → List GlobalArrivalEvent
unfolding event_before
insert_event e [] = e ∷ []
insert_event e (x ∷ xs) = if event_before x e then x ∷ insert_event e xs else e ∷ x ∷ xs

unfoldable pub sort_events : List GlobalArrivalEvent → List GlobalArrivalEvent
unfolding insert_event
sort_events [] = []
sort_events (e ∷ es) = insert_event e (sort_events es)

-- The locals of `Run`, and the queue and the trackers.
pub record Progress : Type 0 where
  pub queue : RecoveryQueue
  pub trackers : List (ℕ × ShardArrivalTracker)
  pub request_start_times : List (ℕ × ℤ)
  pub natural_completion_times : List (ℕ × ℤ)
  pub recovery_completion_times : List (ℕ × ℤ)
  pub recovery_rejected : List (ℕ × Bool)
  pub recovery_waited : List (ℕ × Bool)
  pub recovery_unrecoverable : List (ℕ × Bool)

abbrev has_value {ℓ} : {A : Type ℓ} → Option A → Bool
has_value none = false
has_value (some a) = true

abbrev same_start : Option ℤ → ℤ → Bool
same_start none t = true
same_start (some s) t = eqb_ℤ s t

-- The first loop: a tracker and a start time for each request.
unfoldable pub register_events :
    ClusterSimulator → List GlobalArrivalEvent → Progress → Result Progress
register_events sim [] progress = ok progress
register_events sim (event ∷ rest) progress = do
  tracker ← shard_arrival_tracker sim.systematic_shard_count sim.parity_shard_count
  throw_if
      (not
        (same_start (find progress.request_start_times event.request_id) event.request_start_time))
      start_time_differs
  throw_if (ltb_ℤ event.arrival_time event.request_start_time) arrival_before_start
  register_events sim rest (record progress {
    trackers = emplace progress.trackers event.request_id tracker;
    request_start_times =
        emplace progress.request_start_times event.request_id event.request_start_time;
  })

-- The inner loop: marks the shards of one request at one time, and leaves the later events.
unfoldable pub mark_request :
    ℤ
    → ℕ
    → ShardArrivalTracker
    → List GlobalArrivalEvent
    → Result (ShardArrivalTracker × List GlobalArrivalEvent)
mark_request current_time request_id tracker [] = ok (tracker, [])
mark_request current_time request_id tracker (event ∷ rest) =
    elim (eqb_ℤ event.arrival_time current_time && event.request_id == request_id) [
      | true ↦ mark_arrived tracker event.shard_id current_time >>= λ tracker'.
          mark_request current_time request_id tracker' rest
      | false ↦ ok (tracker, event ∷ rest)
    ]

-- With a recoverable plan and an expected cost: the policy's decision, and the submission.
unfoldable pub decide :
    ClusterSimulator → WaitCostOracle → ℤ → ℕ → DecodePlan → ℤ → ℤ → Progress → Result Progress
decide sim get_wait current_time request_id plan service_time recovery_cost progress = do
  let wait_cost = get_wait request_id current_time
  throw_if (ltb_ℤ wait_cost (pos 0)) wait_cost_negative
  elim (evaluate_plan plan
      (record { expected_wait_remaining = wait_cost; expected_recovery_cost = recovery_cost })) [
        | PolicyDecision.recover ↦ submit_job progress.queue current_time service_time >>= λ r. ok (
            if r.1
            then record progress {
              queue = r.0;
              recovery_completion_times =
                  emplace progress.recovery_completion_times request_id
                    (current_time +ℤ recovery_cost);
            }
            else record progress {
              queue = r.0;
              recovery_rejected = assign progress.recovery_rejected request_id true;
            })
        | PolicyDecision.wait ↦
            ok (record progress {
              recovery_waited = assign progress.recovery_waited request_id true;
            })
        | PolicyDecision.unrecoverable ↦ ok (record progress {
          recovery_unrecoverable = assign progress.recovery_unrecoverable request_id true;
        })
      ]

-- The part of the loop body behind the completeness test: a recovery may be planned.
unfoldable pub consider :
    ClusterSimulator → WaitCostOracle → ℤ → ℕ → ShardArrivalTracker → Progress → Result Progress
unfolding decide
consider sim get_wait current_time request_id tracker progress = do
  plan ← policy_create_plan sim.policy tracker
  if not plan.is_recoverable
      then ok (record progress {
        recovery_unrecoverable = assign progress.recovery_unrecoverable request_id true;
      })
      else (do
        let service_time = sim.estimate_recovery_service_time plan
        recovery_cost ← get_expected_recovery_cost progress.queue current_time service_time
        elim recovery_cost [
          | none ↦ ok (record progress {
            recovery_rejected = assign progress.recovery_rejected request_id true;
          })
          | some cost ↦ decide sim get_wait current_time request_id plan service_time cost progress
        ])

-- The body of the loop over the requests of one time.
unfoldable pub visit_request :
    ClusterSimulator → WaitCostOracle → ℤ → ℕ → ShardArrivalTracker → Progress → Result Progress
unfolding consider
visit_request sim get_wait current_time request_id tracker progress =
    let progress' : Progress = record progress {
      trackers = assign progress.trackers request_id tracker;
    } in
    if is_systematic_complete tracker
    then ok (record progress' {
      natural_completion_times = emplace progress.natural_completion_times request_id current_time;
    })
    else (if has_value (find progress.recovery_completion_times request_id)
        then ok progress'
        else consider sim get_wait current_time request_id tracker progress')

-- The loop over the requests of one time, on fuel: what is left of the events.
unfoldable pub time_loop :
    ClusterSimulator
    → WaitCostOracle
    → ℕ
    → ℤ
    → Progress
    → List GlobalArrivalEvent
    → Result (Progress × List GlobalArrivalEvent)
time_loop sim get_wait zero current_time progress events = err out_of_fuel
time_loop sim get_wait (suc fuel) current_time progress [] = ok (progress, [])
time_loop sim get_wait (suc fuel) current_time progress (event ∷ rest) =
    elim (eqb_ℤ event.arrival_time current_time) [
      | true ↦ at (find progress.trackers event.request_id) >>= λ tracker.
          mark_request current_time event.request_id tracker (event ∷ rest) >>= λ marked.
          visit_request sim get_wait current_time event.request_id marked.0 progress
          >>= λ progress'. time_loop sim get_wait fuel current_time progress' marked.1
      | false ↦ ok (progress, event ∷ rest)
    ]

-- The outer loop, on fuel.
unfoldable pub event_loop :
    ClusterSimulator → WaitCostOracle → ℕ → Progress → List GlobalArrivalEvent → Result Progress
event_loop sim get_wait zero progress events = err out_of_fuel
event_loop sim get_wait (suc fuel) progress [] = ok progress
event_loop sim get_wait (suc fuel) progress (event ∷ rest) = do
  let current_time = event.arrival_time
  throw_if (ltb_ℤ current_time (pos 0)) arrival_negative
  queue ← advance_time progress.queue current_time
  later ←
      time_loop sim get_wait (suc (length (event ∷ rest))) current_time
        (record progress { queue = queue }) (event ∷ rest)
  event_loop sim get_wait fuel later.0 later.1

abbrev flag : List (ℕ × Bool) → ℕ → Bool
flag m id = elim (find m id) [ none ↦ false | some b ↦ b ]

abbrev recovery_wins : Option ℤ → ℤ → Bool
recovery_wins none natural = false
recovery_wins (some completed) natural = ltb_ℤ completed natural

abbrev end_time : Option ℤ → ℤ → ℤ
end_time none natural = natural
end_time (some completed) natural = if ltb_ℤ completed natural then completed else natural

-- The metrics of one request.
unfoldable pub request_metrics : Progress → ℕ → Result RequestMetrics
request_metrics progress request_id = do
  natural ← or_throw (find progress.natural_completion_times request_id) (err no_natural_arrival)
  request_start ← at (find progress.request_start_times request_id)
  let recovery = find progress.recovery_completion_times request_id
  ok (record {
    latency = end_time recovery natural -ℤ request_start;
    recovery_won = recovery_wins recovery natural;
    recovery_admitted = has_value recovery;
    recovery_rejected = flag progress.recovery_rejected request_id;
    recovery_waited = flag progress.recovery_waited request_id;
    recovery_unrecoverable = flag progress.recovery_unrecoverable request_id;
  })

-- The last loop, over the trackers.
unfoldable pub collect_metrics :
    Progress → List (ℕ × ShardArrivalTracker) → Result (List (ℕ × RequestMetrics))
unfolding request_metrics
collect_metrics progress [] = ok []
collect_metrics progress ((request_id, tracker) ∷ rest) = do
  metrics ← request_metrics progress request_id
  later ← collect_metrics progress rest
  ok ((request_id, metrics) ∷ later)

-- `Run`: the metrics, and the queue as it is left.
unfoldable pub run_cluster :
    ClusterSimulator
    → List GlobalArrivalEvent
    → Option WaitCostOracle
    → Result (List (ℕ × RequestMetrics) × RecoveryQueue)
run_cluster sim events oracle = do
  get_wait ← or_throw oracle (err no_cost_oracle)
  let ordered = sort_events events
  registered ← register_events sim ordered (record {
    queue = sim.queue;
    trackers = [];
    request_start_times = [];
    natural_completion_times = [];
    recovery_completion_times = [];
    recovery_rejected = [];
    recovery_waited = [];
    recovery_unrecoverable = [];
  })
  done ← event_loop sim get_wait (suc (length ordered)) registered ordered
  metrics ← collect_metrics done done.trackers
  ok (metrics, done.queue)
