-- ===== src/Simulation/Simulator.antt =====
-- src/simulation/simulator.cpp, include/codedllm/simulation/simulator.hpp: one request whose
-- shards arrive at given times, against a recovery with given costs.
use coded_llm.Base.{
  ℕ, zero, suc, List, [], ◌∷◌, Bool, true, false, Option, none, some, length, if◌then◌else◌, Result,
  ok, err, ◌>>=◌, ◌>>◌, throw_if, out_of_fuel, no_cost_oracle, arrival_negative,
  recovery_cost_negative, no_natural_arrival,
}
use coded_llm.Base.Int.{ℤ, pos, ◌+ℤ◌, ltb_ℤ, eqb_ℤ}
use coded_llm.Coding.GraphGenerator.{BipartiteGraph}
use coded_llm.Runtime.Policy.{
  CostEstimates, PolicyDecision, ShardArrivalTracker, shard_arrival_tracker, mark_arrived,
  is_systematic_complete, RecoveryPolicy, recovery_policy, evaluate,
}

pub record ShardArrivalEvent : Type 0 where
  pub shard_id : ℕ
  pub arrival_time : ℤ

pub record SimulationMetrics : Type 0 where
  pub natural_completion_time : ℤ
  pub recovery_start_time : Option ℤ
  pub recovery_completion_time : Option ℤ
  pub final_latency : ℤ
  pub recovery_won : Bool

abbrev pub CostOracle : Type 0
CostOracle = ℤ → CostEstimates

pub record RequestSimulation : Type 0 where
  pub systematic_shard_count : ℕ
  pub parity_shard_count : ℕ
  pub policy : RecoveryPolicy
  pub events : List ShardArrivalEvent
  pub get_costs : CostOracle

abbrev or_throw {ℓ} : {A : Type ℓ} → Option A → Result A → Result A
or_throw none e = e
or_throw (some a) e = ok a

-- The constructor.
unfoldable pub request_simulation :
    BipartiteGraph → List ShardArrivalEvent → Option CostOracle → Result RequestSimulation
request_simulation graph events get_costs = do
  policy ← recovery_policy graph
  oracle ← or_throw get_costs (err no_cost_oracle)
  ok (record {
    systematic_shard_count = graph.systematic_shard_count;
    parity_shard_count = graph.parity_shard_count;
    policy = policy;
    events = events;
    get_costs = oracle;
  })

-- `std::stable_sort` by arrival time.
unfoldable pub insert_event : ShardArrivalEvent → List ShardArrivalEvent → List ShardArrivalEvent
insert_event e [] = e ∷ []
insert_event e (x ∷ xs) =
    if ltb_ℤ x.arrival_time e.arrival_time then x ∷ insert_event e xs else e ∷ x ∷ xs

unfoldable pub stable_sort : List ShardArrivalEvent → List ShardArrivalEvent
stable_sort [] = []
stable_sort (e ∷ es) = insert_event e (stable_sort es)

-- The inner loop: marks the shards that arrive at the current time, and leaves the later events.
unfoldable pub mark_batch :
    ℤ
    → ShardArrivalTracker
    → List ShardArrivalEvent
    → Result (ShardArrivalTracker × List ShardArrivalEvent)
mark_batch current_time tracker [] = ok (tracker, [])
mark_batch current_time tracker (event ∷ rest) = elim (eqb_ℤ event.arrival_time current_time) [
  | true ↦ mark_arrived tracker event.shard_id current_time >>= λ tracker'.
      mark_batch current_time tracker' rest
  | false ↦ ok (tracker, event ∷ rest)
]

-- The start and the completion of a recovery, if one has started.
abbrev pub Recovery : Type 0
Recovery = Option (ℤ × ℤ)

abbrev has_value {ℓ} : {A : Type ℓ} → Option A → Bool
has_value none = false
has_value (some a) = true

-- The end of a round of the outer loop: a recovery may start.
unfoldable pub consider_recovery :
    RequestSimulation → ShardArrivalTracker → ℤ → Recovery → Result Recovery
consider_recovery sim tracker current_time (some recovery) = ok (some recovery)
consider_recovery sim tracker current_time none = do
  let costs = sim.get_costs current_time
  decision ← evaluate sim.policy tracker costs
  elim decision [
    | PolicyDecision.recover ↦
        throw_if (ltb_ℤ costs.expected_recovery_cost (pos 0)) recovery_cost_negative
        >> ok (some (current_time, current_time +ℤ costs.expected_recovery_cost))
    | _ ↦ ok none
  ]

-- The outer loop, on fuel: the time of natural completion, if it is met, and the recovery.
unfoldable pub run_events :
    RequestSimulation
    → ℕ
    → ShardArrivalTracker
    → Recovery
    → List ShardArrivalEvent
    → Result (Option ℤ × Recovery)
run_events sim zero tracker recovery events = err out_of_fuel
run_events sim (suc fuel) tracker recovery [] = ok (none, recovery)
run_events sim (suc fuel) tracker recovery (event ∷ rest) = do
  let current_time = event.arrival_time
  throw_if (ltb_ℤ current_time (pos 0)) arrival_negative
  batch ← mark_batch current_time tracker (event ∷ rest)
  let (tracker', later) = batch
  elim (is_systematic_complete tracker') [
    | true ↦ ok (some current_time, recovery)
    | false ↦ consider_recovery sim tracker' current_time recovery >>= λ recovery'.
        run_events sim fuel tracker' recovery' later
  ]

-- What is reported once the natural completion is known.
unfoldable pub report : ℤ → Recovery → SimulationMetrics
report natural none = record {
  natural_completion_time = natural;
  recovery_start_time = none;
  recovery_completion_time = none;
  final_latency = natural;
  recovery_won = false;
}
report natural (some (started, completed)) = record {
  natural_completion_time = natural;
  recovery_start_time = some started;
  recovery_completion_time = some completed;
  final_latency = if ltb_ℤ completed natural then completed else natural;
  recovery_won = ltb_ℤ completed natural;
}

-- Each round takes at least one event, so one round more than there are events is enough.
unfoldable pub run : RequestSimulation → Result SimulationMetrics
run sim = do
  let ordered_events = stable_sort sim.events
  tracker ← shard_arrival_tracker sim.systematic_shard_count sim.parity_shard_count
  done ← run_events sim (suc (length ordered_events)) tracker none ordered_events
  natural ← or_throw done.0 (err no_natural_arrival)
  ok (report natural done.1)
