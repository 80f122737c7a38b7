-- ===== src/Runtime/Request.antt =====
-- src/runtime/coordinator.cpp, include/codedllm/runtime/serving.hpp: one request of the coordinator.
-- What a critical section of the source does to a request is one function. The calls that follow
-- it are values, and what the executor, the clock and the oracle answer are arguments. Texts of
-- errors are lists of characters.
pub mod Cases
pub mod Steps
pub mod Submission
pub mod Terminal
pub mod Slots
pub mod Agreement
use coded_llm.Base.{
  ℕ, zero, suc, ◌+◌, ◌||◌, ◌&&◌, not, List, [], ◌∷◌, ◌++◌, Bool, true, false, Option, none, some,
  length, get_elem?, set, replicate, leb, ◌==◌, if◌then◌else◌, Result, ok, err, ◌>>=◌, ◌>>◌,
  throw_if, no_executor, no_oracle, no_transport, request_active, unknown_request,
  arrival_out_of_bounds, arrival_empty, arrival_unequal, unknown_request_or_shard,
}
use coded_llm.Base.Int.{ℤ, pos, ◌+ℤ◌, ◌-ℤ◌}
use coded_llm.Base.Sets.{is_empty}
use coded_llm.Coding.Plan.{DecodePlan}
use coded_llm.Coding.GraphGenerator.{BipartiteGraph}
use coded_llm.Coding.Codec.{WordShard, ShardSlots, slot}
use coded_llm.Coding.Planner.{create_plan}
use coded_llm.Runtime.Policy.{
  ShardArrivalTracker, shard_arrival_tracker, mark_arrived, is_systematic_complete,
  available_parity, get_missing_systematic, RecoveryPolicy, recovery_policy, PolicyDecision,
  recover, evaluate,
}

pub record RecoveryExecutionMetrics : Type 0 where
  pub planning : ℤ
  pub queue_wait : ℤ
  pub h2d : ℤ
  pub kernel : ℤ
  pub d2h : ℤ
  pub handoff : ℤ
  pub total : ℤ

abbrev pub no_metrics : RecoveryExecutionMetrics
no_metrics = record {
  planning = pos 0;
  queue_wait = pos 0;
  h2d = pos 0;
  kernel = pos 0;
  d2h = pos 0;
  handoff = pos 0;
  total = pos 0;
}

pub record RecoveryTaskResult : Type 0 where
  pub success : Bool
  pub shards : ShardSlots
  pub metrics : RecoveryExecutionMetrics
  pub error : List ℕ

pub data RequestStatus : Type 0 where
  pending natural_complete recovered failed : RequestStatus

unfoldable pub is_terminal : RequestStatus → Bool
is_terminal pending = false
is_terminal _ = true

pub record RequestSnapshot : Type 0 where
  pub status : RequestStatus
  pub recovery_submitted : Bool
  pub recovery_rejected : Bool
  pub late_arrivals : ℕ
  pub metrics : RecoveryExecutionMetrics
  pub error : List ℕ

-- The expected wait of a request at a time.
abbrev pub WaitCostOracle : Type 0
WaitCostOracle = ℕ → ℤ → ℤ

pub record RequestState : Type 0 where
  pub tracker : ShardArrivalTracker
  pub shards : ShardSlots
  pub wait_cost_oracle : WaitCostOracle
  pub snapshot : RequestSnapshot
  pub word_count : ℕ
  pub recovery_closed : Bool

unfoldable pub request_state : ℕ → ℕ → WaitCostOracle → Result RequestState
request_state k m oracle = do
  tracker ← shard_arrival_tracker k m
  ok (record {
    tracker = tracker;
    shards = replicate (k + m) none;
    wait_cost_oracle = oracle;
    snapshot = record {
      status = pending;
      recovery_submitted = false;
      recovery_rejected = false;
      late_arrivals = 0;
      metrics = no_metrics;
      error = [];
    };
    word_count = 0;
    recovery_closed = false;
  })

-- A call that a function of the coordinator makes of its collaborators.
pub data Call : Type 0 where
  stage_shard : (request_id shard_count shard_id : ℕ) → WordShard → Call
  cancel : (request_id : ℕ) → Call
  submit : (request_id : ℕ) → DecodePlan → ShardSlots → Call
  start_request : (request_id : ℕ) → Call

abbrev pub or_throw {ℓ} : {A : Type ℓ} → Option A → Result A → Result A
or_throw none e = e
or_throw (some a) e = ok a

abbrev pub has_value {ℓ} : {A : Type ℓ} → Option A → Bool
has_value none = false
has_value (some a) = true

-- What the executor and the clock answer in the critical section of an arrival.
pub record Answers : Type 0 where
  pub estimate : Option ℤ
  pub planning_start : ℤ
  pub planning_end : ℤ

-- What follows the critical section.
pub data Next : Type 0 where
  nothing : Next
  should_cancel : Next
  should_submit : DecodePlan → ShardSlots → Next

-- With a recoverable plan: the estimate, and the policy's decision.
unfoldable pub decide_recovery :
    RecoveryPolicy → ℕ → ℤ → Answers → DecodePlan → RequestState → Result (RequestState × Next)
decide_recovery policy request_id arrival_time answers plan state = elim answers.estimate [
  | none ↦ ok (
    record state {
      snapshot = record state.snapshot { recovery_rejected = true };
      recovery_closed = true;
    },
    nothing,
  )
  | some estimated_cost ↦
      evaluate policy state.tracker (record {
        expected_wait_remaining = state.wait_cost_oracle request_id arrival_time;
        expected_recovery_cost = estimated_cost;
      })
      >>= λ decision. elim decision [
        | PolicyDecision.recover ↦ ok (
          record state { snapshot = record state.snapshot { recovery_submitted = true } },
          should_submit plan state.shards,
        )
        | _ ↦ ok (state, nothing)
      ]
]

-- The time that planning took is added up.
unfoldable pub add_planning : Answers → RequestState → RequestState
add_planning answers state =
    let metrics = state.snapshot.metrics in
    record state {
      snapshot = record state.snapshot {
        metrics = record metrics {
          planning = metrics.planning +ℤ (answers.planning_end -ℤ answers.planning_start);
        };
      };
    }

-- The branch of an incomplete request for which a recovery is open.
unfoldable pub plan_recovery :
    BipartiteGraph → RecoveryPolicy → ℕ → ℤ → Answers → RequestState → Result (RequestState × Next)
unfolding decide_recovery add_planning
plan_recovery graph policy request_id arrival_time answers state = do
  available ← available_parity state.tracker graph.parity_to_systematic
  plan ← create_plan graph (get_missing_systematic state.tracker) available
  if plan.is_recoverable
      then decide_recovery policy request_id arrival_time answers plan (add_planning answers state)
      else ok (add_planning answers state, nothing)

-- The part behind the write of the shard.
unfoldable pub after_store :
    BipartiteGraph → RecoveryPolicy → ℕ → ℤ → Answers → RequestState → Result (RequestState × Next)
unfolding plan_recovery
after_store graph policy request_id arrival_time answers state =
    if is_systematic_complete state.tracker
    then ok (
      record state { snapshot = record state.snapshot { status = natural_complete } },
      should_cancel,
    )
    else (if not state.recovery_closed && not state.snapshot.recovery_submitted
        then plan_recovery graph policy request_id arrival_time answers state
        else ok (state, nothing))

-- The checks and the write of a shard that arrives at a pending request; `none` for a duplicate.
unfoldable pub store_shard : RequestState → ℕ → WordShard → ℤ → Result (RequestState × Bool)
store_shard state shard_id payload arrival_time = do
  throw_if (leb (length state.shards) shard_id) arrival_out_of_bounds
  throw_if (is_empty payload) arrival_empty
  throw_if (not (state.word_count == 0) && not (state.word_count == length payload)) arrival_unequal
  let state' : RequestState = record state { word_count = length payload }
  if has_value (slot state.shards shard_id)
      then ok (state', false)
      else (mark_arrived state.tracker shard_id arrival_time >>= λ tracker. ok (
        record state' { shards = set state.shards shard_id (some payload); tracker = tracker },
        true,
      ))

-- The critical section of an arrival on its request: the new state, whether the shard was staged,
-- and what follows.
unfoldable pub arrive :
    BipartiteGraph
    → RecoveryPolicy
    → ℕ
    → ℕ
    → WordShard
    → ℤ
    → Answers
    → RequestState
    → Result (RequestState × Bool × Next)
unfolding store_shard after_store
arrive graph policy request_id shard_id payload arrival_time answers state =
    if is_terminal state.snapshot.status
    then ok (
      record state {
        snapshot = record state.snapshot { late_arrivals = state.snapshot.late_arrivals + 1 };
      },
      false,
      nothing,
    )
    else (do
      stored ← store_shard state shard_id payload arrival_time
      let (state', staged) = stored
      if staged
          then (after_store graph policy request_id arrival_time answers state' >>= λ r.
              ok (r.0, true, r.1))
          else ok (state', false, nothing))

unfoldable pub next_calls : ℕ → Next → List Call
next_calls request_id nothing = []
next_calls request_id should_cancel = cancel request_id ∷ []
next_calls request_id (should_submit plan shards) = submit request_id plan shards ∷ []

-- What follows the executor's answer to `Submit`, on the request.
unfoldable pub after_submit : ℕ → Bool → RequestState → RequestState × List Call
after_submit request_id true state = elim state.snapshot.status [
  | RequestStatus.natural_complete ↦ (state, cancel request_id ∷ [])
  | _ ↦ (state, [])
]
after_submit request_id false state = if is_terminal state.snapshot.status then (state, []) else (
  record state {
    snapshot = record state.snapshot { recovery_submitted = false; recovery_rejected = true };
    recovery_closed = true;
  },
  [],
)

-- The completion of a recovery, on a pending request.
unfoldable pub complete : RecoveryTaskResult → RequestState → RequestState
complete result state =
    let metrics = state.snapshot.metrics in
    let metrics' : RecoveryExecutionMetrics = record {
      planning = metrics.planning;
      queue_wait = result.metrics.queue_wait;
      h2d = result.metrics.h2d;
      kernel = result.metrics.kernel;
      d2h = result.metrics.d2h;
      handoff = result.metrics.handoff;
      total = metrics.planning +ℤ result.metrics.total;
    } in
    if not result.success
    then record state {
      snapshot = record state.snapshot {
        metrics = metrics';
        status = failed;
        error = result.error;
      };
    }
    else record state {
      snapshot = record state.snapshot { metrics = metrics'; status = recovered };
      shards = result.shards;
    }

unfoldable pub finish : RecoveryTaskResult → RequestState → RequestState
unfolding complete
finish result state = if is_terminal state.snapshot.status then state else complete result state
