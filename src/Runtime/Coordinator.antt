-- ===== src/Runtime/Coordinator.antt =====
-- src/runtime/coordinator.cpp, include/codedllm/runtime/serving.hpp: the coordinator of requests.
-- A critical section of the source is one function on the coordinator's state, which returns the
-- calls of the executor and the transport that it leads to.
pub mod Runs
pub mod Calls
pub mod Traces
use coded_llm.Base.{
  ℕ, not, List, [], ◌∷◌, ◌++◌, Bool, true, false, Option, none, some, length, leb, ◌==◌,
  if◌then◌else◌, Result, ok, err, ◌>>=◌, ◌>>◌, throw_if, no_executor, no_oracle, no_transport,
  request_active, unknown_request, unknown_request_or_shard,
}
use coded_llm.Base.Maps.{find}
use coded_llm.Base.Int.{ℤ}
use coded_llm.Coding.GraphGenerator.{BipartiteGraph}
use coded_llm.Coding.Codec.{WordShard, slot}
use coded_llm.Runtime.Policy.{RecoveryPolicy, recovery_policy}
use coded_llm.Runtime.Request.{
  RecoveryTaskResult, RequestSnapshot, RequestState, WaitCostOracle, request_state, Call, cancel,
  start_request, stage_shard, Answers, arrive, next_calls, after_submit, finish, or_throw,
  has_value,
}

-- The transport is known by whether one is attached.
pub record Coordinator : Type 0 where
  pub graph : BipartiteGraph
  pub policy : RecoveryPolicy
  pub requests : List (ℕ × RequestState)
  pub transport : Bool

-- The constructor; `executor` says whether there is one.
unfoldable pub coordinator : BipartiteGraph → Bool → Result Coordinator
coordinator graph executor = do
  policy ← recovery_policy graph
  throw_if (not executor) no_executor
  ok (record { graph = graph; policy = policy; requests = []; transport = false })

-- The destructor cancels every request.
unfoldable pub destroy : List (ℕ × RequestState) → List Call
destroy [] = []
destroy ((request_id, state) ∷ rest) = cancel request_id ∷ destroy rest

unfoldable pub attach_transport : Coordinator → Coordinator
attach_transport c = record c { transport = true }

unfoldable pub start_request_locked :
    Coordinator → ℕ → Option WaitCostOracle → Result (Coordinator × List Call)
start_request_locked c request_id oracle = do
  wait_cost_oracle ← or_throw oracle (err no_oracle)
  throw_if (not c.transport) no_transport
  state ← request_state c.graph.systematic_shard_count c.graph.parity_shard_count wait_cost_oracle
  throw_if (has_value (find c.requests request_id)) request_active
  ok (record c { requests = c.requests ++ (request_id, state) ∷ [] }, start_request request_id ∷ [])

-- What is written through the pointer to a request.
unfoldable pub update_request : List (ℕ × RequestState) → ℕ → RequestState → List (ℕ × RequestState)
update_request [] id state = []
update_request ((k, s) ∷ rest) id state =
    if k == id then (k, state) ∷ rest else (k, s) ∷ update_request rest id state

unfoldable pub on_shard_arrived :
    Coordinator → ℕ → ℕ → WordShard → ℤ → Answers → Result (Coordinator × List Call)
unfolding arrive next_calls
on_shard_arrived c request_id shard_id payload arrival_time answers = do
  state ← or_throw (find c.requests request_id) (err unknown_request)
  arrived ← arrive c.graph c.policy request_id shard_id payload arrival_time answers state
  let (state', staged, next) = arrived
  ok (
    record c { requests = update_request c.requests request_id state' },
    (if staged then stage_shard request_id (length state.shards) shard_id payload ∷ [] else [])
        ++ next_calls request_id next,
  )

unfoldable pub on_submit_answered : Coordinator → ℕ → Bool → Coordinator × List Call
unfolding after_submit
on_submit_answered c request_id accepted = elim (find c.requests request_id) [
  | none ↦ (c, [])
  | some state ↦
      let (state', calls) = after_submit request_id accepted state in
      (record c { requests = update_request c.requests request_id state' }, calls)
]

unfoldable pub on_recovery_complete : Coordinator → ℕ → RecoveryTaskResult → Coordinator
unfolding finish
on_recovery_complete c request_id result = elim (find c.requests request_id) [
  | none ↦ c
  | some state ↦ record c { requests = update_request c.requests request_id (finish result state) }
]

unfoldable pub get_snapshot : Coordinator → ℕ → Result RequestSnapshot
get_snapshot c request_id = do
  state ← or_throw (find c.requests request_id) (err unknown_request)
  ok state.snapshot

unfoldable pub get_shard : Coordinator → ℕ → ℕ → Result (Option WordShard)
get_shard c request_id shard_id = do
  state ← or_throw (find c.requests request_id) (err unknown_request_or_shard)
  throw_if (leb (length state.shards) shard_id) unknown_request_or_shard
  ok (slot state.shards shard_id)
