-- ===== src/Runtime/Coordinator/Runs.antt =====
-- Runs of the coordinator: its operations in any order that clients, transport and executor choose.
-- An operation that throws is no step.
use coded_llm.Base.{
  ℕ, ◌+◌, ◌≡◌, List, [], ◌∷◌, ◌++◌, Bool, Option, none, some, ok, ◌==◌, if◌then◌else◌,
}
use coded_llm.Base.Int.{ℤ}
use coded_llm.Coding.GraphGenerator.{BipartiteGraph}
use coded_llm.Coding.Codec.{WordShard}
use coded_llm.Runtime.Policy.{RecoveryPolicy}
use coded_llm.Runtime.Request.{
  RequestState, RecoveryTaskResult, WaitCostOracle, Answers, Call, stage_shard, cancel, submit,
  start_request, request_state,
}
use coded_llm.Runtime.Request.Steps.{Steps}
use coded_llm.Runtime.Coordinator.{
  Coordinator, attach_transport, start_request_locked, on_shard_arrived, on_submit_answered,
  on_recovery_complete,
}

-- One operation, with the calls that it leads to.
pub data Operation (c after : Coordinator) (calls : List Call) : Type 0 where
  attached : attach_transport c ≡ after → calls ≡ [] → Operation c after calls
  started :
      (request_id : ℕ) (oracle : Option WaitCostOracle)
      → start_request_locked c request_id oracle ≡ ok (after, calls)
      → Operation c after calls
  arrived :
      (request_id shard_id : ℕ) (payload : WordShard) (arrival_time : ℤ) (answers : Answers)
      → on_shard_arrived c request_id shard_id payload arrival_time answers ≡ ok (after, calls)
      → Operation c after calls
  answered :
      (request_id : ℕ) (accepted : Bool)
      → on_submit_answered c request_id accepted ≡ (after, calls)
      → Operation c after calls
  finished :
      (request_id : ℕ) (result : RecoveryTaskResult)
      → on_recovery_complete c request_id result ≡ after
      → calls ≡ []
      → Operation c after calls

pub data Run (c : Coordinator) : Coordinator → List Call → Type 0 where
  nothing_yet : Run c c []
  and_then :
      {between after : Coordinator} {calls more all : List Call}
      → Run c between calls
      → Operation between after more
      → all ≡ calls ++ more
      → Run c after all

-- How often the executor's `Submit` is called for a request.
unfoldable pub count_submits : ℕ → List Call → ℕ
count_submits id [] = 0
count_submits id (submit request_id plan shards ∷ rest) =
    (if request_id == id then 1 else 0) + count_submits id rest
count_submits id (stage_shard request_id shard_count shard_id payload ∷ rest) =
    count_submits id rest
count_submits id (cancel request_id ∷ rest) = count_submits id rest
count_submits id (start_request request_id ∷ rest) = count_submits id rest

-- What can become of a request while `n` submissions are made for it: it is not there, it is begun as
-- a new one and goes through its critical sections, or it goes on through them.
pub data Traced (graph : BipartiteGraph) (policy : RecoveryPolicy) (id : ℕ)
    : Option RequestState → Option RequestState → ℕ → Type 0 where
  absent : Traced graph policy id none none 0
  begun :
      {initial state : RequestState} {n : ℕ} (oracle : WaitCostOracle)
      → request_state graph.systematic_shard_count graph.parity_shard_count oracle ≡ ok initial
      → Steps graph policy id initial state n
      → Traced graph policy id none (some state) n
  going_on :
      {before state : RequestState} {n : ℕ}
      → Steps graph policy id before state n
      → Traced graph policy id (some before) (some state) n
