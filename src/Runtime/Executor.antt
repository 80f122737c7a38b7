-- ===== src/Runtime/Executor.antt =====
-- src/runtime/cuda_recovery_executor.cpp, include/codedllm/runtime/cuda_recovery_executor.hpp: a
-- bounded queue of recovery tasks that worker threads execute. Each critical section is a function
-- of the executor's state; what it calls of the device decoder is a `Backend`. The answer of a call
-- stands beside the state, since a call that throws may have changed it.
pub mod Steps
pub mod Counts
pub mod Delivery
pub mod Clients
pub mod Invariant
pub mod Admission
pub mod Cancellation
use coded_llm.Base.{
  ℕ, zero, suc, ◌+◌, ◌/◌, ◌%◌, ◌^◌, List, [], ◌∷◌, ◌++◌, Bool, true, false, ◌||◌, ◌&&◌, not, Option,
  none, some, length, leb, ltb, ◌==◌, if◌then◌else◌, Error, Result, ok, err, ◌>>=◌, ◌>>◌, throw_if,
  executor_concurrency_zero, executor_capacity_overflow, executor_cost_not_positive,
  staged_count_differs, no_completion, submitted_count_differs,
}
use coded_llm.Base.Int.{ℤ, pos, ◌+ℤ◌, ◌-ℤ◌, ◌*ℤ◌, ltb_ℤ}
use coded_llm.Base.Maps.{find, assign}
use coded_llm.Base.Sets.{contains, insert, erase, is_empty}
use coded_llm.Core.{shard_id_mod}
use coded_llm.Coding.Plan.{DecodePlan}
use coded_llm.Coding.Codec.{WordShard, ShardSlots}
use coded_llm.Runtime.Request.{RecoveryTaskResult, no_metrics}

pub record CudaDecodeTimings (Float : Type 0) : Type 0 where
  pub h2d_ms : Float
  pub kernel_ms : Float
  pub d2h_ms : Float

-- What the executor uses of the device decoder, of floating point and of its clients: a context
-- that shards are staged in, `double`s with their product and `llround`, the text of an exception, and
-- the handlers.
pub record Backend : Type 1 where
  pub Context : Type 0
  pub Float : Type 0
  pub Handler : Type 0
  pub thousand : Float
  pub multiply : Float → Float → Float
  pub llround : Float → ℤ
  pub what : Error → List ℕ
  pub create_context : ℕ → Result Context
  pub stage_shard_in : Context → ℕ → WordShard → Context × Result (Unit {0})
  pub run_staged : Context → DecodePlan → ShardSlots → Result (ShardSlots × CudaDecodeTimings Float)

-- `map.erase(key)`
unfoldable pub erase_key {ℓ} : {V : Type ℓ} → List (ℕ × V) → ℕ → List (ℕ × V)
erase_key [] key = []
erase_key ((k, v) ∷ rest) key = if k == key then erase_key rest key else (k, v) ∷ erase_key rest key

module _ (backend : Backend) where
  unfoldable pub milliseconds_to_microseconds : backend.Float → ℤ
  milliseconds_to_microseconds milliseconds =
      backend.llround (backend.multiply milliseconds backend.thousand)

  pub record Task : Type 0 where
    pub request_id : ℕ
    pub plan : DecodePlan
    pub shards : ShardSlots
    pub context : backend.Context
    pub completion : backend.Handler
    pub enqueued_at : ℤ

  pub record StagedContext : Type 0 where
    pub shard_count : ℕ
    pub context : backend.Context

  pub record Executor : Type 0 where
    pub concurrency : ℕ
    pub capacity : ℕ
    pub estimated_service_cost : ℤ
    pub queue : List Task
    pub staged_contexts : List (ℕ × StagedContext)
    pub running_requests : List ℕ
    pub cancelled_requests : List ℕ
    pub stopping : Bool

  -- The constructor; the sum of two `std::size_t` may wrap around.
  unfoldable pub executor : ℕ → ℕ → ℤ → Result Executor
  executor concurrency_limit max_queue_depth estimated_service_cost = do
    let capacity = (concurrency_limit + max_queue_depth) % 2 ^ 64
    throw_if (concurrency_limit == 0) executor_concurrency_zero
    throw_if (ltb capacity concurrency_limit) executor_capacity_overflow
    throw_if (not (ltb_ℤ (pos 0) estimated_service_cost)) executor_cost_not_positive
    ok (record {
      concurrency = concurrency_limit;
      capacity = capacity;
      estimated_service_cost = estimated_service_cost;
      queue = [];
      staged_contexts = [];
      running_requests = [];
      cancelled_requests = [];
      stopping = false;
    })

  -- The critical section of the destructor.
  unfoldable pub stop : Executor → Executor
  stop e = record e { stopping = true }

  abbrev pub outstanding : Executor → ℕ
  outstanding e = length e.queue + length e.running_requests

  unfoldable pub estimate_recovery_cost : Executor → Option ℤ
  estimate_recovery_cost e =
      if e.stopping || leb e.capacity (outstanding e)
      then none
      else some (e.estimated_service_cost *ℤ pos (outstanding e / e.concurrency + 1))

  unfoldable pub has_queued_request : List Task → ℕ → Bool
  has_queued_request [] request_id = false
  has_queued_request (task ∷ rest) request_id =
      task.request_id == request_id || has_queued_request rest request_id

  abbrev pub is_running : Executor → ℕ → Bool
  is_running e request_id = contains e.running_requests request_id

  -- `stage_decode_shard_cuda` on a context that stands in the map: what it did to the context stays.
  unfoldable pub stage_in :
      Executor → ℕ → ℕ → backend.Context → ℕ → WordShard → Executor × Result (Unit {0})
  stage_in e request_id shard_count context shard_id payload =
      let (context', answer) = backend.stage_shard_in context shard_id payload in
      (
        record e {
          staged_contexts =
              assign e.staged_contexts request_id
                (record { shard_count = shard_count; context = context' });
        },
        answer,
      )

  unfoldable pub stage_shard : Executor → ℕ → ℕ → ℕ → WordShard → Executor × Result (Unit {0})
  unfolding stage_in
  stage_shard e request_id shard_count shard_id payload =
      if e.stopping || is_running e request_id || has_queued_request e.queue request_id
      then (e, ok tt)
      else elim (find e.staged_contexts request_id) [
        | none ↦ elim (backend.create_context shard_count) [
          | err thrown ↦ (e, err thrown)
          | ok context ↦ stage_in e request_id shard_count context shard_id payload
        ]
        | some staged ↦
            if not (staged.shard_count == shard_count)
            then (e, err staged_count_differs)
            else stage_in e request_id shard_count staged.context shard_id payload
      ]

  -- The loop of `Submit` that stages the shards that are there.
  unfoldable pub stage_all : backend.Context → ℕ → ShardSlots → Result backend.Context
  stage_all context shard_id [] = ok context
  stage_all context shard_id (none ∷ rest) = stage_all context (shard_id + 1) rest
  stage_all context shard_id (some payload ∷ rest) =
      let (context', answer) = backend.stage_shard_in context (shard_id % shard_id_mod) payload in
      answer >>= λ _. stage_all context' (shard_id + 1) rest

  -- The end of `Submit`.
  unfoldable pub enqueue :
      Executor
      → ℕ
      → DecodePlan
      → ShardSlots
      → backend.Context
      → backend.Handler
      → ℤ
      → Executor × Result Bool
  enqueue e request_id plan shards context completion now = (
    record e {
      queue =
          e.queue
          ++ record {
            request_id = request_id;
            plan = plan;
            shards = shards;
            context = context;
            completion = completion;
            enqueued_at = now;
          }
            ∷ [];
    },
    ok true,
  )

  abbrev pub drop_staged : Executor → ℕ → Executor
  drop_staged e request_id = record e { staged_contexts = erase_key e.staged_contexts request_id }

  -- The branch of `Submit` for a request that is admitted: with a staged context, or with a new one.
  unfoldable pub admit :
      Executor → ℕ → DecodePlan → ShardSlots → backend.Handler → ℤ → Executor × Result Bool
  unfolding enqueue
  admit e request_id plan shards completion now = elim (find e.staged_contexts request_id) [
    | some staged ↦
        if not (staged.shard_count == length shards)
        then (drop_staged e request_id, err submitted_count_differs)
        else enqueue (drop_staged e request_id) request_id plan shards staged.context completion now
    | none ↦
        elim (backend.create_context (length shards) >>= λ context. stage_all context 0 shards) [
          | err thrown ↦ (e, err thrown)
          | ok context ↦ enqueue e request_id plan shards context completion now
        ]
  ]

  -- Whether `Submit` refuses a request.
  abbrev pub refuses : Executor → ℕ → Bool
  refuses e request_id =
      e.stopping
      || leb e.capacity (outstanding e)
      || is_running e request_id
      || has_queued_request e.queue request_id

  unfoldable pub submit :
      Executor → ℕ → DecodePlan → ShardSlots → Option backend.Handler → ℤ → Executor × Result Bool
  unfolding admit
  submit e request_id plan shards none now = (e, err no_completion)
  submit e request_id plan shards (some completion) now =
      if refuses e request_id
      then (drop_staged e request_id, ok false)
      else admit e request_id plan shards completion now

  -- `find_if` and `erase` on the queue: the first task of the request leaves.
  unfoldable pub remove_first : List Task → ℕ → List Task
  remove_first [] request_id = []
  remove_first (task ∷ rest) request_id =
      if task.request_id == request_id then rest else task ∷ remove_first rest request_id

  abbrev has_key : List (ℕ × StagedContext) → ℕ → Bool
  has_key staged request_id = elim (find staged request_id) [ none ↦ false | some _ ↦ true ]

  unfoldable pub cancel : Executor → ℕ → Executor × Bool
  cancel e request_id =
      let staged = drop_staged e request_id in
      if has_queued_request e.queue request_id
      then (record staged { queue = remove_first e.queue request_id }, true)
      else (if is_running e request_id
          then (record staged { cancelled_requests = insert e.cancelled_requests request_id }, true)
          else (staged, has_key e.staged_contexts request_id))

  -- What a worker finds when it wakes up: nothing, the end, or a task.
  pub data Wake : Type 0 where
    sleep : Wake
    leave : Wake
    take_task : Task → Executor → Wake

  -- The first critical section of the worker loop.
  unfoldable pub wake : Executor → Wake
  wake e = elim e.queue [
    | [] ↦ if e.stopping then leave else sleep
    | task ∷ rest ↦
        take_task task
          (record e { queue = rest; running_requests = insert e.running_requests task.request_id })
  ]

  -- The execution of a task, outside of the lock.
  unfoldable pub execute_task : Task → ℤ → ℤ → RecoveryTaskResult
  unfolding milliseconds_to_microseconds
  execute_task task execution_start execution_end =
      let queue_wait = execution_start -ℤ task.enqueued_at in
      let total = queue_wait +ℤ (execution_end -ℤ execution_start) in
      elim (backend.run_staged task.context task.plan task.shards) [
        | err thrown ↦ record {
          success = false;
          shards = [];
          metrics = record no_metrics { queue_wait = queue_wait; total = total };
          error = backend.what thrown;
        }
        | ok (shards, timings) ↦ record {
          success = true;
          shards = shards;
          metrics = record no_metrics {
            queue_wait = queue_wait;
            h2d = milliseconds_to_microseconds timings.h2d_ms;
            kernel = milliseconds_to_microseconds timings.kernel_ms;
            d2h = milliseconds_to_microseconds timings.d2h_ms;
            total = total;
          };
          error = [];
        }
      ]

  -- The second critical section of the worker loop.
  unfoldable pub is_cancelled : Executor → ℕ → Bool
  is_cancelled e request_id = contains e.cancelled_requests request_id

  -- The third critical section of the worker loop.
  unfoldable pub release : Executor → ℕ → Executor
  release e request_id = record e {
    running_requests = erase e.running_requests request_id;
    cancelled_requests = erase e.cancelled_requests request_id;
  }
