-- ===== src/Runtime/Executor/Steps.antt =====
-- The executor and its worker threads as steps: the critical sections of clients and workers, and
-- what the workers do between theirs, in any order.
use coded_llm.Base.{
  ℕ, ◌≡◌, Bool, true, false, List, [], ◌∷◌, ◌++◌, Option, some, Result, ok, err, get_elem?, set,
}
use coded_llm.Base.Int.{ℤ}
use coded_llm.Coding.Plan.{DecodePlan}
use coded_llm.Coding.Codec.{WordShard, ShardSlots}
use coded_llm.Runtime.Request.{RecoveryTaskResult}
use coded_llm.Runtime.Executor.{
  Backend, Task, Executor, stop, stage_shard, submit, cancel, leave, take_task, wake, execute_task,
  is_cancelled, release,
}

-- The request that a submission with this answer has admitted.
abbrev pub admitted_by : ℕ → Result Bool → List ℕ
admitted_by request_id (ok true) = request_id ∷ []
admitted_by request_id (ok false) = []
admitted_by request_id (err e) = []

module _ (backend : Backend) where
  -- Where a worker thread stands in its loop.
  pub data Worker : Type 0 where
    waiting : Worker
    executing : Task backend → Worker
    finished : Task backend → RecoveryTaskResult → Worker
    delivering : Task backend → RecoveryTaskResult → Worker
    closing : Task backend → Worker
    returned : Worker

  -- One step, with the requests that it admits and those whose completion handler it calls.
  pub data Step (e : Executor backend) (workers : List Worker) (after : Executor backend)
      (workers' : List Worker) (admitted delivered : List ℕ) : Type 0 where
    staging :
        (request_id shard_count shard_id : ℕ) (payload : WordShard)
        → (stage_shard backend e request_id shard_count shard_id payload).0 ≡ after
        → workers' ≡ workers
        → admitted ≡ []
        → delivered ≡ []
        → Step e workers after workers' admitted delivered
    submission :
        (request_id : ℕ) (plan : DecodePlan) (shards : ShardSlots)
        (completion : Option backend.Handler) (now : ℤ) (answer : Result Bool)
        → submit backend e request_id plan shards completion now ≡ (after, answer)
        → workers' ≡ workers
        → admitted ≡ admitted_by request_id answer
        → delivered ≡ []
        → Step e workers after workers' admitted delivered
    cancellation :
        (request_id : ℕ)
        → (cancel backend e request_id).0 ≡ after
        → workers' ≡ workers
        → admitted ≡ []
        → delivered ≡ []
        → Step e workers after workers' admitted delivered
    stopped :
        stop backend e ≡ after
        → workers' ≡ workers
        → admitted ≡ []
        → delivered ≡ []
        → Step e workers after workers' admitted delivered
    woken :
        (i : ℕ) (task : Task backend)
        → get_elem? workers i ≡ some waiting
        → wake backend e ≡ take_task task after
        → workers' ≡ set workers i (executing task)
        → admitted ≡ []
        → delivered ≡ []
        → Step e workers after workers' admitted delivered
    left :
        (i : ℕ)
        → get_elem? workers i ≡ some waiting
        → wake backend e ≡ leave
        → e ≡ after
        → workers' ≡ set workers i returned
        → admitted ≡ []
        → delivered ≡ []
        → Step e workers after workers' admitted delivered
    executed :
        (i : ℕ) (task : Task backend) (execution_start execution_end : ℤ)
        → get_elem? workers i ≡ some (executing task)
        → e ≡ after
        → workers'
          ≡ set workers i (finished task (execute_task backend task execution_start execution_end))
        → admitted ≡ []
        → delivered ≡ []
        → Step e workers after workers' admitted delivered
    kept :
        (i : ℕ) (task : Task backend) (result : RecoveryTaskResult)
        → get_elem? workers i ≡ some (finished task result)
        → is_cancelled backend e task.request_id ≡ false
        → e ≡ after
        → workers' ≡ set workers i (delivering task result)
        → admitted ≡ []
        → delivered ≡ []
        → Step e workers after workers' admitted delivered
    dropped :
        (i : ℕ) (task : Task backend) (result : RecoveryTaskResult)
        → get_elem? workers i ≡ some (finished task result)
        → is_cancelled backend e task.request_id ≡ true
        → e ≡ after
        → workers' ≡ set workers i (closing task)
        → admitted ≡ []
        → delivered ≡ []
        → Step e workers after workers' admitted delivered
    completed :
        (i : ℕ) (task : Task backend) (result : RecoveryTaskResult)
        → get_elem? workers i ≡ some (delivering task result)
        → e ≡ after
        → workers' ≡ set workers i (closing task)
        → admitted ≡ []
        → delivered ≡ task.request_id ∷ []
        → Step e workers after workers' admitted delivered
    released :
        (i : ℕ) (task : Task backend)
        → get_elem? workers i ≡ some (closing task)
        → release backend e task.request_id ≡ after
        → workers' ≡ set workers i waiting
        → admitted ≡ []
        → delivered ≡ []
        → Step e workers after workers' admitted delivered

  -- Steps one after another, with all that they admit and deliver.
  pub data Steps (e : Executor backend) (workers : List Worker)
      : Executor backend → List Worker → List ℕ → List ℕ → Type 0 where
    here : Steps e workers e workers [] []
    next :
        {between after : Executor backend} {workers₁ workers₂ : List Worker}
        {admitted₁ admitted₂ delivered₁ delivered₂ all_admitted all_delivered : List ℕ}
        → Steps e workers between workers₁ admitted₁ delivered₁
        → Step between workers₁ after workers₂ admitted₂ delivered₂
        → all_admitted ≡ admitted₁ ++ admitted₂
        → all_delivered ≡ delivered₁ ++ delivered₂
        → Steps e workers after workers₂ all_admitted all_delivered
