-- ===== src/Runtime/Executor/Delivery.antt =====
-- Every completion handler is called for a submission that was admitted, and once at most.
use coded_llm.Base.{
  ℕ, zero, suc, ◌+◌, ◌≤◌, ◌≡◌, refl, List, [], ◌∷◌, Option, none, some, ok, arith, get_elem?, set,
  ap, inl, inr, Option-cases, Result-cases, length, replicate, ◌>>=◌,
}
use coded_llm.Base.Int.{ℤ}
use coded_llm.Base.Maps.{find}
use coded_llm.Base.Sets.{count, count-append}
use coded_llm.Coding.Plan.{DecodePlan}
use coded_llm.Coding.Codec.{WordShard, ShardSlots}
use coded_llm.Runtime.Executor.{
  Backend, Task, Executor, executor, stop, drop_staged, stage_shard, stage_all, enqueue, admit,
  submit, cancel, take_task, wake, release,
}
use coded_llm.Runtime.Executor.Steps.{
  Worker, waiting, executing, finished, delivering, closing, returned, Step, staging, submission,
  cancellation, stopped, woken, left, executed, kept, dropped, completed, released, Steps, here,
  next, admitted_by,
}
use coded_llm.Runtime.Executor.Counts.{
  queued, queued-append, pending, gather, gather-set, count-remove_first,
}

module _ (backend : Backend) where
  pub stage_shard-queue :
      (e : Executor backend) (id n shard : ℕ) (payload : WordShard)
      → (stage_shard backend e id n shard payload).0.queue ≡ e.queue
  unfolding stage_shard
  stage_shard-queue e id n shard payload = ground arith

  enqueue-queued :
      (a : ℕ) (e : Executor backend) (id : ℕ) (plan : DecodePlan) (shards : ShardSlots)
      (context : backend.Context) (completion : backend.Handler) (now : ℤ)
      → count a (queued backend (enqueue backend e id plan shards context completion now).0.queue)
        ≡ count a (queued backend e.queue) + count a (id ∷ [])
  unfolding enqueue queued
  enqueue-queued a e id plan shards context completion now =
      rw (queued-append backend) (count-append a (queued backend e.queue) (id ∷ []))

  admit-queued :
      (a : ℕ) (e : Executor backend) (id : ℕ) (plan : DecodePlan) (shards : ShardSlots)
      (completion : backend.Handler) (now : ℤ)
      → count a (queued backend (admit backend e id plan shards completion now).0.queue)
        ≡ count a (queued backend e.queue)
          + count a (admitted_by id (admit backend e id plan shards completion now).1)
  unfolding admit count enqueue
  admit-queued a e id plan shards completion now =
      let answer =
        backend.create_context (length shards) >>= λ context. stage_all backend context 0 shards in
      elim (Option-cases (find e.staged_contexts id)) [
        | inl e₁ ↦
            rw (e₁, admit)
              (elim (Result-cases answer) [
                | inl (context, e₂) ↦
                    rw e₂ (enqueue-queued a e id plan shards context completion now)
                | inr (thrown, e₂) ↦ rw e₂ (omega arith)
              ])
        | inr (staged, e₁) ↦
            rw (e₁, admit)
              (ground (
                arith,
                enqueue-queued a (drop_staged backend e id) id plan shards staged.context completion
                    now,
              ))
      ]

  pub submit-queued :
      (a : ℕ) (e : Executor backend) (id : ℕ) (plan : DecodePlan) (shards : ShardSlots)
      (completion : Option backend.Handler) (now : ℤ)
      → count a (queued backend (submit backend e id plan shards completion now).0.queue)
        ≡ count a (queued backend e.queue)
          + count a (admitted_by id (submit backend e id plan shards completion now).1)
  unfolding submit count
  submit-queued a e id plan shards none now = omega arith
  submit-queued a e id plan shards (some completion) now =
      ground (arith, admit-queued a e id plan shards completion now)

  pub cancel-queued :
      (a : ℕ) (e : Executor backend) (id : ℕ)
      → count a (queued backend (cancel backend e id).0.queue) ≤ count a (queued backend e.queue)
  unfolding cancel count
  cancel-queued a e id = ground (arith, count-remove_first backend e.queue id a)

  pub wake-queued :
      (a : ℕ) (e after : Executor backend) (task : Task backend)
      → wake backend e ≡ take_task task after
      → count a (queued backend after.queue) + count a (task.request_id ∷ [])
        ≡ count a (queued backend e.queue)
  unfolding wake queued count
  wake-queued a e after task h = ground arith

  -- How many calls of the completion handler of a request are still due at most.
  abbrev due : ℕ → Executor backend → List (Worker backend) → ℕ
  due a e workers =
      count a (queued backend e.queue) + count a (gather backend (pending backend) workers)

  moved :
      (a : ℕ) (workers : List (Worker backend)) (i : ℕ) (old new : Worker backend)
      → get_elem? workers i ≡ some old
      → count a (gather backend (pending backend) (set workers i new))
          + count a (pending backend old)
        ≡ count a (gather backend (pending backend) workers) + count a (pending backend new)
  moved a = gather-set backend (count a) (count-append a) (pending backend)

  -- A step delivers only what was due or is admitted by it.
  Step-due :
      (a : ℕ) {e after : Executor backend} {workers workers' : List (Worker backend)}
      {admitted delivered : List ℕ}
      → Step backend e workers after workers' admitted delivered
      → count a delivered + due a after workers' ≤ due a e workers + count a admitted
  unfolding count stop release
  Step-due a {e} (staging id n shard payload h w p q) =
      rw (w, p, q, ← h, stage_shard-queue e id n shard payload) (omega arith)
  Step-due a {e} (submission id plan shards completion now answer h w p q) =
      let grown = submit-queued a e id plan shards completion now in
      rw (w, p, q) (omega (arith, rw h at grown))
  Step-due a {e} (cancellation id h w p q) = rw (w, p, q, ← h) (omega (arith, cancel-queued a e id))
  Step-due a (stopped h w p q) = rw (w, p, q, ← h) (omega arith)
  Step-due a {e} {after} {workers} (woken i task at_i h w p q) =
      rw (w, p, q)
        (omega
          (arith, moved a workers i waiting (executing task) at_i, wake-queued a e after task h))
  Step-due a {workers = workers} (left i at_i h s w p q) =
      rw (w, p, q, ← s) (omega (arith, moved a workers i waiting returned at_i))
  Step-due a {workers = workers} (executed i task from to at_i s w p q) =
      rw (w, p, q, ← s) (omega (arith, moved a workers i (executing task) (finished task _) at_i))
  Step-due a {workers = workers} (kept i task result at_i f s w p q) =
      rw (w, p, q, ← s)
        (omega (arith, moved a workers i (finished task result) (delivering task result) at_i))
  Step-due a {workers = workers} (dropped i task result at_i f s w p q) =
      rw (w, p, q, ← s)
        (omega (arith, moved a workers i (finished task result) (closing task) at_i))
  Step-due a {workers = workers} (completed i task result at_i s w p q) =
      rw (w, p, q, ← s)
        (omega (arith, moved a workers i (delivering task result) (closing task) at_i))
  Step-due a {workers = workers} (released i task at_i h w p q) =
      rw (w, p, q, ← h) (omega (arith, moved a workers i (closing task) waiting at_i))

  Steps-due :
      (a : ℕ) {e : Executor backend} {workers : List (Worker backend)} {after : Executor backend}
      {workers' : List (Worker backend)} {admitted delivered : List ℕ}
      → Steps backend e workers after workers' admitted delivered
      → count a delivered + due a after workers' ≤ due a e workers + count a admitted
  unfolding count
  Steps-due a here = omega arith
  Steps-due a
        (next {admitted₁ = p₁} {admitted₂ = p₂} {delivered₁ = q₁} {delivered₂ = q₂} steps step p
          q) =
      rw (p, q)
        (omega
          (arith, Steps-due a steps, Step-due a step, count-append a p₁ p₂, count-append a q₁ q₂))

  idle-pending : (a n : ℕ) → count a (gather backend (pending backend) (replicate n waiting)) ≡ 0
  unfolding count gather
  idle-pending a zero = refl
  idle-pending a (suc n) = idle-pending a n

  -- From the start on, whatever clients and workers do and in whatever order: the completion
  -- handler of a request is called no more often than a submission of it was admitted.
  pub delivered-le-admitted :
      (limit depth : ℕ) (cost : ℤ) (workers : ℕ) (start after : Executor backend)
      (workers' : List (Worker backend)) (admitted delivered : List ℕ) (request_id : ℕ)
      → executor backend limit depth cost ≡ ok start
      → Steps backend start (replicate workers waiting) after workers' admitted delivered
      → count request_id delivered ≤ count request_id admitted
  unfolding executor count queued
  delivered-le-admitted limit depth cost workers start after workers' admitted delivered request_id
        made steps =
      let empty : start.queue ≡ [] = ground arith in
      omega (
        arith,
        Steps-due request_id steps,
        ap (λ q. count request_id (queued backend q)) empty,
        idle-pending request_id workers,
      )
