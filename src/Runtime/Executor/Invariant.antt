-- ===== src/Runtime/Executor/Invariant.antt =====
-- The steps of workers, and sequences of steps.
use coded_llm.Base.{
  ◌⊎◌, ℕ, ◌≡◌, refl, List, [], ◌∷◌, Bool, some, Result, arith, get_elem?, set, ap, inl, inr, length,
  length-append, length-set,
}
use coded_llm.Base.Sets.{
  count, count-append, count-erase, length-erase-add-count, count-insert, length-insert,
  contains-erase, insert,
}
use coded_llm.Runtime.Executor.{Backend, Task, Executor, take_task, wake, release}
use coded_llm.Runtime.Executor.Steps.{
  Worker, waiting, executing, finished, delivering, closing, returned, Step, staging, submission,
  cancellation, stopped, woken, left, executed, kept, dropped, completed, released, Steps, here,
  next,
}
use coded_llm.Runtime.Executor.Counts.{queued, held, gather-set}
use coded_llm.Runtime.Executor.Clients.{
  IsValid, cancel-IsValid, stage_shard-IsValid, stop-IsValid, submit-IsValid,
}

module _ (backend : Backend) where
  queue_cases :
      (queue : List (Task backend))
      → (queue ≡ [])
        ⊎ ((task : Task backend) × (rest : List (Task backend)) × (queue ≡ task ∷ rest))
  queue_cases [] = inl refl
  queue_cases (task ∷ rest) = inr (task, rest, refl)

  taken :
      (e : Executor backend) (task : Task backend) (rest : List (Task backend)) → Executor backend
  taken e task rest = record e {
    queue = rest;
    running_requests = insert e.running_requests task.request_id;
  }

  wake-taken :
      (e after : Executor backend) (task : Task backend)
      → wake backend e ≡ take_task task after
      → (rest : List (Task backend)) × (e.queue ≡ task ∷ rest) × (taken e task rest ≡ after)
  unfolding wake taken
  wake-taken e after task h = elim (queue_cases e.queue) [
    | inl none_left ↦ absurd (ground arith)
    | inr (first, rest, q) ↦
        let parts = rw (q, wake) at h in
        let same : first ≡ task = ground arith in (rest, rw same at q, ground arith)
  ]

  taken-IsValid :
      (e : Executor backend) (workers : List (Worker backend)) (i : ℕ) (task : Task backend)
      (rest : List (Task backend))
      → IsValid backend e workers
      → get_elem? workers i ≡ some waiting
      → e.queue ≡ task ∷ rest
      → IsValid backend (taken e task rest) (set workers i (executing task))
  unfolding taken queued count
  taken-IsValid e workers i task rest v at_i q =
      let id = task.request_id in
      let moved = λ (a : ℕ).
        gather-set backend (count a) (count-append a) (held backend) workers i waiting
          (executing task) at_i in
      let once' = λ (a : ℕ). rw q at (v.once a) in
      let free : count id e.running_requests ≡ 0 = ground (arith, once' id, v.running id) in
      record {
        within = omega (arith, v.within, ap length q, length-insert e.running_requests id free);
        threads = omega (arith, v.threads, length-set workers i (executing task));
        busy = omega (
          arith,
          v.busy,
          length-insert e.running_requests id free,
          gather-set backend length length-append (held backend) workers i waiting (executing task)
              at_i,
        );
        running =
            λ a. omega (arith, v.running a, count-insert e.running_requests id a free, moved a);
        once = λ a. omega (arith, once' a, moved a);
        cancelled = λ a h. omega (arith, v.cancelled a h, moved a);
      }

  released-IsValid :
      (e : Executor backend) (workers : List (Worker backend)) (i : ℕ) (task : Task backend)
      → IsValid backend e workers
      → get_elem? workers i ≡ some (closing task)
      → IsValid backend (release backend e task.request_id) (set workers i waiting)
  unfolding release count
  released-IsValid e workers i task v at_i =
      let id = task.request_id in
      let moved = λ (a : ℕ).
        gather-set backend (count a) (count-append a) (held backend) workers i (closing task)
          waiting at_i in
      record {
        within = omega (arith, v.within, length-erase-add-count e.running_requests id);
        threads = omega (arith, v.threads, length-set workers i waiting);
        busy = ground (
          arith,
          v.busy,
          length-erase-add-count e.running_requests id,
          v.running id,
          v.once id,
          moved id,
          gather-set backend length length-append (held backend) workers i (closing task) waiting
              at_i,
        );
        running = λ a.
            ground (
              arith,
              v.running a,
              v.once id,
              count-erase e.running_requests id a,
              moved a,
              moved id,
            );
        once = λ a. ground (arith, v.once a, moved a);
        cancelled =
            λ a h. ground (arith, contains-erase e.cancelled_requests id a, v.cancelled a, moved a);
      }

  -- A worker that moves on and holds the same request, or none before and after.
  kept-IsValid :
      (e : Executor backend) (workers : List (Worker backend)) (i : ℕ) (old new : Worker backend)
      → IsValid backend e workers
      → get_elem? workers i ≡ some old
      → held backend old ≡ held backend new
      → IsValid backend e (set workers i new)
  kept-IsValid e workers i old new v at_i same =
      let moved = λ (a : ℕ).
        gather-set backend (count a) (count-append a) (held backend) workers i old new at_i in
      let counted = λ (a : ℕ). ap (count a) same in
      record {
        within = v.within;
        threads = omega (arith, v.threads, length-set workers i new);
        busy = omega (
          arith,
          v.busy,
          ap length same,
          gather-set backend length length-append (held backend) workers i old new at_i,
        );
        running = λ a. omega (arith, v.running a, moved a, counted a);
        once = λ a. omega (arith, v.once a, moved a, counted a);
        cancelled = λ a h. omega (arith, v.cancelled a h, moved a, counted a);
      }

  pub Step-IsValid :
      {e : Executor backend} {workers : List (Worker backend)} {after : Executor backend}
      {workers' : List (Worker backend)} {admitted delivered : List ℕ}
      → Step backend e workers after workers' admitted delivered
      → IsValid backend e workers
      → IsValid backend after workers'
  Step-IsValid {e} {workers} (staging id n shard payload h w p q) v =
      rw (w, ← h) (stage_shard-IsValid backend e workers id n shard payload v)
  Step-IsValid {e} {workers} (submission id plan shards completion now answer h w p q) v =
      rw (w, ← (ap (λ (r : Executor backend × Result Bool). r.0) h))
        (submit-IsValid backend e workers id plan shards completion now v)
  Step-IsValid {e} {workers} (cancellation id h w p q) v =
      rw (w, ← h) (cancel-IsValid backend e workers id v)
  Step-IsValid {e} {workers} (stopped h w p q) v = rw (w, ← h) (stop-IsValid backend e workers v)
  Step-IsValid {e} {workers} {after} (woken i task at_i h w p q) v =
      let (rest, parts, same) = wake-taken e after task h in
      rw (w, ← same) (taken-IsValid e workers i task rest v at_i parts)
  Step-IsValid {e} {workers} (left i at_i h s w p q) v =
      rw (w, ← s) (kept-IsValid e workers i waiting returned v at_i refl)
  Step-IsValid {e} {workers} (executed i task from to at_i s w p q) v =
      rw (w, ← s) (kept-IsValid e workers i (executing task) (finished task _) v at_i refl)
  Step-IsValid {e} {workers} (kept i task result at_i f s w p q) v =
      rw (w, ← s)
        (kept-IsValid e workers i (finished task result) (delivering task result) v at_i refl)
  Step-IsValid {e} {workers} (dropped i task result at_i f s w p q) v =
      rw (w, ← s) (kept-IsValid e workers i (finished task result) (closing task) v at_i refl)
  Step-IsValid {e} {workers} (completed i task result at_i s w p q) v =
      rw (w, ← s) (kept-IsValid e workers i (delivering task result) (closing task) v at_i refl)
  Step-IsValid {e} {workers} (released i task at_i h w p q) v =
      rw (w, ← h) (released-IsValid e workers i task v at_i)

  -- Whatever clients and workers do, and in whatever order: from a valid state the executor stays
  -- valid. Its tasks are within the capacity, the running requests are those that the workers hold,
  -- each request is staged, queued or held once at most, and only held requests are cancelled.
  pub Steps-IsValid :
      (e : Executor backend) (workers : List (Worker backend)) (after : Executor backend)
      (workers' : List (Worker backend)) (admitted delivered : List ℕ)
      → IsValid backend e workers
      → Steps backend e workers after workers' admitted delivered
      → IsValid backend after workers'
  Steps-IsValid e workers after workers' admitted delivered v here = v
  Steps-IsValid e workers after workers' admitted delivered v
        (next {between = between} {workers₁ = workers₁} {admitted₁ = p₁} {delivered₁ = q₁} steps
          step p q) =
      Step-IsValid step (Steps-IsValid e workers between workers₁ p₁ q₁ v steps)
