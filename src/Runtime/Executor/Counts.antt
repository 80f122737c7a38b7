-- ===== src/Runtime/Executor/Counts.antt =====
-- How often a request stands in the queue and with the workers.
use coded_llm.Base.{
  ℕ, zero, suc, ◌+◌, ◌≡◌, refl, List, [], ◌∷◌, ◌++◌, some, arith, get_elem?, set, ◌==◌,
  if◌then◌else◌, ap,
}
use coded_llm.Base.Sets.{count, contains}
use coded_llm.Runtime.Executor.{Backend, Task, has_queued_request, remove_first}
use coded_llm.Runtime.Executor.Steps.{
  Worker, waiting, executing, finished, delivering, closing, returned,
}

module _ (backend : Backend) where
  -- The requests of the queue.
  unfoldable pub queued : List (Task backend) → List ℕ
  queued [] = []
  queued (task ∷ rest) = task.request_id ∷ queued rest

  -- The request of a worker that may still call its completion handler.
  abbrev pub pending : Worker backend → List ℕ
  pending waiting = []
  pending (executing task) = task.request_id ∷ []
  pending (finished task result) = task.request_id ∷ []
  pending (delivering task result) = task.request_id ∷ []
  pending (closing task) = []
  pending returned = []

  -- The request of a worker that has not called `release` yet.
  abbrev pub held : Worker backend → List ℕ
  held waiting = []
  held (executing task) = task.request_id ∷ []
  held (finished task result) = task.request_id ∷ []
  held (delivering task result) = task.request_id ∷ []
  held (closing task) = task.request_id ∷ []
  held returned = []

  unfoldable pub gather : (Worker backend → List ℕ) → List (Worker backend) → List ℕ
  gather f [] = []
  gather f (w ∷ ws) = f w ++ gather f ws

  -- A worker that moves on changes a sum over the workers by its own part.
  pub gather-set :
      (measure : List ℕ → ℕ)
      → ((xs ys : List ℕ) → measure (xs ++ ys) ≡ measure xs + measure ys)
      → (f : Worker backend → List ℕ) (ws : List (Worker backend)) (i : ℕ)
        (old new : Worker backend)
      → get_elem? ws i ≡ some old
      → measure (gather f (set ws i new)) + measure (f old)
        ≡ measure (gather f ws) + measure (f new)
  unfolding gather
  gather-set measure additive f [] i old new h = cc
  gather-set measure additive f (w ∷ ws) zero old new h =
      let same : w ≡ old = ground arith in
      rw same (omega (arith, additive (f new) (gather f ws), additive (f old) (gather f ws)))
  gather-set measure additive f (w ∷ ws) (suc i) old new h = omega (
    arith,
    gather-set measure additive f ws i old new h,
    additive (f w) (gather f (set ws i new)),
    additive (f w) (gather f ws),
  )

  pub queued-append : (xs ys : List (Task backend)) → queued (xs ++ ys) ≡ queued xs ++ queued ys
  unfolding queued
  queued-append [] ys = refl
  queued-append (x ∷ xs) ys = ap (λ r. x.request_id ∷ r) (queued-append xs ys)

  pub has_queued_request-eq :
      (queue : List (Task backend)) (id : ℕ)
      → has_queued_request backend queue id ≡ contains (queued queue) id
  unfolding has_queued_request contains queued
  has_queued_request-eq [] id = refl
  has_queued_request-eq (task ∷ rest) id = ground (arith, has_queued_request-eq rest id)

  -- One task of the request leaves, if there is one; the others stay.
  pub count-remove_first :
      (queue : List (Task backend)) (id a : ℕ)
      → count a (queued (remove_first backend queue id))
          + (if id == a then (if has_queued_request backend queue id then 1 else 0) else 0)
        ≡ count a (queued queue)
  unfolding remove_first has_queued_request queued count
  count-remove_first [] id a = ground arith
  count-remove_first (task ∷ rest) id a = ground (arith, count-remove_first rest id a)
