-- ===== src/Runtime/Executor/Cancellation.antt =====
-- What a cancellation keeps from happening.
use coded_llm.Base.{
  ℕ, ◌+◌, ◌≤◌, ◌≡◌, refl, ◌⊎◌, List, [], ◌∷◌, true, Option, none, some, arith, get_elem?, set, sym,
  ◌∙◌, inl, inr, Bool-cases, ◌==◌,
}
use coded_llm.Base.Int.{ℤ}
use coded_llm.Base.Sets.{
  contains, count, count-append, contains-count, contains-insert, contains-erase,
}
use coded_llm.Coding.Plan.{DecodePlan}
use coded_llm.Coding.Codec.{WordShard, ShardSlots}
use coded_llm.Runtime.Executor.{
  Backend, Task, Executor, stop, stage_shard, enqueue, admit, submit, cancel, take_task, wake,
  is_cancelled, release, has_queued_request,
}
use coded_llm.Runtime.Executor.Steps.{
  Worker, waiting, executing, finished, delivering, closing, returned, Step, staging, submission,
  cancellation, stopped, woken, left, executed, kept, dropped, completed, released, Steps, here,
  next,
}
use coded_llm.Runtime.Executor.Counts.{
  queued, held, gather, gather-set, count-remove_first, has_queued_request-eq,
}
use coded_llm.Runtime.Executor.Delivery.{
  stage_shard-queue, submit-queued, cancel-queued, wake-queued,
}
use coded_llm.Runtime.Executor.Clients.{IsValid, cancel-IsValid}
use coded_llm.Runtime.Executor.Invariant.{Steps-IsValid}

module _ (backend : Backend) where
  -- The request of a worker that has not looked for a cancellation yet.
  abbrev pub unchecked : Worker backend → List ℕ
  unchecked waiting = []
  unchecked (executing task) = task.request_id ∷ []
  unchecked (finished task result) = task.request_id ∷ []
  unchecked (delivering task result) = []
  unchecked (closing task) = []
  unchecked returned = []

  -- The request of a worker that has found no cancellation and is about to call the handler.
  abbrev pub passed : Worker backend → List ℕ
  passed waiting = []
  passed (executing task) = []
  passed (finished task result) = []
  passed (delivering task result) = task.request_id ∷ []
  passed (closing task) = []
  passed returned = []

  unchecked-le-held :
      (a : ℕ) (workers : List (Worker backend))
      → count a (gather backend unchecked workers) ≤ count a (gather backend (held backend) workers)
  unfolding gather count
  unchecked-le-held a [] = omega arith
  unchecked-le-held a (waiting ∷ ws) = unchecked-le-held a ws
  unchecked-le-held a (executing task ∷ ws) = omega (arith, unchecked-le-held a ws)
  unchecked-le-held a (finished task result ∷ ws) = omega (arith, unchecked-le-held a ws)
  unchecked-le-held a (delivering task result ∷ ws) = omega (arith, unchecked-le-held a ws)
  unchecked-le-held a (closing task ∷ ws) = omega (arith, unchecked-le-held a ws)
  unchecked-le-held a (returned ∷ ws) = unchecked-le-held a ws

  -- No task of the request is queued, and the workers that have yet to look find it cancelled.
  record IsQuiet (a : ℕ) (e : Executor backend) (workers : List (Worker backend)) : Type 0 where
    not_queued : count a (queued backend e.queue) ≡ 0
    flagged :
        (count a (gather backend unchecked workers) ≡ 0) ⊎ (contains e.cancelled_requests a ≡ true)

  moved :
      (a : ℕ) (f : Worker backend → List ℕ) (workers : List (Worker backend)) (i : ℕ)
      (old new : Worker backend)
      → get_elem? workers i ≡ some old
      → count a (gather backend f (set workers i new)) + count a (f old)
        ≡ count a (gather backend f workers) + count a (f new)
  moved a = gather-set backend (count a) (count-append a)

  stage_shard-cancelled :
      (e : Executor backend) (id n shard : ℕ) (payload : WordShard)
      → (stage_shard backend e id n shard payload).0.cancelled_requests ≡ e.cancelled_requests
  unfolding stage_shard
  stage_shard-cancelled e id n shard payload = ground arith

  submit-cancelled :
      (e : Executor backend) (id : ℕ) (plan : DecodePlan) (shards : ShardSlots)
      (completion : Option backend.Handler) (now : ℤ)
      → (submit backend e id plan shards completion now).0.cancelled_requests ≡ e.cancelled_requests
  unfolding submit admit enqueue
  submit-cancelled e id plan shards none now = refl
  submit-cancelled e id plan shards (some completion) now = ground arith

  cancel-cancelled :
      (e : Executor backend) (id a : ℕ)
      → contains e.cancelled_requests a ≡ true
      → contains (cancel backend e id).0.cancelled_requests a ≡ true
  unfolding cancel
  cancel-cancelled e id a h = ground (arith, contains-insert e.cancelled_requests id a)

  wake-cancelled :
      (e after : Executor backend) (task : Task backend)
      → wake backend e ≡ take_task task after
      → after.cancelled_requests ≡ e.cancelled_requests
  unfolding wake
  wake-cancelled e after task h = ground arith

  abbrev ready : ℕ → List (Worker backend) → ℕ
  ready a workers = count a (gather backend passed workers)

  abbrev Quiets :
      ℕ → Executor backend → List (Worker backend) → List (Worker backend) → List ℕ → Type 0
  Quiets a after workers workers' delivered =
      IsQuiet a after workers' × (count a delivered + ready a workers' ≤ ready a workers)

  Step-IsQuiet :
      (a : ℕ) {e : Executor backend} {workers : List (Worker backend)} {after : Executor backend}
      {workers' : List (Worker backend)} {admitted delivered : List ℕ}
      → Step backend e workers after workers' admitted delivered
      → IsValid backend e workers
      → count a admitted ≡ 0
      → IsQuiet a e workers
      → Quiets a after workers workers' delivered
  unfolding count stop release is_cancelled
  Step-IsQuiet a {e} (staging id n shard payload h w p q) v none_in c =
      rw (w, q, ← h)
        (
          record {
            not_queued = rw (stage_shard-queue backend e id n shard payload) c.not_queued;
            flagged = rw (stage_shard-cancelled e id n shard payload) c.flagged;
          },
          omega arith,
        )
  Step-IsQuiet a {e} (submission id plan shards completion now answer h w p q) v none_in c =
      let grown = rw h at (submit-queued backend a e id plan shards completion now) in
      let same = rw h at (submit-cancelled e id plan shards completion now) in
      rw (w, q)
        (
          record {
            not_queued = omega (arith, grown, rw p at none_in, c.not_queued);
            flagged = rw same c.flagged;
          },
          omega arith,
        )
  Step-IsQuiet a {e} (cancellation id h w p q) v none_in c =
      rw (w, q, ← h)
        (
          record {
            not_queued = omega (arith, cancel-queued backend a e id, c.not_queued);
            flagged = elim c.flagged [ inl f ↦ inl f | inr f ↦ inr (cancel-cancelled e id a f) ];
          },
          omega arith,
        )
  Step-IsQuiet a (stopped h w p q) v none_in c =
      rw (w, q, ← h) (record { not_queued = c.not_queued; flagged = c.flagged }, omega arith)
  Step-IsQuiet a {e} {workers} {after} (woken i task at_i h w p q) v none_in c =
      let fewer = wake-queued backend a e after task h in
      rw (w, q)
        (
          record {
            not_queued = omega (arith, fewer, c.not_queued);
            flagged = rw (wake-cancelled e after task h) (elim c.flagged [
              | inl f ↦ inl (
                  omega (
                    arith,
                    f,
                    fewer,
                    c.not_queued,
                    moved a unchecked workers i waiting (executing task) at_i,
                  ))
              | inr f ↦ inr f
            ]);
          },
          omega (arith, moved a passed workers i waiting (executing task) at_i),
        )
  Step-IsQuiet a {workers = workers} (left i at_i h s w p q) v none_in c =
      rw (w, q, ← s)
        (
          record {
            not_queued = c.not_queued;
            flagged = elim c.flagged [
              | inl f ↦ inl (omega (arith, f, moved a unchecked workers i waiting returned at_i))
              | inr f ↦ inr f
            ];
          },
          omega (arith, moved a passed workers i waiting returned at_i),
        )
  Step-IsQuiet a {workers = workers} (executed i task from to at_i s w p q) v none_in c =
      rw (w, q, ← s)
        (
          record {
            not_queued = c.not_queued;
            flagged = elim c.flagged [
              | inl f ↦ inl (
                  omega
                    (arith, f, moved a unchecked workers i (executing task) (finished task _) at_i))
              | inr f ↦ inr f
            ];
          },
          omega (arith, moved a passed workers i (executing task) (finished task _) at_i),
        )
  Step-IsQuiet a {e} {workers} (kept i task result at_i f s w p q) v none_in c =
      let before =
        moved a unchecked workers i (finished task result) (delivering task result) at_i in
      let other : count a (task.request_id ∷ []) ≡ 0 = elim c.flagged [
        | inl g ↦ omega (arith, g, before)
        | inr g ↦ ground arith
      ] in
      rw (w, q, ← s)
        (
          record {
            not_queued = c.not_queued;
            flagged = elim c.flagged [ inl g ↦ inl (omega (arith, g, before)) | inr g ↦ inr g ];
          },
          omega (
            arith,
            other,
            moved a passed workers i (finished task result) (delivering task result) at_i,
          ),
        )
  Step-IsQuiet a {workers = workers} (dropped i task result at_i f s w p q) v none_in c =
      rw (w, q, ← s)
        (
          record {
            not_queued = c.not_queued;
            flagged = elim c.flagged [
              | inl g ↦ inl (
                  omega (
                    arith,
                    g,
                    moved a unchecked workers i (finished task result) (closing task) at_i,
                  ))
              | inr g ↦ inr g
            ];
          },
          omega (arith, moved a passed workers i (finished task result) (closing task) at_i),
        )
  Step-IsQuiet a {workers = workers} (completed i task result at_i s w p q) v none_in c =
      rw (w, q, ← s)
        (
          record {
            not_queued = c.not_queued;
            flagged = elim c.flagged [
              | inl g ↦ inl (
                  omega (
                    arith,
                    g,
                    moved a unchecked workers i (delivering task result) (closing task) at_i,
                  ))
              | inr g ↦ inr g
            ];
          },
          omega (arith, moved a passed workers i (delivering task result) (closing task) at_i),
        )
  Step-IsQuiet a {e} {workers} (released i task at_i h w p q) v none_in c =
      let after' = moved a unchecked workers i (closing task) waiting at_i in
      let holds = moved a (held backend) workers i (closing task) waiting at_i in
      rw (w, q, ← h)
        (
          record {
            not_queued = c.not_queued;
            flagged = elim c.flagged [
              | inl g ↦ inl (omega (arith, g, after'))
              | inr g ↦ elim (Bool-cases (task.request_id == a)) [
                | inl same ↦ inl (
                    ground (
                      arith,
                      same,
                      after',
                      holds,
                      v.once a,
                      unchecked-le-held a (set workers i waiting),
                    ))
                | inr other ↦
                    inr (ground (arith, contains-erase e.cancelled_requests task.request_id a))
              ]
            ];
          },
          omega (arith, moved a passed workers i (closing task) waiting at_i),
        )

  Steps-IsQuiet :
      (a : ℕ) {e : Executor backend} {workers : List (Worker backend)} {after : Executor backend}
      {workers' : List (Worker backend)} {admitted delivered : List ℕ}
      → IsValid backend e workers
      → IsQuiet a e workers
      → Steps backend e workers after workers' admitted delivered
      → count a admitted ≡ 0
      → Quiets a after workers workers' delivered
  unfolding count
  Steps-IsQuiet a v c here none_in = (c, omega arith)
  Steps-IsQuiet a {e} {workers} v c
        (next {between = between} {workers₁ = workers₁} {admitted₁ = p₁} {admitted₂ = p₂}
          {delivered₁ = q₁} {delivered₂ = q₂} steps step p q)
        none_in =
      let parts = rw p at none_in in
      let (c₁, n₁) = Steps-IsQuiet a v c steps (omega (arith, parts, count-append a p₁ p₂)) in
      let v₁ = Steps-IsValid backend e workers between workers₁ p₁ q₁ v steps in
      let (c₂, n₂) = Step-IsQuiet a step v₁ (omega (arith, parts, count-append a p₁ p₂)) c₁ in
      (c₂, rw q (omega (arith, n₁, n₂, count-append a q₁ q₂)))

  cancel-IsQuiet :
      (e : Executor backend) (workers : List (Worker backend)) (id : ℕ)
      → IsValid backend e workers
      → IsQuiet id (cancel backend e id).0 workers
  unfolding cancel
  cancel-IsQuiet e workers id v = elim (Bool-cases (has_queued_request backend e.queue id)) [
    | inl q ↦
        rw (q, cancel)
          (record {
            not_queued = ground (arith, count-remove_first backend e.queue id id, v.once id);
            flagged = inl (
                ground (
                  arith,
                  count-remove_first backend e.queue id id,
                  v.once id,
                  unchecked-le-held id workers,
                ));
          })
    | inr q ↦
        let free =
          contains-count (queued backend e.queue) id
            (sym (has_queued_request-eq backend e.queue id) ∙ q) in
        rw (q, cancel)
          (elim (Bool-cases (contains e.running_requests id)) [
            | inl r ↦
                rw (r, cancel)
                  (record {
                    not_queued = free;
                    flagged = inr (ground (arith, contains-insert e.cancelled_requests id id));
                  })
            | inr r ↦
                rw (r, cancel)
                  (record {
                    not_queued = free;
                    flagged = inl (
                        omega (
                          arith,
                          contains-count e.running_requests id r,
                          v.running id,
                          unchecked-le-held id workers,
                        ));
                  })
          ])
  ]

  -- After a cancellation in a valid state, until the request is admitted again: its handler is
  -- called no more often than there were workers that had looked for the cancellation before it.
  pub cancel-delivered :
      (e : Executor backend) (workers : List (Worker backend)) (id : ℕ) (after : Executor backend)
      (workers' : List (Worker backend)) (admitted delivered : List ℕ)
      → IsValid backend e workers
      → Steps backend (cancel backend e id).0 workers after workers' admitted delivered
      → count id admitted ≡ 0
      → count id delivered ≤ count id (gather backend passed workers)
  cancel-delivered e workers id after workers' admitted delivered v steps none_in = omega (
    arith,
    (Steps-IsQuiet id (cancel-IsValid backend e workers id v) (cancel-IsQuiet e workers id v) steps
        none_in).1,
  )
