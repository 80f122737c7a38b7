-- ===== src/Runtime/Executor/Clients.antt =====
-- What holds of the executor between any two steps, and the operations of clients.
use coded_llm.Base.{
  ℕ, ◌+◌, ◌≤◌, ◌<◌, ◌≡◌, List, [], ◌∷◌, true, false, Option, none, some, arith, sym, ◌∙◌, inl, inr,
  Bool-cases, Option-cases, Result-cases, length, length-append, ◌||◌, ◌==◌, if◌then◌else◌, ◌>>=◌,
}
use coded_llm.Base.Int.{ℤ}
use coded_llm.Base.Maps.{find, find-assign}
use coded_llm.Base.Sets.{
  contains, count, count-append, contains-count, contains-count_pos, contains-insert,
}
use coded_llm.Coding.Plan.{DecodePlan}
use coded_llm.Coding.Codec.{WordShard, ShardSlots}
use coded_llm.Runtime.Executor.{
  Backend, Task, StagedContext, Executor, stop, stage_in, stage_shard, stage_all, enqueue, admit,
  refuses, submit, cancel, has_queued_request, remove_first, erase_key, drop_staged,
}
use coded_llm.Runtime.Executor.Steps.{Worker}
use coded_llm.Runtime.Executor.Counts.{
  queued, queued-append, held, gather, count-remove_first, has_queued_request-eq,
}

pub find-erase_key {ℓ} :
    {V : Type ℓ} (m : List (ℕ × V)) (key k : ℕ)
    → find (erase_key m key) k ≡ (if key == k then none else find m k)
unfolding find erase_key
find-erase_key [] key k = ground arith
find-erase_key ((j, v) ∷ rest) key k = ground (arith, find-erase_key rest key k)

abbrev pub held_once {ℓ} : {V : Type ℓ} → Option V → ℕ
held_once none = 0
held_once (some v) = 1

module _ (backend : Backend) where
  -- In how many ways a request stands with the executor: staged, queued or held by a worker.
  abbrev pub places : ℕ → Executor backend → List (Worker backend) → ℕ
  places a e workers =
      held_once (find e.staged_contexts a)
      + count a (queued backend e.queue)
      + count a (gather backend (held backend) workers)

  -- The tasks stay within the capacity; the running requests are those that the workers hold; a
  -- request stands in one place at most, and is cancelled only while a worker holds it.
  pub record IsValid (e : Executor backend) (workers : List (Worker backend)) : Type 0 where
    pub within : length e.queue + length e.running_requests ≤ e.capacity
    pub threads : length workers ≡ e.concurrency
    pub busy : length e.running_requests ≡ length (gather backend (held backend) workers)
    pub running :
        (a : ℕ) → count a e.running_requests ≡ count a (gather backend (held backend) workers)
    pub once : (a : ℕ) → places a e workers ≤ 1
    pub cancelled :
        (a : ℕ)
        → contains e.cancelled_requests a ≡ true
        → 1 ≤ count a (gather backend (held backend) workers)

  -- An operation of a client that changes the staged contexts alone.
  pub staged-IsValid :
      (e : Executor backend) (workers : List (Worker backend))
      (staged : List (ℕ × StagedContext backend))
      → IsValid e workers
      → ((a : ℕ)
          → held_once (find staged a)
              + count a (queued backend e.queue)
              + count a (gather backend (held backend) workers)
            ≤ 1)
      → IsValid (record e { staged_contexts = staged }) workers
  staged-IsValid e workers staged v once = record {
    within = v.within;
    threads = v.threads;
    busy = v.busy;
    running = v.running;
    once = once;
    cancelled = v.cancelled;
  }

  pub drop_staged-IsValid :
      (e : Executor backend) (workers : List (Worker backend)) (id : ℕ)
      → IsValid e workers
      → IsValid (drop_staged backend e id) workers
  drop_staged-IsValid e workers id v =
      staged-IsValid e workers _ v
        (λ a. ground (arith, find-erase_key e.staged_contexts id a, v.once a))

  -- A request that is neither queued nor running.
  pub record IsAway (e : Executor backend) (workers : List (Worker backend)) (id : ℕ) : Type 0 where
    not_queued : count id (queued backend e.queue) ≡ 0
    not_held : count id (gather backend (held backend) workers) ≡ 0

  pub away :
      (e : Executor backend) (workers : List (Worker backend)) (id : ℕ)
      → IsValid e workers
      → contains e.running_requests id ≡ false
      → has_queued_request backend e.queue id ≡ false
      → IsAway e workers id
  away e workers id v r q = record {
    not_queued =
        contains-count (queued backend e.queue) id
          (sym (has_queued_request-eq backend e.queue id) ∙ q);
    not_held = sym (v.running id) ∙ contains-count e.running_requests id r;
  }

  pub stage_in-IsValid :
      (e : Executor backend) (workers : List (Worker backend)) (id n : ℕ)
      (context : backend.Context) (shard : ℕ) (payload : WordShard)
      → IsValid e workers
      → IsAway e workers id
      → IsValid (stage_in backend e id n context shard payload).0 workers
  unfolding stage_in
  stage_in-IsValid e workers id n context shard payload v w = staged-IsValid e workers _ v (λ a.
      ground (
        arith,
        find-assign e.staged_contexts id
            (record { shard_count = n; context = (backend.stage_shard_in context shard payload).0 })
            a,
        v.once a,
        w.not_queued,
        w.not_held,
      ))

  pub stage_shard-IsValid :
      (e : Executor backend) (workers : List (Worker backend)) (id n shard : ℕ)
      (payload : WordShard)
      → IsValid e workers
      → IsValid (stage_shard backend e id n shard payload).0 workers
  unfolding stage_shard
  stage_shard-IsValid e workers id n shard payload v =
      elim (Bool-cases
        (e.stopping || contains e.running_requests id || has_queued_request backend e.queue id)) [
          | inl early ↦ rw (early, stage_shard) v
          | inr open_ ↦
              let w = away e workers id v (ground arith) (ground arith) in
              rw (open_, stage_shard)
                (elim (Option-cases (find e.staged_contexts id)) [
                  | inl e₁ ↦
                      rw (e₁, stage_shard)
                        (elim (Result-cases (backend.create_context n)) [
                          | inl (context, e₂) ↦
                              rw (e₂, stage_shard)
                                (stage_in-IsValid e workers id n context shard payload v w)
                          | inr (thrown, e₂) ↦ rw (e₂, stage_shard) v
                        ])
                  | inr (staged, e₁) ↦
                      rw (e₁, stage_shard)
                        (elim (Bool-cases (staged.shard_count == n)) [
                          | inl e₂ ↦
                              rw (e₂, stage_shard)
                                (stage_in-IsValid e workers id n staged.context shard payload v w)
                          | inr e₂ ↦ rw (e₂, stage_shard) v
                        ])
                ])
        ]

  pub enqueue-IsValid :
      (e : Executor backend) (workers : List (Worker backend)) (id : ℕ) (plan : DecodePlan)
      (shards : ShardSlots) (context : backend.Context) (completion : backend.Handler) (now : ℤ)
      → IsValid e workers
      → IsAway e workers id
      → length e.queue + length e.running_requests < e.capacity
      → find e.staged_contexts id ≡ none
      → IsValid (enqueue backend e id plan shards context completion now).0 workers
  unfolding enqueue queued count
  enqueue-IsValid e workers id plan shards context completion now v w room unstaged = record {
    within = omega (arith, length-append e.queue (_ ∷ []));
    threads = v.threads;
    busy = v.busy;
    running = v.running;
    once = λ a. rw (queued-append backend) (elim (Bool-cases (id == a)) [
      | inl same ↦
          let e₁ : id ≡ a = ground arith in
          rw (← e₁, unstaged)
            (ground
              (arith, count-append id (queued backend e.queue) (id ∷ []), w.not_queued, w.not_held))
      | inr other ↦ ground (arith, count-append a (queued backend e.queue) (id ∷ []), v.once a)
    ]);
    cancelled = v.cancelled;
  }

  pub admit-IsValid :
      (e : Executor backend) (workers : List (Worker backend)) (id : ℕ) (plan : DecodePlan)
      (shards : ShardSlots) (completion : backend.Handler) (now : ℤ)
      → IsValid e workers
      → IsAway e workers id
      → length e.queue + length e.running_requests < e.capacity
      → IsValid (admit backend e id plan shards completion now).0 workers
  unfolding admit
  admit-IsValid e workers id plan shards completion now v w room =
      let answer =
        backend.create_context (length shards) >>= λ context. stage_all backend context 0 shards in
      elim (Option-cases (find e.staged_contexts id)) [
        | inl e₁ ↦
            rw (e₁, admit)
              (elim (Result-cases answer) [
                | inl (context, e₂) ↦
                    rw e₂
                      (enqueue-IsValid e workers id plan shards context completion now v w room e₁)
                | inr (thrown, e₂) ↦ rw e₂ v
              ])
        | inr (staged, e₁) ↦
            rw (e₁, admit)
              (elim (Bool-cases (staged.shard_count == length shards)) [
                | inr e₂ ↦ rw e₂ (drop_staged-IsValid e workers id v)
                | inl e₂ ↦
                    let gone : find (erase_key e.staged_contexts id) id ≡ none =
                      ground (arith, find-erase_key e.staged_contexts id id) in
                    rw e₂ (
                      enqueue-IsValid (drop_staged backend e id) workers id plan shards
                        staged.context completion now (drop_staged-IsValid e workers id v)
                        (record { not_queued = w.not_queued; not_held = w.not_held }) room gone)
              ])
      ]

  pub submit-IsValid :
      (e : Executor backend) (workers : List (Worker backend)) (id : ℕ) (plan : DecodePlan)
      (shards : ShardSlots) (completion : Option backend.Handler) (now : ℤ)
      → IsValid e workers
      → IsValid (submit backend e id plan shards completion now).0 workers
  unfolding submit
  submit-IsValid e workers id plan shards none now v = v
  submit-IsValid e workers id plan shards (some completion) now v =
      elim (Bool-cases (refuses backend e id)) [
        | inl no_room ↦ rw (no_room, submit) (drop_staged-IsValid e workers id v)
        | inr room ↦
            rw (room, submit)
              (admit-IsValid e workers id plan shards completion now v
                (away e workers id v (ground arith) (ground arith)) (ground arith))
      ]

  pub length-remove_first :
      (queue : List (Task backend)) (id : ℕ) → length (remove_first backend queue id) ≤ length queue
  unfolding remove_first
  length-remove_first [] id = omega arith
  length-remove_first (task ∷ rest) id = ground (arith, length-remove_first rest id)

  pub cancel-IsValid :
      (e : Executor backend) (workers : List (Worker backend)) (id : ℕ)
      → IsValid e workers
      → IsValid (cancel backend e id).0 workers
  unfolding cancel
  cancel-IsValid e workers id v =
      let d = drop_staged-IsValid e workers id v in
      elim (Bool-cases (has_queued_request backend e.queue id)) [
        | inl q ↦
            rw (q, cancel)
              (record {
                within = omega (arith, v.within, length-remove_first e.queue id);
                threads = v.threads;
                busy = v.busy;
                running = v.running;
                once = λ a. omega (arith, d.once a, count-remove_first backend e.queue id a);
                cancelled = v.cancelled;
              })
        | inr q ↦
            rw (q, cancel)
              (elim (Bool-cases (contains e.running_requests id)) [
                | inr r ↦ rw (r, cancel) d
                | inl r ↦
                    rw (r, cancel)
                      (record {
                        within = v.within;
                        threads = v.threads;
                        busy = v.busy;
                        running = v.running;
                        once = d.once;
                        cancelled = λ a h. ground (
                          arith,
                          contains-insert e.cancelled_requests id a,
                          v.cancelled a,
                          v.running a,
                          contains-count_pos e.running_requests a,
                        );
                      })
              ])
      ]

  pub stop-IsValid :
      (e : Executor backend) (workers : List (Worker backend))
      → IsValid e workers
      → IsValid (stop backend e) workers
  unfolding stop
  stop-IsValid e workers v = record {
    within = v.within;
    threads = v.threads;
    busy = v.busy;
    running = v.running;
    once = v.once;
    cancelled = v.cancelled;
  }
