-- ===== src/Runtime/Coordinator/Traces.antt =====
-- src/runtime/coordinator.cpp: what a run of the coordinator does to each of its requests.
use coded_llm.Base.{
  ℕ, ◌+◌, ◌≤◌, ◌≡◌, ◌≢◌, refl, List, [], ◌∷◌, ◌++◌, Bool, Option, none, some, length, inl, inr,
  Result, ok, err, arith, Bool-cases, Option-cases, ◌==◌, ==_iff, if◌then◌else◌, not, >>=-eq-ok,
  throw_if-eq-ok, ok-injective, ap, subst, ◌∙◌,
}
use coded_llm.Base.Int.{ℤ}
use coded_llm.Base.Maps.{find}
use coded_llm.Coding.GraphGenerator.{BipartiteGraph}
use coded_llm.Coding.Codec.{WordShard}
use coded_llm.Runtime.Policy.{RecoveryPolicy}
use coded_llm.Runtime.Request.{
  RequestState, RecoveryTaskResult, WaitCostOracle, Answers, Call, stage_shard, request_state,
  arrive, next_calls, after_submit, finish, or_throw, has_value,
}
use coded_llm.Runtime.Request.Steps.{Step, Steps, arrival, submit_answer, completion, here, next}
use coded_llm.Runtime.Request.Submission.{Steps-submit_once}
use coded_llm.Runtime.Request.Agreement.{
  IsConsistent, request_state-IsConsistent, Steps-IsConsistent,
}
use coded_llm.Runtime.Coordinator.{
  Coordinator, coordinator, attach_transport, start_request_locked, update_request,
  on_shard_arrived, on_submit_answered, on_recovery_complete,
}
use coded_llm.Runtime.Coordinator.Runs.{
  Operation, attached, started, arrived, answered, finished, Run, nothing_yet, and_then,
  count_submits, Traced, absent, begun, going_on,
}
use coded_llm.Runtime.Coordinator.Calls.{
  update_request_other, update_request_self, count_submits-append, count_submits-next_calls,
  count_submits-next_calls_other, count_submits-after_submit, count_submits-staged,
}

module _ (graph : BipartiteGraph) (policy : RecoveryPolicy) (id : ℕ) where
  Steps-append :
      {state between after : RequestState} {n m : ℕ}
      → Steps graph policy id state between n
      → Steps graph policy id between after m
      → Steps graph policy id state after (n + m)
  Steps-append {n = n} steps here = let same : n + 0 ≡ n = omega arith in rw same steps
  Steps-append {n = n} steps (next later step e) =
      next (Steps-append steps later) step (omega (arith, e))

  Traced-append :
      {before between after : Option RequestState} {n m : ℕ}
      → Traced graph policy id before between n
      → Traced graph policy id between after m
      → Traced graph policy id before after (n + m)
  Traced-append {m = m} absent later = let same : 0 + m ≡ m = omega arith in rw same later
  Traced-append (begun oracle made steps) (going_on steps') =
      begun oracle made (Steps-append steps steps')
  Traced-append (going_on steps) (going_on steps') = going_on (Steps-append steps steps')

  -- A request that is left alone.
  Traced-refl : (state : Option RequestState) → Traced graph policy id state state 0
  Traced-refl none = absent
  Traced-refl (some state) = going_on here

  Traced-Step :
      {before after : RequestState} {n : ℕ}
      → Step graph policy id before after n
      → Traced graph policy id (some before) (some after) n
  Traced-Step step = going_on (next here step (omega arith))

-- A critical section of one request, and all requests.
updated-Traced :
    (graph : BipartiteGraph) (policy : RecoveryPolicy) (requests : List (ℕ × RequestState))
    (key : ℕ) (before state : RequestState) (calls : List Call) (id : ℕ)
    → find requests key ≡ some before
    → Step graph policy key before state (count_submits key calls)
    → (key ≢ id → count_submits id calls ≡ 0)
    → Traced graph policy id
        (find requests id)
        (find (update_request requests key state) id)
        (count_submits id calls)
updated-Traced graph policy requests key before state calls id found step other =
    elim (Bool-cases (key == id)) [
      | inl e ↦
          let same : key ≡ id = (==_iff key id).0 e in
          subst
            (λ i.
              Traced graph policy i (find requests i) (find (update_request requests key state) i)
                (count_submits i calls))
            same
            (rw (found, update_request_self requests key before state found)
              (Traced-Step graph policy key step))
      | inr e ↦
          let ne : key ≢ id = λ same. ground arith in
          rw (update_request_other requests key state id ne, other ne)
            (Traced-refl graph policy id (find requests id))
    ]

find-append :
    (requests : List (ℕ × RequestState)) (key : ℕ) (state : RequestState) (id : ℕ)
    → find (requests ++ (key, state) ∷ []) id ≡ elim (find requests id) [
      | none ↦ if key == id then some state else none
      | some held ↦ some held
    ]
unfolding find
find-append [] key state id = refl
find-append ((k, s) ∷ rest) key state id = ground (arith, find-append rest key state id)

appended-Traced :
    (graph : BipartiteGraph) (policy : RecoveryPolicy) (requests : List (ℕ × RequestState))
    (key id : ℕ) (state : RequestState) (oracle : WaitCostOracle)
    → request_state graph.systematic_shard_count graph.parity_shard_count oracle ≡ ok state
    → Traced graph policy id (find requests id) (find (requests ++ (key, state) ∷ []) id) 0
appended-Traced graph policy requests key id state oracle made =
    elim (Option-cases (find requests id)) [
      | inr (held, there) ↦
          let after = find-append requests key state id ∙ rw there refl in
          rw (there, after) (Traced-refl graph policy id (some held))
      | inl lacking ↦ elim (Bool-cases (key == id)) [
        | inl e ↦
            let after = find-append requests key state id ∙ rw (lacking, e) refl in
            rw (lacking, after) (begun oracle made here)
        | inr e ↦
            let after = find-append requests key state id ∙ rw (lacking, e) refl in
            rw (lacking, after) absent
      ]
    ]

-- What an operation leaves as it is, and what it does to a request.
record IsTraced (c after : Coordinator) (calls : List Call) (id : ℕ) : Type 0 where
  graph : after.graph ≡ c.graph
  policy : after.policy ≡ c.policy
  traced :
      Traced c.graph c.policy id
        (find c.requests id)
        (find after.requests id)
        (count_submits id calls)

or_throw-eq-ok {ℓ} :
    {A : Type ℓ} (o : Option A) (e : Result A) (a : A) → or_throw o e ≡ ok a → e ≢ ok a → o ≡ some a
or_throw-eq-ok none e a h ne = absurd (ne h)
or_throw-eq-ok (some b) e a h ne = ap some (ok-injective h)

arrived-IsTraced :
    (c after : Coordinator) (calls : List Call) (id key shard_id : ℕ) (payload : WordShard)
    (time : ℤ) (answers : Answers)
    → on_shard_arrived c key shard_id payload time answers ≡ ok (after, calls)
    → IsTraced c after calls id
unfolding on_shard_arrived
arrived-IsTraced c after calls id key shard_id payload time answers h =
    let (state, e, h₁) = >>=-eq-ok (or_throw (find c.requests key) (err _)) _ h in
    let (went, e', h₂) =
      >>=-eq-ok (arrive c.graph c.policy key shard_id payload time answers state) _ h₁ in
    let (state', staged, follow) = went in
    let found = or_throw-eq-ok (find c.requests key) (err _) state e (λ e. cc) in
    let staging =
      if staged then stage_shard key (length state.shards) shard_id payload ∷ [] else [] in
    let counted : (i : ℕ)
        → count_submits i (staging ++ next_calls key follow)
          ≡ count_submits i (next_calls key follow) =
      λ i.
        count_submits-staged i staged key (length state.shards) shard_id payload
          (next_calls key follow) in
    let section =
      arrival shard_id payload time answers staged follow e'
        (counted key ∙ count_submits-next_calls key follow) in
    subst (λ (r : Coordinator × List Call). IsTraced c r.0 r.1 id) (ok-injective h₂)
      (record {
        graph = refl;
        policy = refl;
        traced =
            updated-Traced c.graph c.policy c.requests key state state'
              (staging ++ next_calls key follow) id found section
              (λ ne. counted id ∙ count_submits-next_calls_other key id follow ne);
      })

answered-IsTraced :
    (c : Coordinator) (id key : ℕ) (accepted : Bool)
    → let (after, calls) = on_submit_answered c key accepted in IsTraced c after calls id
unfolding on_submit_answered count_submits
answered-IsTraced c id key accepted = elim (Option-cases (find c.requests key)) [
  | inl e ↦
      rw (e, on_submit_answered)
        (record {
          graph = refl;
          policy = refl;
          traced = Traced-refl c.graph c.policy id (find c.requests id);
        })
  | inr (state, e) ↦
      let none_made = λ (i : ℕ). count_submits-after_submit key i accepted state in
      rw (e, on_submit_answered)
        (record {
          graph = refl;
          policy = refl;
          traced =
              updated-Traced c.graph c.policy c.requests key state
                (after_submit key accepted state).0 (after_submit key accepted state).1 id e
                (submit_answer accepted refl (none_made key)) (λ ne. none_made id);
        })
]

finished-IsTraced :
    (c : Coordinator) (id key : ℕ) (result : RecoveryTaskResult)
    → IsTraced c (on_recovery_complete c key result) [] id
unfolding on_recovery_complete count_submits
finished-IsTraced c id key result = elim (Option-cases (find c.requests key)) [
  | inl e ↦
      rw (e, on_recovery_complete)
        (record {
          graph = refl;
          policy = refl;
          traced = Traced-refl c.graph c.policy id (find c.requests id);
        })
  | inr (state, e) ↦
      rw (e, on_recovery_complete)
        (record {
          graph = refl;
          policy = refl;
          traced =
              updated-Traced c.graph c.policy c.requests key state (finish result state) [] id e
                (completion result refl refl) (λ ne. refl);
        })
]

started-IsTraced :
    (c after : Coordinator) (calls : List Call) (id key : ℕ) (oracle : Option WaitCostOracle)
    → start_request_locked c key oracle ≡ ok (after, calls)
    → IsTraced c after calls id
unfolding start_request_locked count_submits
started-IsTraced c after calls id key oracle h =
    let (wait_cost, e, h₁) = >>=-eq-ok (or_throw oracle (err _)) _ h in
    let (transported, h₂) = throw_if-eq-ok (not c.transport) _ _ h₁ in
    let (state, made, h₃) =
      >>=-eq-ok (request_state c.graph.systematic_shard_count c.graph.parity_shard_count wait_cost)
        _ h₂ in
    let (free, h₄) = throw_if-eq-ok (has_value (find c.requests key)) _ _ h₃ in
    subst (λ (r : Coordinator × List Call). IsTraced c r.0 r.1 id) (ok-injective h₄)
      (record {
        graph = refl;
        policy = refl;
        traced = appended-Traced c.graph c.policy c.requests key id state wait_cost made;
      })

Operation-IsTraced :
    {c after : Coordinator} {calls : List Call} (id : ℕ)
    → Operation c after calls
    → IsTraced c after calls id
unfolding attach_transport count_submits
Operation-IsTraced {c} id (attached e m) =
    rw (m, ← e)
      (record {
        graph = refl;
        policy = refl;
        traced = Traced-refl c.graph c.policy id (find c.requests id);
      })
Operation-IsTraced {c} {after} {calls} id (started key oracle e) =
    started-IsTraced c after calls id key oracle e
Operation-IsTraced {c} {after} {calls} id (arrived key shard_id payload time answers e) =
    arrived-IsTraced c after calls id key shard_id payload time answers e
Operation-IsTraced {c} id (answered key accepted e) =
    subst (λ (r : Coordinator × List Call). IsTraced c r.0 r.1 id) e
      (answered-IsTraced c id key accepted)
Operation-IsTraced {c} id (finished key result e m) =
    rw (m, ← e) (finished-IsTraced c id key result)

Run-IsTraced :
    {c after : Coordinator} {calls : List Call} (id : ℕ)
    → Run c after calls
    → IsTraced c after calls id
unfolding count_submits
Run-IsTraced {c} id nothing_yet = record {
  graph = refl;
  policy = refl;
  traced = Traced-refl c.graph c.policy id (find c.requests id);
}
Run-IsTraced {c} {after} id
      (and_then {between = between} {calls = calls} {more = more} run operation all) =
    let r = Run-IsTraced id run in
    let o = Operation-IsTraced id operation in
    let step = rw (r.graph, r.policy) at o.traced in
    rw all (record {
      graph = o.graph ∙ r.graph;
      policy = o.policy ∙ r.policy;
      traced =
          rw (count_submits-append id calls more) (Traced-append c.graph c.policy id r.traced step);
    })

-- In a run of the coordinator, whatever clients, transport and executor do for any of its requests: a
-- request that is there goes on through its critical sections, one that is not there is begun as a
-- new one before, or stays away, and `Submit` is called for it as often as its sections ask for it.
pub Run-Traced :
    (c after : Coordinator) (calls : List Call) (id : ℕ)
    → Run c after calls
    → Traced c.graph c.policy id
        (find c.requests id)
        (find after.requests id)
        (count_submits id calls)
Run-Traced c after calls id run = (Run-IsTraced id run).traced

coordinator_empty :
    (graph : BipartiteGraph) (executor : Bool) (c : Coordinator)
    → coordinator graph executor ≡ ok c
    → c.requests ≡ []
unfolding coordinator
coordinator_empty graph executor c h = ground arith

Traced-end :
    {graph : BipartiteGraph} {policy : RecoveryPolicy} {id n : ℕ} {state : RequestState}
    → Traced graph policy id none (some state) n
    → (n ≤ 1) × IsConsistent state
Traced-end {graph} {policy} {id} {n} {state} (begun {initial = initial} oracle made steps) = (
  Steps-submit_once graph policy id initial state n steps,
  Steps-IsConsistent graph policy id initial state n
      (request_state-IsConsistent graph.systematic_shard_count graph.parity_shard_count oracle
        initial made)
      steps,
)

-- In a run of a new coordinator, however the operations for its requests interleave, every request
-- that it has is consistent, and `Submit` has been called for it at most once.
pub Run-IsConsistent :
    (graph : BipartiteGraph) (executor : Bool) (c after : Coordinator) (calls : List Call) (id : ℕ)
    (state : RequestState)
    → coordinator graph executor ≡ ok c
    → Run c after calls
    → find after.requests id ≡ some state
    → (count_submits id calls ≤ 1) × IsConsistent state
unfolding find
Run-IsConsistent graph executor c after calls id state made run found =
    let empty : find c.requests id ≡ none =
      ap (λ r. find r id) (coordinator_empty graph executor c made) in
    Traced-end (rw (empty, found) at (Run-Traced c after calls id run))
