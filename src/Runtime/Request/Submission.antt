-- ===== src/Runtime/Request/Submission.antt =====
-- A request submits at most one recovery.
use coded_llm.Base.{ℕ, ◌+◌, ◌≤◌, ◌≡◌, Bool, true, false, ◌||◌, arith, if◌then◌else◌, ok, >>=-eq-ok}
use coded_llm.Base.Int.{ℤ}
use coded_llm.Coding.Plan.{DecodePlan}
use coded_llm.Coding.GraphGenerator.{BipartiteGraph}
use coded_llm.Coding.Codec.{WordShard}
use coded_llm.Runtime.Policy.{RecoveryPolicy, available_parity, get_missing_systematic}
use coded_llm.Coding.Planner.{create_plan}
use coded_llm.Runtime.Request.{
  RequestState, RecoveryTaskResult, Answers, Next, decide_recovery, plan_recovery, after_store,
  store_shard, add_planning, arrive, after_submit, finish,
}
use coded_llm.Runtime.Request.Cases.{arrive_cases, late, duplicate, stored}
use coded_llm.Runtime.Request.Steps.{
  submissions, Step, Steps, arrival, submit_answer, completion, here, next,
}

-- 1 while a recovery may still be submitted, and 0 after that.
abbrev pub open_submissions : RequestState → ℕ
open_submissions state = if state.recovery_closed || state.snapshot.recovery_submitted then 0 else 1

abbrev Spends : RequestState → RequestState × Next → Type 0
Spends state r = open_submissions r.0 + submissions r.1 ≤ open_submissions state

decide_recovery-Spends :
    (policy : RecoveryPolicy) (id : ℕ) (time : ℤ) (answers : Answers) (plan : DecodePlan)
    (state : RequestState) (r : RequestState × Next)
    → open_submissions state ≡ 1
    → decide_recovery policy id time answers plan state ≡ ok r
    → Spends state r
unfolding decide_recovery
decide_recovery-Spends policy id time answers plan state r h e = ground arith

after_submit-le :
    (id : ℕ) (accepted : Bool) (state : RequestState)
    → open_submissions (after_submit id accepted state).0 ≤ open_submissions state
unfolding after_submit
after_submit-le id true state = ground arith
after_submit-le id false state = ground arith

finish-le :
    (result : RecoveryTaskResult) (state : RequestState)
    → open_submissions (finish result state) ≤ open_submissions state
unfolding finish
finish-le result state = ground arith

module _ (graph : BipartiteGraph) (policy : RecoveryPolicy) (id : ℕ) where
  plan_recovery-Spends :
      (time : ℤ) (answers : Answers) (state : RequestState) (r : RequestState × Next)
      → open_submissions state ≡ 1
      → plan_recovery graph policy id time answers state ≡ ok r
      → Spends state r
  unfolding plan_recovery
  plan_recovery-Spends time answers state r h e =
      let (available, _, e₁) =
        >>=-eq-ok (available_parity state.tracker graph.parity_to_systematic) _ e in
      let (plan, _, e₂) =
        >>=-eq-ok (create_plan graph (get_missing_systematic state.tracker) available) _ e₁ in
      ground
        (arith, decide_recovery-Spends policy id time answers plan (add_planning answers state) r h)

  after_store-Spends :
      (time : ℤ) (answers : Answers) (state : RequestState) (r : RequestState × Next)
      → after_store graph policy id time answers state ≡ ok r
      → Spends state r
  unfolding after_store
  after_store-Spends time answers state r e =
      ground (arith, plan_recovery-Spends time answers state r)

  store_shard-same :
      (state : RequestState) (shard_id : ℕ) (payload : WordShard) (time : ℤ)
      (r : RequestState × Bool)
      → store_shard state shard_id payload time ≡ ok r
      → open_submissions r.0 ≡ open_submissions state
  unfolding store_shard
  store_shard-same state shard_id payload time r e = ground arith

  arrive-Spends :
      (shard_id : ℕ) (payload : WordShard) (time : ℤ) (answers : Answers) (state : RequestState)
      (r : RequestState × Bool × Next)
      → arrive graph policy id shard_id payload time answers state ≡ ok r
      → Spends state (r.0, r.2)
  unfolding arrive
  arrive-Spends shard_id payload time answers state r e =
      elim (arrive_cases graph policy id shard_id payload time answers state r e) [
        | late t same ↦ ground arith
        | duplicate between active h same ↦
            ground (arith, store_shard-same state shard_id payload time (between, false))
        | stored between after follow active h e' same ↦ ground (
          arith,
          store_shard-same state shard_id payload time (between, true),
          after_store-Spends time answers between (after, follow),
        )
      ]

  Step-le :
      {state after : RequestState} {n : ℕ}
      → Step graph policy id state after n
      → open_submissions after + n ≤ open_submissions state
  Step-le (arrival shard_id payload time answers staged follow e m) =
      omega (arith, m, arrive-Spends shard_id payload time answers _ (_, staged, follow) e)
  Step-le {state} (submit_answer accepted e m) =
      rw (← e, m) (omega (arith, after_submit-le id accepted state))
  Step-le {state} (completion result e m) = rw (← e, m) (omega (arith, finish-le result state))

  Steps-le :
      {state after : RequestState} {n : ℕ}
      → Steps graph policy id state after n
      → open_submissions after + n ≤ open_submissions state
  Steps-le here = omega arith
  Steps-le (next steps step e) = omega (arith, Steps-le steps, Step-le step)

  -- Over its whole life a request submits at most one recovery, whatever the transport and the
  -- executor do.
  pub Steps-submit_once :
      (state after : RequestState) (n : ℕ) → Steps graph policy id state after n → n ≤ 1
  Steps-submit_once state after n steps = ground (arith, Steps-le steps)
