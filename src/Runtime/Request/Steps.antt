-- ===== src/Runtime/Request/Steps.antt =====
-- The life of a request as steps: its critical sections in any order that the transport and the
-- executor choose. A call that throws is no step.
use coded_llm.Base.{ℕ, ◌+◌, ◌≡◌, Bool, ok}
use coded_llm.Base.Int.{ℤ}
use coded_llm.Coding.GraphGenerator.{BipartiteGraph}
use coded_llm.Coding.Codec.{WordShard}
use coded_llm.Runtime.Policy.{RecoveryPolicy}
use coded_llm.Runtime.Request.{
  RequestState, RecoveryTaskResult, Answers, Next, nothing, should_cancel, should_submit, arrive,
  after_submit, finish,
}

-- How many submissions follow a critical section.
abbrev pub submissions : Next → ℕ
submissions nothing = 0
submissions should_cancel = 0
submissions (should_submit plan shards) = 1

module _ (graph : BipartiteGraph) (policy : RecoveryPolicy) (request_id : ℕ) where
  -- One critical section, with the number of submissions that it leads to.
  pub data Step (state after : RequestState) (submitted : ℕ) : Type 0 where
    arrival :
        (shard_id : ℕ) (payload : WordShard) (arrival_time : ℤ) (answers : Answers) (staged : Bool)
        (next : Next)
        → arrive graph policy request_id shard_id payload arrival_time answers state
          ≡ ok (after, staged, next)
        → submitted ≡ submissions next
        → Step state after submitted
    submit_answer :
        (accepted : Bool)
        → (after_submit request_id accepted state).0 ≡ after
        → submitted ≡ 0
        → Step state after submitted
    completion :
        (result : RecoveryTaskResult)
        → finish result state ≡ after
        → submitted ≡ 0
        → Step state after submitted

  -- Steps one after another, with the number of submissions of all of them.
  pub data Steps (state : RequestState) : RequestState → ℕ → Type 0 where
    here : Steps state state 0
    next :
        {between after : RequestState} {before submitted total : ℕ}
        → Steps state between before
        → Step between after submitted
        → total ≡ before + submitted
        → Steps state after total
