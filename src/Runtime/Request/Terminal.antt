-- ===== src/Runtime/Request/Terminal.antt =====
-- A request that has ended stays as it ended.
use coded_llm.Base.{ℕ, ◌+◌, ◌≤◌, ◌≡◌, refl, sym, ap, ◌∙◌, Bool, true, false, arith, subst}
use coded_llm.Coding.GraphGenerator.{BipartiteGraph}
use coded_llm.Runtime.Policy.{RecoveryPolicy}
use coded_llm.Runtime.Request.{RequestState, is_terminal, arrive, after_submit, finish}
use coded_llm.Runtime.Request.Steps.{Step, Steps, arrival, submit_answer, completion, here, next}

-- Only the count of late arrivals has changed, and it has not fallen.
pub record IsFrozen (state after : RequestState) : Type 0 where
  pub same : after ≡ record state {
    snapshot = record state.snapshot { late_arrivals = after.snapshot.late_arrivals };
  }
  pub more_late : state.snapshot.late_arrivals ≤ after.snapshot.late_arrivals

IsFrozen-refl : (state : RequestState) → IsFrozen state state
IsFrozen-refl state = record { same = refl; more_late = omega arith }

IsFrozen-trans :
    (state between after : RequestState)
    → IsFrozen state between
    → IsFrozen between after
    → IsFrozen state after
IsFrozen-trans state between after f g = record {
  same = ground (arith, f.same, g.same);
  more_late = omega (arith, f.more_late, g.more_late);
}

after_submit-frozen :
    (id : ℕ) (accepted : Bool) (state : RequestState)
    → is_terminal state.snapshot.status ≡ true
    → (after_submit id accepted state).0 ≡ state
unfolding after_submit
after_submit-frozen id true state h = ground arith
after_submit-frozen id false state h = rw h

module _ (graph : BipartiteGraph) (policy : RecoveryPolicy) (id : ℕ) where
  Step-IsFrozen :
      {state after : RequestState} {n : ℕ}
      → Step graph policy id state after n
      → is_terminal state.snapshot.status ≡ true
      → IsFrozen state after
  unfolding arrive finish
  Step-IsFrozen {state} {after} (arrival shard_id payload time answers staged follow e m) h =
      let late : record state {
        snapshot = record state.snapshot { late_arrivals = state.snapshot.late_arrivals + 1 };
      }
          ≡ after =
        ground (arith, e, h) in
      subst (IsFrozen state) late (record { same = refl; more_late = omega arith })
  Step-IsFrozen {state} (submit_answer accepted e m) h =
      subst (IsFrozen state) (sym (after_submit-frozen id accepted state h) ∙ e)
        (IsFrozen-refl state)
  Step-IsFrozen {state} (completion result e m) h =
      let kept : state ≡ finish result state = rw h in
      subst (IsFrozen state) (kept ∙ e) (IsFrozen-refl state)

  -- Once a request has ended, nothing that the transport or the executor does changes its status,
  -- its shards, its error or its metrics: late arrivals are counted, and no more.
  pub Steps-IsFrozen :
      (state after : RequestState) (n : ℕ)
      → is_terminal state.snapshot.status ≡ true
      → Steps graph policy id state after n
      → IsFrozen state after
  Steps-IsFrozen state after n h here = IsFrozen-refl state
  Steps-IsFrozen state after n h (next {between = between} steps step e) =
      let f = Steps-IsFrozen state between _ h steps in
      let ended : is_terminal between.snapshot.status ≡ true =
        ap (λ (s : RequestState). is_terminal s.snapshot.status) f.same ∙ h in
      IsFrozen-trans state between after f (Step-IsFrozen step ended)
