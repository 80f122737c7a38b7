-- ===== src/Runtime/Request/Agreement.antt =====
-- A request's slots, its tracker and its status tell the same story.
use coded_llm.Base.{
  ℕ, zero, suc, ◌+◌, ◌≡◌, ◌≢◌, refl, sym, ap, ◌∙◌, Bool, true, false, inl, inr, none, arith,
  Bool-cases, ok, length, replicate, length-replicate, subst, >>=-eq-ok, ok-injective,
}
use coded_llm.Base.Int.{ℤ}
use coded_llm.Coding.Plan.{DecodePlan}
use coded_llm.Coding.Planner.{create_plan}
use coded_llm.Coding.GraphGenerator.{BipartiteGraph}
use coded_llm.Coding.Codec.{slot}
use coded_llm.Runtime.Policy.{
  ShardArrivalTracker, RecoveryPolicy, has_value_at, is_systematic_complete, available_parity,
  get_missing_systematic, shard_arrival_tracker,
}
use coded_llm.Runtime.Policy.Tracker.{shard_arrival_tracker-IsNew, has_value_at-replicate}
use coded_llm.Runtime.Request.{
  RequestState, RequestStatus, pending, natural_complete, recovered, is_terminal, decide_recovery,
  plan_recovery, after_store, after_submit, finish, Answers, Next, add_planning, RequestSnapshot,
  RecoveryTaskResult, request_state, WaitCostOracle, complete,
}
use coded_llm.Runtime.Request.Cases.{arrive_cases, late, duplicate, stored}
use coded_llm.Runtime.Request.Steps.{Step, Steps, arrival, submit_answer, completion, here, next}
use coded_llm.Runtime.Request.Slots.{Agrees, store_shard-IsStored}

-- While a request has not been recovered its slots and its tracker agree; it is pending as long as
-- a systematic shard is missing, and completes naturally only with all of them.
pub record IsConsistent (state : RequestState) : Type 0 where
  pub agrees :
      state.snapshot.status ≢ recovered → Agrees state.tracker state.shards state.word_count
  pub waiting : state.snapshot.status ≡ pending → is_systematic_complete state.tracker ≡ false
  pub complete :
      state.snapshot.status ≡ natural_complete → is_systematic_complete state.tracker ≡ true

-- The parts that planning leaves alone.
record IsSameData (state after : RequestState) : Type 0 where
  tracker : after.tracker ≡ state.tracker
  shards : after.shards ≡ state.shards
  word_count : after.word_count ≡ state.word_count
  status : after.snapshot.status ≡ state.snapshot.status

decide_recovery-same :
    (policy : RecoveryPolicy) (id : ℕ) (time : ℤ) (answers : Answers) (plan : DecodePlan)
    (state : RequestState) (r : RequestState × Next)
    → decide_recovery policy id time answers plan state ≡ ok r
    → IsSameData state r.0
unfolding decide_recovery
decide_recovery-same policy id time answers plan state r e = ground arith

plan_recovery-same :
    (graph : BipartiteGraph) (policy : RecoveryPolicy) (id : ℕ) (time : ℤ) (answers : Answers)
    (state : RequestState) (r : RequestState × Next)
    → plan_recovery graph policy id time answers state ≡ ok r
    → IsSameData state r.0
unfolding plan_recovery
plan_recovery-same graph policy id time answers state r e =
    let (available, _, e₁) =
      >>=-eq-ok (available_parity state.tracker graph.parity_to_systematic) _ e in
    let (plan, _, e₂) =
      >>=-eq-ok (create_plan graph (get_missing_systematic state.tracker) available) _ e₁ in
    ground (arith, decide_recovery-same policy id time answers plan (add_planning answers state) r)

not_terminal : (status : RequestStatus) → is_terminal status ≡ false → status ≡ pending
unfolding is_terminal
not_terminal status h = ground arith

pending-ne-recovered : {status : RequestStatus} → status ≡ pending → status ≢ recovered
pending-ne-recovered p q = cc

-- A pending request whose data stay the same.
same-IsConsistent :
    (state after : RequestState)
    → IsSameData state after
    → state.snapshot.status ≡ pending
    → is_systematic_complete state.tracker ≡ false
    → Agrees state.tracker state.shards state.word_count
    → IsConsistent after
same-IsConsistent state after d active missing a = record {
  agrees = λ _. rw (d.tracker, d.shards, d.word_count) a;
  waiting = λ _. ap is_systematic_complete d.tracker ∙ missing;
  complete = λ c. cc (d.status, c, active);
}

keep-IsConsistent :
    (state after : RequestState) → IsSameData state after → IsConsistent state → IsConsistent after
keep-IsConsistent state after d v = record {
  agrees = λ n. rw (d.tracker, d.shards, d.word_count) (v.agrees (λ r. n (d.status ∙ r)));
  waiting = λ w. ap is_systematic_complete d.tracker ∙ v.waiting (sym d.status ∙ w);
  complete = λ c. ap is_systematic_complete d.tracker ∙ v.complete (sym d.status ∙ c);
}

after_submit-same :
    (id : ℕ) (accepted : Bool) (state : RequestState)
    → IsSameData state (after_submit id accepted state).0
unfolding after_submit
after_submit-same id true state = ground arith
after_submit-same id false state = ground arith

complete-IsConsistent :
    (result : RecoveryTaskResult) (state : RequestState)
    → state.snapshot.status ≡ pending
    → IsConsistent state
    → IsConsistent (complete result state)
unfolding complete
complete-IsConsistent result state p v = elim (Bool-cases result.success) [
  | inl e ↦ rw e (record { agrees = λ n. absurd (n refl); waiting = λ w. cc; complete = λ c. cc })
  | inr e ↦ rw e (record {
    agrees = λ _. v.agrees (pending-ne-recovered p);
    waiting = λ w. cc;
    complete = λ c. cc;
  })
]

finish-IsConsistent :
    (result : RecoveryTaskResult) (state : RequestState)
    → IsConsistent state
    → IsConsistent (finish result state)
unfolding finish
finish-IsConsistent result state v = elim (Bool-cases (is_terminal state.snapshot.status)) [
  | inl t ↦ rw (t, finish) v
  | inr a ↦
      rw (a, finish) (complete-IsConsistent result state (not_terminal state.snapshot.status a) v)
]

slot-replicate : (n i : ℕ) → slot (replicate n none) i ≡ none
unfolding slot
slot-replicate zero i = refl
slot-replicate (suc n) zero = refl
slot-replicate (suc n) (suc i) = slot-replicate n i

new-Agrees :
    (n : ℕ) (tracker : ShardArrivalTracker)
    → tracker.arrivals ≡ replicate n none
    → Agrees tracker (replicate n none) 0
new-Agrees n tracker e = record {
  sized = length-replicate n none ∙ sym (length-replicate n none) ∙ sym (ap length e);
  present = λ i.
      rw (slot-replicate n i) (sym (ap (λ a. has_value_at a i) e ∙ has_value_at-replicate n i));
  words = λ i shard h. cc (slot-replicate n i);
}

-- A request that is made without an error is consistent.
pub request_state-IsConsistent :
    (k m : ℕ) (oracle : WaitCostOracle) (state : RequestState)
    → request_state k m oracle ≡ ok state
    → IsConsistent state
unfolding request_state
request_state-IsConsistent k m oracle state h =
    let (tracker, made, h₁) = >>=-eq-ok (shard_arrival_tracker k m) _ h in
    let new = shard_arrival_tracker-IsNew k m tracker made in
    subst IsConsistent (ok-injective h₁) (record {
      agrees = λ _. new-Agrees (k + m) tracker new.empty;
      waiting = λ _. new.incomplete;
      complete = λ c. cc;
    })

module _ (graph : BipartiteGraph) (policy : RecoveryPolicy) (id : ℕ) where
  after_store-same :
      (time : ℤ) (answers : Answers) (state : RequestState) (r : RequestState × Next)
      → is_systematic_complete state.tracker ≡ false
      → after_store graph policy id time answers state ≡ ok r
      → IsSameData state r.0
  unfolding after_store
  after_store-same time answers state r missing e =
      ground (arith, missing, plan_recovery-same graph policy id time answers state r)

  after_store-IsConsistent :
      (time : ℤ) (answers : Answers) (state : RequestState) (r : RequestState × Next)
      → state.snapshot.status ≡ pending
      → Agrees state.tracker state.shards state.word_count
      → after_store graph policy id time answers state ≡ ok r
      → IsConsistent r.0
  unfolding after_store
  after_store-IsConsistent time answers state r active a e =
      elim (Bool-cases (is_systematic_complete state.tracker)) [
        | inl all ↦
            subst (λ (s : RequestState × Next). IsConsistent s.0)
              (ok-injective (rw (all, after_store) at e))
              (record { agrees = λ _. a; waiting = λ w. cc; complete = λ _. all })
        | inr missing ↦
            same-IsConsistent state r.0 (after_store-same time answers state r missing e) active
              missing a
      ]

  Step-IsConsistent :
      {state after : RequestState} {n : ℕ}
      → Step graph policy id state after n
      → IsConsistent state
      → IsConsistent after
  Step-IsConsistent {state} {after} (arrival shard_id payload time answers staged follow e m) v =
      elim (arrive_cases graph policy id shard_id payload time answers state _ e) [
        | late t same ↦
            subst (λ (r : RequestState × Bool × Next). IsConsistent r.0) same
              (record { agrees = v.agrees; waiting = v.waiting; complete = v.complete })
        | duplicate between active h same ↦
            let p = not_terminal state.snapshot.status active in
            let st =
              store_shard-IsStored state shard_id payload time between false
                (v.agrees (pending-ne-recovered p)) h in
            subst (λ (r : RequestState × Bool × Next). IsConsistent r.0) same
              (record {
                agrees = λ _. st.agrees;
                waiting = λ _. ap is_systematic_complete (st.tracker refl) ∙ v.waiting p;
                complete = λ c. cc (st.snapshot, p, c);
              })
        | stored between after' follow' active h e' same ↦
            let p = not_terminal state.snapshot.status active in
            let st =
              store_shard-IsStored state shard_id payload time between true
                (v.agrees (pending-ne-recovered p)) h in
            subst (λ (r : RequestState × Bool × Next). IsConsistent r.0) same
              (after_store-IsConsistent time answers between (after', follow')
                (ap (λ (t : RequestSnapshot). t.status) st.snapshot ∙ p) st.agrees e')
      ]
  Step-IsConsistent {state} (submit_answer accepted e m) v =
      subst IsConsistent e (keep-IsConsistent state _ (after_submit-same id accepted state) v)
  Step-IsConsistent {state} (completion result e m) v =
      subst IsConsistent e (finish-IsConsistent result state v)

  -- Any steps lead from a consistent request to a consistent one: slots and tracker agree unless
  -- the request is recovered, a pending request lacks a systematic shard, and a naturally complete
  -- one lacks none.
  pub Steps-IsConsistent :
      (state after : RequestState) (n : ℕ)
      → IsConsistent state
      → Steps graph policy id state after n
      → IsConsistent after
  Steps-IsConsistent state after n v here = v
  Steps-IsConsistent state after n v (next steps step e) =
      Step-IsConsistent step (Steps-IsConsistent state _ _ v steps)
