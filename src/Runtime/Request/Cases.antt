-- ===== src/Runtime/Request/Cases.antt =====
-- The critical section of an arrival, taken apart by what it did.
use coded_llm.Base.{
  ℕ, ◌+◌, ◌≡◌, Bool, true, false, inl, inr, Bool-cases, ok, ◌>>=◌, >>=-eq-ok, ok-injective,
  if◌then◌else◌,
}
use coded_llm.Base.Int.{ℤ}
use coded_llm.Coding.GraphGenerator.{BipartiteGraph}
use coded_llm.Coding.Codec.{WordShard}
use coded_llm.Runtime.Policy.{RecoveryPolicy}
use coded_llm.Runtime.Request.{
  RequestState, Answers, Next, nothing, is_terminal, store_shard, after_store, arrive,
}

module _ (graph : BipartiteGraph) (policy : RecoveryPolicy) (id shard_id : ℕ) (payload : WordShard)
    (time : ℤ) (answers : Answers) (state : RequestState) where
  pub data ArriveCase (r : RequestState × Bool × Next) : Type 0 where
    late :
        is_terminal state.snapshot.status ≡ true
        → (
          record state {
            snapshot = record state.snapshot { late_arrivals = state.snapshot.late_arrivals + 1 };
          },
          false,
          nothing,
        )
          ≡ r
        → ArriveCase r
    duplicate :
        (between : RequestState)
        → is_terminal state.snapshot.status ≡ false
        → store_shard state shard_id payload time ≡ ok (between, false)
        → (between, false, nothing) ≡ r
        → ArriveCase r
    stored :
        (between after : RequestState) (next : Next)
        → is_terminal state.snapshot.status ≡ false
        → store_shard state shard_id payload time ≡ ok (between, true)
        → after_store graph policy id time answers between ≡ ok (after, next)
        → (after, true, next) ≡ r
        → ArriveCase r

  stored_case :
      (r : RequestState × Bool × Next) (between : RequestState) (staged : Bool)
      → is_terminal state.snapshot.status ≡ false
      → store_shard state shard_id payload time ≡ ok (between, staged)
      → (if staged
          then (after_store graph policy id time answers between >>= λ s. ok (s.0, true, s.1))
          else ok (between, false, nothing))
        ≡ ok r
      → ArriveCase r
  stored_case r between true active h e =
      let (s, e₁, e₂) = >>=-eq-ok (after_store graph policy id time answers between) _ e in
      stored between s.0 s.1 active h e₁ (ok-injective e₂)
  stored_case r between false active h e = duplicate between active h (ok-injective e)

  pub arrive_cases :
      (r : RequestState × Bool × Next)
      → arrive graph policy id shard_id payload time answers state ≡ ok r
      → ArriveCase r
  unfolding arrive
  arrive_cases r e = elim (Bool-cases (is_terminal state.snapshot.status)) [
    | inl t ↦ late t (ok-injective (rw (t, arrive) at e))
    | inr f ↦
        let (s, h, e₁) =
          >>=-eq-ok (store_shard state shard_id payload time) _ (rw (f, arrive) at e) in
        stored_case r s.0 s.1 f h e₁
  ]
