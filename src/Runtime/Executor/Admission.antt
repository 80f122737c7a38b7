-- ===== src/Runtime/Executor/Admission.antt =====
-- The constructor, and the announced cost against the admission of a task.
use coded_llm.Base.{
  ℕ, zero, suc, ◌+◌, ◌*◌, ◌/◌, ◌%◌, ◌^◌, ◌≤◌, ◌<◌, ◌≡◌, ◌↔◌, refl, [], false, none, some, ok, arith,
  inl, inr, Bool-cases, Option-cases, Result-cases, length, replicate, length-replicate, leb, ltb,
  ◌||◌, not, ◌==◌, ◌>>=◌, throw_if-eq-ok, ok-injective, subst,
}
use coded_llm.Base.Int.{ℤ, pos, ltb_ℤ, ◌*ℤ◌}
use coded_llm.Base.Maps.{find}
use coded_llm.Base.Sets.{contains, count}
use coded_llm.Coding.Plan.{DecodePlan}
use coded_llm.Coding.Codec.{ShardSlots}
use coded_llm.Runtime.Executor.{
  Backend, Executor, executor, estimate_recovery_cost, outstanding, enqueue, admit, stage_all,
  submit, is_running, has_queued_request,
}
use coded_llm.Runtime.Executor.Steps.{waiting}
use coded_llm.Runtime.Executor.Counts.{queued, held, gather}
use coded_llm.Runtime.Executor.Clients.{IsValid}

-- The quotient and one more, times the divisor.
wave_bounds : (n d : ℕ) → 0 < d → (n < (n / d + 1) * d) × ((n / d + 1) * d ≤ n + d)
wave_bounds n d h = (grind arith, grind arith)

module _ (backend : Backend) where
  -- What a new executor is.
  pub record IsNew (limit depth : ℕ) (e : Executor backend) : Type 0 where
    pub some_worker : 0 < limit
    pub concurrency : e.concurrency ≡ limit
    pub capacity : e.capacity ≡ limit + depth
    pub valid : IsValid backend e (replicate limit waiting)

  idle-held : (n : ℕ) → gather backend (held backend) (replicate n waiting) ≡ []
  unfolding gather
  idle-held zero = refl
  idle-held (suc n) = idle-held n

  -- An executor that is made without an error, from counts of 64 bits, has a worker, its capacity
  -- is the exact sum of the two counts, and with all of its workers waiting it is valid.
  pub executor-IsNew :
      (limit depth : ℕ) (cost : ℤ) (e : Executor backend)
      → limit < 2 ^ 64
      → depth < 2 ^ 64
      → executor backend limit depth cost ≡ ok e
      → IsNew limit depth e
  unfolding executor queued count find contains
  executor-IsNew limit depth cost e small small' h =
      let (positive, h₁) = throw_if-eq-ok (limit == 0) _ _ h in
      let (exact, h₂) = throw_if-eq-ok (ltb ((limit + depth) % 2 ^ 64) limit) _ _ h₁ in
      let (_, h₃) = throw_if-eq-ok (not (ltb_ℤ (pos 0) cost)) _ _ h₂ in
      let sum : (limit + depth) % 2 ^ 64 ≡ limit + depth = ground arith in
      subst (IsNew limit depth) (ok-injective h₃) (record {
        some_worker = ground arith;
        concurrency = refl;
        capacity = sum;
        valid = record {
          within = omega arith;
          threads = length-replicate limit waiting;
          busy = rw idle-held refl;
          running = λ a. rw idle-held refl;
          once = λ a. rw idle-held (omega arith);
          cancelled = λ a c. cc;
        };
      })

  admit-answer :
      (e : Executor backend) (id : ℕ) (plan : DecodePlan) (shards : ShardSlots)
      (completion : backend.Handler) (now : ℤ)
      → (admit backend e id plan shards completion now).1 ≡ ok false
      → ⊥
  unfolding admit enqueue
  admit-answer e id plan shards completion now h =
      let answer =
        backend.create_context (length shards) >>= λ context. stage_all backend context 0 shards in
      elim (Option-cases (find e.staged_contexts id)) [
        | inl e₁ ↦ elim (Result-cases answer) [
          | inl (context, e₂) ↦ ground (arith, rw (e₁, admit) at h)
          | inr (thrown, e₂) ↦ ground (arith, rw (e₁, admit) at h)
        ]
        | inr (staged, e₁) ↦ ground (arith, rw (e₁, admit) at h)
      ]

  -- For a request that is neither running nor queued, a submission is turned away exactly if the
  -- executor announces no cost.
  pub submit-estimate_iff :
      (e : Executor backend) (id : ℕ) (plan : DecodePlan) (shards : ShardSlots)
      (completion : backend.Handler) (now : ℤ)
      → is_running backend e id ≡ false
      → has_queued_request backend e.queue id ≡ false
      → ((submit backend e id plan shards (some completion) now).1 ≡ ok false)
        ↔ (estimate_recovery_cost backend e ≡ none)
  unfolding submit estimate_recovery_cost
  submit-estimate_iff e id plan shards completion now r q =
      elim (Bool-cases (e.stopping || leb e.capacity (outstanding backend e))) [
        | inl full ↦ (λ h. rw (full, estimate_recovery_cost) refl, λ h. ground arith)
        | inr open_ ↦ (
          λ h. absurd (admit-answer e id plan shards completion now (ground arith)),
          λ h. cc (rw (open_, estimate_recovery_cost) at h),
        )
      ]

  -- The announced cost is the service cost times the number of waves of tasks, this one's included:
  -- the waves before it are full.
  pub estimate-waves :
      (e : Executor backend) (cost : ℤ)
      → 0 < e.concurrency
      → estimate_recovery_cost backend e ≡ some cost
      → (waves : ℕ) × (cost ≡ e.estimated_service_cost *ℤ pos waves)
        × (outstanding backend e < waves * e.concurrency)
        × (waves * e.concurrency ≤ outstanding backend e + e.concurrency)
        × (outstanding backend e < e.capacity)
  unfolding estimate_recovery_cost
  estimate-waves e cost positive h = (
    outstanding backend e / e.concurrency + 1,
    ground arith,
    (wave_bounds _ e.concurrency positive).0,
    (wave_bounds _ e.concurrency positive).1,
    ground arith,
  )
