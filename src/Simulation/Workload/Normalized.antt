-- ===== src/Simulation/Workload/Normalized.antt =====
-- Capacity-normalised replication, event by event.
use coded_llm.Base.{
  ℕ, ◌≤◌, ◌<◌, ◌≡◌, ◌⊎◌, refl, List, [], ◌∷◌, Bool, true, false, inl, inr, some, get_elem?, ok,
  arith, Bool-cases, leb, >>=-eq-ok, at, throw_if-eq-ok, ok-injective, subst, sym, ◌∙◌,
}
use coded_llm.Base.Int.{ℤ, ◌≤ℤ◌, ◌+ℤ◌}
use coded_llm.Base.Sets.{contains}
use coded_llm.Simulation.ClusterSimulator.{GlobalArrivalEvent}
use coded_llm.Simulation.Workload.{
  Random, WorkloadConfig, DelaySampler, min_ℤ, sample, delay_sampler,
  generate_request_arrival_times, replicate_event, select_capacity_normalized_replicas,
  is_replicated, replicate_selected, apply_capacity_normalized_replication, validate_config,
  validate_systematic_shard_count, validate_replication_events,
}
use coded_llm.Simulation.Workload.Selection.{at-eq-ok}

-- The earlier of two times.
pub record IsEarlier (first second time : ℤ) : Type 0 where
  pub no_later_than_first : time ≤ℤ first
  pub no_later_than_second : time ≤ℤ second
  pub one_of : (time ≡ first) ⊎ (time ≡ second)

min_ℤ-IsEarlier : (a b : ℤ) → IsEarlier a b (min_ℤ a b)
min_ℤ-IsEarlier a b = record {
  no_later_than_first = ground arith;
  no_later_than_second = ground arith;
  one_of = ground arith;
}

-- The same shard of the same request, at the earlier of its own time and that of a replica with this
-- delay.
pub record IsReplica (request_arrivals : List ℤ) (delay : ℤ) (event replicated : GlobalArrivalEvent)
    : Type 0 where
  pub request : replicated.request_id ≡ event.request_id
  pub shard : replicated.shard_id ≡ event.shard_id
  pub request_start : replicated.request_start_time ≡ event.request_start_time
  pub request_arrival : ℤ
  pub arrived : get_elem? request_arrivals event.request_id ≡ some request_arrival
  pub earlier : IsEarlier event.arrival_time (request_arrival +ℤ delay) replicated.arrival_time

module _ (random : Random) (k count seed : ℕ) (request_arrivals : List ℤ) where
  -- Parity shards and shards that are not selected for their request stay as they are; a selected
  -- shard takes the next delay.
  pub data AllNormalized
      : DelaySampler random → List GlobalArrivalEvent → List GlobalArrivalEvent → Type 0 where
    done : {delays : DelaySampler random} → AllNormalized delays [] []
    parity :
        {delays : DelaySampler random} {event : GlobalArrivalEvent}
        {rest later : List GlobalArrivalEvent}
        → k ≤ event.shard_id
        → AllNormalized delays rest later
        → AllNormalized delays (event ∷ rest) (event ∷ later)
    unselected :
        {delays : DelaySampler random} {event : GlobalArrivalEvent}
        {rest later : List GlobalArrivalEvent} (selected : List ℕ)
        → event.shard_id < k
        → select_capacity_normalized_replicas random event.request_id k count seed ≡ ok selected
        → contains selected event.shard_id ≡ false
        → AllNormalized delays rest later
        → AllNormalized delays (event ∷ rest) (event ∷ later)
    chosen :
        {delays : DelaySampler random} {event replicated : GlobalArrivalEvent}
        {rest later : List GlobalArrivalEvent} (selected : List ℕ)
        → event.shard_id < k
        → select_capacity_normalized_replicas random event.request_id k count seed ≡ ok selected
        → contains selected event.shard_id ≡ true
        → IsReplica request_arrivals (sample random delays).0 event replicated
        → AllNormalized (sample random delays).1 rest later
        → AllNormalized delays (event ∷ rest) (replicated ∷ later)

  -- The outcomes of the test for one event.
  data Tested (event : GlobalArrivalEvent) (answer : Bool) : Type 0 where
    far : k ≤ event.shard_id → answer ≡ false → Tested event answer
    looked :
        (selected : List ℕ)
        → event.shard_id < k
        → select_capacity_normalized_replicas random event.request_id k count seed ≡ ok selected
        → contains selected event.shard_id ≡ answer
        → Tested event answer

  is_replicated-Tested :
      (event : GlobalArrivalEvent) (answer : Bool)
      → is_replicated random k count seed event ≡ ok answer
      → Tested event answer
  unfolding is_replicated
  is_replicated-Tested event answer h = elim (Bool-cases (leb k event.shard_id)) [
    | inl e ↦ far (ground arith) (sym (ok-injective (rw (e, is_replicated) at h)))
    | inr e ↦
        let (selected, found, h₁) =
          >>=-eq-ok (select_capacity_normalized_replicas random event.request_id k count seed) _
            (rw (e, is_replicated) at h) in
        looked selected (ground arith) found (ok-injective h₁)
  ]

  replicate_event-IsReplica :
      (event : GlobalArrivalEvent) (delays : DelaySampler random)
      (r : GlobalArrivalEvent × DelaySampler random)
      → replicate_event random request_arrivals event delays ≡ ok r
      → IsReplica request_arrivals (sample random delays).0 event r.0
        × (r.1 ≡ (sample random delays).1)
  unfolding replicate_event
  replicate_event-IsReplica event delays r h =
      let (request_arrival, e, h₁) =
        >>=-eq-ok (at (get_elem? request_arrivals event.request_id)) _ h in
      subst
        (λ (s : GlobalArrivalEvent × DelaySampler random).
          IsReplica request_arrivals (sample random delays).0 event s.0
          × (s.1 ≡ (sample random delays).1))
        (ok-injective h₁)
        (
          record {
            request = refl;
            shard = refl;
            request_start = refl;
            request_arrival = request_arrival;
            arrived = at-eq-ok (get_elem? request_arrivals event.request_id) request_arrival e;
            earlier =
                min_ℤ-IsEarlier event.arrival_time (request_arrival +ℤ (sample random delays).0);
          },
          refl,
        )

  replicate_selected-AllNormalized :
      (events replicated : List GlobalArrivalEvent) (delays : DelaySampler random)
      → replicate_selected random request_arrivals k count seed events delays ≡ ok replicated
      → AllNormalized delays events replicated
  unfolding replicate_selected
  replicate_selected-AllNormalized [] replicated delays h =
      subst (AllNormalized delays []) (ok-injective h) done
  replicate_selected-AllNormalized (event ∷ rest) replicated delays h =
      let (answer, tested, h₀) = >>=-eq-ok (is_replicated random k count seed event) _ h in
      let t = is_replicated-Tested event answer tested in
      elim (Bool-cases answer) [
        | inr other ↦
            let (later, e, h₁) =
              >>=-eq-ok (replicate_selected random request_arrivals k count seed rest delays) _
                (rw other at h₀) in
            let r = replicate_selected-AllNormalized rest later delays e in
            subst (AllNormalized delays (event ∷ rest)) (ok-injective h₁) (elim t [
              | far behind untaken ↦ parity behind r
              | looked selected inside found answered ↦
                  unselected selected inside found (answered ∙ other) r
            ])
        | inl taken ↦
            let (moved, e, h₁) =
              >>=-eq-ok (replicate_event random request_arrivals event delays) _ (rw taken at h₀) in
            let (later, e', h₂) =
              >>=-eq-ok (replicate_selected random request_arrivals k count seed rest moved.1) _
                h₁ in
            let (replica, drawn) = replicate_event-IsReplica event delays moved e in
            let r =
              subst (λ d. AllNormalized d rest later) drawn
                (replicate_selected-AllNormalized rest later moved.1 e') in
            subst (AllNormalized delays (event ∷ rest)) (ok-injective h₂) (elim t [
              | far behind untaken ↦ absurd (cc (taken, untaken))
              | looked selected inside found answered ↦
                  chosen selected inside found (answered ∙ taken) replica r
            ])
      ]

-- Capacity-normalised replication that does not throw keeps every event whose shard is a parity shard
-- or is not selected for its request. A selected shard arrives at the earlier of its own time and
-- that of its replica, which takes the next delay of the sampler, and keeps all else.
pub apply_capacity_normalized_replication-AllNormalized :
    (random : Random) (k : ℕ) (events replicated : List GlobalArrivalEvent)
    (config : WorkloadConfig random) (count seed : ℕ)
    → apply_capacity_normalized_replication random events config k count seed ≡ ok replicated
    → AllNormalized random k count seed
        (generate_request_arrival_times random config)
        (delay_sampler random config seed)
        events
        replicated
unfolding apply_capacity_normalized_replication
apply_capacity_normalized_replication-AllNormalized random k events replicated config count seed h =
    let (_, _, h₁) = >>=-eq-ok (validate_config random config) _ h in
    let (_, _, h₂) = >>=-eq-ok (validate_systematic_shard_count k) _ h₁ in
    let (_, h₃) = throw_if-eq-ok _ _ _ h₂ in
    let (_, _, h₄) = >>=-eq-ok (validate_replication_events events _) _ h₃ in
    replicate_selected-AllNormalized random k count seed _ events replicated _ h₄
