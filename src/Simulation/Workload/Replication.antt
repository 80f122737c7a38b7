-- ===== src/Simulation/Workload/Replication.antt =====
-- What replication does to the arrivals of a workload.
use coded_llm.Base.{
  ℕ, ◌≤◌, ◌≡◌, refl, List, [], ◌∷◌, false, inl, inr, get_elem?, ok, arith, Bool-cases, leb,
  >>=-eq-ok, at, ok-injective, subst,
}
use coded_llm.Base.Int.{ℤ, ◌≤ℤ◌, ◌+ℤ◌}
use coded_llm.Simulation.ClusterSimulator.{GlobalArrivalEvent}
use coded_llm.Simulation.Workload.{
  Random, WorkloadConfig, DelaySampler, min_ℤ, sample, replicate_event, replicate_events,
  apply_replication, validate_config, validate_systematic_shard_count, validate_replication_events,
}

-- The same shard of the same request, no later than before, and untouched if it is a parity shard.
pub record IsSooner (k : ℕ) (event replicated : GlobalArrivalEvent) : Type 0 where
  pub request : replicated.request_id ≡ event.request_id
  pub shard : replicated.shard_id ≡ event.shard_id
  pub request_start : replicated.request_start_time ≡ event.request_start_time
  pub no_later : replicated.arrival_time ≤ℤ event.arrival_time
  pub parity : k ≤ event.shard_id → replicated ≡ event

-- Event by event.
abbrev pub AllSooner : ℕ → List GlobalArrivalEvent → List GlobalArrivalEvent → Type 0
AllSooner k [] [] = Unit
AllSooner k [] (r ∷ rs) = ⊥
AllSooner k (e ∷ es) [] = ⊥
AllSooner k (e ∷ es) (r ∷ rs) = IsSooner k e r × AllSooner k es rs

IsSooner-refl : (k : ℕ) (event : GlobalArrivalEvent) → IsSooner k event event
IsSooner-refl k event = record {
  request = refl;
  shard = refl;
  request_start = refl;
  no_later = omega arith;
  parity = λ _. refl;
}

min_ℤ-le : (a b : ℤ) → min_ℤ a b ≤ℤ a
min_ℤ-le a b = ground arith

module _ (random : Random) (k : ℕ) where
  replicate_event-IsSooner :
      (request_arrivals : List ℤ) (event : GlobalArrivalEvent) (delays : DelaySampler random)
      (r : GlobalArrivalEvent × DelaySampler random)
      → leb k event.shard_id ≡ false
      → replicate_event random request_arrivals event delays ≡ ok r
      → IsSooner k event r.0
  unfolding replicate_event
  replicate_event-IsSooner request_arrivals event delays r systematic h =
      let (request_arrival, _, h₁) =
        >>=-eq-ok (at (get_elem? request_arrivals event.request_id)) _ h in
      subst (λ (s : GlobalArrivalEvent × DelaySampler random). IsSooner k event s.0)
        (ok-injective h₁)
        (record {
          request = refl;
          shard = refl;
          request_start = refl;
          no_later = min_ℤ-le event.arrival_time (request_arrival +ℤ (sample random delays).0);
          parity = λ far. absurd (ground arith);
        })

  replicate_events-AllSooner :
      (request_arrivals : List ℤ) (events replicated : List GlobalArrivalEvent)
      (delays : DelaySampler random)
      → replicate_events random request_arrivals k events delays ≡ ok replicated
      → AllSooner k events replicated
  unfolding replicate_events
  replicate_events-AllSooner request_arrivals [] replicated delays h =
      subst (AllSooner k []) (ok-injective h) tt
  replicate_events-AllSooner request_arrivals (event ∷ rest) replicated delays h =
      elim (Bool-cases (leb k event.shard_id)) [
        | inl parity ↦
            let (later, e, h₁) =
              >>=-eq-ok (replicate_events random request_arrivals k rest delays) _
                (rw (parity, replicate_events) at h) in
            subst (AllSooner k (event ∷ rest)) (ok-injective h₁) (
              IsSooner-refl k event,
              replicate_events-AllSooner request_arrivals rest later delays e,
            )
        | inr systematic ↦
            let (r, moved, h₁) =
              >>=-eq-ok (replicate_event random request_arrivals event delays) _
                (rw (systematic, replicate_events) at h) in
            let (later, e, h₂) =
              >>=-eq-ok (replicate_events random request_arrivals k rest r.1) _ h₁ in
            subst (AllSooner k (event ∷ rest)) (ok-injective h₂) (
              replicate_event-IsSooner request_arrivals event delays r systematic moved,
              replicate_events-AllSooner request_arrivals rest later r.1 e,
            )
      ]

  -- Replication keeps every event, its shard, its request and the request's start; it delays no
  -- shard, and leaves the parity shards as they are.
  pub apply_replication-AllSooner :
      (events replicated : List GlobalArrivalEvent) (config : WorkloadConfig random) (seed : ℕ)
      → apply_replication random events config k seed ≡ ok replicated
      → AllSooner k events replicated
  unfolding apply_replication
  apply_replication-AllSooner events replicated config seed h =
      let (_, _, h₁) = >>=-eq-ok (validate_config random config) _ h in
      let (_, _, h₂) = >>=-eq-ok (validate_systematic_shard_count k) _ h₁ in
      let (_, _, h₃) = >>=-eq-ok (validate_replication_events events _) _ h₂ in
      replicate_events-AllSooner _ events replicated _ h₃
