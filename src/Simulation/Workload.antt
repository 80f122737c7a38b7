-- ===== src/Simulation/Workload.antt =====
-- src/simulation/workload_generator.cpp, include/codedllm/simulation/workload_generator.hpp: the
-- arrivals of a workload, and their replication. Floating point and the random distributions of the
-- standard library are the fields of a `Random`.
pub mod Replication
pub mod Selection
pub mod Normalized
use Prim.Native.Nat.{bit_xor}
use coded_llm.Base.{
  ℕ, zero, suc, ◌+◌, ◌*◌, ◌%◌, ◌^◌, List, [], ◌∷◌, ◌++◌, Bool, true, false, ◌||◌, not, length,
  get_elem?, leb, ltb, ◌==◌, if◌then◌else◌, Result, ok, ◌>>=◌, ◌>>◌, throw_if, at, no_requests,
  rate_not_positive, probability_out_of_range, delay_negative, shard_count_out_of_bounds,
  workload_overflow, replica_count_too_large, replication_request_bounds,
  replication_schedule_differs,
}
use coded_llm.Base.Int.{ℤ, pos, ◌+ℤ◌, ltb_ℤ, eqb_ℤ}
use coded_llm.Base.Sets.{contains}
use coded_llm.Core.{max_shard_id, shard_id_mod}
use coded_llm.Coding.GraphGenerator.{iota}
use coded_llm.Simulation.ClusterSimulator.{GlobalArrivalEvent}

-- What the generator uses of <random>, <cmath> and <algorithm>.
pub record Random : Type 1 where
  pub Real : Type 0
  pub Generator : Type 0
  pub Normal : Type 0
  pub zero_real : Real
  pub one_real : Real
  pub is_finite : Real → Bool
  pub le_real : Real → Real → Bool
  pub lt_real : Real → Real → Bool
  pub add_real : Real → Real → Real
  pub in_microseconds : Real → Real
  pub llround : Real → ℤ
  pub seeded : ℕ → Generator
  pub exponential : Real → Generator → Real × Generator
  pub bernoulli : Real → Generator → Bool × Generator
  pub normal : ℤ → ℤ → Normal
  pub draw : Normal → Generator → Real × Normal × Generator
  pub shuffle : List ℕ → Generator → List ℕ × Generator

abbrev pub arrival_seed_salt : ℕ
arrival_seed_salt = 2654435769

abbrev pub delay_seed_salt : ℕ
delay_seed_salt = 2246822507

unfoldable pub validate_systematic_shard_count : ℕ → Result (Unit {0})
validate_systematic_shard_count k =
    throw_if (k == 0 || ltb max_shard_id k) shard_count_out_of_bounds

-- The loop over the events.
unfoldable pub validate_replication_events : List GlobalArrivalEvent → List ℤ → Result (Unit {0})
validate_replication_events [] request_arrivals = ok tt
validate_replication_events (event ∷ rest) request_arrivals = do
  throw_if (leb (length request_arrivals) event.request_id) replication_request_bounds
  request_arrival ← at (get_elem? request_arrivals event.request_id)
  throw_if (not (eqb_ℤ event.request_start_time request_arrival)) replication_schedule_differs
  validate_replication_events rest request_arrivals

abbrev pub is_selected : ℕ → List ℕ → Bool
is_selected shard_id selected = contains selected shard_id

-- The loop over the replicas, `n` of them left.
unfoldable pub pick_replicas : List ℕ → ℕ → ℕ → ℕ → ℕ → Result (List ℕ)
pick_replicas permutation k start zero replica = ok []
pick_replicas permutation k start (suc n) replica = do
  shard ← at (get_elem? permutation ((start + replica) % 2 ^ 64 % k))
  later ← pick_replicas permutation k start n (replica + 1)
  ok (shard ∷ later)

abbrev pub min_ℤ : ℤ → ℤ → ℤ
min_ℤ a b = if ltb_ℤ b a then b else a

module _ (random : Random) where
  pub record WorkloadConfig : Type 0 where
    pub num_requests : ℕ
    pub request_arrival_rate_hz : random.Real
    pub straggler_probability : random.Real
    pub normal_mean : ℤ
    pub normal_stddev : ℤ
    pub straggler_mean : ℤ
    pub straggler_stddev : ℤ
    pub seed : ℕ

  unfoldable pub validate_config : WorkloadConfig → Result (Unit {0})
  validate_config config = do
    throw_if (config.num_requests == 0) no_requests
    throw_if
        (not (random.is_finite config.request_arrival_rate_hz)
          || random.le_real config.request_arrival_rate_hz random.zero_real)
        rate_not_positive
    throw_if
        (not (random.is_finite config.straggler_probability)
          || random.lt_real config.straggler_probability random.zero_real
          || random.lt_real random.one_real config.straggler_probability)
        probability_out_of_range
    throw_if
        (ltb_ℤ config.normal_mean (pos 0)
          || ltb_ℤ config.normal_stddev (pos 0)
          || ltb_ℤ config.straggler_mean (pos 0)
          || ltb_ℤ config.straggler_stddev (pos 0))
        delay_negative

  -- The loop over the requests, `n` of them left.
  unfoldable pub arrival_times : random.Real → ℕ → random.Generator → random.Real → List ℤ
  arrival_times rate zero generator cumulative = []
  arrival_times rate (suc n) generator cumulative =
      let (seconds, generator') = random.exponential rate generator in
      let cumulative' = random.add_real cumulative (random.in_microseconds seconds) in
      random.llround cumulative' ∷ arrival_times rate n generator' cumulative'

  unfoldable pub generate_request_arrival_times : WorkloadConfig → List ℤ
  generate_request_arrival_times config =
      arrival_times config.request_arrival_rate_hz config.num_requests
        (random.seeded (bit_xor config.seed arrival_seed_salt)) random.zero_real

  pub record DelaySampler : Type 0 where
    pub generator : random.Generator
    pub straggler_probability : random.Real
    pub normal : random.Normal
    pub straggler : random.Normal

  unfoldable pub delay_sampler : WorkloadConfig → ℕ → DelaySampler
  delay_sampler config seed = record {
    generator = random.seeded seed;
    straggler_probability = config.straggler_probability;
    normal = random.normal config.normal_mean config.normal_stddev;
    straggler = random.normal config.straggler_mean config.straggler_stddev;
  }

  abbrev rounded : random.Real → ℤ
  rounded sampled =
      random.llround (if random.lt_real random.zero_real sampled then sampled else random.zero_real)

  unfoldable pub sample : DelaySampler → ℤ × DelaySampler
  sample sampler =
      let (is_straggler, generator) =
        random.bernoulli sampler.straggler_probability sampler.generator in
      elim is_straggler [
        | true ↦
            let (sampled, straggler, generator') = random.draw sampler.straggler generator in
            (rounded sampled, record sampler { generator = generator'; straggler = straggler })
        | false ↦
            let (sampled, normal, generator') = random.draw sampler.normal generator in
            (rounded sampled, record sampler { generator = generator'; normal = normal })
      ]

  pub record WorkloadGenerator : Type 0 where
    pub config : WorkloadConfig
    pub systematic_shard_count : ℕ
    pub parity_shard_count : ℕ

  -- The constructor.
  unfoldable pub workload_generator : WorkloadConfig → ℕ → ℕ → Result WorkloadGenerator
  workload_generator config k m = do
    validate_config config
    validate_systematic_shard_count k
    throw_if (ltb (max_shard_id + 1) ((k + m) % 2 ^ 64)) workload_overflow
    ok (record { config = config; systematic_shard_count = k; parity_shard_count = m })

  -- The inner loop of `Generate`, over the shards of one request, `n` of them left.
  unfoldable pub request_events :
      ℤ → ℕ → ℕ → ℕ → DelaySampler → List GlobalArrivalEvent × DelaySampler
  request_events request_arrival request zero shard delays = ([], delays)
  request_events request_arrival request (suc n) shard delays =
      let (delay, delays') = sample delays in
      let (later, delays'') = request_events request_arrival request n (shard + 1) delays' in
      (
        record {
          arrival_time = request_arrival +ℤ delay;
          request_id = request;
          shard_id = shard % shard_id_mod;
          request_start_time = request_arrival;
        }
            ∷ later,
        delays'',
      )

  -- The outer loop of `Generate`, over the arrivals of the requests.
  unfoldable pub workload_events : List ℤ → ℕ → ℕ → DelaySampler → List GlobalArrivalEvent
  workload_events [] shard_count request delays = []
  workload_events (request_arrival ∷ rest) shard_count request delays =
      let (events, delays') = request_events request_arrival request shard_count 0 delays in
      events ++ workload_events rest shard_count (request + 1) delays'

  unfoldable pub generate : WorkloadGenerator → List GlobalArrivalEvent
  generate workload =
      workload_events (generate_request_arrival_times workload.config)
        ((workload.systematic_shard_count + workload.parity_shard_count) % 2 ^ 64) 0
        (delay_sampler workload.config (bit_xor workload.config.seed delay_seed_salt))

  unfoldable pub select_capacity_normalized_replicas : ℕ → ℕ → ℕ → ℕ → Result (List ℕ)
  select_capacity_normalized_replicas request_id k replica_count replication_seed = do
    validate_systematic_shard_count k
    throw_if (ltb k replica_count) replica_count_too_large
    let permutation = (random.shuffle (iota k 0) (random.seeded replication_seed)).0
    pick_replicas permutation k (request_id % k * replica_count % 2 ^ 64 % k) replica_count 0

  -- The end of both loop bodies: a replica's arrival.
  unfoldable pub replicate_event :
      List ℤ → GlobalArrivalEvent → DelaySampler → Result (GlobalArrivalEvent × DelaySampler)
  replicate_event request_arrivals event delays = do
    request_arrival ← at (get_elem? request_arrivals event.request_id)
    let (delay, delays') = sample delays
    ok (
      record event { arrival_time = min_ℤ event.arrival_time (request_arrival +ℤ delay) },
      delays',
    )

  -- The loop of `ApplyReplication`.
  unfoldable pub replicate_events :
      List ℤ → ℕ → List GlobalArrivalEvent → DelaySampler → Result (List GlobalArrivalEvent)
  unfolding replicate_event
  replicate_events request_arrivals k [] delays = ok []
  replicate_events request_arrivals k (event ∷ rest) delays = elim (leb k event.shard_id) [
    | true ↦ replicate_events request_arrivals k rest delays >>= λ later. ok (event ∷ later)
    | false ↦ replicate_event request_arrivals event delays >>= λ r.
        replicate_events request_arrivals k rest r.1 >>= λ later. ok (r.0 ∷ later)
  ]

  unfoldable pub apply_replication :
      List GlobalArrivalEvent → WorkloadConfig → ℕ → ℕ → Result (List GlobalArrivalEvent)
  apply_replication events config k replication_seed = do
    validate_config config
    validate_systematic_shard_count k
    let request_arrivals = generate_request_arrival_times config
    validate_replication_events events request_arrivals
    replicate_events request_arrivals k events (delay_sampler config replication_seed)

  -- Whether the loop of `ApplyCapacityNormalizedReplication` replicates an event.
  unfoldable pub is_replicated : ℕ → ℕ → ℕ → GlobalArrivalEvent → Result Bool
  is_replicated k replica_count replication_seed event =
      if leb k event.shard_id
      then ok false
      else (select_capacity_normalized_replicas event.request_id k replica_count replication_seed
          >>= λ selected. ok (is_selected event.shard_id selected))

  -- The loop of `ApplyCapacityNormalizedReplication`.
  unfoldable pub replicate_selected :
      List ℤ → ℕ → ℕ → ℕ → List GlobalArrivalEvent → DelaySampler → Result (List GlobalArrivalEvent)
  unfolding is_replicated replicate_event
  replicate_selected request_arrivals k replica_count seed [] delays = ok []
  replicate_selected request_arrivals k replica_count seed (event ∷ rest) delays =
      is_replicated k replica_count seed event >>= λ replicated. elim replicated [
        | false ↦ replicate_selected request_arrivals k replica_count seed rest delays >>= λ later.
            ok (event ∷ later)
        | true ↦ replicate_event request_arrivals event delays >>= λ r.
            replicate_selected request_arrivals k replica_count seed rest r.1 >>= λ later.
            ok (r.0 ∷ later)
      ]

  unfoldable pub apply_capacity_normalized_replication :
      List GlobalArrivalEvent → WorkloadConfig → ℕ → ℕ → ℕ → Result (List GlobalArrivalEvent)
  apply_capacity_normalized_replication events config k replica_count replication_seed = do
    validate_config config
    validate_systematic_shard_count k
    throw_if (ltb k replica_count) replica_count_too_large
    let request_arrivals = generate_request_arrival_times config
    validate_replication_events events request_arrivals
    replicate_selected request_arrivals k replica_count replication_seed events
        (delay_sampler config replication_seed)
