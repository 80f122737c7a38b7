-- ===== src/Simulation/Workload/Selection.antt =====
-- Which shards of a request capacity-normalised replication selects.
use coded_llm.Base.{
  ℕ, zero, suc, ◌+◌, ◌*◌, ◌/◌, ◌%◌, ◌^◌, ◌≤◌, ◌<◌, ◌≡◌, ◌⊎◌, refl, List, Option, none, some,
  some-eq, length, get_elem?, get_elem?-lt, inl, inr, ok, arith, ltb, >>=-eq-ok, at, throw_if-eq-ok,
  ok-injective, subst, sym, ap, ◌∙◌,
}
use coded_llm.Core.{max_shard_id}
use coded_llm.Coding.GraphGenerator.{iota}
use coded_llm.Simulation.Workload.{
  Random, validate_systematic_shard_count, pick_replicas, select_capacity_normalized_replicas,
}

-- One list is the other in an order of its own.
pub record IsReordering (xs ys : List ℕ) : Type 0 where
  pub sized : length ys ≡ length xs
  pub position : ℕ → ℕ
  pub entry : (i : ℕ) → i < length xs → get_elem? ys i ≡ get_elem? xs (position i)
  pub once : (i j : ℕ) → i < length xs → j < length xs → position i ≡ position j → i ≡ j

-- What `std::shuffle` documents.
pub record IsShuffle (random : Random) : Type 1 where
  pub reorders : (xs : List ℕ) (g : random.Generator) → IsReordering xs (random.shuffle xs g).0

-- So many different systematic shards.
pub record IsSelection (k count : ℕ) (selected : List ℕ) : Type 0 where
  pub sized : length selected ≡ count
  pub systematic : (i shard : ℕ) → get_elem? selected i ≡ some shard → shard < k
  pub distinct :
      (i j shard : ℕ)
      → get_elem? selected i ≡ some shard
      → get_elem? selected j ≡ some shard
      → i ≡ j

length-iota : (n start : ℕ) → length (iota n start) ≡ n
unfolding iota
length-iota zero start = refl
length-iota (suc n) start = ap suc (length-iota n (start + 1))

get_elem?-iota : (n start i a : ℕ) → get_elem? (iota n start) i ≡ some a → (a ≡ start + i) × (i < n)
unfolding iota
get_elem?-iota zero start i a h = cc
get_elem?-iota (suc n) start zero a h = (omega (arith, some-eq h), omega arith)
get_elem?-iota (suc n) start (suc i) a h =
    let (same, lt) = get_elem?-iota n (start + 1) i a h in (omega arith, omega arith)

-- The shuffled ids: each is systematic, and stands in one place.
module _ (k : ℕ) (shuffled : List ℕ) (r : IsReordering (iota k 0) shuffled) where
  entry-iota : (i a : ℕ) → get_elem? shuffled i ≡ some a → (i < k) × (a ≡ r.position i) × (a < k)
  entry-iota i a h =
      let size = length-iota k 0 in
      let inside : i < length (iota k 0) = omega (arith, get_elem?-lt shuffled i h, r.sized) in
      let (same, lt) = get_elem?-iota k 0 (r.position i) a (sym (r.entry i inside) ∙ h) in
      (omega arith, omega arith, omega arith)

  entry_once : (i j a : ℕ) → get_elem? shuffled i ≡ some a → get_elem? shuffled j ≡ some a → i ≡ j
  entry_once i j a h h' =
      let size = length-iota k 0 in
      let (lt, at_i, small) = entry-iota i a h in
      let (lt', at_j, small') = entry-iota j a h' in
      r.once i j (omega arith) (omega arith) (sym at_i ∙ at_j)

length-pick_replicas :
    (shuffled : List ℕ) (k start n replica : ℕ) (selected : List ℕ)
    → pick_replicas shuffled k start n replica ≡ ok selected
    → length selected ≡ n
unfolding pick_replicas
length-pick_replicas shuffled k start zero replica selected h = ap length (sym (ok-injective h))
length-pick_replicas shuffled k start (suc n) replica selected h =
    let (shard, e, h₁) = >>=-eq-ok (at (get_elem? shuffled ((start + replica) % 2 ^ 64 % k))) _ h in
    let (later, e', h₂) = >>=-eq-ok (pick_replicas shuffled k start n (replica + 1)) _ h₁ in
    ap length (sym (ok-injective h₂))
    ∙ ap suc (length-pick_replicas shuffled k start n (replica + 1) later e')

pub at-eq-ok {ℓ} : {A : Type ℓ} (o : Option A) (a : A) → at o ≡ ok a → o ≡ some a
at-eq-ok none a h = cc
at-eq-ok (some b) a h = ap some (ok-injective h)

get_elem?-pick_replicas :
    (shuffled : List ℕ) (k start n replica : ℕ) (selected : List ℕ) (i shard : ℕ)
    → pick_replicas shuffled k start n replica ≡ ok selected
    → get_elem? selected i ≡ some shard
    → get_elem? shuffled ((start + (replica + i)) % 2 ^ 64 % k) ≡ some shard
unfolding pick_replicas
get_elem?-pick_replicas shuffled k start zero replica selected i shard h g =
    absurd (let none_there = subst (λ s. get_elem? s i ≡ some shard) (sym (ok-injective h)) g in cc)
get_elem?-pick_replicas shuffled k start (suc n) replica selected zero shard h g =
    let (first, e, h₁) = >>=-eq-ok (at (get_elem? shuffled ((start + replica) % 2 ^ 64 % k))) _ h in
    let (later, e', h₂) = >>=-eq-ok (pick_replicas shuffled k start n (replica + 1)) _ h₁ in
    let here = subst (λ s. get_elem? s zero ≡ some shard) (sym (ok-injective h₂)) g in
    let same : replica + 0 ≡ replica = omega arith in rw same (at-eq-ok _ first e ∙ here)
get_elem?-pick_replicas shuffled k start (suc n) replica selected (suc i) shard h g =
    let (first, e, h₁) = >>=-eq-ok (at (get_elem? shuffled ((start + replica) % 2 ^ 64 % k))) _ h in
    let (later, e', h₂) = >>=-eq-ok (pick_replicas shuffled k start n (replica + 1)) _ h₁ in
    let there = subst (λ s. get_elem? s (suc i) ≡ some shard) (sym (ok-injective h₂)) g in
    let next : replica + suc i ≡ replica + 1 + i = omega arith in
    rw next (get_elem?-pick_replicas shuffled k start n (replica + 1) later i shard e' there)

-- A place on a circle of `k` places, at most once around.
around : (n k : ℕ) → n < k + k → ((n < k) × (n % k ≡ n)) ⊎ ((k ≤ n) × (n % k + k ≡ n))
around n k lt =
    let positive : 0 < k = omega arith in placed (n / k) (n % k) (grind arith) (grind arith)
  where
    placed : (q r : ℕ) → q * k + r ≡ n → r < k → ((n < k) × (r ≡ n)) ⊎ ((k ≤ n) × (r + k ≡ n))
    placed zero r split rest = inl (omega arith, omega arith)
    placed (suc zero) r split rest = inr (grind arith, grind arith)
    placed (suc (suc q)) r split rest = absurd (grind arith)

-- The places of two replicas, on a circle of `k` places.
circle_once :
    (k start i j : ℕ)
    → start < k
    → k ≤ max_shard_id
    → i < k
    → j < k
    → (start + (0 + i)) % 2 ^ 64 % k ≡ (start + (0 + j)) % 2 ^ 64 % k
    → i ≡ j
circle_once k start i j s small p q h =
    let no_wrap : (start + (0 + i)) % 2 ^ 64 ≡ start + i = omega arith in
    let no_wrap' : (start + (0 + j)) % 2 ^ 64 ≡ start + j = omega arith in
    let same = rw (no_wrap, no_wrap') at h in
    omega (arith, around (start + i) k (omega arith), around (start + j) k (omega arith))

-- If the shuffle reorders, a selection that does not throw has as many shards as asked for, all of
-- them systematic and different from one another.
pub select_capacity_normalized_replicas-IsSelection :
    (random : Random) (request_id k count seed : ℕ) (selected : List ℕ)
    → IsShuffle random
    → select_capacity_normalized_replicas random request_id k count seed ≡ ok selected
    → IsSelection k count selected
unfolding select_capacity_normalized_replicas validate_systematic_shard_count
select_capacity_normalized_replicas-IsSelection random request_id k count seed selected shuffle h =
    let start = request_id % k * count % 2 ^ 64 % k in
    let shuffled = (random.shuffle (iota k 0) (random.seeded seed)).0 in
    let (passed, valid, h₁) = >>=-eq-ok (validate_systematic_shard_count k) _ h in
    let (inside, picked) = throw_if-eq-ok (ltb k count) _ _ h₁ in
    let bounds : (0 < k) × (k ≤ max_shard_id) = ground arith in
    let within : start < k = grind arith in
    let r = shuffle.reorders (iota k 0) (random.seeded seed) in
    let size = length-pick_replicas shuffled k start count 0 selected picked in
    record {
      sized = size;
      systematic = λ i shard g.
          (entry-iota k shuffled r _ shard
            (get_elem?-pick_replicas shuffled k start count 0 selected i shard picked g)).2;
      distinct = λ i j shard g g'.
          let at_i = get_elem?-pick_replicas shuffled k start count 0 selected i shard picked g in
          let at_j = get_elem?-pick_replicas shuffled k start count 0 selected j shard picked g' in
          let few : count ≤ k = ground arith in
          circle_once k start i j within bounds.1 (omega (arith, get_elem?-lt selected i g))
            (omega (arith, get_elem?-lt selected j g'))
            (entry_once k shuffled r _ _ shard at_i at_j);
    }
