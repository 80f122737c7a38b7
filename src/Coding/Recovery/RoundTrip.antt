-- ===== src/Coding/Recovery/RoundTrip.antt =====
-- From the encoder to the restored stripe.
use coded_llm.Base.{
  ℕ, ◌-◌, ◌≤◌, ◌<◌, ◌≡◌, sym, ap, ◌∙◌, List, [], ◌∷◌, true, ◌||◌, not, some, length, get_elem?, All,
  ok, arith, leb, ltb, leb→lt, ◌==◌, throw_if-eq-ok, >>=-eq-ok, ok-injective, at,
}
use coded_llm.Base.Sets.{contains, is_empty}
use coded_llm.Core.{max_shard_id}
use coded_llm.Coding.Plan.{DecodePlan}
use coded_llm.Coding.Graph.{
  CodeGraph, ParityEquation, code_graph, validate, validate_equations, validate_sources,
  total_shard_count,
}
use coded_llm.Coding.GraphGenerator.{BipartiteGraph}
use coded_llm.Coding.Codec.{
  WordShard, ShardSlots, encode_sources, encode_equations, encode_parity_cpu, validate_shard_words,
  execute_decode_plan_cpu,
}
use coded_llm.Coding.Codec.Algebra.{xor_all}
use coded_llm.Coding.Codec.Encode.{encode_parity_cpu-sums}
use coded_llm.Coding.Codec.Decode.{Holds}
use coded_llm.Coding.Planner.{create_plan}
use coded_llm.Coding.Recovery.{ParityHolds, StripeHolds, IsErased}
use coded_llm.Coding.Recovery.Restore.{IsRestored, execute-create_plan}

-- The equations of a bipartite graph, as the encoder takes them.
abbrev pub equations_of : List (ℕ × List ℕ) → List ParityEquation
equations_of [] = []
equations_of ((p, ns) ∷ rest) = record { output = p; sources = ns } ∷ equations_of rest

-- What is left of an encoded stripe: the slots of the missing shards are empty, the other
-- systematic slots hold their shards, and each available parity slot holds its parity shard.
pub record IsLoss (stripe parities : List WordShard) (missing available : List ℕ)
    (shards : ShardSlots) : Type 0 where
  pub systematic : StripeHolds stripe missing shards
  pub parity :
      (p : ℕ) (shard : WordShard)
      → length stripe ≤ p
      → contains available p ≡ true
      → get_elem? parities (p - length stripe) ≡ some shard
      → Holds shards p shard

encode_sources-below :
    (k : ℕ) (stripe : List WordShard) (ns : List ℕ) (parity result : WordShard)
    → encode_sources k stripe parity ns ≡ ok result
    → All (λ s. s < k) ns
unfolding encode_sources
encode_sources-below k stripe [] parity result h = tt
encode_sources-below k stripe (s ∷ ns) parity result h =
    let (below, h₁) = throw_if-eq-ok (leb k s) _ _ h in
    let (input, _, h₂) = >>=-eq-ok (at (get_elem? stripe s)) _ h₁ in
    (leb→lt k s below, encode_sources-below k stripe ns _ result h₂)

encode_equations-below :
    (k : ℕ) (stripe : List WordShard) (equations : List ParityEquation)
    (parities result : List WordShard)
    → encode_equations k stripe parities equations ≡ ok result
    → All (λ e. All (λ s. s < k) e.sources) equations
unfolding encode_equations
encode_equations-below k stripe [] parities result h = tt
encode_equations-below k stripe (e ∷ rest) parities result h =
    let (parity, _, h₁) = >>=-eq-ok (at (get_elem? parities _)) _ h in
    let (parity', summed, h₂) = >>=-eq-ok (encode_sources k stripe parity e.sources) _ h₁ in
    (
      encode_sources-below k stripe e.sources parity parity' summed,
      encode_equations-below k stripe rest _ result h₂,
    )

validate_equations-outputs :
    (k total : ℕ) (equations : List ParityEquation) (outputs : List ℕ)
    → validate_equations k total outputs equations ≡ ok tt
    → All (λ e. k ≤ e.output) equations
unfolding validate_equations
validate_equations-outputs k total [] outputs h = tt
validate_equations-outputs k total (e ∷ rest) outputs h =
    let (bounds, h₁) = throw_if-eq-ok (ltb e.output k || leb total e.output) _ _ h in
    let (_, h₂) = throw_if-eq-ok (contains outputs e.output) _ _ h₁ in
    let (_, h₃) = throw_if-eq-ok (is_empty e.sources) _ _ h₂ in
    let (_, _, h₄) = >>=-eq-ok (validate_sources total [] e.sources) _ h₃ in
    (ground arith, validate_equations-outputs k total rest _ h₄)

-- One equation's parity slot.
losses :
    (width : ℕ) (stripe parities : List WordShard) (missing available : List ℕ)
    (shards : ShardSlots) (equations : List (ℕ × List ℕ))
    → IsLoss stripe parities missing available shards
    → All (λ e. All (λ s. s < length stripe) e.sources) (equations_of equations)
    → All (λ e. length stripe ≤ e.output) (equations_of equations)
    → All
        (λ e. get_elem? parities (e.output - length stripe) ≡ some (xor_all width stripe e.sources))
        (equations_of equations)
    → All (ParityHolds width stripe available shards) equations
losses width stripe parities missing available shards [] loss below far sums = tt
losses width stripe parities missing available shards ((p, ns) ∷ rest) loss below far sums = (
  (below.0, far.0, λ a. loss.parity p _ far.0 a sums.0),
  losses width stripe parities missing available shards rest loss below.1 far.1 sums.1,
)

-- What an encoder that succeeds has checked.
record IsEncodable (code : CodeGraph) (stripe : List WordShard) : Type 0 where
  counted : length stripe ≡ code.systematic_shard_count
  below : All (λ e. All (λ s. s < length stripe) e.sources) code.parity_equations
  far : All (λ e. length stripe ≤ e.output) code.parity_equations

encode_parity_cpu-IsEncodable :
    (code : CodeGraph) (stripe parities : List WordShard)
    → validate code ≡ ok tt
    → encode_parity_cpu code stripe ≡ ok parities
    → IsEncodable code stripe
unfolding encode_parity_cpu validate
encode_parity_cpu-IsEncodable code stripe parities v h =
    let k = code.systematic_shard_count in
    let m = code.parity_shard_count in
    let equations = code.parity_equations in
    let (count, h₁) = throw_if-eq-ok (not (length stripe == k)) _ _ h in
    let (width, _, h₂) = >>=-eq-ok (validate_shard_words stripe) _ h₁ in
    let (_, v₁) = throw_if-eq-ok (k == 0 || m == 0) _ _ v in
    let (_, v₂) = throw_if-eq-ok (ltb (max_shard_id - m) k) _ _ v₁ in
    let (_, v₃) = throw_if-eq-ok (not (length equations == m)) _ _ v₂ in
    let same : length stripe ≡ k = ground arith in
    record {
      counted = same;
      below = rw same (encode_equations-below k stripe equations _ parities h₂);
      far = rw same (validate_equations-outputs k (total_shard_count code) equations [] v₃);
    }

code_graph-validate :
    (k m : ℕ) (equations : List ParityEquation) (code : CodeGraph)
    → code_graph k m equations ≡ ok code
    → (validate code ≡ ok tt)
      × (code.systematic_shard_count ≡ k)
      × (code.parity_equations ≡ equations)
unfolding code_graph
code_graph-validate k m equations code h =
    let (_, valid, h₁) = >>=-eq-ok (validate _) _ h in
    let same = ok-injective h₁ in
    (
      ap validate (sym same) ∙ valid,
      ap (λ (c : CodeGraph). c.systematic_shard_count) (sym same),
      ap (λ (c : CodeGraph). c.parity_equations) (sym same),
    )

-- Encoding a stripe, losing shards of it, planning and executing the plan: if the plan is
-- recoverable, the execution succeeds and every systematic slot holds its original shard again,
-- while the parity slots are as they were.
pub encode-execute :
    (graph : BipartiteGraph) (code : CodeGraph) (stripe parities : List WordShard)
    (missing available : List ℕ) (shards : ShardSlots) (plan : DecodePlan)
    → code_graph graph.systematic_shard_count graph.parity_shard_count
        (equations_of graph.parity_to_systematic)
      ≡ ok code
    → encode_parity_cpu code stripe ≡ ok parities
    → IsLoss stripe parities missing available shards
    → create_plan graph missing available ≡ ok plan
    → plan.is_recoverable ≡ true
    → (restored : ShardSlots) × (execute_decode_plan_cpu plan shards ≡ (ok tt, restored))
      × IsRestored stripe shards restored
encode-execute graph code stripe parities missing available shards plan built encoded loss
      planned_ok recoverable =
    let (valid, count, same) = code_graph-validate _ _ _ code built in
    let e = encode_parity_cpu-IsEncodable code stripe parities valid encoded in
    let (width, ok_stripe, _, sums) = encode_parity_cpu-sums code stripe parities valid encoded in
    let erased : IsErased width stripe graph.parity_to_systematic available missing shards =
      record {
        systematic = loss.systematic;
        parities =
            losses width stripe parities missing available shards graph.parity_to_systematic loss
              (rw same at e.below) (rw same at e.far) (rw same at (rw (← e.counted) at sums));
      } in
    execute-create_plan width stripe graph missing available shards plan ok_stripe erased planned_ok
      recoverable
