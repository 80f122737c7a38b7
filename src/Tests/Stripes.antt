-- ===== src/Tests/Stripes.antt =====
-- A stripe of three shards with two parity shards, of which two shards are lost.
use coded_llm.Base.{
  ℕ, zero, suc, ◌-◌, ◌≤◌, ◌<◌, ◌≡◌, ◌↔◌, refl, List, [], ◌∷◌, true, false, none, some, ok, arith,
  length, get_elem?, get_or, All, ap,
}
use coded_llm.Base.Maps.{find}
use coded_llm.Base.Sets.{contains, insert, erase, is_empty}
use coded_llm.Base.Words.{xor_words}
use coded_llm.Coding.Plan.{DecodePlan, unrecoverable}
use coded_llm.Coding.Graph.{
  CodeGraph, code_graph, validate, validate_equations, validate_sources, total_shard_count,
}
use coded_llm.Coding.GraphGenerator.{BipartiteGraph}
use coded_llm.Coding.Codec.{
  WordShard, ShardSlots, encode_parity_cpu, validate_shard_words, encode_equations, encode_sources,
  check_sizes, execute_decode_plan_cpu,
}
use coded_llm.Coding.Codec.Algebra.{IsStripe, xor_all}
use coded_llm.Coding.Codec.Encode.{encode_parity_cpu-sums}
use coded_llm.Coding.Planner.{
  validate_graph, validate_parities, validate_neighbors, check_missing, check_available, peel_loop,
  peel_pass, visit_equation, scan_neighbors, gather_sources, peel, sort, unique, create_plan,
}
use coded_llm.Coding.Planner.Inputs.{IsAccepted}
use coded_llm.Coding.Planner.Stopping.{IsStoppingSet, create_plan-refuses_iff, create_plan_total}
use coded_llm.Coding.Recovery.{IsErased, StripeHolds}
use coded_llm.Coding.Codec.Decode.{Holds}
use coded_llm.Coding.Recovery.Restore.{IsRestored, execute-create_plan}
use coded_llm.Coding.Recovery.RoundTrip.{equations_of, encode-execute}

abbrev graph : BipartiteGraph
graph = record {
  systematic_shard_count = 3;
  parity_shard_count = 2;
  parity_to_systematic = (3, 0 ∷ 1 ∷ []) ∷ (4, 1 ∷ 2 ∷ []) ∷ [];
}

abbrev code : CodeGraph
code = record {
  systematic_shard_count = 3;
  parity_shard_count = 2;
  parity_equations = equations_of graph.parity_to_systematic;
}

abbrev stripe : List WordShard
stripe = (1 ∷ 2 ∷ []) ∷ (3 ∷ 4 ∷ []) ∷ (5 ∷ 6 ∷ []) ∷ []

abbrev parities : List WordShard
parities = (2 ∷ 6 ∷ []) ∷ (6 ∷ 2 ∷ []) ∷ []

abbrev lost : List ℕ
lost = 0 ∷ 1 ∷ []

abbrev both : List ℕ
both = 3 ∷ 4 ∷ []

abbrev slots : ShardSlots
slots = none ∷ none ∷ some (5 ∷ 6 ∷ []) ∷ some (2 ∷ 6 ∷ []) ∷ some (6 ∷ 2 ∷ []) ∷ []

-- The second equation gives shard 1, and the first one then gives shard 0.
abbrev chained : DecodePlan
chained = record {
  operations =
      record { output = 1; sources = 4 ∷ 2 ∷ [] }
      ∷ record { output = 0; sources = 3 ∷ 1 ∷ [] }
      ∷ [];
  dependencies = [] ∷ (0 ∷ []) ∷ [];
  is_recoverable = true;
}

create_plan-chained : create_plan graph lost both ≡ ok chained
unfolding create_plan validate_graph validate_parities validate_neighbors check_missing
    check_available peel_loop peel_pass visit_equation scan_neighbors gather_sources peel sort
    unique find contains insert erase is_empty
create_plan-chained = refl

graph-code :
    code_graph graph.systematic_shard_count graph.parity_shard_count
      (equations_of graph.parity_to_systematic)
    ≡ ok code
unfolding code_graph validate validate_equations validate_sources total_shard_count contains insert
    is_empty
graph-code = refl

validate-code : validate code ≡ ok tt
unfolding validate validate_equations validate_sources total_shard_count contains insert is_empty
validate-code = refl

encode-stripe : encode_parity_cpu code stripe ≡ ok parities
unfolding encode_parity_cpu validate_shard_words check_sizes encode_equations encode_sources
    xor_words is_empty
encode-stripe = refl

stripe-IsStripe : IsStripe 2 stripe
stripe-IsStripe = record { words = omega arith; sized = sized }
  where
    sized : (i : ℕ) → i < length stripe → length (get_or stripe i []) ≡ 2
    sized zero h = refl
    sized (suc zero) h = refl
    sized (suc (suc zero)) h = refl
    sized (suc (suc (suc i))) h = absurd (omega arith)

slots-StripeHolds : StripeHolds stripe lost slots
unfolding contains
slots-StripeHolds zero h = refl
slots-StripeHolds (suc zero) h = refl
slots-StripeHolds (suc (suc zero)) h = refl
slots-StripeHolds (suc (suc (suc i))) h = absurd (omega arith)

parity_slots :
    (p : ℕ) (shard : WordShard)
    → length stripe ≤ p
    → contains both p ≡ true
    → get_elem? parities (p - length stripe) ≡ some shard
    → Holds slots p shard
unfolding contains
parity_slots zero shard far here h = absurd (omega arith)
parity_slots (suc zero) shard far here h = absurd (omega arith)
parity_slots (suc (suc zero)) shard far here h = absurd (omega arith)
parity_slots (suc (suc (suc zero))) shard far here h = ap some h
parity_slots (suc (suc (suc (suc zero)))) shard far here h = ap some h
parity_slots (suc (suc (suc (suc (suc i))))) shard far here h = absurd (ground arith)

encode-execute_example :
    (restored : ShardSlots) × (execute_decode_plan_cpu chained slots ≡ (ok tt, restored))
    × IsRestored stripe slots restored
encode-execute_example =
    encode-execute graph code stripe parities lost both slots chained graph-code encode-stripe
      (record { systematic = slots-StripeHolds; parity = parity_slots }) create_plan-chained refl

slots-IsErased : IsErased 2 stripe graph.parity_to_systematic both lost slots
unfolding contains xor_all xor_words
slots-IsErased = record {
  systematic = slots-StripeHolds;
  parities = (
    ((omega arith, (omega arith, tt)), omega arith, λ _. refl),
    (((omega arith, (omega arith, tt)), omega arith, λ _. refl), tt),
  );
}

execute-create_plan_example :
    (restored : ShardSlots) × (execute_decode_plan_cpu chained slots ≡ (ok tt, restored))
    × IsRestored stripe slots restored
execute-create_plan_example =
    execute-create_plan 2 stripe graph lost both slots chained stripe-IsStripe slots-IsErased
      create_plan-chained refl

-- With the first equation alone, both lost shards are its neighbours.
create_plan-refused : create_plan graph lost (3 ∷ []) ≡ ok unrecoverable
unfolding create_plan validate_graph validate_parities validate_neighbors check_missing
    check_available peel_loop peel_pass visit_equation scan_neighbors gather_sources peel sort
    unique find contains insert erase is_empty
create_plan-refused = refl

create_plan-refuses_iff_example :
    (unrecoverable.is_recoverable ≡ false)
    ↔ ((stopping : List ℕ) × IsStoppingSet graph lost (3 ∷ []) stopping)
create_plan-refuses_iff_example =
    create_plan-refuses_iff graph lost (3 ∷ []) unrecoverable create_plan-refused

graph-IsAccepted : IsAccepted graph lost both
unfolding validate_graph validate_parities validate_neighbors check_missing check_available find
    contains insert is_empty
graph-IsAccepted = record { valid = refl; systematic = refl; parity = refl }

create_plan_total_example : (plan : DecodePlan) × (create_plan graph lost both ≡ ok plan)
create_plan_total_example = create_plan_total graph lost both graph-IsAccepted

encode_parity_cpu-sums_example :
    (width : ℕ) × IsStripe width stripe
    × (length parities ≡ code.parity_shard_count)
    × All
        (λ e.
          get_elem? parities (e.output - code.systematic_shard_count)
          ≡ some (xor_all width stripe e.sources))
        code.parity_equations
encode_parity_cpu-sums_example =
    encode_parity_cpu-sums code stripe parities validate-code encode-stripe
