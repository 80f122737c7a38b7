-- ===== src/Coding/Planner/Inputs.antt =====
-- What the planner accepts, and what its answer says of the peeling loop.
use coded_llm.Base.{ℕ, suc, ◌+◌, ◌≡◌, List, length, Result, ok, >>=-eq-ok}
use coded_llm.Coding.Plan.{DecodePlan}
use coded_llm.Coding.GraphGenerator.{BipartiteGraph}
use coded_llm.Coding.Planner.{
  validate_graph, check_missing, check_available, peel_loop, start, create_plan,
}

-- The three checks pass.
pub record IsAccepted (graph : BipartiteGraph) (missing available : List ℕ) : Type 0 where
  pub valid : validate_graph graph ≡ ok tt
  pub systematic : check_missing graph.systematic_shard_count missing ≡ ok tt
  pub parity :
      check_available graph.systematic_shard_count
        (graph.systematic_shard_count + graph.parity_shard_count)
        available
      ≡ ok tt

module _ (graph : BipartiteGraph) (missing available : List ℕ) where
  abbrev pub planned : Result DecodePlan
  planned = peel_loop available graph.parity_to_systematic (suc (length missing)) (start missing)

  pub create_plan-accepted :
      IsAccepted graph missing available → create_plan graph missing available ≡ planned
  unfolding create_plan
  create_plan-accepted a = rw (a.valid, a.systematic, a.parity)

  pub create_plan-eq-ok :
      {plan : DecodePlan}
      → create_plan graph missing available ≡ ok plan
      → IsAccepted graph missing available × (planned ≡ ok plan)
  unfolding create_plan
  create_plan-eq-ok h =
      let (_, v, h₁) = >>=-eq-ok (validate_graph graph) _ h in
      let (_, s, h₂) = >>=-eq-ok (check_missing graph.systematic_shard_count missing) _ h₁ in
      let (_, p, h₃) = >>=-eq-ok _ _ h₂ in (record { valid = v; systematic = s; parity = p }, h₃)
