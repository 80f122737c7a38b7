-- ===== src/Coding/Recovery/Restore.antt =====
-- Executing a plan restores the erased stripe.
use coded_llm.Base.{
  ℕ, suc, ◌≤◌, ◌<◌, ◌≡◌, refl, sym, ap, ◌∙◌, inl, inr, List, [], ◌∷◌, ◌++◌, true, some, ◌==◌,
  length, get_elem?, set, get_or, All, All-map, All-append, length-append, get_elem?-lt,
  get_elem?-set_self, get_elem?-set_ne, ok, arith, ==_iff, Bool-cases, subst, ok-injective,
}
use mathlib.Core.Bool.{false≢true}
use coded_llm.Base.Sets.{contains, erase, contains-erase, is_empty}
use coded_llm.Coding.Plan.{XorOperation, DecodePlan}
use coded_llm.Coding.GraphGenerator.{BipartiteGraph}
use coded_llm.Coding.Codec.{
  WordShard, ShardSlots, execute_operation, execute_operations, validate_plan_shape,
  execute_decode_plan_cpu, check_dependencies,
}
use coded_llm.Coding.Codec.Algebra.{IsStripe, without}
use coded_llm.Coding.Codec.Decode.{Holds, execute_operations-last}
use coded_llm.Coding.Planner.{Peeling, peel, start, create_plan}
use coded_llm.Coding.Planner.Scan.{OnlyIn, OnlyIn-contains}
use coded_llm.Coding.Planner.Rules.{loop_outcome}
use coded_llm.Coding.Planner.Inputs.{create_plan-eq-ok}
use coded_llm.Coding.Planner.Stopping.{not-contains-empty}
use coded_llm.Coding.Recovery.{ParityHolds, StripeHolds, IsErased}
use coded_llm.Coding.Recovery.Peel.{execute_operation-peel, missing-lt}
use coded_llm.Coding.Recovery.Dependencies.{
  gather_sources-without, check_earlier-gather, check_dependencies-append,
}

module _ (width : ℕ) (stripe : List WordShard) (available remaining : List ℕ) (shards : ShardSlots)
    (m : ℕ) (missing : contains remaining m ≡ true) (lt : m < length stripe) where
  abbrev filled : ShardSlots
  filled = set shards m (some (get_or stripe m []))

  fill-StripeHolds :
      StripeHolds stripe remaining shards → StripeHolds stripe (erase remaining m) filled
  fill-StripeHolds h i p = elim (Bool-cases (m == i)) [
    | inl e ↦
        let same : m ≡ i = (==_iff m i).0 e in
        rw (contains-erase remaining m i, e, ← same)
          (get_elem?-set_self shards m _ (get_elem?-lt shards m (h m lt)))
    | inr e ↦
        rw (contains-erase remaining m i, e)
          (get_elem?-set_ne shards m i _ (λ s. false≢true (sym e ∙ (==_iff m i).1 s)) ∙ h i p)
  ]

  fill-ParityHolds :
      (e : ℕ × List ℕ)
      → ParityHolds width stripe available shards e
      → ParityHolds width stripe available filled e
  fill-ParityHolds (p, ns) (below, far, held) =
      (below, far, λ a. get_elem?-set_ne shards m p _ (λ s. omega arith) ∙ held a)

  pub fill-IsErased :
      (equations : List (ℕ × List ℕ))
      → IsErased width stripe equations available remaining shards
      → IsErased width stripe equations available (erase remaining m) filled
  fill-IsErased equations e = record {
    systematic = fill-StripeHolds e.systematic;
    parities = All-map equations fill-ParityHolds e.parities;
  }

module _ (width : ℕ) (stripe : List WordShard) (ok_stripe : IsStripe width stripe)
    (equations : List (ℕ × List ℕ)) (available : List ℕ) (shards₀ : ShardSlots) where
  -- The operations of a state run on the erased slots, and leave what remains to be recovered.
  record Inv (state : Peeling) : Type 0 where
    shards : ShardSlots
    ran : execute_operations state.operations shards₀ ≡ (ok tt, shards)
    erased : IsErased width stripe equations available state.remaining shards
    kept : (j : ℕ) → length stripe ≤ j → get_elem? shards j ≡ get_elem? shards₀ j
    counted : length state.dependencies ≡ length state.operations
    ordered : check_dependencies 0 state.dependencies ≡ ok tt
    produced : All (λ e. e.1 < length state.operations) state.producing_operation

  peel-operations :
      (state : Peeling) (p : ℕ) (ns : List ℕ) (m : ℕ)
      → (peel state p ns m).operations
        ≡ state.operations ++ record { output = m; sources = p ∷ without m ns } ∷ []
  unfolding peel
  peel-operations state p ns m =
      rw (gather_sources-without state.producing_operation m ns (p ∷ []) [])

  peel-Inv :
      (state : Peeling) (p : ℕ) (ns : List ℕ) (m : ℕ)
      → ((shards : ShardSlots)
          → All (ParityHolds width stripe available shards) equations
          → ParityHolds width stripe available shards (p, ns))
      → contains available p ≡ true
      → OnlyIn state.remaining m ns
      → Inv state
      → Inv (peel state p ns m)
  unfolding peel
  peel-Inv state p ns m at here only v = record {
    shards = filled width stripe available state.remaining v.shards m missing lt;
    ran =
        ap (λ ops. execute_operations ops shards₀) (peel-operations state p ns m)
        ∙ execute_operations-last state.operations _ shards₀ v.shards _ v.ran executed;
    erased =
        fill-IsErased width stripe available state.remaining v.shards m missing lt equations
          v.erased;
    kept = λ j far. get_elem?-set_ne v.shards m j _ (λ s. omega (arith, lt)) ∙ v.kept j far;
    counted = omega (
      arith,
      v.counted,
      length-append state.dependencies (_ ∷ []),
      length-append state.operations (_ ∷ []),
    );
    ordered =
        check_dependencies-append 0 (length state.dependencies) state.dependencies _ (omega arith)
          v.ordered
          (rw v.counted
            (check_earlier-gather _ state.producing_operation m ns (p ∷ []) v.produced));
    produced =
        All-append _ state.producing_operation _
          (All-map _ (λ e q. omega (arith, grown)) v.produced) (omega (arith, grown), tt);
  }
    where
      missing : contains state.remaining m ≡ true
      missing = OnlyIn-contains state.remaining ns m only

      parity : ParityHolds width stripe available v.shards (p, ns)
      parity = at v.shards v.erased.parities

      lt : m < length stripe
      lt = missing-lt width stripe ok_stripe state.remaining ns m only parity.0

      grown : length (peel state p ns m).operations ≡ suc (length state.operations)
      grown = omega (arith, length-append state.operations (_ ∷ []))

      executed :
          execute_operation (record { output = m; sources = p ∷ without m ns }) v.shards
          ≡ ok (set v.shards m (some (get_or stripe m [])))
      executed =
          execute_operation-peel width stripe ok_stripe state.remaining v.shards v.erased.systematic
            p ns m only parity.0 (parity.2 here)

-- Each entry of a list has what all of them have, at every state.
All-entries {ℓ κ μ} :
    {A : Type ℓ} {S : Type κ} (F : S → A → Type μ) (xs ys : List A)
    → ((s : S) → All (F s) xs → All (F s) ys)
    → All (λ e. (s : S) → All (F s) xs → F s e) ys
All-entries F xs [] f = tt
All-entries F xs (y ∷ ys) f = (λ s h. (f s h).0, All-entries F xs ys (λ s h. (f s h).1))

-- Every slot of the stripe holds its shard, and the other slots are as they were.
abbrev pub IsRestored : List WordShard → ShardSlots → ShardSlots → Type 0
IsRestored stripe shards restored =
    ((i : ℕ) → i < length stripe → Holds restored i (get_or stripe i []))
    × ((j : ℕ) → length stripe ≤ j → get_elem? restored j ≡ get_elem? shards j)

abbrev Executes : List WordShard → DecodePlan → ShardSlots → Type 0
Executes stripe plan shards =
    (restored : ShardSlots) × (execute_decode_plan_cpu plan shards ≡ (ok tt, restored))
    × IsRestored stripe shards restored

validate_plan_shape-ok :
    (operations : List XorOperation) (dependencies : List (List ℕ))
    → length dependencies ≡ length operations
    → check_dependencies 0 dependencies ≡ ok tt
    → validate_plan_shape
        (record { operations = operations; dependencies = dependencies; is_recoverable = true })
      ≡ ok tt
unfolding validate_plan_shape
validate_plan_shape-ok operations dependencies counted ordered =
    let same : (length dependencies == length operations) ≡ true = (==_iff _ _).1 counted in
    rw same ordered

-- A state from which nothing remains, as a plan.
Inv-Executes :
    (width : ℕ) (stripe : List WordShard) (ok_stripe : IsStripe width stripe)
    (equations : List (ℕ × List ℕ)) (available : List ℕ) (shards : ShardSlots) (state : Peeling)
    → Inv width stripe ok_stripe equations available shards state
    → is_empty state.remaining ≡ true
    → Executes stripe
        (record {
          operations = state.operations;
          dependencies = state.dependencies;
          is_recoverable = true;
        })
        shards
unfolding execute_decode_plan_cpu
Inv-Executes width stripe ok_stripe equations available shards state v done =
    let shape = validate_plan_shape-ok state.operations state.dependencies v.counted v.ordered in
    (
      v.shards,
      rw (shape, execute_decode_plan_cpu) v.ran,
      (λ i p. rw (not-contains-empty state.remaining i done) at (v.erased.systematic i p), v.kept),
    )

-- A recoverable plan for the missing shards of an erased stripe executes without an error, and
-- leaves every slot of the stripe with its shard and the other slots as they were.
pub execute-create_plan :
    (width : ℕ) (stripe : List WordShard) (graph : BipartiteGraph) (missing available : List ℕ)
    (shards : ShardSlots) (plan : DecodePlan)
    → IsStripe width stripe
    → IsErased width stripe graph.parity_to_systematic available missing shards
    → create_plan graph missing available ≡ ok plan
    → plan.is_recoverable ≡ true
    → (restored : ShardSlots) × (execute_decode_plan_cpu plan shards ≡ (ok tt, restored))
      × IsRestored stripe shards restored
unfolding execute_operations check_dependencies
execute-create_plan width stripe graph missing available shards plan ok_stripe erased h
      recoverable =
    let equations = graph.parity_to_systematic in
    let (_, loop) = create_plan-eq-ok graph missing available h in
    let (s, v, result) =
      loop_outcome available
        (λ e.
          (t : ShardSlots)
          → All (ParityHolds width stripe available t) equations
          → ParityHolds width stripe available t e)
        (Inv width stripe ok_stripe equations available shards)
        (λ s p ns m q a o v.
          peel-Inv width stripe ok_stripe equations available shards s p ns m q a o v)
        equations (suc (length missing)) (start missing)
        (All-entries (ParityHolds width stripe available) equations equations (λ t h. h))
        (record {
          shards = shards;
          ran = refl;
          erased = erased;
          kept = λ j _. refl;
          counted = refl;
          ordered = refl;
          produced = tt;
        })
        (omega arith) in
    elim result [
      | inl (done, e) ↦
          subst (λ p. Executes stripe p shards) (sym (ok-injective (sym loop ∙ e)))
            (Inv-Executes width stripe ok_stripe equations available shards s v done)
      | inr (_, _, e) ↦ absurd (
          false≢true (
            ap (λ (p : DecodePlan). p.is_recoverable) (sym (ok-injective (sym loop ∙ e)))
            ∙ recoverable))
    ]
