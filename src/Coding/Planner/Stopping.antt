-- ===== src/Coding/Planner/Stopping.antt =====
-- The planner against stopping sets: sets of missing shards of which no available equation
-- has exactly one.
use mathlib.Core.Bool.{false≢true}
use coded_llm.Base.{
  ℕ, suc, ◌≡◌, ◌≢◌, ◌↔◌, refl, inl, inr, List, [], ◌∷◌, true, false, ◌==◌, length, All, ok, arith,
  Bool-cases, ==_refl, ==_iff, sym, ◌∙◌,
}
use coded_llm.Base.Sets.{contains, is_empty, contains-erase}
use coded_llm.Coding.Plan.{DecodePlan, unrecoverable}
use coded_llm.Coding.GraphGenerator.{BipartiteGraph}
use coded_llm.Coding.Planner.{Peeling, peel, start, create_plan}
use coded_llm.Coding.Planner.Scan.{OnlyIn, NoneIn, count_in}
use coded_llm.Coding.Planner.Rules.{IsStuck, loop_outcome, LoopOutcome}
use coded_llm.Coding.Planner.Inputs.{IsAccepted, planned, create_plan-accepted, create_plan-eq-ok}

abbrev pub IsSubset : List ℕ → List ℕ → Type 0
IsSubset xs ys = (a : ℕ) → contains xs a ≡ true → contains ys a ≡ true

pub record IsStoppingSet (graph : BipartiteGraph) (missing available stopping : List ℕ)
    : Type 0 where
  pub inhabited : is_empty stopping ≡ false
  pub within : IsSubset stopping missing
  pub stuck : IsStuck available stopping graph.parity_to_systematic

count_in_none : (S R ns : List ℕ) → IsSubset S R → NoneIn R ns → count_in S ns ≡ 0
unfolding count_in
count_in_none S R [] sub h = refl
count_in_none S R (s ∷ ns) sub h = elim (Bool-cases (contains S s)) [
  | inl e ↦ absurd (false≢true (sym h.0 ∙ sub s e))
  | inr e ↦ rw e (count_in_none S R ns sub h.1)
]

count_in_only :
    (S R ns : List ℕ) (m : ℕ)
    → IsSubset S R
    → contains S m ≡ true
    → OnlyIn R m ns
    → count_in S ns ≡ 1
unfolding count_in
count_in_only S R [] m sub h only = absurd only
count_in_only S R (s ∷ ns) m sub h (inl o) =
    rw (← o.1, h) (omega (arith, count_in_none S R ns sub o.2))
count_in_only S R (s ∷ ns) m sub h (inr o) = elim (Bool-cases (contains S s)) [
  | inl e ↦ absurd (false≢true (sym o.0 ∙ sub s e))
  | inr e ↦ rw e (count_in_only S R ns m sub h o.1)
]

peel-subset :
    (missing : List ℕ) (state : Peeling) (p : ℕ) (ns : List ℕ) (m : ℕ)
    → IsSubset state.remaining missing
    → IsSubset (peel state p ns m).remaining missing
unfolding peel
peel-subset missing state p ns m sub a h =
    sub a (ground (arith, contains-erase state.remaining m a))

peel-superset :
    (S available : List ℕ) (state : Peeling) (p : ℕ) (ns : List ℕ) (m : ℕ)
    → (contains available p ≡ true → count_in S ns ≢ 1)
    → contains available p ≡ true
    → OnlyIn state.remaining m ns
    → IsSubset S state.remaining
    → IsSubset S (peel state p ns m).remaining
unfolding peel
peel-superset S available state p ns m stuck here only sub a h = elim (Bool-cases (m == a)) [
  | inl e ↦
      let h' : contains S m ≡ true = rw ((==_iff m a).0 e) h in
      absurd (stuck here (count_in_only S state.remaining ns m sub h' only))
  | inr e ↦ rw (contains-erase state.remaining m a, e) (sub a h)
]

member_of : (S : List ℕ) → is_empty S ≡ false → (a : ℕ) × (contains S a ≡ true)
unfolding contains is_empty
member_of [] h = cc
member_of (a ∷ S) h = (a, rw (==_refl a))

pub not-contains-empty : (S : List ℕ) (a : ℕ) → is_empty S ≡ true → contains S a ≡ false
unfolding contains is_empty
not-contains-empty [] a h = refl
not-contains-empty (x ∷ S) a h = cc

trivially : (equations : List (ℕ × List ℕ)) → All (λ _. Unit {0}) equations
trivially [] = tt
trivially (e ∷ equations) = (tt, trivially equations)

module _ (graph : BipartiteGraph) (missing available : List ℕ) where
  -- The loop, with what remains at its end.
  outcome :
      LoopOutcome available
        (λ _. Unit {0})
        (λ s. IsSubset s.remaining missing)
        (λ s p ns m _ _ _ sub. peel-subset missing s p ns m sub)
        graph.parity_to_systematic
        (planned graph missing available)
  outcome =
      loop_outcome available (λ _. Unit {0}) (λ s. IsSubset s.remaining missing)
        (λ s p ns m _ _ _ sub. peel-subset missing s p ns m sub) graph.parity_to_systematic
        (suc (length missing)) (start missing) (trivially _) (λ a h. h) (omega arith)

  -- The planner answers every accepted input: its loop ends within its fuel.
  pub create_plan_total :
      IsAccepted graph missing available
      → (plan : DecodePlan) × (create_plan graph missing available ≡ ok plan)
  create_plan_total a =
      let (s, _, result) = outcome in
      rw (create_plan-accepted graph missing available a)
        (elim result [ inl (_, e) ↦ (_, e) | inr (_, _, e) ↦ (_, e) ])

  refuses :
      (plan : DecodePlan)
      → planned graph missing available ≡ ok plan
      → plan.is_recoverable ≡ false
      → (stopping : List ℕ) × IsStoppingSet graph missing available stopping
  refuses plan h no_plan =
      let (s, sub, result) = outcome in
      elim result [
        | inl (_, e) ↦ absurd (false≢true (sym no_plan ∙ recoverable (sym h ∙ e)))
        | inr (some_left, stuck, _) ↦
            (s.remaining, record { inhabited = some_left; within = sub; stuck = stuck })
      ]
    where
      recoverable : {q : DecodePlan} → ok plan ≡ ok q → plan.is_recoverable ≡ q.is_recoverable
      recoverable e = ground arith

  refused :
      (plan : DecodePlan)
      → planned graph missing available ≡ ok plan
      → (stopping : List ℕ) × IsStoppingSet graph missing available stopping
      → plan.is_recoverable ≡ false
  refused plan h (S, st) =
      let (s, sup, result) =
        loop_outcome available (λ e. contains available e.0 ≡ true → count_in S e.1 ≢ 1)
          (λ t. IsSubset S t.remaining)
          (λ t p ns m q a o sub. peel-superset S available t p ns m q a o sub)
          graph.parity_to_systematic (suc (length missing)) (start missing) st.stuck st.within
          (omega arith) in
      let (a, member) = member_of S st.inhabited in
      elim result [
        | inl (e, _) ↦ absurd (false≢true (sym (not-contains-empty s.remaining a e) ∙ sup a member))
        | inr (_, _, e) ↦ refusal (sym h ∙ e)
      ]
    where
      refusal : ok plan ≡ ok unrecoverable → plan.is_recoverable ≡ false
      refusal e = ground arith

  -- The planner refuses exactly when some of the missing shards form a stopping set.
  pub create_plan-refuses_iff :
      (plan : DecodePlan)
      → create_plan graph missing available ≡ ok plan
      → (plan.is_recoverable ≡ false)
        ↔ ((stopping : List ℕ) × IsStoppingSet graph missing available stopping)
  create_plan-refuses_iff plan h =
      let (_, h') = create_plan-eq-ok graph missing available h in
      (refuses plan h', refused plan h')
