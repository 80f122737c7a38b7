-- ===== src/Coding/Planner/Rules.antt =====
-- The peeling loop as a rule: an invariant that every peeling keeps holds where the loop ends,
-- and the loop ends, by success or at a state from which no equation can be peeled.
use coded_llm.Base.{
  ℕ, zero, suc, ◌<◌, ◌≡◌, ◌≢◌, refl, ◌⊎◌, inl, inr, List, [], ◌∷◌, Bool, true, false, ◌==◌, ◌||◌,
  ◌&&◌, length, All, Result, ok, arith, Bool-cases, ap, if_ind, if◌then◌else◌,
}
use mathlib.Core.Bool.{or-true, or-false}
use coded_llm.Base.Sets.{contains, is_empty, length-erase}
use coded_llm.Coding.Plan.{DecodePlan, unrecoverable}
use coded_llm.Coding.Planner.{Peeling, peel, visit_equation, peel_pass, peel_loop, scan_neighbors}
use coded_llm.Coding.Planner.Scan.{OnlyIn, scan-count, count_in, scan-OnlyIn, OnlyIn-contains}

module _ {ℓ} (available : List ℕ) (P : Peeling × Bool → Type ℓ) (state : Peeling) (p : ℕ)
    (ns : List ℕ) where
  visit_available :
      contains available p ≡ true
      → (count_in state.remaining ns ≢ 1 → P (state, false))
      → (count_in state.remaining ns ≡ 1
          → P (peel state p ns (scan_neighbors state.remaining ns 0 0).0, true))
      → P (visit_equation available state (p, ns))
  unfolding visit_equation
  visit_available here idle peels =
      elim (Bool-cases ((scan_neighbors state.remaining ns 0 0).1 == 1)) [
        | inl e ↦ rw (here, e) (peels (ground (arith, scan-count state.remaining ns 0 0)))
        | inr e ↦ rw (here, e) (idle (λ n. ground (arith, scan-count state.remaining ns 0 0)))
      ]

  -- What a visit does: nothing, or the peeling of the equation's only missing neighbour.
  pub visit_cases :
      ((contains available p ≡ true → count_in state.remaining ns ≢ 1) → P (state, false))
      → ((m : ℕ)
          → contains available p ≡ true
          → OnlyIn state.remaining m ns
          → P (peel state p ns m, true))
      → P (visit_equation available state (p, ns))
  unfolding visit_equation
  visit_cases idle peels = elim (Bool-cases (contains available p)) [
    | inl e ↦
        visit_available e (λ h. idle (λ _. h))
          (λ h. peels _ e (scan-OnlyIn state.remaining ns 0 0 h))
    | inr e ↦ rw e (idle (λ t. cc))
  ]

-- No available equation has exactly one missing neighbour.
abbrev pub IsStuck : List ℕ → List ℕ → List (ℕ × List ℕ) → Type 0
IsStuck available remaining = All (λ e. contains available e.0 ≡ true → count_in remaining e.1 ≢ 1)

-- The state is the same and stuck, or fewer shards remain.
abbrev pub PassOutcome : List ℕ → List (ℕ × List ℕ) → Peeling → Bool → Peeling × Bool → Type 0
PassOutcome available equations state b r =
    (length r.0.remaining < length state.remaining) × (r.1 ≡ true)
    ⊎ (r ≡ (state, b)) × IsStuck available state.remaining equations

peel-lt :
    (state : Peeling) (p : ℕ) (ns : List ℕ) (m : ℕ)
    → OnlyIn state.remaining m ns
    → length (peel state p ns m).remaining < length state.remaining
unfolding peel
peel-lt state p ns m h = length-erase state.remaining m (OnlyIn-contains state.remaining ns m h)

pub pass_outcome :
    (available : List ℕ) (equations : List (ℕ × List ℕ)) (state : Peeling) (b : Bool)
    → PassOutcome available equations state b (peel_pass available equations state b)
unfolding peel_pass
pass_outcome available [] state b = inr (refl, tt)
pass_outcome available ((p, ns) ∷ rest) state b =
    visit_cases available
      (λ r. PassOutcome available ((p, ns) ∷ rest) state b (
        if r.1 && is_empty r.0.remaining
        then (r.0, true)
        else peel_pass available rest r.0 (b || r.1)))
      state p ns
      (λ idle. rw (or-false b) (elim (pass_outcome available rest state b) [
        | inl less ↦ inl less
        | inr (same, stuck) ↦ inr (same, (idle, stuck))
      ]))
      (λ m _ only.
        let less = peel-lt state p ns m only in
        if_ind (PassOutcome available ((p, ns) ∷ rest) state b) _
          {y = peel_pass available rest (peel state p ns m) (b || true)} (λ _. inl (less, refl))
          (λ _. rw (or-true b) (elim (pass_outcome available rest (peel state p ns m) true) [
            | inl more ↦ inl (omega arith, more.1)
            | inr (same, _) ↦ inl (rw same less, ap (λ (r : Peeling × Bool). r.1) same)
          ])))

module _ {ℓ κ} (available : List ℕ) (Q : ℕ × List ℕ → Type κ) (P : Peeling → Type ℓ)
    (keep : (state : Peeling) (p : ℕ) (ns : List ℕ) (m : ℕ)
      → Q (p, ns)
      → contains available p ≡ true
      → OnlyIn state.remaining m ns
      → P state
      → P (peel state p ns m)) where
  visit_inv :
      (state : Peeling) (p : ℕ) (ns : List ℕ)
      → Q (p, ns)
      → P state
      → P (visit_equation available state (p, ns)).0
  visit_inv state p ns q h =
      visit_cases available (λ r. P r.0) state p ns (λ _. h) (λ m a o. keep state p ns m q a o h)

  pub pass_inv :
      (equations : List (ℕ × List ℕ)) (state : Peeling) (b : Bool)
      → All Q equations
      → P state
      → P (peel_pass available equations state b).0
  unfolding peel_pass
  pass_inv [] state b q h = h
  pass_inv ((p, ns) ∷ rest) state b q h =
      let r = visit_equation available state (p, ns) in
      let kept = visit_inv state p ns q.0 h in
      if_ind (λ (s : Peeling × Bool). P s.0) (r.1 && is_empty r.0.remaining) (λ _. kept)
        (λ _. pass_inv rest r.0 (b || r.1) q.1 kept)

  -- How the loop ends: with nothing left, or stuck.
  abbrev pub LoopOutcome : List (ℕ × List ℕ) → Result DecodePlan → Type ℓ
  LoopOutcome equations result =
      (state : Peeling) × P state
      × ((is_empty state.remaining ≡ true)
            × (result
                ≡ ok (record {
                  operations = state.operations;
                  dependencies = state.dependencies;
                  is_recoverable = true;
                }))
          ⊎ (is_empty state.remaining ≡ false)
            × IsStuck available state.remaining equations
            × (result ≡ ok unrecoverable))

  pub loop_outcome :
      (equations : List (ℕ × List ℕ)) (fuel : ℕ) (state : Peeling)
      → All Q equations
      → P state
      → length state.remaining < fuel
      → LoopOutcome equations (peel_loop available equations fuel state)
  unfolding peel_loop
  loop_outcome equations zero state q h less = absurd (omega arith)
  loop_outcome equations (suc fuel) state q h less =
      let r = peel_pass available equations state false in
      let kept = pass_inv equations state false q h in
      if_ind (LoopOutcome equations) (is_empty state.remaining) (λ e. (state, h, inl (e, refl)))
        (λ e. elim (pass_outcome available equations state false) [
          | inl (fewer, progress) ↦
              rw progress (loop_outcome equations fuel r.0 q kept (omega arith))
          | inr (same, stuck) ↦
              rw (ap (λ (s : Peeling × Bool). s.1) same) (state, h, inr (e, stuck, refl))
        ])
