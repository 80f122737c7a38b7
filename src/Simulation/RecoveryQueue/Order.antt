-- ===== src/Simulation/RecoveryQueue/Order.antt =====
-- Lists of times by the order of the times.
use coded_llm.Base.{
  ℕ, suc, ◌+◌, ◌<◌, ◌≡◌, refl, inl, inr, List, [], ◌∷◌, ◌++◌, true, false, length, get_or, All,
  All-map, All-append, length-append, subst, arith, Bool-cases,
}
use mathlib.Core.List.{append-nil, append_assoc}
use coded_llm.Base.Int.{ℤ, pos, ltb_ℤ, ◌≤ℤ◌, pos_part, neg_part}
use coded_llm.Simulation.RecoveryQueue.{
  completed_count, pending_jobs, insert_time, min_element, earliest_slot,
}

abbrev pub ◌<ℤ◌ : ℤ → ℤ → Type 0
◌<ℤ◌ a b = pos_part a + neg_part b < pos_part b + neg_part a

-- The times rise.
abbrev pub Sorted : List ℤ → Type 0
Sorted [] = Unit {0}
Sorted (t ∷ times) = All (λ u. t ≤ℤ u) times × Sorted times

pub ltb_ℤ-lt : (a b : ℤ) → ltb_ℤ a b ≡ true → ◌<ℤ◌ a b
ltb_ℤ-lt a b h = ground arith

pub ltb_ℤ-le : (a b : ℤ) → ltb_ℤ a b ≡ false → b ≤ℤ a
ltb_ℤ-le a b h = ground arith

-- The jobs that stay are the others, in order, and all of them are later.
pub length-pending_jobs :
    (now : ℤ) (times : List ℤ)
    → completed_count now times + length (pending_jobs now times) ≡ length times
unfolding completed_count pending_jobs
length-pending_jobs now [] = omega arith
length-pending_jobs now (t ∷ times) = ground (arith, length-pending_jobs now times)

pub pending_jobs-Sorted :
    (now : ℤ) (times : List ℤ) → Sorted times → Sorted (pending_jobs now times)
unfolding pending_jobs
pending_jobs-Sorted now [] h = tt
pending_jobs-Sorted now (t ∷ times) h = elim (Bool-cases (ltb_ℤ now t)) [
  | inl e ↦ rw e h
  | inr e ↦ rw e (pending_jobs-Sorted now times h.1)
]

pub pending_jobs-later :
    (now : ℤ) (times : List ℤ) → Sorted times → All (λ t. ◌<ℤ◌ now t) (pending_jobs now times)
unfolding pending_jobs
pending_jobs-later now [] h = tt
pending_jobs-later now (t ∷ times) h = elim (Bool-cases (ltb_ℤ now t)) [
  | inl e ↦ rw e (ltb_ℤ-lt now t e, All-map times (λ u le. omega (arith, ltb_ℤ-lt now t e)) h.0)
  | inr e ↦ rw e (pending_jobs-later now times h.1)
]

pub length-insert_time :
    (a : ℤ) (times : List ℤ) → length (insert_time a times) ≡ suc (length times)
unfolding insert_time
length-insert_time a [] = refl
length-insert_time a (t ∷ times) = ground (arith, length-insert_time a times)

pub insert_time-All {ℓ} :
    (P : ℤ → Type ℓ) (a : ℤ) (times : List ℤ) → P a → All P times → All P (insert_time a times)
unfolding insert_time
insert_time-All P a [] p h = (p, tt)
insert_time-All P a (t ∷ times) p h = elim (Bool-cases (ltb_ℤ a t)) [
  | inl e ↦ rw e (p, h)
  | inr e ↦ rw e (h.0, insert_time-All P a times p h.1)
]

pub insert_time-Sorted : (a : ℤ) (times : List ℤ) → Sorted times → Sorted (insert_time a times)
unfolding insert_time
insert_time-Sorted a [] h = (tt, tt)
insert_time-Sorted a (t ∷ times) h = elim (Bool-cases (ltb_ℤ a t)) [
  | inl e ↦ rw e (
    (omega (arith, ltb_ℤ-lt a t e), All-map times (λ u le. omega (arith, ltb_ℤ-lt a t e)) h.0),
    h,
  )
  | inr e ↦
      rw e
        (insert_time-All (λ u. t ≤ℤ u) a times (ltb_ℤ-le a t e) h.0, insert_time-Sorted a times h.1)
]

get_or-append :
    (before times : List ℤ) (t : ℤ) → get_or (before ++ t ∷ times) (length before) (pos 0) ≡ t
get_or-append [] times t = refl
get_or-append (b ∷ before) times t = get_or-append before times t

-- An index in range, at which no other time is smaller.
abbrev pub IsLeastAt : List ℤ → ℕ → Type 0
IsLeastAt times i = (i < length times) × All (λ u. get_or times i (pos 0) ≤ℤ u) times

min_element-least :
    (times before : List ℤ) (best_index : ℕ) (best : ℤ) (index : ℕ)
    → index ≡ length before
    → best_index < index
    → get_or (before ++ times) best_index (pos 0) ≡ best
    → All (λ u. best ≤ℤ u) before
    → IsLeastAt (before ++ times) (min_element best_index best index times)
unfolding min_element
min_element-least [] before bi best index at_end lt e least =
    let same = append-nil before in rw same (omega arith, rw (rw same at e) least)
min_element-least (t ∷ times) before bi best index at_end lt e least =
    let shift : (before ++ t ∷ []) ++ times ≡ before ++ t ∷ times =
      append_assoc before (t ∷ []) times in
    let here : get_or (before ++ t ∷ times) index (pos 0) ≡ t =
      rw at_end (get_or-append before times t) in
    let longer : index + 1 ≡ length (before ++ t ∷ []) =
      omega (arith, length-append before (t ∷ [])) in
    elim (Bool-cases (ltb_ℤ t best)) [
      | inl smaller ↦
          let lt_best = ltb_ℤ-lt t best smaller in
          rw (smaller, min_element)
            (subst (λ l. IsLeastAt l (min_element index t (index + 1) times)) shift
              (min_element-least times (before ++ t ∷ []) index t (index + 1) longer (omega arith)
                (rw shift here)
                (All-append (λ u. t ≤ℤ u) before (t ∷ [])
                  (All-map before (λ u le. omega (arith, lt_best)) least) (omega arith, tt))))
      | inr other ↦
          rw (other, min_element)
            (subst (λ l. IsLeastAt l (min_element bi best (index + 1) times)) shift
              (min_element-least times (before ++ t ∷ []) bi best (index + 1) longer (omega arith)
                (rw shift e)
                (All-append (λ u. best ≤ℤ u) before (t ∷ []) least (ltb_ℤ-le t best other, tt))))
    ]

-- The slot that is taken is one of those that are free first.
pub earliest_slot-IsLeastAt :
    (slots : List ℤ) → 0 < length slots → IsLeastAt slots (earliest_slot slots)
unfolding earliest_slot
earliest_slot-IsLeastAt [] h = absurd (omega arith)
earliest_slot-IsLeastAt (t ∷ slots) h =
    min_element-least slots (t ∷ []) 0 t 1 refl (omega arith) refl (omega arith, tt)
