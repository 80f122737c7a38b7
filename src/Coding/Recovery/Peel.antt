-- ===== src/Coding/Recovery/Peel.antt =====
-- One peeling, executed: it fills the slot of the missing shard with that shard.
use coded_llm.Base.{
  ℕ, ◌<◌, ◌≡◌, refl, sym, ap, ◌∙◌, inl, inr, List, [], ◌∷◌, true, false, none, some, ◌==◌, leb,
  length, get_elem?, set, get_or, All, All-map, get_elem?-lt, ok, arith, ==_iff, ==_refl,
  Bool-cases,
}
use mathlib.Core.Bool.{false≢true}
use coded_llm.Base.Sets.{contains, is_empty}
use coded_llm.Base.Words.{xor_words, xor_words_comm, xor_words_assoc, xor_words_cancel}
use coded_llm.Coding.Codec.{WordShard, ShardSlots, execute_operation, slot}
use coded_llm.Coding.Codec.Algebra.{IsStripe, xor_all, length-xor_all, without}
use coded_llm.Coding.Codec.Decode.{Holds, decode_output-sum}
use coded_llm.Coding.Planner.Scan.{OnlyIn, NoneIn, OnlyIn-contains}
use coded_llm.Coding.Recovery.{StripeHolds}

without-NoneIn : (R ns : List ℕ) (m : ℕ) → contains R m ≡ true → NoneIn R ns → without m ns ≡ ns
unfolding without
without-NoneIn R [] m h absent = refl
without-NoneIn R (s ∷ ns) m h absent = elim (Bool-cases (s == m)) [
  | inl e ↦
      let same : s ≡ m = (==_iff s m).0 e in
      absurd (false≢true (sym absent.0 ∙ ap (contains R) same ∙ h))
  | inr e ↦ rw e (ap (◌∷◌ s) (without-NoneIn R ns m h absent.1))
]

-- The shards that are left of an equation when its missing neighbour is taken out.
pub without-present :
    (R ns : List ℕ) (m n : ℕ)
    → contains R m ≡ true
    → OnlyIn R m ns
    → All (λ s. s < n) ns
    → All (λ s. (s < n) × (contains R s ≡ false)) (without m ns)
unfolding without
without-present R [] m n h only below = absurd only
without-present R (s ∷ ns) m n h (inl (_, same, absent)) below =
    rw (← same, ==_refl m, without-NoneIn R ns m h absent) (both ns absent below.1)
  where
    both :
        (l : List ℕ)
        → NoneIn R l
        → All (λ s. s < n) l
        → All (λ s. (s < n) × (contains R s ≡ false)) l
    both [] p q = tt
    both (x ∷ l) p q = ((q.0, p.0), both l p.1 q.1)
without-present R (s ∷ ns) m n h (inr (out, only)) below = elim (Bool-cases (s == m)) [
  | inl e ↦ rw e (without-present R ns m n h only below.1)
  | inr e ↦ rw e ((below.0, out), without-present R ns m n h only below.1)
]

module _ (width : ℕ) (stripe : List WordShard) (ok_stripe : IsStripe width stripe) where
  -- The sum over an equation is its missing neighbour and the sum over the others.
  pub xor_all-OnlyIn :
      (R ns : List ℕ) (m : ℕ)
      → contains R m ≡ true
      → OnlyIn R m ns
      → xor_all width stripe ns
        ≡ xor_words (get_or stripe m []) (xor_all width stripe (without m ns))
  unfolding xor_all without
  xor_all-OnlyIn R [] m h only = absurd only
  xor_all-OnlyIn R (s ∷ ns) m h (inl (_, same, absent)) =
      rw (← same, ==_refl m, without-NoneIn R ns m h absent)
  xor_all-OnlyIn R (s ∷ ns) m h (inr (out, only)) = elim (Bool-cases (s == m)) [
    | inl e ↦
        let same : s ≡ m = (==_iff s m).0 e in
        absurd (false≢true (sym out ∙ ap (contains R) same ∙ h))
    | inr e ↦
        let a = get_or stripe s [] in
        let b = get_or stripe m [] in
        let c = xor_all width stripe (without m ns) in
        rw (e, xor_all-OnlyIn R ns m h only, ← xor_words_assoc a b c, xor_words_comm a b)
          (xor_words_assoc b a c)
  ]

  pub missing-lt :
      (R ns : List ℕ) (m : ℕ) → OnlyIn R m ns → All (λ s. s < length stripe) ns → m < length stripe
  missing-lt R [] m only below = absurd only
  missing-lt R (s ∷ ns) m (inl (_, same, _)) below = rw same below.0
  missing-lt R (s ∷ ns) m (inr (_, only)) below = missing-lt R ns m only below.1

  module _ (R : List ℕ) (shards : ShardSlots) (holds : StripeHolds stripe R shards) where
    present :
        (ns : List ℕ)
        → All (λ s. (s < length stripe) × (contains R s ≡ false)) ns
        → All (λ s. (s < length stripe) × Holds shards s (get_or stripe s [])) ns
    present ns h = All-map ns (λ s (p, e). (p, rw e at (holds s p))) h

    -- The operation of a peeling, executed.
    pub execute_operation-peel :
        (p : ℕ) (ns : List ℕ) (m : ℕ)
        → OnlyIn R m ns
        → All (λ s. s < length stripe) ns
        → Holds shards p (xor_all width stripe ns)
        → execute_operation (record { output = m; sources = p ∷ without m ns }) shards
          ≡ ok (set shards m (some (get_or stripe m [])))
    unfolding execute_operation slot is_empty
    execute_operation-peel p ns m only below held =
        let h = OnlyIn-contains R ns m only in
        let lt = missing-lt R ns m only below in
        let empty : get_elem? shards m ≡ some none = rw h at (holds m lt) in
        let inside : leb (length shards) m ≡ false = ground (arith, get_elem?-lt shards m empty) in
        let absent : slot shards m ≡ none = rw (slot, empty) in
        let sum =
          decode_output-sum width stripe ok_stripe shards p (xor_all width stripe ns) (without m ns)
            held (length-xor_all width stripe ok_stripe ns below)
            (present (without m ns) (without-present R ns m (length stripe) h only below)) in
        let rest_below =
          All-map (without m ns) (λ s (p, _). p)
            (without-present R ns m (length stripe) h only below) in
        let all_sum = xor_all width stripe (without m ns) in
        let back : xor_words (xor_all width stripe ns) all_sum ≡ get_or stripe m [] =
          rw (xor_all-OnlyIn R ns m h only) (
            xor_words_cancel (get_or stripe m []) all_sum (
              ok_stripe.sized m lt
              ∙ sym (length-xor_all width stripe ok_stripe (without m ns) rest_below))) in
        rw (inside, absent, sum, back)
