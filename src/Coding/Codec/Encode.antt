-- ===== src/Coding/Codec/Encode.antt =====
-- What parity generation computes: for each equation the sum of its sources.
use coded_llm.Base.{
  ℕ, zero, suc, ◌+◌, ◌-◌, ◌%◌, ◌≤◌, ◌<◌, ◌≡◌, ◌≢◌, sym, ap, ◌∙◌, List, [], ◌∷◌, true, false, Option,
  none, some, ◌==◌, leb, ltb, ◌||◌, length, get_elem?, set, replicate, get_or, All, ok, arith,
  >>=-eq-ok, throw_if-eq-ok, at, not, length-set, length-replicate, get_elem?-lt,
  get_elem?-set_self, get_elem?-set_ne, get_elem?-replicate, subst, ok-injective, some-eq,
}
use coded_llm.Base.Sets.{contains, insert, contains-insert, is_empty}
use coded_llm.Base.Words.{xor_words, xor_words_assoc, zeros-xor_words, length-xor_words}
use coded_llm.Core.{shard_id_mod, max_shard_id}
use coded_llm.Coding.Graph.{
  CodeGraph, ParityEquation, validate, validate_equations, validate_sources, total_shard_count,
}
use coded_llm.Coding.Codec.{
  WordShard, check_sizes, validate_shard_words, encode_sources, encode_equations, encode_parity_cpu,
}
use coded_llm.Coding.Codec.Algebra.{IsStripe, xor_all, xor_words-zeros}

check_sizes-sized :
    (width : ℕ) (stripe : List WordShard)
    → check_sizes width stripe ≡ ok tt
    → (i : ℕ) → i < length stripe
    → length (get_or stripe i []) ≡ width
unfolding check_sizes
check_sizes-sized width [] h i p = elim p [ ]
check_sizes-sized width (shard ∷ stripe) h zero p =
    let (first, _) = throw_if-eq-ok (not (length shard == width)) _ _ h in ground arith
check_sizes-sized width (shard ∷ stripe) h (suc i) p =
    let (_, later) = throw_if-eq-ok (not (length shard == width)) _ _ h in
    check_sizes-sized width stripe later i (omega arith)

-- Shards that pass the check are a stripe of the width that it returns.
pub validate_shard_words-IsStripe :
    (stripe : List WordShard) (width : ℕ)
    → validate_shard_words stripe ≡ ok width
    → IsStripe width stripe
unfolding validate_shard_words
validate_shard_words-IsStripe [] width h = cc
validate_shard_words-IsStripe (front ∷ stripe) width h =
    let (filled, h₁) = throw_if-eq-ok (is_empty front) _ _ h in
    let (_, sized, h₂) = >>=-eq-ok (check_sizes (length front) (front ∷ stripe)) _ h₁ in
    let same = ok-injective h₂ in
    subst (λ w. IsStripe w (front ∷ stripe)) same
      (record {
        words = nonempty front filled;
        sized = check_sizes-sized (length front) (front ∷ stripe) sized;
      })
  where
    nonempty : (l : List ℕ) → is_empty l ≡ false → 0 < length l
    nonempty [] e = absurd (ground arith)
    nonempty (x ∷ l) e = omega arith

at-get :
    (stripe : List WordShard) (i : ℕ) (x : WordShard)
    → at (get_elem? stripe i) ≡ ok x
    → (i < length stripe) × (x ≡ get_or stripe i [])
at-get [] i x h = cc
at-get (y ∷ stripe) zero x h = (omega arith, sym (ok-injective h))
at-get (y ∷ stripe) (suc i) x h = let (p, e) = at-get stripe i x h in (omega arith, e)

at-ok {ℓ} : {A : Type ℓ} (o : Option A) (x : A) → at o ≡ ok x → o ≡ some x
at-ok none x h = cc
at-ok (some y) x h = ap some (ok-injective h)

encode_equation_step :
    (k : ℕ) (stripe parities result : List WordShard) (e : ParityEquation)
    (rest : List ParityEquation) (i : ℕ)
    → (e.output + shard_id_mod - k) % shard_id_mod ≡ i
    → encode_equations k stripe parities (e ∷ rest) ≡ ok result
    → (parity : WordShard) × (parity' : WordShard) × (get_elem? parities i ≡ some parity)
      × (encode_sources k stripe parity e.sources ≡ ok parity')
      × (encode_equations k stripe (set parities i parity') rest ≡ ok result)
unfolding encode_equations
encode_equation_step k stripe parities result e rest i index h =
    let (parity, got, h₁) = >>=-eq-ok (at (get_elem? parities i)) _ (rw index at h) in
    let (parity', summed, h₂) = >>=-eq-ok (encode_sources k stripe parity e.sources) _ h₁ in
    (parity, parity', at-ok (get_elem? parities i) parity got, summed, h₂)

module _ (width : ℕ) (stripe : List WordShard) (ok_stripe : IsStripe width stripe) where
  encode_sources-sum :
      (ns : List ℕ) (parity result : WordShard)
      → length parity ≡ width
      → encode_sources (length stripe) stripe parity ns ≡ ok result
      → (result ≡ xor_words parity (xor_all width stripe ns))
        × (length (xor_all width stripe ns) ≡ width)
  unfolding encode_sources xor_all
  encode_sources-sum [] parity result l h =
      let same : parity ≡ result = ok-injective h in
      (sym same ∙ sym (xor_words-zeros width parity l), length-replicate width 0)
  encode_sources-sum (s ∷ ns) parity result l h =
      let (_, h₁) = throw_if-eq-ok (leb (length stripe) s) _ _ h in
      let (input, got, h₂) = >>=-eq-ok (at (get_elem? stripe s)) _ h₁ in
      let (here, same) = at-get stripe s input got in
      let sized = ok_stripe.sized s here in
      let next : encode_sources (length stripe) stripe (xor_words parity (get_or stripe s [])) ns
          ≡ ok result =
        subst (λ x. encode_sources (length stripe) stripe (xor_words parity x) ns ≡ ok result) same
          h₂ in
      let (sum, width') =
        encode_sources-sum ns (xor_words parity (get_or stripe s [])) result
          (length-xor_words parity _ (l ∙ sym sized) ∙ l) next in
      (sum ∙ xor_words_assoc parity _ _, length-xor_words _ _ (sized ∙ sym width') ∙ sized)

  fill_zeros :
      (ns : List ℕ) (parity result : WordShard)
      → parity ≡ replicate width 0
      → encode_sources (length stripe) stripe parity ns ≡ ok result
      → result ≡ xor_all width stripe ns
  fill_zeros ns parity result e h =
      let (sum, l) =
        encode_sources-sum ns parity result (ap length e ∙ length-replicate width 0) h in
      sum
      ∙ ap (λ p. xor_words p (xor_all width stripe ns)) e
      ∙ zeros-xor_words width (xor_all width stripe ns) l

  abbrev IsFresh : List ℕ → List WordShard → Type 0
  IsFresh outputs parities =
      (p : ℕ)
      → contains outputs (length stripe + p) ≡ false
      → p < length parities
      → get_elem? parities p ≡ some (replicate width 0)

  -- What the rest of the equations do to the parity shards.
  abbrev Sums : List ℕ → List WordShard → List WordShard → List ParityEquation → Type 0
  Sums outputs parities result equations =
      (length result ≡ length parities)
      × ((p : ℕ)
          → contains outputs (length stripe + p) ≡ true
          → get_elem? result p ≡ get_elem? parities p)
      × All
          (λ e. get_elem? result (e.output - length stripe) ≡ some (xor_all width stripe e.sources))
          equations

  set-IsFresh :
      (outputs : List ℕ) (parities : List WordShard) (i : ℕ) (x : WordShard)
      → IsFresh outputs parities
      → IsFresh (insert outputs (length stripe + i)) (set parities i x)
  set-IsFresh outputs parities i x z p out lt =
      let k = length stripe in
      let law = contains-insert outputs (k + i) (k + p) in
      let other : i ≢ p = λ e. ground (arith, law) in
      get_elem?-set_ne parities i p x other
      ∙ z p (ground (arith, law)) (omega (arith, length-set parities i x))

  Sums-cons :
      (outputs : List ℕ) (parities result : List WordShard) (e : ParityEquation)
      (rest : List ParityEquation) (i : ℕ)
      → length stripe + i ≡ e.output
      → contains outputs e.output ≡ false
      → i < length parities
      → Sums (insert outputs e.output) (set parities i (xor_all width stripe e.sources)) result rest
      → Sums outputs parities result (e ∷ rest)
  Sums-cons outputs parities result e rest i at_i fresh lt (sized, kept, sums) =
      let k = length stripe in
      let x = xor_all width stripe e.sources in
      let index : e.output - k ≡ i = omega arith in
      let here : contains (insert outputs e.output) (k + i) ≡ true =
        ground (arith, contains-insert outputs e.output (k + i)) in
      (
        sized ∙ length-set parities i x,
        λ p old.
            let law = contains-insert outputs e.output (k + p) in
            let other : i ≢ p = λ same. ground arith in
            kept p (ground (arith, law)) ∙ get_elem?-set_ne parities i p x other,
        (rw index (kept i here ∙ get_elem?-set_self parities i x lt), sums),
      )

  -- The equations leave the sums at their outputs, and other parity shards as they were.
  encode_equations-Sums :
      (equations : List ParityEquation) (outputs : List ℕ) (total : ℕ)
      (parities result : List WordShard)
      → validate_equations (length stripe) total outputs equations ≡ ok tt
      → encode_equations (length stripe) stripe parities equations ≡ ok result
      → total ≤ shard_id_mod
      → IsFresh outputs parities
      → Sums outputs parities result equations
  unfolding encode_equations validate_equations
  encode_equations-Sums [] outputs total parities result v h t z =
      let same : parities ≡ result = ok-injective h in
      (ap length (sym same), λ p _. ap (λ l. get_elem? l p) (sym same), tt)
  encode_equations-Sums (e ∷ rest) outputs total parities result v h t z =
      let k = length stripe in
      let (bounds, v₁) = throw_if-eq-ok (ltb e.output k || leb total e.output) _ _ v in
      let (fresh, v₂) = throw_if-eq-ok (contains outputs e.output) _ _ v₁ in
      let (_, v₃) = throw_if-eq-ok (is_empty e.sources) _ _ v₂ in
      let (_, _, v₄) = >>=-eq-ok (validate_sources total [] e.sources) _ v₃ in
      let i = e.output - k in
      let at_i : k + i ≡ e.output = ground (arith, bounds) in
      let index : (e.output + shard_id_mod - k) % shard_id_mod ≡ i = ground (arith, bounds, t) in
      let (parity, parity', got, summed, h₁) =
        encode_equation_step k stripe parities result e rest i index h in
      let lt = get_elem?-lt parities i got in
      let zero_parity : parity ≡ replicate width 0 =
        some-eq (sym got ∙ z i (ap (contains outputs) at_i ∙ fresh) lt) in
      let sum = fill_zeros e.sources parity parity' zero_parity summed in
      let h₂ = subst (λ y. encode_equations k stripe (set parities i y) rest ≡ ok result) sum h₁ in
      Sums-cons outputs parities result e rest i at_i fresh lt (
        encode_equations-Sums rest (insert outputs e.output) total
          (set parities i (xor_all width stripe e.sources)) result v₄ h₂ t
          (subst (λ o. IsFresh (insert outputs o) (set parities i (xor_all width stripe e.sources)))
            at_i (set-IsFresh outputs parities i (xor_all width stripe e.sources) z)))

total_shard_count-le : (graph : CodeGraph) → total_shard_count graph ≤ shard_id_mod
unfolding total_shard_count
total_shard_count-le graph = omega arith

-- Parity generation over a validated graph: there is one parity shard per parity id, and each
-- equation's parity shard is the sum of the equation's sources.
pub encode_parity_cpu-sums :
    (graph : CodeGraph) (stripe parities : List WordShard)
    → validate graph ≡ ok tt
    → encode_parity_cpu graph stripe ≡ ok parities
    → (width : ℕ) × IsStripe width stripe
      × (length parities ≡ graph.parity_shard_count)
      × All
          (λ e.
            get_elem? parities (e.output - graph.systematic_shard_count)
            ≡ some (xor_all width stripe e.sources))
          graph.parity_equations
unfolding encode_parity_cpu validate
encode_parity_cpu-sums graph stripe parities v h =
    let k = graph.systematic_shard_count in
    let m = graph.parity_shard_count in
    let (count, h₁) = throw_if-eq-ok (not (length stripe == k)) _ _ h in
    let (width, words, h₂) = >>=-eq-ok (validate_shard_words stripe) _ h₁ in
    let ok_stripe = validate_shard_words-IsStripe stripe width words in
    let same : length stripe ≡ k = ground arith in
    let (_, v₁) = throw_if-eq-ok (k == 0 || m == 0) _ _ v in
    let (_, v₂) = throw_if-eq-ok (ltb (max_shard_id - m) k) _ _ v₁ in
    let (_, v₃) = throw_if-eq-ok (not (length graph.parity_equations == m)) _ _ v₂ in
    let (sized, _, sums) =
      encode_equations-Sums width stripe ok_stripe graph.parity_equations []
        (total_shard_count graph) (replicate m (replicate width 0)) parities (rw same v₃)
        (rw same h₂) (total_shard_count-le graph)
        (λ p _ lt. get_elem?-replicate m p _ (rw (length-replicate m _) at lt)) in
    (width, ok_stripe, sized ∙ length-replicate m _, rw same at sums)
