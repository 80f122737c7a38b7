-- ===== src/Coding/Codec/Decode.antt =====
-- The execution of one operation, and of a plan operation by operation.
use coded_llm.Base.{
  ℕ, ◌<◌, ◌≡◌, refl, sym, ap, ◌∙◌, inl, inr, List, [], ◌∷◌, ◌++◌, true, false, some, ◌==◌, length,
  get_elem?, get_or, All, Result, ok, arith, ==_iff, ==_refl, Result-cases,
}
use coded_llm.Base.Words.{xor_words, xor_words_assoc, zeros-xor_words, length-xor_words}
use coded_llm.Coding.Plan.{XorOperation}
use coded_llm.Coding.Codec.{
  WordShard, ShardSlots, decode_sources, decode_output, execute_operation, execute_operations, slot,
}
use coded_llm.Coding.Codec.Algebra.{IsStripe, xor_all, xor_words-zeros}

-- A slot in range that holds a shard.
abbrev pub Holds : ShardSlots → ℕ → WordShard → Type 0
Holds shards i shard = get_elem? shards i ≡ some (some shard)

pub slot-Holds :
    (shards : ShardSlots) (i : ℕ) {shard : WordShard}
    → Holds shards i shard
    → slot shards i ≡ some shard
unfolding slot
slot-Holds shards i h = ground arith

module _ (width : ℕ) (stripe : List WordShard) (ok_stripe : IsStripe width stripe)
    (shards : ShardSlots) where
  decode_sources-sum :
      (ns : List ℕ) (output : WordShard)
      → All (λ s. (s < length stripe) × Holds shards s (get_or stripe s [])) ns
      → length output ≡ width
      → decode_sources shards width output ns ≡ ok (xor_words output (xor_all width stripe ns))
  unfolding decode_sources xor_all
  decode_sources-sum [] output h l = rw (xor_words-zeros width output l)
  decode_sources-sum (s ∷ ns) output h l =
      let sized = ok_stripe.sized s h.0.0 in
      let same : (length (get_or stripe s []) == width) ≡ true = (==_iff _ _).1 sized in
      let next : decode_sources shards width (xor_words output (get_or stripe s [])) ns
          ≡ ok (xor_words (xor_words output (get_or stripe s [])) (xor_all width stripe ns)) =
        decode_sources-sum ns (xor_words output (get_or stripe s [])) h.1
          (length-xor_words output _ (l ∙ sym sized) ∙ l) in
      rw (slot-Holds shards s h.0.1, same) (next ∙ ap ok (xor_words_assoc output _ _))

  -- A parity shard first, then shards of the stripe: the new shard is the sum of all of them.
  pub decode_output-sum :
      (p : ℕ) (parity : WordShard) (ns : List ℕ)
      → Holds shards p parity
      → length parity ≡ width
      → All (λ s. (s < length stripe) × Holds shards s (get_or stripe s [])) ns
      → decode_output shards (p ∷ ns) ≡ ok (xor_words parity (xor_all width stripe ns))
  unfolding decode_output decode_sources
  decode_output-sum p parity ns held l h =
      let same : (length parity == length parity) ≡ true = ==_refl (length parity) in
      let nonzero : (length parity == 0) ≡ false = ground (arith, ok_stripe.words) in
      rw (slot-Holds shards p held, nonzero, same, zeros-xor_words (length parity) parity refl)
        (ap (λ w. decode_sources shards w parity ns) l ∙ decode_sources-sum ns parity h l)

-- Operations run in order.
pub execute_operations-append :
    (ops rest : List XorOperation) (shards between : ShardSlots)
    → execute_operations ops shards ≡ (ok tt, between)
    → execute_operations (ops ++ rest) shards ≡ execute_operations rest between
unfolding execute_operations
execute_operations-append [] rest shards between h =
    ap (execute_operations rest) (ap (λ (r : Result (Unit {0}) × ShardSlots). r.1) h)
execute_operations-append (op ∷ ops) rest shards between h =
    elim (Result-cases (execute_operation op shards)) [
      | inl (shards', e) ↦
          rw (e, execute_operations)
            (execute_operations-append ops rest shards' between (rw (e, execute_operations) at h))
      | inr (x, e) ↦ cc (rw (e, execute_operations) at h)
    ]

pub execute_operations-last :
    (ops : List XorOperation) (op : XorOperation) (shards between after : ShardSlots)
    → execute_operations ops shards ≡ (ok tt, between)
    → execute_operation op between ≡ ok after
    → execute_operations (ops ++ op ∷ []) shards ≡ (ok tt, after)
unfolding execute_operations
execute_operations-last ops op shards between after h e =
    execute_operations-append ops (op ∷ []) shards between h ∙ rw (e, execute_operations)
