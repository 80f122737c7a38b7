-- ===== src/Coding/Codec/Algebra.antt =====
-- The sum of shards under `^`, which the codec computes in both directions.
use coded_llm.Base.{
  ℕ, ◌<◌, ◌≡◌, sym, ◌∙◌, List, [], ◌∷◌, ◌==◌, if◌then◌else◌, length, get_or, replicate,
  length-replicate, All,
}
use coded_llm.Base.Words.{xor_words, xor_words_comm, zeros-xor_words, length-xor_words}
use coded_llm.Coding.Codec.{WordShard}

-- The shards of a stripe, all of `width` words.
pub record IsStripe (width : ℕ) (stripe : List WordShard) : Type 0 where
  pub words : 0 < width
  pub sized : (i : ℕ) → i < length stripe → length (get_or stripe i []) ≡ width

-- The sum of the shards with these indices.
unfoldable pub xor_all : ℕ → List WordShard → List ℕ → WordShard
xor_all width stripe [] = replicate width 0
xor_all width stripe (s ∷ rest) = xor_words (get_or stripe s []) (xor_all width stripe rest)

-- The indices without one of them.
unfoldable pub without : ℕ → List ℕ → List ℕ
without m [] = []
without m (s ∷ rest) = if s == m then without m rest else s ∷ without m rest

pub xor_words-zeros : (n : ℕ) (xs : List ℕ) → length xs ≡ n → xor_words xs (replicate n 0) ≡ xs
xor_words-zeros n xs h = xor_words_comm xs (replicate n 0) ∙ zeros-xor_words n xs h

module _ (width : ℕ) (stripe : List WordShard) (ok_stripe : IsStripe width stripe) where
  pub length-xor_all :
      (ns : List ℕ) → All (λ s. s < length stripe) ns → length (xor_all width stripe ns) ≡ width
  unfolding xor_all
  length-xor_all [] h = length-replicate width 0
  length-xor_all (s ∷ ns) h =
      let sized = ok_stripe.sized s h.0 in
      length-xor_words _ _ (sized ∙ sym (length-xor_all ns h.1)) ∙ sized
