-- ===== src/Kernels/Xor/Words.antt =====
-- A word of the kernels against the loop of the codec over the sources.
use Prim.Native.Nat.{bit_xor}
use coded_llm.Base.{
  ℕ, zero, suc, ◌≢◌, ◌+◌, ◌*◌, ◌<◌, ◌≡◌, refl, List, [], ◌∷◌, Option, some, none, length, get_elem?,
  get_elem?-some, Result, ok, err, arith, >>=-eq-ok, throw_if-eq-ok, ◌==◌, not, sym, ap, ◌∙◌,
  ok-injective,
}
use coded_llm.Base.Words.{xor_words, length-xor_words}
use coded_llm.Coding.Codec.{WordShard, ShardSlots, slot, decode_sources, or_throw}
use coded_llm.Kernels.Xor.{xor_word, Uint4, load_uint4, xor_vector}

pub get_elem?-xor_words :
    (xs ys : List ℕ) (i : ℕ) (a b : ℕ)
    → get_elem? xs i ≡ some a
    → get_elem? ys i ≡ some b
    → get_elem? (xor_words xs ys) i ≡ some (bit_xor a b)
unfolding xor_words
get_elem?-xor_words [] ys i a b h k = cc
get_elem?-xor_words (x ∷ xs) [] i a b h k = cc
get_elem?-xor_words (x ∷ xs) (y ∷ ys) zero a b h k = ground arith
get_elem?-xor_words (x ∷ xs) (y ∷ ys) (suc i) a b h k = get_elem?-xor_words xs ys i a b h k

-- What one source contributes to a successful run of the codec's loop.
record IsSource (shards : ShardSlots) (n : ℕ) (output : WordShard) (source : ℕ) (rest : List ℕ)
    (result : WordShard) : Type 0 where
  input : WordShard
  found : slot shards source ≡ some input
  sized : length input ≡ n
  later : decode_sources shards n (xor_words output input) rest ≡ ok result

or_throw-eq-ok {ℓ} :
    {A : Type ℓ} (o : Option A) (e : Result A) (a : A) → or_throw o e ≡ ok a → e ≢ ok a → o ≡ some a
or_throw-eq-ok none e a h ne = absurd (ne h)
or_throw-eq-ok (some b) e a h ne = ap some (ok-injective h)

decode_sources-IsSource :
    (shards : ShardSlots) (n : ℕ) (output : WordShard) (source : ℕ) (rest : List ℕ)
    (result : WordShard)
    → decode_sources shards n output (source ∷ rest) ≡ ok result
    → IsSource shards n output source rest result
unfolding decode_sources
decode_sources-IsSource shards n output source rest result h =
    let (input, found, h₁) = >>=-eq-ok (or_throw (slot shards source) (err _)) _ h in
    let (same, h₂) = throw_if-eq-ok (not (length input == n)) _ _ h₁ in
    record {
      input = input;
      found = or_throw-eq-ok _ _ input found (λ e. cc);
      sized = ground arith;
      later = h₂;
    }

module _ (shards : ShardSlots) (n : ℕ) (result : WordShard) where
  pub length-decode_sources :
      (output : WordShard) (sources : List ℕ)
      → decode_sources shards n output sources ≡ ok result
      → length output ≡ n
      → length result ≡ n
  unfolding decode_sources
  length-decode_sources output [] h l = ap length (sym (ok-injective h)) ∙ l
  length-decode_sources output (source ∷ rest) h l =
      let s = decode_sources-IsSource shards n output source rest result h in
      length-decode_sources (xor_words output s.input) rest s.later
        (length-xor_words output s.input (l ∙ sym s.sized) ∙ l)

  -- The kernels' loop over the sources, for one word: the word of the codec's result.
  pub xor_word-decode_sources :
      (output : WordShard) (sources : List ℕ) (i value : ℕ)
      → decode_sources shards n output sources ≡ ok result
      → i < n
      → get_elem? output i ≡ some value
      → (word : ℕ) × (xor_word shards sources i value ≡ ok word) × (get_elem? result i ≡ some word)
  unfolding decode_sources xor_word
  xor_word-decode_sources output [] i value h lt v =
      (value, refl, ap (λ r. get_elem? r i) (sym (ok-injective h)) ∙ v)
  xor_word-decode_sources output (source ∷ rest) i value h lt v =
      let s = decode_sources-IsSource shards n output source rest result h in
      let (a, at_i) = get_elem?-some s.input i (omega (arith, s.sized)) in
      let (word, e, r) =
        xor_word-decode_sources (xor_words output s.input) rest i (bit_xor value a) s.later lt
          (get_elem?-xor_words output s.input i value a v at_i) in
      (word, rw (s.found, at_i) e, r)

  -- The same for the four words of a vector.
  pub xor_vector-decode_sources :
      (output : WordShard) (sources : List ℕ) (i : ℕ) (value : Uint4)
      → decode_sources shards n output sources ≡ ok result
      → i * 4 + 3 < n
      → get_elem? output (i * 4) ≡ some value.x
      → get_elem? output (i * 4 + 1) ≡ some value.y
      → get_elem? output (i * 4 + 2) ≡ some value.z
      → get_elem? output (i * 4 + 3) ≡ some value.w
      → (words : Uint4) × (xor_vector shards sources i value ≡ ok words)
        × (get_elem? result (i * 4) ≡ some words.x)
        × (get_elem? result (i * 4 + 1) ≡ some words.y)
        × (get_elem? result (i * 4 + 2) ≡ some words.z)
        × (get_elem? result (i * 4 + 3) ≡ some words.w)
  unfolding decode_sources xor_vector load_uint4
  xor_vector-decode_sources output [] i value h lt vx vy vz vw =
      let same = ok-injective h in
      (value, refl, rw (← same) vx, rw (← same) vy, rw (← same) vz, rw (← same) vw)
  xor_vector-decode_sources output (source ∷ rest) i value h lt vx vy vz vw =
      let s = decode_sources-IsSource shards n output source rest result h in
      let (a, at_x) = get_elem?-some s.input (i * 4) (omega (arith, s.sized)) in
      let (b, at_y) = get_elem?-some s.input (i * 4 + 1) (omega (arith, s.sized)) in
      let (c, at_z) = get_elem?-some s.input (i * 4 + 2) (omega (arith, s.sized)) in
      let (d, at_w) = get_elem?-some s.input (i * 4 + 3) (omega (arith, s.sized)) in
      let (words, e, rx, ry, rz, r_w) =
        xor_vector-decode_sources (xor_words output s.input) rest i
          (record {
            x = bit_xor value.x a;
            y = bit_xor value.y b;
            z = bit_xor value.z c;
            w = bit_xor value.w d;
          })
          s.later lt (get_elem?-xor_words output s.input (i * 4) value.x a vx at_x)
          (get_elem?-xor_words output s.input (i * 4 + 1) value.y b vy at_y)
          (get_elem?-xor_words output s.input (i * 4 + 2) value.z c vz at_z)
          (get_elem?-xor_words output s.input (i * 4 + 3) value.w d vw at_w) in
      (words, rw (s.found, at_x, at_y, at_z, at_w) e, rx, ry, rz, r_w)
