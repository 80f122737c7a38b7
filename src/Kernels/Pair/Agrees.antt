-- ===== src/Kernels/Pair/Agrees.antt =====
-- The decode of a pair of shards, on the device and on the CPU.
use Prim.Native.Nat.{bit_xor}
use coded_llm.Base.{
  ℕ, zero, suc, ◌+◌, ◌*◌, ◌/◌, ◌%◌, ◌<◌, ◌≡◌, List, [], ◌∷◌, true, false, ◌==◌, length, get_elem?,
  get_elem?-some, get_elem?-set_self, get_elem?-set_ne, length-set, set, leb, ltb, Bool-cases, inl,
  inr, ok, arith, sym, ap, ◌∙◌, list_ext,
}
use coded_llm.Base.Sets.{contains}
use coded_llm.Base.Words.{xor_words, length-xor_words}
use coded_llm.Coding.Codec.{WordShard}
use coded_llm.Kernels.Xor.{Thread, Writes, run_threads}
use coded_llm.Kernels.Xor.Words.{get_elem?-xor_words}
use coded_llm.Kernels.Xor.Stores.{targets, Agree, IsAgreeing, run_threads-IsFinished}
use coded_llm.Kernels.Xor.Grid.{IsComplete, quotient_lem, remainder-lt, quotient-lt}
use coded_llm.Kernels.Pair.{pair_loop, dummy_reconstruct_kernel, pair_words, run_sparse_decode_cpu}

module _ (a b : WordShard) (n : ℕ) (la : length a ≡ n) (lb : length b ≡ n) where
  record IsLoop (stride fuel index : ℕ) : Type 0 where
    writes : Writes
    runs : pair_loop a b n stride fuel index ≡ ok writes
    agree : Agree (xor_words a b) writes
    covers :
        (k : ℕ) → index + k * stride < n → contains (targets writes) (index + k * stride) ≡ true

  sum_size : length (xor_words a b) ≡ n
  sum_size = length-xor_words a b (la ∙ sym lb) ∙ la

  step_covers :
      (index stride : ℕ) (later : List ℕ)
      → ((k : ℕ)
          → index + stride + k * stride < n
          → contains later (index + stride + k * stride) ≡ true)
      → (k : ℕ) → index + k * stride < n
      → contains (index ∷ later) (index + k * stride) ≡ true
  unfolding contains
  step_covers index stride later h zero lt = ground arith
  step_covers index stride later h (suc k) lt =
      let next : index + suc k * stride ≡ index + stride + k * stride = grind arith in
      let later_has = h k (rw next at lt) in rw next (ground arith)

  pair_loop-IsLoop :
      (stride fuel index : ℕ) → 0 < stride → 0 < fuel → n < fuel + index → IsLoop stride fuel index
  unfolding pair_loop targets
  pair_loop-IsLoop stride zero index positive some_fuel enough = absurd (omega arith)
  pair_loop-IsLoop stride (suc fuel) index positive some_fuel enough =
      elim (Bool-cases (ltb index n)) [
        | inr past ↦ record {
          writes = [];
          runs = rw (past, pair_loop);
          agree = tt;
          covers = λ k lt. absurd (ground arith);
        }
        | inl within ↦
            let (x, at_a) = get_elem?-some a index (ground arith) in
            let (y, at_b) = get_elem?-some b index (ground arith) in
            let later =
              pair_loop-IsLoop stride fuel (index + stride) positive (ground arith) (omega arith) in
            record {
              writes = (index, bit_xor x y) ∷ later.writes;
              runs = rw (within, pair_loop, at_a, at_b, later.runs);
              agree = (get_elem?-xor_words a b index x y at_a at_b, later.agree);
              covers = step_covers index stride (targets later.writes) later.covers;
            }
      ]

  -- The words behind `i` are those of the sum when the loop has passed them.
  pair_words_lem :
      (i remaining : ℕ) (output : WordShard)
      → i + remaining ≡ n
      → length output ≡ n
      → ((j : ℕ) → j < i → get_elem? output j ≡ get_elem? (xor_words a b) j)
      → pair_words a b i remaining output ≡ ok (xor_words a b)
  unfolding pair_words
  pair_words_lem i zero output e l h =
      ap ok
        (list_ext output (xor_words a b) (l ∙ sym sum_size) (λ j lt. h j (omega (arith, sum_size))))
  pair_words_lem i (suc remaining) output e l h =
      let (x, at_a) = get_elem?-some a i (omega arith) in
      let (y, at_b) = get_elem?-some b i (omega arith) in
      let inside : leb (length output) i ≡ false = ground arith in
      rw (at_a, at_b, inside)
        (pair_words_lem (suc i) remaining (set output i (bit_xor x y)) (omega arith)
          (length-set output i _ ∙ l)
          (λ j lt. elim (Bool-cases (i == j)) [
            | inl eq ↦
                let same : i ≡ j = ground arith in
                rw (← same) (
                  get_elem?-set_self output i (bit_xor x y) (omega arith)
                  ∙ sym (get_elem?-xor_words a b i x y at_a at_b))
            | inr eq ↦ get_elem?-set_ne output i j _ (λ same. ground arith) ∙ h j (ground arith)
          ]))

  module _ (grid_dim block_dim : ℕ) (some_block : 0 < grid_dim) (some_thread : 0 < block_dim) where
    some_stride : 0 < block_dim * grid_dim
    some_stride = grind arith

    thread-IsLoop :
        (thread : Thread) → IsLoop (block_dim * grid_dim) (suc n) (thread.0 * block_dim + thread.1)
    thread-IsLoop thread = pair_loop-IsLoop _ _ _ some_stride (omega arith) (omega arith)

    thread-IsAgreeing :
        (thread : Thread)
        → IsAgreeing (xor_words a b) (dummy_reconstruct_kernel grid_dim block_dim a b n) thread
    unfolding dummy_reconstruct_kernel
    thread-IsAgreeing thread =
        let l = thread-IsLoop thread in record { writes = l.writes; runs = l.runs; agree = l.agree }

    -- For shards and an output of one size, on a grid with a thread: the kernel leaves the sum of the
    -- shards in the output, in every order that holds all threads, and so does the loop of the CPU.
    pub dummy_reconstruct_kernel-run_sparse_decode_cpu :
        (order : List Thread) (output : WordShard)
        → IsComplete grid_dim block_dim order
        → length output ≡ n
        → (run_threads order (dummy_reconstruct_kernel grid_dim block_dim a b n) output
            ≡ ok (xor_words a b))
          × (run_sparse_decode_cpu a b output n ≡ ok (xor_words a b))
    unfolding thread-IsAgreeing run_sparse_decode_cpu
    dummy_reconstruct_kernel-run_sparse_decode_cpu order output complete l =
        let stride = block_dim * grid_dim in
        let r =
          run_threads-IsFinished (xor_words a b) output
            (dummy_reconstruct_kernel grid_dim block_dim a b n) thread-IsAgreeing order
            (l ∙ sym sum_size) in
        let right = λ (i : ℕ) (lt : i < n).
          let q = i % stride in
          let split : q / block_dim * block_dim + q % block_dim + i / stride * stride ≡ i =
            omega
              (arith, quotient_lem q block_dim some_thread, quotient_lem i stride some_stride) in
          let covered =
            (thread-IsLoop (q / block_dim, q % block_dim)).covers (i / stride) (rw split lt) in
          let (p, at_p) =
            complete (q / block_dim) (q % block_dim)
              (quotient-lt q block_dim grid_dim some_thread (remainder-lt i stride some_stride))
              (remainder-lt q block_dim some_thread) in
          r.written p (q / block_dim, q % block_dim) i at_p (rw split at covered) in
        (
          r.runs
              ∙ ap ok (
                  list_ext r.after (xor_words a b) (r.sized ∙ l ∙ sym sum_size)
                    (λ i lt. right i (omega (arith, sum_size)))),
          pair_words_lem 0 n output (omega arith) l (λ j lt. absurd (omega arith)),
        )
