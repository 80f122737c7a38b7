-- ===== src/Kernels/Xor/Grid.antt =====
-- The threads of a grid write every word of the result, and nothing else.
use coded_llm.Base.{
  ℕ, zero, suc, ◌+◌, ◌-◌, ◌*◌, ◌/◌, ◌%◌, ◌≤◌, ◌<◌, ◌≡◌, refl, List, [], ◌∷◌, ◌++◌, true, ◌&&◌, some,
  length, get_elem?, get_elem?-replicate, length-replicate, replicate, take, ltb, ◌==◌, Result, ok,
  ◌>>=◌, arith, sym, ap, ◌∙◌, inl, inr, Bool-cases, list_ext,
}
use coded_llm.Base.Sets.{contains, contains-append}
use coded_llm.Coding.Codec.{WordShard, ShardSlots, decode_sources}
use coded_llm.Kernels.Xor.{
  Thread, Writes, Uint4, xor_vector, vector_loop, tail_word, xor_reconstruct_kernel_dynamic,
  xor_reconstruct_kernel_optimized, run_threads,
}
use coded_llm.Kernels.Xor.Words.{
  length-decode_sources, xor_word-decode_sources, xor_vector-decode_sources,
}
use coded_llm.Kernels.Xor.Stores.{
  targets, targets-append, Agree, Agree-append, IsAgreeing, run_threads-IsFinished,
}

pub quotient_lem : (a b : ℕ) → 0 < b → a / b * b + a % b ≡ a
quotient_lem a b positive = grind arith

pub remainder-lt : (a b : ℕ) → 0 < b → a % b < b
remainder-lt a b positive = grind arith

pub quotient-lt : (a b g : ℕ) → 0 < b → a < b * g → a / b < g
quotient-lt a b g positive lt = grind arith

-- The order holds every thread of a grid.
abbrev pub IsComplete : ℕ → ℕ → List Thread → Type 0
IsComplete grid_dim block_dim order =
    (block thread : ℕ)
    → block < grid_dim
    → thread < block_dim
    → (p : ℕ) × (get_elem? order p ≡ some (block, thread))

-- The four words of a vector among the targets.
vector_of : ℕ → List ℕ → List ℕ
vector_of v later = (v * 4) ∷ (v * 4 + 1) ∷ (v * 4 + 2) ∷ (v * 4 + 3) ∷ later

contains-vector_of :
    (v i : ℕ) (later : List ℕ) → v * 4 ≤ i → i < v * 4 + 4 → contains (vector_of v later) i ≡ true
unfolding contains vector_of
contains-vector_of v i later lo hi = ground arith

contains-vector_of_later :
    (v i : ℕ) (later : List ℕ) → contains later i ≡ true → contains (vector_of v later) i ≡ true
unfolding contains vector_of
contains-vector_of_later v i later h = ground arith

-- One thread of a kernel over these sources.
thread_writes : ShardSlots → List ℕ → ℕ → ℕ → ℕ → Thread → Result Writes
thread_writes shards sources n grid_dim block_dim (block, thread) =
    vector_loop shards sources (n / 4) (block_dim * grid_dim) (suc (n / 4))
      (block * block_dim + thread)
    >>= λ vectors. tail_word shards sources n (block, thread) >>= λ words. ok (vectors ++ words)

module _ (shards : ShardSlots) (sources : List ℕ) (n : ℕ) (result : WordShard)
    (decoded : decode_sources shards n (replicate n 0) sources ≡ ok result) where
  -- The writes of the vector loop from a vector on, and what they cover.
  record IsLoop (stride fuel v : ℕ) : Type 0 where
    writes : Writes
    runs : vector_loop shards sources (n / 4) stride fuel v ≡ ok writes
    agree : Agree result writes
    covers :
        (k j : ℕ)
        → j < 4
        → v + k * stride < n / 4
        → contains (targets writes) ((v + k * stride) * 4 + j) ≡ true

  step-covers :
      (v stride : ℕ) (later : List ℕ)
      → ((k j : ℕ)
          → j < 4
          → v + stride + k * stride < n / 4
          → contains later ((v + stride + k * stride) * 4 + j) ≡ true)
      → (k j : ℕ) → j < 4
      → v + k * stride < n / 4
      → contains (vector_of v later) ((v + k * stride) * 4 + j) ≡ true
  step-covers v stride later h zero j lt within =
      contains-vector_of v _ later (omega arith) (omega arith)
  step-covers v stride later h (suc k) j lt within =
      let next : v + suc k * stride ≡ v + stride + k * stride = grind arith in
      rw next (contains-vector_of_later v _ later (h k j lt (rw next at within)))

  step-IsLoop :
      (stride fuel v : ℕ) (words : Uint4)
      → ltb v (n / 4) ≡ true
      → xor_vector shards sources v (record { x = 0; y = 0; z = 0; w = 0 }) ≡ ok words
      → get_elem? result (v * 4) ≡ some words.x
      → get_elem? result (v * 4 + 1) ≡ some words.y
      → get_elem? result (v * 4 + 2) ≡ some words.z
      → get_elem? result (v * 4 + 3) ≡ some words.w
      → IsLoop stride fuel (v + stride)
      → IsLoop stride (suc fuel) v
  unfolding vector_loop targets vector_of
  step-IsLoop stride fuel v words within e rx ry rz r_w later = record {
    writes =
        (v * 4, words.x)
        ∷ (v * 4 + 1, words.y)
        ∷ (v * 4 + 2, words.z)
        ∷ (v * 4 + 3, words.w)
        ∷ later.writes;
    runs = rw (within, vector_loop, e, later.runs);
    agree = (rx, (ry, (rz, (r_w, later.agree))));
    covers = step-covers v stride (targets later.writes) later.covers;
  }

  vector_loop-IsLoop :
      (stride fuel v : ℕ) → 0 < stride → 0 < fuel → n / 4 < fuel + v → IsLoop stride fuel v
  unfolding vector_loop targets contains
  vector_loop-IsLoop stride zero v positive some_fuel enough = absurd (omega arith)
  vector_loop-IsLoop stride (suc fuel) v positive some_fuel enough =
      elim (Bool-cases (ltb v (n / 4))) [
        | inr past ↦ record {
          writes = [];
          runs = rw (past, vector_loop);
          agree = tt;
          covers = λ k j lt within. absurd (ground arith);
        }
        | inl within ↦
            let zeros = λ (i : ℕ) (lt : i < n). get_elem?-replicate {A = ℕ} n i 0 lt in
            let below : v * 4 + 3 < n = ground arith in
            let (words, e, rx, ry, rz, r_w) =
              xor_vector-decode_sources shards n result (replicate n 0) sources v
                (record { x = 0; y = 0; z = 0; w = 0 }) decoded below (zeros (v * 4) (omega arith))
                (zeros (v * 4 + 1) (omega arith)) (zeros (v * 4 + 2) (omega arith))
                (zeros (v * 4 + 3) (omega arith)) in
            step-IsLoop stride fuel v words within e rx ry rz r_w
              (vector_loop-IsLoop stride fuel (v + stride) positive (ground arith) (omega arith))
      ]

  -- One word of the tail, or none.
  record IsTail (thread : Thread) : Type 0 where
    writes : Writes
    runs : tail_word shards sources n thread ≡ ok writes
    agree : Agree result writes
    covers :
        (i : ℕ)
        → thread.0 ≡ 0
        → n / 4 * 4 + thread.1 ≡ i
        → i < n
        → contains (targets writes) i ≡ true

  tail_word-IsTail : (block thread : ℕ) → IsTail (block, thread)
  unfolding tail_word targets contains
  tail_word-IsTail block thread = elim (Bool-cases (block == 0 && ltb thread (n - n / 4 * 4))) [
    | inr other ↦ record {
      writes = [];
      runs = rw (other, tail_word);
      agree = tt;
      covers = λ i first at_i lt. absurd (ground arith);
    }
    | inl mine ↦
        let (word, e, r) =
          xor_word-decode_sources shards n result (replicate n 0) sources (n / 4 * 4 + thread) 0
            decoded (ground arith) (get_elem?-replicate n _ 0 (ground arith)) in
        record {
          writes = (n / 4 * 4 + thread, word) ∷ [];
          runs = rw (mine, tail_word, e);
          agree = (r, tt);
          covers = λ i first at_i lt. ground arith;
        }
  ]

  module _ (grid_dim block_dim : ℕ) (some_block : 0 < grid_dim) (warp : 3 ≤ block_dim) where
    some_stride : 0 < block_dim * grid_dim
    some_stride = grind arith

    thread-IsLoop :
        (thread : Thread)
        → IsLoop (block_dim * grid_dim) (suc (n / 4)) (thread.0 * block_dim + thread.1)
    thread-IsLoop thread = vector_loop-IsLoop _ _ _ some_stride (omega arith) (omega arith)

    thread-IsAgreeing :
        (thread : Thread)
        → IsAgreeing result (thread_writes shards sources n grid_dim block_dim) thread
    unfolding thread_writes
    thread-IsAgreeing thread =
        let l = thread-IsLoop thread in
        let t = tail_word-IsTail thread.0 thread.1 in
        record {
          writes = l.writes ++ t.writes;
          runs = rw (l.runs, t.runs) refl;
          agree = Agree-append result l.writes t.writes l.agree t.agree;
        }

    loop_covers :
        (thread : Thread) (i : ℕ)
        → contains (targets (thread-IsLoop thread).writes) i ≡ true
        → contains (targets (thread-IsAgreeing thread).writes) i ≡ true
    unfolding thread-IsAgreeing
    loop_covers thread i h =
        let l = (thread-IsLoop thread).writes in
        let t = (tail_word-IsTail thread.0 thread.1).writes in
        rw (targets-append l t) (ground (arith, contains-append (targets l) (targets t) i))

    tail_covers :
        (thread : Thread) (i : ℕ)
        → contains (targets (tail_word-IsTail thread.0 thread.1).writes) i ≡ true
        → contains (targets (thread-IsAgreeing thread).writes) i ≡ true
    unfolding thread-IsAgreeing
    tail_covers thread i h =
        let l = (thread-IsLoop thread).writes in
        let t = (tail_word-IsTail thread.0 thread.1).writes in
        rw (targets-append l t) (ground (arith, contains-append (targets l) (targets t) i))

    -- Every word has a thread that writes it.
    written_by :
        (i : ℕ)
        → i < n
        → (block thread : ℕ) × (block < grid_dim)
          × (thread < block_dim)
          × (contains (targets (thread-IsAgreeing (block, thread)).writes) i ≡ true)
    written_by i lt = elim (Bool-cases (ltb (i / 4) (n / 4))) [
      | inl vector ↦
          let stride = block_dim * grid_dim in
          let v = i / 4 in
          let r = v % stride in
          let some_thread : 0 < block_dim = omega arith in
          let split : r / block_dim * block_dim + r % block_dim + v / stride * stride ≡ v =
            omega
              (arith, quotient_lem r block_dim some_thread, quotient_lem v stride some_stride) in
          let covered =
            (thread-IsLoop (r / block_dim, r % block_dim)).covers (v / stride) (i % 4) (omega arith)
              (rw split (ground arith)) in
          let at_i : v * 4 + i % 4 ≡ i = omega arith in
          (
            r / block_dim,
            r % block_dim,
            quotient-lt r block_dim grid_dim some_thread (remainder-lt v stride some_stride),
            remainder-lt r block_dim some_thread,
            loop_covers _ i (rw (split, at_i) at covered),
          )
      | inr tail ↦
          let covered = (tail_word-IsTail 0 (i - n / 4 * 4)).covers i refl (ground arith) lt in
          (0, i - n / 4 * 4, some_block, ground arith, tail_covers (0, i - n / 4 * 4) i covered)
    ]

    -- A run of all threads, in any order, leaves the result in the output.
    run_threads-thread_writes :
        (order : List Thread) (output : WordShard)
        → IsComplete grid_dim block_dim order
        → length output ≡ n
        → run_threads order (thread_writes shards sources n grid_dim block_dim) output ≡ ok result
    run_threads-thread_writes order output complete l =
        let sized =
          length-decode_sources shards n result (replicate n 0) sources decoded
            (length-replicate n _) in
        let r =
          run_threads-IsFinished result output (thread_writes shards sources n grid_dim block_dim)
            thread-IsAgreeing order (l ∙ sym sized) in
        let right = λ (i : ℕ) (lt : i < n).
          let (block, thread, in_grid, in_block, covered) = written_by i lt in
          let (p, at_p) = complete block thread in_grid in_block in
          r.written p (block, thread) i at_p covered in
        r.runs
        ∙ ap ok (
            list_ext r.after result (r.sized ∙ l ∙ sym sized)
              (λ i lt. right i (omega (arith, r.sized, l))))

kernel_dynamic-thread_writes :
    (grid_dim block_dim : ℕ) (table : ShardSlots) (source_ids : List ℕ) (count n : ℕ)
    → xor_reconstruct_kernel_dynamic grid_dim block_dim table source_ids count n
      ≡ thread_writes table (take count source_ids) n grid_dim block_dim
unfolding thread_writes xor_reconstruct_kernel_dynamic
kernel_dynamic-thread_writes grid_dim block_dim table source_ids count n = refl

kernel_optimized-thread_writes :
    (degree grid_dim block_dim : ℕ) (table : ShardSlots) (source_ids : List ℕ) (n : ℕ)
    → xor_reconstruct_kernel_optimized degree grid_dim block_dim table source_ids n
      ≡ thread_writes table (take degree source_ids) n grid_dim block_dim
unfolding thread_writes xor_reconstruct_kernel_optimized
kernel_optimized-thread_writes degree grid_dim block_dim table source_ids n = refl

-- If the loop of `execute_decode_plan_cpu` over the first `count` sources gives a result of `n`
-- words, then on a grid with a block, of at least three threads in a block, both kernels leave that
-- result in every output of `n` words: no access is out of range, no loop runs out of fuel, and the
-- order of the threads does not matter, so long as each is in it.
pub xor_reconstruct-decode_sources :
    (grid_dim block_dim : ℕ) (table : ShardSlots) (source_ids : List ℕ) (count n : ℕ)
    (order : List Thread) (output result : WordShard)
    → 0 < grid_dim
    → 3 ≤ block_dim
    → IsComplete grid_dim block_dim order
    → length output ≡ n
    → decode_sources table n (replicate n 0) (take count source_ids) ≡ ok result
    → (run_threads order
          (xor_reconstruct_kernel_dynamic grid_dim block_dim table source_ids count n)
          output
        ≡ ok result)
      × (run_threads order
            (xor_reconstruct_kernel_optimized count grid_dim block_dim table source_ids n)
            output
          ≡ ok result)
xor_reconstruct-decode_sources grid_dim block_dim table source_ids count n order output result
      some_block warp complete l decoded =
    let run =
      run_threads-thread_writes table (take count source_ids) n result decoded grid_dim block_dim
        some_block warp order output complete l in
    (
      rw (kernel_dynamic-thread_writes grid_dim block_dim table source_ids count n) run,
      rw (kernel_optimized-thread_writes count grid_dim block_dim table source_ids n) run,
    )
