-- ===== src/Kernels/Decode/Runs.antt =====
-- Runs of a plan's operations on the slots of the host, as both decoders make them.
use coded_llm.Base.{
  ℕ, ◌<◌, ◌≡◌, refl, List, [], ◌∷◌, true, false, ◌==◌, ==_iff, not, none, some, length, get_elem?,
  get_elem?-lt, get_elem?-set_self, get_elem?-set_ne, length-set, replicate, set, leb, ok, ◌>>◌,
  throw_if, arith, All, sym, ap, ◌∙◌, decode_sources_unequal,
}
use coded_llm.Base.Words.{xor_words, length-xor_words}
use coded_llm.Base.Sets.{is_empty}
use coded_llm.Coding.Plan.{XorOperation}
use coded_llm.Coding.Codec.{
  WordShard, ShardSlots, slot, decode_sources, decode_output, execute_operation, execute_operations,
}
use coded_llm.Coding.Codec.Decode.{Holds, slot-Holds}

-- A slot in range that holds no shard.
abbrev pub Lacks : ShardSlots → ℕ → Type 0
Lacks shards i = get_elem? shards i ≡ some none

-- Sources of one size.
abbrev pub HasSources : ShardSlots → ℕ → List ℕ → Type 0
HasSources shards n =
    All (λ source. (shard : WordShard) × Holds shards source shard × (length shard ≡ n))

-- Each operation has its sources, and its output is not there yet.
pub data Runs : List XorOperation → ShardSlots → ShardSlots → Type 0 where
  done : {shards : ShardSlots} → Runs [] shards shards
  step :
      {operation : XorOperation} {rest : List XorOperation} {shards after : ShardSlots} (n : ℕ)
      (result : WordShard)
      → 0 < n
      → is_empty operation.sources ≡ false
      → HasSources shards n operation.sources
      → Lacks shards operation.output
      → decode_sources shards n (replicate n 0) operation.sources ≡ ok result
      → length result ≡ n
      → Runs rest (set shards operation.output (some result)) after
      → Runs (operation ∷ rest) shards after

pub decode_sources-HasSources :
    (shards : ShardSlots) (n : ℕ) (output : WordShard) (sources : List ℕ)
    → HasSources shards n sources
    → length output ≡ n
    → (result : WordShard) × (decode_sources shards n output sources ≡ ok result)
      × (length result ≡ n)
unfolding decode_sources
decode_sources-HasSources shards n output [] h l = (output, refl, l)
decode_sources-HasSources shards n output (source ∷ rest) ((shard, held, sized), later) l =
    let (result, e, l') =
      decode_sources-HasSources shards n (xor_words output shard) rest later
        (length-xor_words output shard (l ∙ sym sized) ∙ l) in
    let same : (length shard == n) ≡ true = (==_iff _ _).1 sized in
    (result, rw (slot-Holds shards source held, same) e, l')

-- The device's buffers give the same, if they hold the sources.
pub decode_sources_agree :
    (shards buffers : ShardSlots) (n : ℕ) (output : WordShard) (sources : List ℕ)
    → All
        (λ source. (shard : WordShard) × Holds shards source shard × Holds buffers source shard)
        sources
    → decode_sources buffers n output sources ≡ decode_sources shards n output sources
unfolding decode_sources
decode_sources_agree shards buffers n output [] h = refl
decode_sources_agree shards buffers n output (source ∷ rest) ((shard, held, held'), later) =
    rw (slot-Holds shards source held, slot-Holds buffers source held')
      (ap (λ r. throw_if (not (length shard == n)) decode_sources_unequal >> r)
        (decode_sources_agree shards buffers n (xor_words output shard) rest later))

pub set-Holds :
    (shards : ShardSlots) (i : ℕ) (shard : WordShard)
    → Lacks shards i
    → Holds (set shards i (some shard)) i shard
set-Holds shards i shard lacks =
    get_elem?-set_self shards i (some shard) (get_elem?-lt shards i lacks)

pub set-Holds_other :
    (shards : ShardSlots) (i j : ℕ) (shard held : WordShard)
    → Lacks shards i
    → Holds shards j held
    → Holds (set shards i (some shard)) j held
set-Holds_other shards i j shard held lacks h =
    get_elem?-set_ne shards i j (some shard) (λ e. cc) ∙ h

-- What the host has stays.
pub Runs-Holds :
    {operations : List XorOperation} {shards after : ShardSlots} (i : ℕ) (shard : WordShard)
    → Runs operations shards after
    → Holds shards i shard
    → Holds after i shard
Runs-Holds i shard done h = h
Runs-Holds {shards = shards} i shard
      (step {operation = operation} n result some_word some_source has lacks e l rest) h =
    Runs-Holds i shard rest (set-Holds_other shards operation.output i result shard lacks h)

pub length-Runs :
    {operations : List XorOperation} {shards after : ShardSlots}
    → Runs operations shards after
    → length after ≡ length shards
length-Runs done = refl
length-Runs {shards = shards}
      (step {operation = operation} n result some_word some_source has lacks e l rest) =
    length-Runs rest ∙ length-set shards operation.output (some result)

pub slot-Lacks : (shards : ShardSlots) (i : ℕ) → Lacks shards i → slot shards i ≡ none
unfolding slot
slot-Lacks shards i lacks = ground arith

decode_output-HasSources :
    (shards : ShardSlots) (n : ℕ) (result : WordShard) (sources : List ℕ)
    → 0 < n
    → is_empty sources ≡ false
    → HasSources shards n sources
    → decode_sources shards n (replicate n 0) sources ≡ ok result
    → decode_output shards sources ≡ ok result
unfolding decode_output is_empty
decode_output-HasSources shards n result [] some_word nonempty has e = cc
decode_output-HasSources shards n result (first ∷ rest) some_word nonempty
      ((shard, held, sized), later) e =
    let nonzero : (length shard == 0) ≡ false = ground arith in
    rw (slot-Holds shards first held, nonzero)
      (ap (λ m. decode_sources shards m (replicate m 0) (first ∷ rest)) sized ∙ e)

execute_operation-step :
    (operation : XorOperation) (shards : ShardSlots) (n : ℕ) (result : WordShard)
    → 0 < n
    → is_empty operation.sources ≡ false
    → HasSources shards n operation.sources
    → Lacks shards operation.output
    → decode_sources shards n (replicate n 0) operation.sources ≡ ok result
    → execute_operation operation shards ≡ ok (set shards operation.output (some result))
unfolding execute_operation
execute_operation-step operation shards n result some_word some_source has lacks e =
    let inside : leb (length shards) operation.output ≡ false =
      ground (arith, get_elem?-lt shards operation.output lacks) in
    let absent : slot shards operation.output ≡ none = slot-Lacks shards operation.output lacks in
    let made =
      decode_output-HasSources shards n result operation.sources some_word some_source has e in
    rw (inside, some_source, absent, made) refl

-- The decoder of the CPU makes the run.
pub execute_operations-Runs :
    {operations : List XorOperation} {shards after : ShardSlots}
    → Runs operations shards after
    → execute_operations operations shards ≡ (ok tt, after)
unfolding execute_operations
execute_operations-Runs done = refl
execute_operations-Runs {shards = shards}
      (step {operation = operation} n result some_word some_source has lacks e l rest) =
    rw
      (
        execute_operations,
        execute_operation-step operation shards n result some_word some_source has lacks e,
      )
      (execute_operations-Runs rest)
