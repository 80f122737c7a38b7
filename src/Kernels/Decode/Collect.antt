-- ===== src/Kernels/Decode/Collect.antt =====
-- The metadata of a plan, operation by operation.
use coded_llm.Base.{
  ℕ, zero, suc, ◌≤◌, ◌<◌, ◌≡◌, refl, List, [], ◌∷◌, ◌++◌, map, true, false, ◌==◌, none, some,
  some-eq, length, get_elem?, get_or, get_elem?-lt, get_elem?-set_self, get_elem?-set_ne,
  length-set, length-append, length-replicate, set, drop, replicate, leb, Bool-cases, inl, inr, ok,
  >>=-eq-ok, throw_if-eq-ok, ok-injective, arith, All, All-map, sym, ap, subst, ◌∙◌,
}
use coded_llm.Base.Sets.{is_empty}
use coded_llm.Coding.Plan.{XorOperation}
use coded_llm.Coding.Codec.{WordShard, ShardSlots, has_value, decode_sources}
use coded_llm.Coding.Codec.Decode.{Holds}
use coded_llm.Kernels.Decode.{Metadata, scan_sources, scan_operation, scan_operations}
use coded_llm.Kernels.Decode.Runs.{
  Lacks, HasSources, Runs, done, step, decode_sources-HasSources, set-Holds,
}
use coded_llm.Kernels.Decode.Scan.{
  size, get_or-Lacks, map-set, Required, set-Required, scan_sources_first,
}

-- The metadata describes the slots of the host.
pub record Describes (shards : ShardSlots) (metadata : Metadata) : Type 0 where
  pub counts : metadata.word_counts ≡ map size shards
  pub available : metadata.available_shards ≡ map has_value shards
  pub sized : length metadata.required_shards ≡ length shards
  pub words : (i : ℕ) (shard : WordShard) → Holds shards i shard → 0 < length shard

-- Where the last metadata has the sources of an operation, and what it requires for it.
pub record IsPlaced (final : Metadata) (index : ℕ) (operation : XorOperation) : Type 0 where
  pub offset : ℕ
  pub at_index : get_elem? final.source_offsets index ≡ some offset
  pub within : offset ≤ length final.flattened_sources
  pub later : List ℕ
  pub ids : drop offset final.flattened_sources ≡ operation.sources ++ later
  pub output : Required final.required_shards operation.output
  pub sources : All (Required final.required_shards) operation.sources

abbrev pub Placed : Metadata → ℕ → List XorOperation → Type 0
Placed final index [] = Unit
Placed final index (operation ∷ rest) =
    IsPlaced final index operation × Placed final (suc index) rest

-- A later metadata has more behind each list, and requires more.
record Extends (metadata final : Metadata) : Type 0 where
  offsets : List ℕ
  offsets_eq : final.source_offsets ≡ metadata.source_offsets ++ offsets
  flattened : List ℕ
  flattened_eq : final.flattened_sources ≡ metadata.flattened_sources ++ flattened
  kept : (i : ℕ) → Required metadata.required_shards i → Required final.required_shards i

module _ {ℓ} {A : Type ℓ} where
  append_assoc : (xs ys zs : List A) → (xs ++ ys) ++ zs ≡ xs ++ (ys ++ zs)
  append_assoc [] ys zs = refl
  append_assoc (x ∷ xs) ys zs = ap (λ r. x ∷ r) (append_assoc xs ys zs)

  append_nil : (xs : List A) → xs ≡ xs ++ []
  append_nil [] = refl
  append_nil (x ∷ xs) = ap (λ r. x ∷ r) (append_nil xs)

  get_elem?-append :
      (xs ys : List A) (i : ℕ) (a : A) → get_elem? xs i ≡ some a → get_elem? (xs ++ ys) i ≡ some a
  get_elem?-append [] ys i a h = cc
  get_elem?-append (x ∷ xs) ys zero a h = h
  get_elem?-append (x ∷ xs) ys (suc i) a h = get_elem?-append xs ys i a h

  get_elem?-append_last : (xs : List A) (a : A) → get_elem? (xs ++ a ∷ []) (length xs) ≡ some a
  get_elem?-append_last [] a = refl
  get_elem?-append_last (x ∷ xs) a = get_elem?-append_last xs a

  drop-append : (n : ℕ) (xs ys : List A) → n ≤ length xs → drop n (xs ++ ys) ≡ drop n xs ++ ys
  drop-append zero xs ys le = refl
  drop-append (suc n) [] ys le = absurd (omega arith)
  drop-append (suc n) (x ∷ xs) ys le = drop-append n xs ys (omega arith)

  drop-length : (xs ys : List A) → drop (length xs) (xs ++ ys) ≡ ys
  drop-length [] ys = refl
  drop-length (x ∷ xs) ys = drop-length xs ys

Extends-refl : (metadata : Metadata) → Extends metadata metadata
Extends-refl metadata = record {
  offsets = [];
  offsets_eq = append_nil metadata.source_offsets;
  flattened = [];
  flattened_eq = append_nil metadata.flattened_sources;
  kept = λ i r. r;
}

Extends-trans :
    (first second third : Metadata)
    → Extends first second
    → Extends second third
    → Extends first third
Extends-trans first second third a b = record {
  offsets = a.offsets ++ b.offsets;
  offsets_eq =
      b.offsets_eq ∙ ap (λ r. r ++ b.offsets) a.offsets_eq ∙ append_assoc _ a.offsets b.offsets;
  flattened = a.flattened ++ b.flattened;
  flattened_eq =
      b.flattened_eq
      ∙ ap (λ r. r ++ b.flattened) a.flattened_eq
      ∙ append_assoc _ a.flattened b.flattened;
  kept = λ i r. b.kept i (a.kept i r);
}

Extends-IsPlaced :
    (metadata final : Metadata) (index : ℕ) (operation : XorOperation)
    → Extends metadata final
    → IsPlaced metadata index operation
    → IsPlaced final index operation
Extends-IsPlaced metadata final index operation e p = record {
  offset = p.offset;
  at_index =
      ap (λ r. get_elem? r index) e.offsets_eq
      ∙ get_elem?-append metadata.source_offsets e.offsets index p.offset p.at_index;
  within = omega (
    arith,
    p.within,
    ap length e.flattened_eq,
    length-append metadata.flattened_sources e.flattened,
  );
  later = p.later ++ e.flattened;
  ids =
      ap (drop p.offset) e.flattened_eq
      ∙ drop-append p.offset metadata.flattened_sources e.flattened p.within
      ∙ ap (λ r. r ++ e.flattened) p.ids
      ∙ append_assoc operation.sources p.later e.flattened;
  output = e.kept operation.output p.output;
  sources = All-map operation.sources e.kept p.sources;
}

-- One operation.
record Collected (shards : ShardSlots) (metadata : Metadata) (operation : XorOperation)
    (next : Metadata) : Type 0 where
  n : ℕ
  result : WordShard
  some_word : 0 < n
  some_source : is_empty operation.sources ≡ false
  has : HasSources shards n operation.sources
  lacks : Lacks shards operation.output
  decoded : decode_sources shards n (replicate n 0) operation.sources ≡ ok result
  sized : length result ≡ n
  describes : Describes (set shards operation.output (some result)) next
  extends : Extends metadata next
  placed : IsPlaced next (length metadata.source_offsets) operation
  counted : length next.source_offsets ≡ suc (length metadata.source_offsets)

module _ (shards : ShardSlots) (metadata : Metadata) (operation : XorOperation)
    (d : Describes shards metadata) where
  updated :
      (next : Metadata) (result : WordShard)
      → 0 < length result
      → Lacks shards operation.output
      → next.word_counts ≡ set metadata.word_counts operation.output (some (length result))
      → next.available_shards ≡ set metadata.available_shards operation.output true
      → length next.required_shards ≡ length metadata.required_shards
      → Describes (set shards operation.output (some result)) next
  unfolding size
  updated next result some_word lacks counts available required = record {
    counts =
        counts
        ∙ ap (λ r. set r operation.output (some (length result))) d.counts
        ∙ sym (map-set size shards operation.output (some result));
    available =
        available
        ∙ ap (λ r. set r operation.output true) d.available
        ∙ sym (map-set has_value shards operation.output (some result));
    sized = required ∙ d.sized ∙ sym (length-set shards operation.output (some result));
    words = λ i shard h. elim (Bool-cases (operation.output == i)) [
      | inl e ↦
          let same : operation.output ≡ i = ground arith in
          let here = set-Holds shards operation.output result lacks in
          let eq : some (some result) ≡ some (some shard) = sym here ∙ rw (← same) at h in
          subst (λ w. 0 < length w) (some-eq (some-eq eq)) some_word
      | inr e ↦ d.words i shard (
          sym (get_elem?-set_ne shards operation.output i (some result) (λ same. ground arith)) ∙ h)
    ];
  }

  scan_operation-Collected :
      (next : Metadata)
      → scan_operation (length shards) metadata operation ≡ ok next
      → Collected shards metadata operation next
  unfolding scan_operation
  scan_operation-Collected next h =
      let (within, h₁) = throw_if-eq-ok (leb (length shards) operation.output) _ _ h in
      let (some_source, h₂) = throw_if-eq-ok (is_empty operation.sources) _ _ h₁ in
      let (absent, h₃) =
        throw_if-eq-ok (get_or metadata.available_shards operation.output false) _ _ h₂ in
      let (scanned, e, h₄) =
        >>=-eq-ok
          (scan_sources (length shards) metadata.word_counts metadata.available_shards
            metadata.required_shards none operation.sources)
          _ h₃ in
      let e' = rw (d.counts, d.available) at e in
      let found =
        scan_sources_first shards metadata.required_shards operation.sources scanned.0 scanned.1
          d.sized some_source e' in
      let (source, shard, held, s) = found in
      let lacks =
        get_or-Lacks shards operation.output (ground arith) (rw (d.available) at absent) in
      let n = length shard in
      let made =
        decode_sources-HasSources shards n (replicate n 0) operation.sources s.has
          (length-replicate n 0) in
      let (result, decoded, sized) = made in
      let some_word : 0 < n = d.words source shard held in
      let same = ok-injective h₄ in
      subst (Collected shards metadata operation) same (record {
        n = n;
        result = result;
        some_word = some_word;
        some_source = some_source;
        has = s.has;
        lacks = lacks;
        decoded = decoded;
        sized = sized;
        describes =
            updated _ result (omega (arith, sized)) lacks
              (ap (set metadata.word_counts operation.output) (s.agreed ∙ ap some (sym sized))) refl
              (length-set scanned.1 operation.output true ∙ s.sized);
        extends = record {
          offsets = length metadata.flattened_sources ∷ [];
          offsets_eq = refl;
          flattened = operation.sources;
          flattened_eq = refl;
          kept = λ i r. set-Required scanned.1 operation.output i (s.kept i r);
        };
        placed = record {
          offset = length metadata.flattened_sources;
          at_index = get_elem?-append_last metadata.source_offsets _;
          within = omega (arith, length-append metadata.flattened_sources operation.sources);
          later = [];
          ids =
              drop-length metadata.flattened_sources operation.sources
              ∙ append_nil operation.sources;
          output =
              get_elem?-set_self scanned.1 operation.output true
                (omega (arith, s.sized, d.sized, get_elem?-lt shards operation.output lacks));
          sources =
              All-map operation.sources (λ i. set-Required scanned.1 operation.output i) s.marked;
        };
        counted =
            omega (
              arith,
              length-append metadata.source_offsets (length metadata.flattened_sources ∷ []),
            );
      })

-- The run that a scan of all operations promises.
pub record IsCollected (shards : ShardSlots) (metadata : Metadata) (operations : List XorOperation)
    (final : Metadata) : Type 0 where
  pub after : ShardSlots
  pub runs : Runs operations shards after
  pub describes : Describes after final
  extends : Extends metadata final
  pub placed : Placed final (length metadata.source_offsets) operations

pub scan_operations-IsCollected :
    (shards : ShardSlots) (metadata : Metadata) (operations : List XorOperation) (final : Metadata)
    → Describes shards metadata
    → scan_operations (length shards) metadata operations ≡ ok final
    → IsCollected shards metadata operations final
unfolding scan_operations
scan_operations-IsCollected shards metadata [] final d h =
    subst (IsCollected shards metadata []) (ok-injective h) (record {
      after = shards;
      runs = done;
      describes = d;
      extends = Extends-refl metadata;
      placed = tt;
    })
scan_operations-IsCollected shards metadata (operation ∷ rest) final d h =
    let (next, e, h₁) = >>=-eq-ok (scan_operation (length shards) metadata operation) _ h in
    let c = scan_operation-Collected shards metadata operation d next e in
    let slots = set shards operation.output (some c.result) in
    let l : length slots ≡ length shards = length-set shards operation.output (some c.result) in
    let r =
      scan_operations-IsCollected slots next rest final c.describes
        (ap (λ n. scan_operations n next rest) l ∙ h₁) in
    record {
      after = r.after;
      runs = step c.n c.result c.some_word c.some_source c.has c.lacks c.decoded c.sized r.runs;
      describes = r.describes;
      extends = Extends-trans metadata next final c.extends r.extends;
      placed = (
        Extends-IsPlaced next final (length metadata.source_offsets) operation r.extends c.placed,
        subst (λ k. Placed final k rest) c.counted r.placed,
      );
    }
