-- ===== src/Kernels/Decode/Scan.antt =====
-- What the loop over the operations checks and collects.
use coded_llm.Base.{
  ℕ, zero, suc, ◌<◌, ◌≡◌, refl, List, [], ◌∷◌, map, Bool, true, false, ◌||◌, not, ◌==◌, ==_iff,
  Option, none, some, some-eq, length, get_elem?, get_or, get_elem?-lt, get_elem?-set_self,
  get_elem?-set_ne, length-set, set, leb, Bool-cases, inl, inr, Result, ok, ◌>>=◌, throw_if-eq-ok,
  ok-injective, arith, All, sym, ap, subst, ◌∙◌,
}
use coded_llm.Base.Sets.{is_empty}
use coded_llm.Coding.Codec.{WordShard, ShardSlots, has_value}
use coded_llm.Coding.Codec.Decode.{Holds}
use coded_llm.Kernels.Decode.{agree_count, scan_sources}
use coded_llm.Kernels.Decode.Runs.{Lacks, HasSources}

-- The size of what a slot holds.
unfoldable pub size : Option WordShard → Option ℕ
size none = none
size (some shard) = some (length shard)

pub get_or-size :
    (shards : ShardSlots) (i : ℕ) {shard : WordShard}
    → Holds shards i shard
    → get_or (map size shards) i none ≡ some (length shard)
unfolding size
get_or-size [] i h = cc
get_or-size (held ∷ shards) zero h = rw (some-eq h) refl
get_or-size (held ∷ shards) (suc i) h = get_or-size shards i h

get_or-Holds :
    (shards : ShardSlots) (i : ℕ)
    → has_value (get_or (map size shards) i none) ≡ true
    → (shard : WordShard) × Holds shards i shard
unfolding size
get_or-Holds [] i h = cc
get_or-Holds (none ∷ shards) zero h = cc
get_or-Holds (some shard ∷ shards) zero h = (shard, refl)
get_or-Holds (held ∷ shards) (suc i) h = get_or-Holds shards i h

pub get_or-Lacks :
    (shards : ShardSlots) (i : ℕ)
    → i < length shards
    → get_or (map has_value shards) i false ≡ false
    → Lacks shards i
get_or-Lacks [] i lt h = absurd (omega arith)
get_or-Lacks (none ∷ shards) zero lt h = refl
get_or-Lacks (some shard ∷ shards) zero lt h = cc
get_or-Lacks (held ∷ shards) (suc i) lt h = get_or-Lacks shards i (omega arith) h

pub map-set {ℓ κ} :
    {A : Type ℓ} {B : Type κ} (f : A → B) (xs : List A) (i : ℕ) (x : A)
    → map f (set xs i x) ≡ set (map f xs) i (f x)
map-set f [] i x = refl
map-set f (y ∷ xs) zero x = refl
map-set f (y ∷ xs) (suc i) x = ap (λ ys. f y ∷ ys) (map-set f xs i x)

-- A shard that has to be on the device.
abbrev pub Required : List Bool → ℕ → Type 0
Required required i = get_elem? required i ≡ some true

pub set-Required :
    (required : List Bool) (i j : ℕ) → Required required j → Required (set required i true) j
set-Required required i j h = elim (Bool-cases (i == j)) [
  | inl e ↦
      let same : j ≡ i = ground arith in
      rw same (get_elem?-set_self required i true (get_elem?-lt required i (rw same at h)))
  | inr e ↦ get_elem?-set_ne required i j true (λ same. ground arith) ∙ h
]

pub record Scanned (shards : ShardSlots) (required : List Bool) (n : ℕ) (sources : List ℕ)
    (counted : Option ℕ) (after : List Bool) : Type 0 where
  pub agreed : counted ≡ some n
  pub has : HasSources shards n sources
  pub marked : All (Required after) sources
  pub kept : (i : ℕ) → Required required i → Required after i
  pub sized : length after ≡ length required

agreed_counts {ℓ} :
    {A : Type ℓ} (n m : ℕ) (k : Option ℕ → Result A) {a : A}
    → (agree_count (some n) (some m) >>= k) ≡ ok a
    → (n ≡ m) × (k (some n) ≡ ok a)
unfolding agree_count
agreed_counts n m k h = elim (Bool-cases (n == m)) [
  | inl e ↦ ((==_iff n m).0 e, rw e at h)
  | inr e ↦ cc (rw e at h)
]

module _ (shards : ShardSlots) where
  -- What the checks of one source say.
  pub source_checked :
      (source : ℕ)
      → (leb (length shards) source
          || not (get_or (map has_value shards) source false)
          || not (has_value (get_or (map size shards) source none)))
        ≡ false
      → (source < length shards) × ((shard : WordShard) × Holds shards source shard)
  source_checked source h = (ground arith, get_or-Holds shards source (ground arith))

  -- The rest of a round.
  next : ℕ → List Bool → ℕ → List ℕ → Option ℕ → Result (Option ℕ × List Bool)
  next n required source rest agreed =
      scan_sources (length shards) (map size shards) (map has_value shards)
        (set required source true) agreed rest

  pub scan_sources-Scanned :
      (n : ℕ) (required : List Bool) (sources : List ℕ) (counted : Option ℕ) (after : List Bool)
      → length required ≡ length shards
      → scan_sources
          (length shards)
          (map size shards)
          (map has_value shards)
          required
          (some n)
          sources
        ≡ ok (counted, after)
      → Scanned shards required n sources counted after
  unfolding scan_sources next
  scan_sources-Scanned n required [] counted after l h =
      let same = ok-injective h in
      record {
        agreed = sym (ap (λ r. r.0) same);
        has = tt;
        marked = tt;
        kept = λ i r. rw (← ap (λ p. p.1) same) r;
        sized = ap length (sym (ap (λ r. r.1) same));
      }
  scan_sources-Scanned n required (source ∷ rest) counted after l h =
      let (checked, h₁) =
        throw_if-eq-ok
          (leb (length shards) source
            || not (get_or (map has_value shards) source false)
            || not (has_value (get_or (map size shards) source none)))
          _ _ h in
      let (within, found) = source_checked source checked in
      let (shard, held) = found in
      let (same, h₂) = agreed_counts n (length shard) _ (
        subst (λ c. (agree_count (some n) c >>= next n required source rest) ≡ ok (counted, after))
          (get_or-size shards source held) h₁) in
      let s =
        scan_sources-Scanned n (set required source true) rest counted after
          (length-set required source true ∙ l) h₂ in
      record {
        agreed = s.agreed;
        has = ((shard, held, sym same), s.has);
        marked =
            (s.kept source (get_elem?-set_self required source true (omega (arith, l))), s.marked);
        kept = λ i r. s.kept i (set-Required required source i r);
        sized = s.sized ∙ length-set required source true;
      }

  -- From the first source on.
  pub scan_sources_first :
      (required : List Bool) (sources : List ℕ) (counted : Option ℕ) (after : List Bool)
      → length required ≡ length shards
      → is_empty sources ≡ false
      → scan_sources (length shards) (map size shards) (map has_value shards) required none sources
        ≡ ok (counted, after)
      → (source : ℕ) × (shard : WordShard) × Holds shards source shard
        × Scanned shards required (length shard) sources counted after
  unfolding scan_sources agree_count next is_empty
  scan_sources_first required [] counted after l nonempty h = cc
  scan_sources_first required (source ∷ rest) counted after l nonempty h =
      let (checked, h₁) =
        throw_if-eq-ok
          (leb (length shards) source
            || not (get_or (map has_value shards) source false)
            || not (has_value (get_or (map size shards) source none)))
          _ _ h in
      let (within, found) = source_checked source checked in
      let (shard, held) = found in
      let h₂ =
        subst (λ c. next (length shard) required source rest c ≡ ok (counted, after))
          (get_or-size shards source held) h₁ in
      let s =
        scan_sources-Scanned (length shard) (set required source true) rest counted after
          (length-set required source true ∙ l) h₂ in
      (
        source,
        shard,
        held,
        record {
          agreed = s.agreed;
          has = ((shard, held, refl), s.has);
          marked = (
            s.kept source (get_elem?-set_self required source true (omega (arith, l))),
            s.marked,
          );
          kept = λ i r. s.kept i (set-Required required source i r);
          sized = s.sized ∙ length-set required source true;
        },
      )
