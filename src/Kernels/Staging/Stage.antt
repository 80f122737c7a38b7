-- ===== src/Kernels/Staging/Stage.antt =====
-- How a context gets its shards.
use coded_llm.Base.{
  ℕ, zero, suc, ◌<◌, ◌≡◌, ◌⊎◌, refl, length-set, inl, inr, [], ◌∷◌, map, false, ◌==◌, leb,
  Bool-cases, none, some, some-eq, length, get_elem?, get_elem?-lt, get_elem?-set_self,
  get_elem?-set_ne, set, replicate, ok, ◌>>◌, Result-cases, >>=-eq-ok, throw_if-eq-ok, ok-injective,
  arith, sym, ap, subst, ◌∙◌,
}
use coded_llm.Base.Sets.{is_empty}
use coded_llm.Coding.Codec.{WordShard, ShardSlots}
use coded_llm.Coding.Codec.Decode.{Holds}
use coded_llm.Kernels.Tuning.{Cuda, Tuning}
use coded_llm.Kernels.Decode.{Memory}
use coded_llm.Kernels.Decode.Scan.{size, map-set}
use coded_llm.Kernels.Decode.Upload.{IsMemory, HasWords}
use coded_llm.Kernels.Staging.{
  StagingContext, create_staging_context, check_stage, stage_decode_shard,
}
use coded_llm.Kernels.Staging.Buffers.{IsStaged}

replicate-size : (n : ℕ) → replicate n none ≡ map size (replicate n none)
unfolding size
replicate-size zero = refl
replicate-size (suc n) = ap (λ r. none ∷ r) (replicate-size n)

replicate-HasWords : (n : ℕ) → HasWords (replicate n none)
replicate-HasWords zero i shard h = cc
replicate-HasWords (suc n) zero shard h = cc
replicate-HasWords (suc n) (suc i) shard h = replicate-HasWords n i shard h

-- A context that is made without an error has its staged shards, none, on the device.
pub create_staging_context-IsStaged :
    (cuda : Cuda) (tuning : Tuning) (shard_count : ℕ) (context : StagingContext)
    → create_staging_context cuda tuning shard_count ≡ ok context
    → IsStaged context
unfolding create_staging_context
create_staging_context-IsStaged cuda tuning shard_count context h =
    let (some_slot, h₁) = throw_if-eq-ok (shard_count == 0) _ _ h in
    let (got, e, h₂) = >>=-eq-ok cuda.get_device _ h₁ in
    subst IsStaged (ok-injective h₂) (record {
      counts = replicate-size shard_count;
      buffers = refl;
      words = replicate-HasWords shard_count;
    })

set-HasWords :
    (shards : ShardSlots) (i : ℕ) (shard : WordShard)
    → 0 < length shard
    → HasWords shards
    → HasWords (set shards i (some shard))
set-HasWords shards i shard some_word h j held e = elim (Bool-cases (i == j)) [
  | inl same ↦
      let equal : i ≡ j = ground arith in
      let inside = get_elem?-lt (set shards i (some shard)) j e in
      subst (λ w. 0 < length w)
        (some-eq (
          some-eq (
            sym (
              get_elem?-set_self shards i (some shard)
                (omega (arith, inside, length-set shards i (some shard), ap suc equal)))
            ∙ rw (← equal) at e)))
        some_word
  | inr other ↦ h j held (sym (get_elem?-set_ne shards i j (some shard) (λ same. ground arith)) ∙ e)
]

-- What the checks before the staging say.
record Checked (context : StagingContext) (shard_id : ℕ) (shard : WordShard) : Type 0 where
  inside : shard_id < length context.device_shards
  some_word : 0 < length shard

nonempty_length : (shard : WordShard) → is_empty shard ≡ false → 0 < length shard
unfolding is_empty
nonempty_length [] h = cc
nonempty_length (x ∷ xs) h = omega arith

check_stage-Checked :
    (context : StagingContext) (shard_id : ℕ) (shard : WordShard) {passed : Unit {0}}
    → check_stage context shard_id shard ≡ ok passed
    → Checked context shard_id shard
unfolding check_stage
check_stage-Checked context shard_id shard h =
    let (open_, h₁) = throw_if-eq-ok context.finalized _ _ h in
    let (inside, h₂) = throw_if-eq-ok (leb (length context.device_shards) shard_id) _ _ h₁ in
    let (some_word, h₃) = throw_if-eq-ok (is_empty shard) _ _ h₂ in
    record { inside = ground arith; some_word = nonempty_length shard some_word }

-- Staging a shard without an error keeps a context whose staged shards are on the device as such,
-- with this shard among them, and leaves every other slot as it is.
pub stage_decode_shard-IsStaged :
    (cuda : Cuda) (memory : Memory) (context after : StagingContext) (shard_id other : ℕ)
    (shard : WordShard)
    → IsMemory memory
    → IsStaged context
    → stage_decode_shard cuda memory context shard_id shard ≡ (ok tt, after)
    → IsStaged after
      × Holds after.staged_shards shard_id shard
      × ((other ≡ shard_id)
          ⊎ (get_elem? after.staged_shards other ≡ get_elem? context.staged_shards other))
unfolding stage_decode_shard size
stage_decode_shard-IsStaged cuda memory context after shard_id other shard m s h =
    elim (Result-cases (check_stage context shard_id shard >> cuda.set_device context.device_id)) [
      | inr (thrown, e) ↦ absurd (let b = ap (λ r. r.0) (rw (stage_decode_shard, e) at h) in cc)
      | inl (passed, e) ↦ elim (Result-cases (memory.malloc (length shard))) [
        | inr (thrown, e₁) ↦
            absurd (let b = ap (λ r. r.0) (rw (stage_decode_shard, e, e₁) at h) in cc)
        | inl (buffer, e₁) ↦ elim (Result-cases (memory.memcpy buffer shard)) [
          | inr (thrown, e₂) ↦
              absurd (let b = ap (λ r. r.0) (rw (stage_decode_shard, e, e₁, e₂) at h) in cc)
          | inl (written, e₂) ↦
              let same = ap (λ r. r.1) (rw (stage_decode_shard, e, e₁, e₂) at h) in
              let (checked, e₃, e₄) = >>=-eq-ok (check_stage context shard_id shard) _ e in
              let c = check_stage-Checked context shard_id shard e₃ in
              let copied = m.memcpy buffer shard written (m.malloc (length shard) buffer e₁) e₂ in
              let inside : shard_id < length context.staged_shards =
                omega (arith, c.inside, ap length s.buffers) in
              rw (← same) (
                record {
                  counts = ap (λ r. set r shard_id (some (length shard))) s.counts ∙ sized;
                  buffers =
                      ap (λ w. set context.device_shards shard_id (some w)) copied
                      ∙ ap (λ r. set r shard_id (some shard)) s.buffers;
                  words = set-HasWords context.staged_shards shard_id shard c.some_word s.words;
                },
                get_elem?-set_self context.staged_shards shard_id (some shard) inside,
                elim (Bool-cases (shard_id == other)) [
                  | inl e ↦ inl (ground arith)
                  | inr e ↦ inr (
                      get_elem?-set_ne context.staged_shards shard_id other (some shard)
                        (λ same. ground arith))
                ],
              )
        ]
      ]
    ]
  where
    sized :
        set (map size context.staged_shards) shard_id (some (length shard))
        ≡ map size (set context.staged_shards shard_id (some shard))
    sized = sym (map-set size context.staged_shards shard_id (some shard))
