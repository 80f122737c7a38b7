-- ===== src/Kernels/Staging/Buffers.antt =====
-- The buffers of a staged run: those that are there, those that are added, and the way back.
use coded_llm.Base.{
  ℕ, zero, suc, ◌≡◌, refl, ◌⊎◌, inl, inr, List, [], ◌∷◌, map, Bool, true, false, Option, none, some,
  some-eq, length, length-replicate, get_elem?, get_elem?-some, get_elem?-lt, get_or, set,
  replicate, ok, >>=-eq-ok, ok-injective, arith, sym, ap, subst, ◌∙◌,
}
use coded_llm.Coding.Plan.{XorOperation}
use coded_llm.Coding.Codec.{WordShard, ShardSlots, has_value}
use coded_llm.Coding.Codec.Decode.{Holds, slot-Holds}
use coded_llm.Kernels.Decode.{Memory, Metadata}
use coded_llm.Kernels.Decode.Runs.{Runs, done, step, set-Holds, Runs-Holds}
use coded_llm.Kernels.Decode.Scan.{size, get_or-size, Required}
use coded_llm.Kernels.Decode.Collect.{Describes, Placed}
use coded_llm.Kernels.Decode.Upload.{IsMemory, IsLoaded, get_elem?-size, HasWords}
use coded_llm.Kernels.Staging.{
  StagingContext, same_words, same_slots, allocate_missing, download_outputs, move_outputs,
}

-- A context whose staged shards are on the device.
pub record IsStaged (context : StagingContext) : Type 0 where
  pub counts : context.word_counts ≡ map size context.staged_shards
  pub buffers : context.device_shards ≡ context.staged_shards
  pub words : HasWords context.staged_shards

same_words_lem : (xs ys : WordShard) → same_words xs ys ≡ true → xs ≡ ys
unfolding same_words
same_words_lem [] [] h = refl
same_words_lem [] (y ∷ ys) h = cc
same_words_lem (x ∷ xs) [] h = cc
same_words_lem (x ∷ xs) (y ∷ ys) h =
    let head : x ≡ y = ground arith in
    let tail = same_words_lem xs ys (ground arith) in rw (head, tail) refl

pub same_slots_lem : (xs ys : ShardSlots) → same_slots xs ys ≡ true → xs ≡ ys
unfolding same_slots
same_slots_lem [] [] h = refl
same_slots_lem [] (y ∷ ys) h = cc
same_slots_lem (none ∷ xs) [] h = cc
same_slots_lem (some x ∷ xs) [] h = cc
same_slots_lem (none ∷ xs) (some y ∷ ys) h = cc
same_slots_lem (some x ∷ xs) (none ∷ ys) h = cc
same_slots_lem (none ∷ xs) (none ∷ ys) h = ap (λ r. none ∷ r) (same_slots_lem xs ys h)
same_slots_lem (some x ∷ xs) (some y ∷ ys) h =
    let head = same_words_lem x y (ground arith) in
    let tail = same_slots_lem xs ys (ground arith) in rw (head, tail) refl

pub has_value-size : (shards : ShardSlots) → map has_value (map size shards) ≡ map has_value shards
unfolding size
has_value-size [] = refl
has_value-size (none ∷ rest) = ap (λ r. false ∷ r) (has_value-size rest)
has_value-size (some shard ∷ rest) = ap (λ r. true ∷ r) (has_value-size rest)

module _ (memory : Memory) (m : IsMemory memory) where
  -- A required buffer is the one that was there, or a new one of its size.
  allocate_missing_lem :
      (required : List Bool) (counts : List (Option ℕ)) (buffers after : ShardSlots) (i n : ℕ)
      (held : Option WordShard)
      → allocate_missing memory required counts buffers ≡ ok after
      → Required required i
      → get_elem? counts i ≡ some (some n)
      → get_elem? buffers i ≡ some held
      → (buffer : WordShard) × Holds after i buffer
        × (((held ≡ none) × (length buffer ≡ n)) ⊎ (held ≡ some buffer))
  unfolding allocate_missing
  allocate_missing_lem [] counts buffers after i n held h r c b = cc
  allocate_missing_lem (first ∷ required) [] buffers after i n held h r c b = cc
  allocate_missing_lem (first ∷ required) (count ∷ counts) [] after i n held h r c b = cc
  allocate_missing_lem (true ∷ required) (none ∷ counts) (none ∷ buffers) after i n held h r c b =
      cc
  allocate_missing_lem (true ∷ required) (some words ∷ counts) (none ∷ buffers) after zero n held h
        r c b =
      let (buffer, e, h₁) = >>=-eq-ok (memory.malloc words) _ h in
      let (later, e', h₂) = >>=-eq-ok (allocate_missing memory required counts buffers) _ h₁ in
      subst
        (λ a.
          (buffer : WordShard) × Holds a zero buffer
          × (((held ≡ none) × (length buffer ≡ n)) ⊎ (held ≡ some buffer)))
        (ok-injective h₂)
        (buffer, refl, inl (sym (some-eq b), m.malloc words buffer e ∙ some-eq (some-eq c)))
  allocate_missing_lem (true ∷ required) (some words ∷ counts) (none ∷ buffers) after (suc i) n held
        h r c b =
      let (buffer, e, h₁) = >>=-eq-ok (memory.malloc words) _ h in
      let (later, e', h₂) = >>=-eq-ok (allocate_missing memory required counts buffers) _ h₁ in
      subst
        (λ a.
          (buffer : WordShard) × Holds a (suc i) buffer
          × (((held ≡ none) × (length buffer ≡ n)) ⊎ (held ≡ some buffer)))
        (ok-injective h₂) (allocate_missing_lem required counts buffers later i n held e' r c b)
  allocate_missing_lem (true ∷ required) (count ∷ counts) (some there ∷ buffers) after zero n held h
        r c b =
      let (later, e', h₂) = >>=-eq-ok (allocate_missing memory required counts buffers) _ h in
      subst
        (λ a.
          (buffer : WordShard) × Holds a zero buffer
          × (((held ≡ none) × (length buffer ≡ n)) ⊎ (held ≡ some buffer)))
        (ok-injective h₂) (there, refl, inr (sym (some-eq b)))
  allocate_missing_lem (true ∷ required) (count ∷ counts) (some there ∷ buffers) after (suc i) n
        held h r c b =
      let (later, e', h₂) = >>=-eq-ok (allocate_missing memory required counts buffers) _ h in
      subst
        (λ a.
          (buffer : WordShard) × Holds a (suc i) buffer
          × (((held ≡ none) × (length buffer ≡ n)) ⊎ (held ≡ some buffer)))
        (ok-injective h₂) (allocate_missing_lem required counts buffers later i n held e' r c b)
  allocate_missing_lem (false ∷ required) (count ∷ counts) (first ∷ buffers) after zero n held h r c
        b =
      cc
  allocate_missing_lem (false ∷ required) (count ∷ counts) (first ∷ buffers) after (suc i) n held h
        r c b =
      let (later, e', h₂) = >>=-eq-ok (allocate_missing memory required counts buffers) _ h in
      subst
        (λ a.
          (buffer : WordShard) × Holds a (suc i) buffer
          × (((held ≡ none) × (length buffer ≡ n)) ⊎ (held ≡ some buffer)))
        (ok-injective h₂) (allocate_missing_lem required counts buffers later i n held e' r c b)

  pub allocate_missing-IsLoaded :
      (required : List Bool) (shards last buffers : ShardSlots)
      → allocate_missing memory required (map size last) shards ≡ ok buffers
      → ((i : ℕ) (shard : WordShard) → Holds shards i shard → Holds last i shard)
      → length last ≡ length shards
      → IsLoaded required shards last buffers
  allocate_missing-IsLoaded required shards last buffers h kept l = record {
    room = λ i shard r final.
        let (held, there) = get_elem?-some shards i (omega (arith, l, get_elem?-lt last i final)) in
        let (buffer, found, cases) =
          allocate_missing_lem required (map size last) shards buffers i (length shard) held h r
            (get_elem?-size memory m last i shard final) there in
        elim cases [
          | inl (absent, sized) ↦ (buffer, found, sized)
          | inr present ↦ (
            buffer,
            found,
            ap length (some-eq (some-eq (sym (kept i buffer (there ∙ ap some present)) ∙ final))),
          )
        ];
    same = λ i shard r held.
        let (buffer, found, cases) =
          allocate_missing_lem required (map size last) shards buffers i (length shard) (some shard)
            h r (get_elem?-size memory m last i shard (kept i shard held)) held in
        elim cases [ inl (absent, sized) ↦ cc | inr present ↦ found ∙ ap some (sym present) ];
  }

  -- The outputs that come back complete the run.
  pub download_outputs-move_outputs :
      (final : Metadata) (last buffers : ShardSlots) (index : ℕ) (operations : List XorOperation)
      (shards : ShardSlots) (outputs : List WordShard)
      → Describes last final
      → IsLoaded final.required_shards last last buffers
      → Runs operations shards last
      → Placed final index operations
      → download_outputs memory final.word_counts buffers operations ≡ ok outputs
      → move_outputs operations outputs shards ≡ last
  unfolding download_outputs move_outputs
  download_outputs-move_outputs final last buffers index [] shards outputs d l done p h = refl
  download_outputs-move_outputs final last buffers index (operation ∷ rest) shards outputs d l
        (step n result some_word some_source has lacks e sized runs) (p, ps) h =
      let out = operation.output in
      let kept = Runs-Holds out result runs (set-Holds shards out result lacks) in
      let held = l.same out result p.output kept in
      let count : get_or final.word_counts out none ≡ some (length result) =
        ap (λ r. get_or r out none) d.counts ∙ get_or-size last out kept in
      let h₁ = rw (download_outputs, count, slot-Holds buffers out held) at h in
      let (output, copied, h₂) =
        >>=-eq-ok (memory.memcpy (replicate (length result) 0) result) _ h₁ in
      let (later, e', h₃) =
        >>=-eq-ok (download_outputs memory final.word_counts buffers rest) _ h₂ in
      let same =
        m.memcpy (replicate (length result) 0) result output (length-replicate (length result) 0)
          copied in
      subst (λ o. move_outputs (operation ∷ rest) o shards ≡ last) (ok-injective h₃)
        (ap (λ o. move_outputs rest later (set shards out (some o))) same
          ∙ download_outputs-move_outputs final last buffers (suc index) rest
              (set shards out (some result)) later d l runs ps e')
