-- ===== src/Kernels/Decode/Upload.antt =====
-- The buffers of the device before the first launch.
use coded_llm.Base.{
  ℕ, zero, suc, ◌<◌, ◌≡◌, refl, List, [], ◌∷◌, map, Bool, true, false, Option, none, some, some-eq,
  length, length-replicate, get_elem?, get_elem?-some, get_elem?-lt, Option-cases, ok, >>=-eq-ok,
  throw_if-eq-ok, ok-injective, arith, sym, ap, subst, ◌∙◌, inl, inr,
}
use coded_llm.Base.Sets.{is_empty}
use coded_llm.Coding.Codec.{WordShard, ShardSlots, has_value}
use coded_llm.Coding.Codec.Decode.{Holds}
use coded_llm.Kernels.Decode.{
  Memory, Metadata, count_words, initial_metadata, allocate, upload_one, upload,
}
use coded_llm.Kernels.Decode.Runs.{Lacks}
use coded_llm.Kernels.Decode.Scan.{size, Required}
use coded_llm.Kernels.Decode.Collect.{Describes}

-- What CUDA documents: an allocation has the size asked for, and a copy that succeeds makes a
-- destination of the source's size equal to the source.
pub record IsMemory (memory : Memory) : Type 0 where
  pub malloc : (n : ℕ) (buffer : WordShard) → memory.malloc n ≡ ok buffer → length buffer ≡ n
  pub memcpy :
      (destination source after : WordShard)
      → length destination ≡ length source
      → memory.memcpy destination source ≡ ok after
      → after ≡ source

-- The device holds the required shards of the host, and has room for those to come.
pub record IsLoaded (required : List Bool) (shards after buffers : ShardSlots) : Type 0 where
  pub room :
      (i : ℕ) (shard : WordShard)
      → Required required i
      → Holds after i shard
      → (buffer : WordShard) × Holds buffers i buffer × (length buffer ≡ length shard)
  pub same :
      (i : ℕ) (shard : WordShard)
      → Required required i
      → Holds shards i shard
      → Holds buffers i shard

-- No shard is empty.
abbrev pub HasWords : ShardSlots → Type 0
HasWords shards = (i : ℕ) (shard : WordShard) → Holds shards i shard → 0 < length shard

none-HasWords : (rest : ShardSlots) → HasWords rest → HasWords (none ∷ rest)
none-HasWords rest h zero shard e = cc
none-HasWords rest h (suc i) shard e = h i shard e

some-HasWords :
    (first : WordShard) (rest : ShardSlots)
    → is_empty first ≡ false
    → HasWords rest
    → HasWords (some first ∷ rest)
unfolding is_empty
some-HasWords first rest nonempty h (suc i) shard e = h i shard e
some-HasWords [] rest nonempty h zero shard e = cc
some-HasWords (x ∷ xs) rest nonempty h zero shard e =
    subst (λ w. 0 < length w) (some-eq (some-eq e)) (omega arith)

record Counted (shards : ShardSlots) (counts : List (Option ℕ)) : Type 0 where
  sizes : counts ≡ map size shards
  present : map has_value counts ≡ map has_value shards
  words : HasWords shards

count_words-Counted :
    (shards : ShardSlots) (counts : List (Option ℕ))
    → count_words shards ≡ ok counts
    → Counted shards counts
unfolding count_words size is_empty
count_words-Counted [] counts h =
    subst (Counted []) (ok-injective h)
      (record { sizes = refl; present = refl; words = λ i shard h. cc })
count_words-Counted (none ∷ rest) counts h =
    let (later, e, h₁) = >>=-eq-ok (count_words rest) _ h in
    let c = count_words-Counted rest later e in
    subst (Counted (none ∷ rest)) (ok-injective h₁) (record {
      sizes = ap (λ r. none ∷ r) c.sizes;
      present = ap (λ r. false ∷ r) c.present;
      words = none-HasWords rest c.words;
    })
count_words-Counted (some shard ∷ rest) counts h =
    let (nonempty, h₁) = throw_if-eq-ok (is_empty shard) _ _ h in
    let (later, e, h₂) = >>=-eq-ok (count_words rest) _ h₁ in
    let c = count_words-Counted rest later e in
    subst (Counted (some shard ∷ rest)) (ok-injective h₂) (record {
      sizes = ap (λ r. some (length shard) ∷ r) c.sizes;
      present = ap (λ r. true ∷ r) c.present;
      words = some-HasWords shard rest nonempty c.words;
    })

pub initial_metadata-Describes :
    (shards : ShardSlots) (metadata : Metadata)
    → initial_metadata shards ≡ ok metadata
    → Describes shards metadata
unfolding initial_metadata
initial_metadata-Describes shards metadata h =
    let (counts, e, h₁) = >>=-eq-ok (count_words shards) _ h in
    let c = count_words-Counted shards counts e in
    subst (Describes shards) (ok-injective h₁) (record {
      counts = c.sizes;
      available = c.present;
      sized = length-replicate (length shards) false;
      words = c.words;
    })

module _ (memory : Memory) (m : IsMemory memory) where
  allocate_lem :
      (required : List Bool) (counts : List (Option ℕ)) (allocated : ShardSlots) (i n : ℕ)
      → allocate memory required counts ≡ ok allocated
      → Required required i
      → get_elem? counts i ≡ some (some n)
      → (buffer : WordShard) × Holds allocated i buffer × (length buffer ≡ n)
  unfolding allocate
  allocate_lem [] counts allocated i n h r c = cc
  allocate_lem (first ∷ required) [] allocated i n h r c = cc
  allocate_lem (true ∷ required) (none ∷ counts) allocated i n h r c = cc
  allocate_lem (true ∷ required) (some words ∷ counts) allocated zero n h r c =
      let (buffer, e, h₁) = >>=-eq-ok (memory.malloc words) _ h in
      let (later, e', h₂) = >>=-eq-ok (allocate memory required counts) _ h₁ in
      subst (λ a. (buffer : WordShard) × Holds a zero buffer × (length buffer ≡ n))
        (ok-injective h₂) (buffer, refl, m.malloc words buffer e ∙ some-eq (some-eq c))
  allocate_lem (true ∷ required) (some words ∷ counts) allocated (suc i) n h r c =
      let (buffer, e, h₁) = >>=-eq-ok (memory.malloc words) _ h in
      let (later, e', h₂) = >>=-eq-ok (allocate memory required counts) _ h₁ in
      subst (λ a. (buffer : WordShard) × Holds a (suc i) buffer × (length buffer ≡ n))
        (ok-injective h₂) (allocate_lem required counts later i n e' r c)
  allocate_lem (false ∷ required) (count ∷ counts) allocated zero n h r c = cc
  allocate_lem (false ∷ required) (count ∷ counts) allocated (suc i) n h r c =
      let (later, e, h₁) = >>=-eq-ok (allocate memory required counts) _ h in
      subst (λ a. (buffer : WordShard) × Holds a (suc i) buffer × (length buffer ≡ n))
        (ok-injective h₁) (allocate_lem required counts later i n e r c)

  upload_lem :
      (required : List Bool) (shards allocated buffers : ShardSlots) (i : ℕ) (buffer : WordShard)
      (held : Option WordShard)
      → upload memory required shards allocated ≡ ok buffers
      → Required required i
      → get_elem? shards i ≡ some held
      → Holds allocated i buffer
      → (written : Option WordShard) × (upload_one memory true held (some buffer) ≡ ok written)
        × (get_elem? buffers i ≡ some written)
  unfolding upload
  upload_lem [] shards allocated buffers i buffer held h r s a = cc
  upload_lem (first ∷ required) [] allocated buffers i buffer held h r s a = cc
  upload_lem (first ∷ required) (shard ∷ shards) [] buffers i buffer held h r s a = cc
  upload_lem (first ∷ required) (shard ∷ shards) (empty ∷ allocated) buffers zero buffer held h r s
        a =
      let (written, e, h₁) = >>=-eq-ok (upload_one memory first shard empty) _ h in
      let (later, e', h₂) = >>=-eq-ok (upload memory required shards allocated) _ h₁ in
      let run = rw (some-eq r, some-eq s, some-eq a) at e in
      subst
        (λ b.
          (written : Option WordShard) × (upload_one memory true held (some buffer) ≡ ok written)
          × (get_elem? b zero ≡ some written))
        (ok-injective h₂) (written, run, refl)
  upload_lem (first ∷ required) (shard ∷ shards) (empty ∷ allocated) buffers (suc i) buffer held h r
        s a =
      let (written, e, h₁) = >>=-eq-ok (upload_one memory first shard empty) _ h in
      let (later, e', h₂) = >>=-eq-ok (upload memory required shards allocated) _ h₁ in
      subst
        (λ b.
          (written : Option WordShard) × (upload_one memory true held (some buffer) ≡ ok written)
          × (get_elem? b (suc i) ≡ some written))
        (ok-injective h₂) (upload_lem required shards allocated later i buffer held e' r s a)

  pub get_elem?-size :
      (after : ShardSlots) (i : ℕ) (shard : WordShard)
      → Holds after i shard
      → get_elem? (map size after) i ≡ some (some (length shard))
  unfolding size
  get_elem?-size [] i shard h = cc
  get_elem?-size (first ∷ after) zero shard h = rw (some-eq h) refl
  get_elem?-size (first ∷ after) (suc i) shard h = get_elem?-size after i shard h

  -- The buffers of a run, before its first launch.
  module _ (required : List Bool) (shards after allocated buffers : ShardSlots)
      (allocates : allocate memory required (map size after) ≡ ok allocated)
      (uploads : upload memory required shards allocated ≡ ok buffers) where
    uploaded :
        (i : ℕ) (shard : WordShard)
        → Required required i
        → Holds shards i shard
        → Holds after i shard
        → Holds buffers i shard
    unfolding upload_one
    uploaded i shard r held kept =
        let (buffer, room, sized) =
          allocate_lem required (map size after) allocated i (length shard) allocates r
            (get_elem?-size after i shard kept) in
        let (written, run, found) =
          upload_lem required shards allocated buffers i buffer (some shard) uploads r held room in
        let (copied, e, h) = >>=-eq-ok (memory.memcpy buffer shard) _ run in
        let same = m.memcpy buffer shard copied sized e in
        found ∙ ap some (sym (ok-injective h) ∙ ap some same)

    kept_room :
        (i : ℕ) (shard : WordShard)
        → Required required i
        → Lacks shards i
        → Holds after i shard
        → (buffer : WordShard) × Holds buffers i buffer × (length buffer ≡ length shard)
    unfolding upload_one
    kept_room i shard r lacks kept =
        let (buffer, room, sized) =
          allocate_lem required (map size after) allocated i (length shard) allocates r
            (get_elem?-size after i shard kept) in
        let (written, run, found) =
          upload_lem required shards allocated buffers i buffer none uploads r lacks room in
        (buffer, found ∙ ap some (sym (ok-injective run)), sized)

    pub upload-IsLoaded :
        ((i : ℕ) (shard : WordShard) → Holds shards i shard → Holds after i shard)
        → length after ≡ length shards
        → IsLoaded required shards after buffers
    upload-IsLoaded kept l = record {
      room = λ i shard r h.
          let (held, e) = get_elem?-some shards i (omega (arith, l, get_elem?-lt after i h)) in
          elim (Option-cases held) [
            | inl absent ↦ kept_room i shard r (e ∙ ap some absent) h
            | inr (there, present) ↦
                let same = some-eq (some-eq (sym (kept i there (e ∙ ap some present)) ∙ h)) in
                (
                  shard,
                  uploaded i shard r (e ∙ ap some present ∙ ap (λ w. some (some w)) same) h,
                  refl,
                )
          ];
      same = λ i shard r h. uploaded i shard r h (kept i shard h);
    }

pub initial_metadata_offsets :
    (shards : ShardSlots) (metadata : Metadata)
    → initial_metadata shards ≡ ok metadata
    → length metadata.source_offsets ≡ 0
unfolding initial_metadata
initial_metadata_offsets shards metadata h =
    let (counts, e, h₁) = >>=-eq-ok (count_words shards) _ h in
    ap (λ (m : Metadata). length m.source_offsets) (sym (ok-injective h₁))
