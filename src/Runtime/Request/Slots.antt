-- ===== src/Runtime/Request/Slots.antt =====
-- The slots of a request against its tracker.
use coded_llm.Base.{
  ℕ, ◌<◌, ◌≡◌, ◌≢◌, refl, sym, ◌∙◌, Bool, true, false, ◌&&◌, ◌⊎◌, inl, inr, not, some, arith,
  Bool-cases, ok, length, set, length-set, get_elem?-set_self, get_elem?-set_ne, if◌then◌else◌,
  subst, [], ◌∷◌, leb, ◌==◌, ==_iff, throw_if-eq-ok, >>=-eq-ok, ok-injective, leb→lt,
}
use coded_llm.Base.Int.{ℤ}
use coded_llm.Base.Sets.{is_empty}
use coded_llm.Coding.Codec.{WordShard, ShardSlots, slot}
use coded_llm.Runtime.Policy.{ShardArrivalTracker, mark_arrived, has_value_at}
use coded_llm.Runtime.Policy.Tracker.{recorded_at-mark_arrived}
use coded_llm.Runtime.Request.{RequestState, store_shard, has_value}

-- The slots hold what the tracker has seen arrive, in shards of one size.
pub record Agrees (tracker : ShardArrivalTracker) (shards : ShardSlots) (word_count : ℕ)
    : Type 0 where
  pub sized : length shards ≡ length tracker.arrivals
  pub present : (i : ℕ) → has_value (slot shards i) ≡ has_value_at tracker.arrivals i
  pub words :
      (i : ℕ) (shard : WordShard)
      → slot shards i ≡ some shard
      → (length shard ≡ word_count) × (0 < word_count)

pub slot-set :
    (shards : ShardSlots) (i : ℕ) (shard : WordShard) (j : ℕ)
    → i < length shards
    → slot (set shards i (some shard)) j ≡ (if i == j then some shard else slot shards j)
unfolding slot
slot-set shards i shard j lt = elim (Bool-cases (i == j)) [
  | inl e ↦
      let same : i ≡ j = (==_iff i j).0 e in
      rw (e, ← same, slot, get_elem?-set_self shards i (some shard) lt)
  | inr e ↦
      let other : i ≢ j = λ same. ground arith in
      rw (e, slot, get_elem?-set_ne shards i j (some shard) other)
]

pub mark_arrived-length :
    (tracker after : ShardArrivalTracker) (id : ℕ) (now : ℤ)
    → mark_arrived tracker id now ≡ ok after
    → length after.arrivals ≡ length tracker.arrivals
unfolding mark_arrived
mark_arrived-length tracker after id now h =
    let (_, marked) = throw_if-eq-ok (leb (length tracker.arrivals) id) _ _ h in
    subst (λ (t : ShardArrivalTracker). length t.arrivals ≡ length tracker.arrivals)
      (ok-injective marked) (length-set tracker.arrivals id _)

pub has_value_at-mark_arrived :
    (tracker after : ShardArrivalTracker) (id : ℕ) (now : ℤ) (i : ℕ)
    → mark_arrived tracker id now ≡ ok after
    → has_value_at after.arrivals i ≡ (if id == i then true else has_value_at tracker.arrivals i)
unfolding has_value_at
has_value_at-mark_arrived tracker after id now i h =
    ground (arith, recorded_at-mark_arrived tracker after id now i h)

-- A new shard of the same size, stored and marked.
pub store-Agrees :
    (tracker after : ShardArrivalTracker) (shards : ShardSlots) (word_count id : ℕ)
    (payload : WordShard) (now : ℤ)
    → Agrees tracker shards word_count
    → id < length shards
    → 0 < length payload
    → (word_count ≡ 0) ⊎ (word_count ≡ length payload)
    → mark_arrived tracker id now ≡ ok after
    → Agrees after (set shards id (some payload)) (length payload)
store-Agrees tracker after shards word_count id payload now a lt filled size h = record {
  sized = length-set shards id _ ∙ a.sized ∙ sym (mark_arrived-length tracker after id now h);
  present = λ i. ground (
    arith,
    slot-set shards id payload i lt,
    has_value_at-mark_arrived tracker after id now i h,
    a.present i,
  );
  words = λ i shard held. ground (arith, slot-set shards id payload i lt, a.words i shard);
}

-- The size is set by the first shard, also by one that is a duplicate.
pub resize-Agrees :
    (tracker : ShardArrivalTracker) (shards : ShardSlots) (word_count : ℕ) (payload : WordShard)
    → Agrees tracker shards word_count
    → 0 < length payload
    → (word_count ≡ 0) ⊎ (word_count ≡ length payload)
    → Agrees tracker shards (length payload)
resize-Agrees tracker shards word_count payload a filled size = record {
  sized = a.sized;
  present = a.present;
  words = λ i shard held. ground (arith, a.words i shard);
}

-- What a stored shard, or a duplicate, does to a request whose slots and tracker agree.
pub record IsStored (state between : RequestState) (staged : Bool) : Type 0 where
  pub agrees : Agrees between.tracker between.shards between.word_count
  pub snapshot : between.snapshot ≡ state.snapshot
  pub tracker : staged ≡ false → between.tracker ≡ state.tracker

pub size_cases :
    (word_count : ℕ) (payload : WordShard)
    → (not (word_count == 0) && not (word_count == length payload)) ≡ false
    → (word_count ≡ 0) ⊎ (word_count ≡ length payload)
size_cases word_count payload h = ground arith

filled_of : (payload : WordShard) → is_empty payload ≡ false → 0 < length payload
unfolding is_empty
filled_of [] h = cc
filled_of (w ∷ payload) h = omega arith

pub store_shard-IsStored :
    (state : RequestState) (shard_id : ℕ) (payload : WordShard) (time : ℤ) (between : RequestState)
    (staged : Bool)
    → Agrees state.tracker state.shards state.word_count
    → store_shard state shard_id payload time ≡ ok (between, staged)
    → IsStored state between staged
unfolding store_shard
store_shard-IsStored state shard_id payload time between staged a e =
    let (bounds, e₁) = throw_if-eq-ok (leb (length state.shards) shard_id) _ _ e in
    let (filled, e₂) = throw_if-eq-ok (is_empty payload) _ _ e₁ in
    let (size, e₃) =
      throw_if-eq-ok (not (state.word_count == 0) && not (state.word_count == length payload)) _ _
        e₂ in
    let filled' = filled_of payload filled in
    let size' = size_cases state.word_count payload size in
    elim (Bool-cases (has_value (slot state.shards shard_id))) [
      | inl held ↦
          let same = ok-injective (rw held at e₃) in
          subst (λ (r : RequestState × Bool). IsStored state r.0 r.1) same
            (record {
              agrees =
                  resize-Agrees state.tracker state.shards state.word_count payload a filled' size';
              snapshot = refl;
              tracker = λ _. refl;
            })
      | inr free ↦
          let (tracker, marked, e₄) =
            >>=-eq-ok (mark_arrived state.tracker shard_id time) _ (rw free at e₃) in
          subst (λ (r : RequestState × Bool). IsStored state r.0 r.1) (ok-injective e₄)
            (record {
              agrees =
                  store-Agrees state.tracker tracker state.shards state.word_count shard_id payload
                    time a (leb→lt _ _ bounds) filled' size' marked;
              snapshot = refl;
              tracker = λ t. cc;
            })
    ]
