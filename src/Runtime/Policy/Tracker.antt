-- ===== src/Runtime/Policy/Tracker.antt =====
-- What the tracker knows of the arrivals.
use coded_llm.Base.{
  ℕ, zero, suc, ◌+◌, ◌≤◌, ◌<◌, ◌≡◌, ◌≢◌, ◌↔◌, refl, ap, inl, inr, List, true, false, Option, none,
  some, length, set, replicate, get_elem?-set_self, get_elem?-set_ne, arith, Bool-cases, leb,
  leb→lt, if◌then◌else◌, ok, throw_if-eq-ok, ok-injective, subst, ◌==◌, ==_iff, ==_refl, ◌⊎◌, sym,
  ◌||◌, ltb, ◌%◌, ◌^◌,
}
use coded_llm.Base.Int.{ℤ, ltb_ℤ, ◌≤ℤ◌}
use coded_llm.Core.{max_shard_id}
use coded_llm.Base.Sets.{contains, is_empty}
use coded_llm.Runtime.Policy.{
  ShardArrivalTracker, shard_arrival_tracker, mark_arrived, recorded_at, earlier, has_value_at,
  all_arrived, missing_from, is_systematic_complete, get_missing_systematic,
}

recorded_at-set :
    (arrivals : List (Option ℤ)) (id : ℕ) (time : ℤ) (i : ℕ)
    → id < length arrivals
    → recorded_at (set arrivals id (some time)) i
      ≡ (if id == i then some time else recorded_at arrivals i)
unfolding recorded_at
recorded_at-set arrivals id time i lt = elim (Bool-cases (id == i)) [
  | inl e ↦
      let same : id ≡ i = (==_iff id i).0 e in
      rw (e, ← same, recorded_at, get_elem?-set_self arrivals id (some time) lt)
  | inr e ↦
      let other : id ≢ i = λ same. ground arith in
      rw (e, recorded_at, get_elem?-set_ne arrivals id i (some time) other)
]

-- Marking an arrival changes the time of that shard, and no other shard's.
pub recorded_at-mark_arrived :
    (tracker after : ShardArrivalTracker) (id : ℕ) (now : ℤ) (i : ℕ)
    → mark_arrived tracker id now ≡ ok after
    → recorded_at after.arrivals i ≡ (
        if id == i
        then some (earlier (recorded_at tracker.arrivals id) now)
        else recorded_at tracker.arrivals i)
unfolding mark_arrived
recorded_at-mark_arrived tracker after id now i h =
    let (bounds, marked) = throw_if-eq-ok (leb (length tracker.arrivals) id) _ _ h in
    subst
      (λ (t : ShardArrivalTracker). recorded_at t.arrivals i ≡ (
        if id == i
        then some (earlier (recorded_at tracker.arrivals id) now)
        else recorded_at tracker.arrivals i))
      (ok-injective marked)
      (recorded_at-set tracker.arrivals id _ i (leb→lt (length tracker.arrivals) id bounds))

-- A time that is not behind a recorded one, if there is one.
abbrev pub IsNoLater : Option ℤ → ℤ → Type 0
IsNoLater none time = Unit
IsNoLater (some recorded) time = time ≤ℤ recorded

-- The earlier of a recorded time, if there is one, and a new one.
pub record IsEarliest (before after : Option ℤ) (now : ℤ) : Type 0 where
  pub time : ℤ
  pub known : after ≡ some time
  pub no_later_than_now : time ≤ℤ now
  pub no_later_than_before : IsNoLater before time
  pub marked : (time ≡ now) ⊎ (before ≡ some time)

earlier-IsEarliest :
    (before : Option ℤ) (now : ℤ) → IsEarliest before (some (earlier before now)) now
unfolding earlier
earlier-IsEarliest none now = record {
  time = now;
  known = refl;
  no_later_than_now = omega arith;
  no_later_than_before = tt;
  marked = inl refl;
}
earlier-IsEarliest (some recorded) now = elim (Bool-cases (ltb_ℤ now recorded)) [
  | inl sooner ↦ rw sooner (record {
    time = now;
    known = refl;
    no_later_than_now = omega arith;
    no_later_than_before = ground arith;
    marked = inl refl;
  })
  | inr later ↦ rw later (record {
    time = recorded;
    known = refl;
    no_later_than_now = ground arith;
    no_later_than_before = omega arith;
    marked = inr refl;
  })
]

-- An arrival that is marked without an error is recorded: the shard's time is then no later than
-- this arrival and than the time recorded before, and is one of them. Every other shard's time, or
-- its lack, is as before.
pub mark_arrived-IsEarliest :
    (tracker after : ShardArrivalTracker) (id : ℕ) (now : ℤ) (other : ℕ)
    → mark_arrived tracker id now ≡ ok after
    → IsEarliest (recorded_at tracker.arrivals id) (recorded_at after.arrivals id) now
      × ((other ≡ id) ⊎ (recorded_at after.arrivals other ≡ recorded_at tracker.arrivals other))
mark_arrived-IsEarliest tracker after id now other h =
    let here = rw (==_refl id) at (recorded_at-mark_arrived tracker after id now id h) in
    let there = recorded_at-mark_arrived tracker after id now other h in
    (
      rw here (earlier-IsEarliest (recorded_at tracker.arrivals id) now),
      elim (Bool-cases (id == other)) [
        | inl e ↦ inl (sym ((==_iff id other).0 e))
        | inr e ↦ inr (rw e at there)
      ],
    )

missing_from_sound :
    (arrivals : List (Option ℤ)) (n id i : ℕ)
    → contains (missing_from arrivals n id) i ≡ true
    → (id ≤ i) × (i < id + n) × (has_value_at arrivals i ≡ false)
unfolding missing_from contains
missing_from_sound arrivals zero id i h = cc
missing_from_sound arrivals (suc n) id i h = elim (Bool-cases (has_value_at arrivals id)) [
  | inl e ↦
      let (p, q, r) = missing_from_sound arrivals n (id + 1) i (rw (e, missing_from) at h) in
      (omega arith, omega arith, r)
  | inr e ↦ elim (Bool-cases (id == i)) [
    | inl same ↦ let eq : id ≡ i = (==_iff id i).0 same in (omega arith, omega arith, rw (← eq) e)
    | inr other ↦
        let (p, q, r) =
          missing_from_sound arrivals n (id + 1) i (rw (e, missing_from, other) at h) in
        (omega arith, omega arith, r)
  ]
]

missing_from_complete :
    (arrivals : List (Option ℤ)) (n id i : ℕ)
    → id ≤ i
    → i < id + n
    → has_value_at arrivals i ≡ false
    → contains (missing_from arrivals n id) i ≡ true
unfolding missing_from contains
missing_from_complete arrivals zero id i p q r = absurd (omega arith)
missing_from_complete arrivals (suc n) id i p q r = elim (Bool-cases (id == i)) [
  | inl same ↦
      let eq : id ≡ i = (==_iff id i).0 same in
      let absent : has_value_at arrivals id ≡ false = rw eq r in rw (absent, missing_from, same)
  | inr other ↦
      let rest = missing_from_complete arrivals n (id + 1) i (ground arith) (omega arith) r in
      elim (Bool-cases (has_value_at arrivals id)) [
        | inl e ↦ rw (e, missing_from) rest
        | inr e ↦ rw (e, missing_from, other) rest
      ]
]

-- The missing shards are exactly the systematic ones that have not arrived.
pub get_missing_systematic_iff :
    (tracker : ShardArrivalTracker) (i : ℕ)
    → (contains (get_missing_systematic tracker) i ≡ true)
      ↔ ((i < tracker.systematic_shard_count) × (has_value_at tracker.arrivals i ≡ false))
unfolding get_missing_systematic
get_missing_systematic_iff tracker i = (
  λ h.
      let (_, q, r) = missing_from_sound tracker.arrivals tracker.systematic_shard_count 0 i h in
      (omega arith, r),
  λ (q, r).
      missing_from_complete tracker.arrivals tracker.systematic_shard_count 0 i (omega arith)
        (omega arith) r,
)

all_arrived-missing_from :
    (arrivals : List (Option ℤ)) (n id : ℕ)
    → all_arrived arrivals n id ≡ is_empty (missing_from arrivals n id)
unfolding all_arrived missing_from is_empty
all_arrived-missing_from arrivals zero id = refl
all_arrived-missing_from arrivals (suc n) id =
    ground (arith, all_arrived-missing_from arrivals n (id + 1))

-- The systematic shards are complete exactly if none is missing.
pub is_systematic_complete-missing :
    (tracker : ShardArrivalTracker)
    → is_systematic_complete tracker ≡ is_empty (get_missing_systematic tracker)
unfolding is_systematic_complete get_missing_systematic
is_systematic_complete-missing tracker =
    all_arrived-missing_from tracker.arrivals tracker.systematic_shard_count 0

recorded_at-replicate : (n i : ℕ) → recorded_at (replicate n none) i ≡ none
unfolding recorded_at
recorded_at-replicate zero i = refl
recorded_at-replicate (suc n) zero = refl
recorded_at-replicate (suc n) (suc i) = recorded_at-replicate n i

pub has_value_at-replicate : (n i : ℕ) → has_value_at (replicate n none) i ≡ false
unfolding has_value_at
has_value_at-replicate n i = rw (recorded_at-replicate n i, has_value_at)

-- A new tracker: nothing has arrived, and there is something to wait for.
pub record IsNew (k m : ℕ) (tracker : ShardArrivalTracker) : Type 0 where
  pub empty : tracker.arrivals ≡ replicate (k + m) none
  pub incomplete : is_systematic_complete tracker ≡ false

all_arrived-new : (k n : ℕ) → 0 < k → all_arrived (replicate n none) k 0 ≡ false
unfolding all_arrived
all_arrived-new zero n h = absurd (omega arith)
all_arrived-new (suc k) n h = rw (has_value_at-replicate n 0)

pub shard_arrival_tracker-IsNew :
    (k m : ℕ) (tracker : ShardArrivalTracker)
    → shard_arrival_tracker k m ≡ ok tracker
    → IsNew k m tracker
unfolding shard_arrival_tracker is_systematic_complete
shard_arrival_tracker-IsNew k m tracker h =
    let (positive, h₁) = throw_if-eq-ok (k == 0 || m == 0) _ _ h in
    let (bounds, h₂) =
      throw_if-eq-ok
        (ltb max_shard_id k || ltb max_shard_id m || ltb (max_shard_id + 1) ((k + m) % 2 ^ 64)) _ _
        h₁ in
    let exact : (k + m) % 2 ^ 64 ≡ k + m = ground arith in
    subst (IsNew k m) (ok-injective h₂) (record {
      empty = ap (λ n. replicate n none) exact;
      incomplete = all_arrived-new k ((k + m) % 2 ^ 64) (ground arith);
    })
