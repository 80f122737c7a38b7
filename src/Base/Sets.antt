-- ===== src/Base/Sets.antt =====
-- A `std::unordered_set<ShardId>` as a list of its members: no result of the sources depends on
-- the order of such a set.
use Prim.Native.Nat.{ℕ, ◌+◌, ◌≤◌, ◌<◌}
use mathlib.Core.Path.{◌≡◌, refl}
use mathlib.Core.Bool.{Bool, true, false, ◌||◌, ◌&&◌, not}
use mathlib.Core.List.{List, [], ◌∷◌, ◌++◌}
use native.Mathlib.Omega.{arith}
use coded_llm.Base.Tests.{◌==◌, if◌then◌else◌}
use coded_llm.Base.Lists.{length}

-- `set.count(a) != 0`
unfoldable pub contains : List ℕ → ℕ → Bool
contains [] a = false
contains (x ∷ xs) a = x == a || contains xs a

-- `set.insert(a)`
unfoldable pub insert : List ℕ → ℕ → List ℕ
unfolding contains
insert xs a = if contains xs a then xs else a ∷ xs

-- `set.erase(a)`
unfoldable pub erase : List ℕ → ℕ → List ℕ
erase [] a = []
erase (x ∷ xs) a = if x == a then erase xs a else x ∷ erase xs a

unfoldable pub is_empty {ℓ} : {A : Type ℓ} → List A → Bool
is_empty [] = true
is_empty (x ∷ xs) = false

-- Whether every member of the list occurs in it once.
unfoldable pub distinct : List ℕ → Bool
unfolding contains
distinct [] = true
distinct (x ∷ xs) = not (contains xs x) && distinct xs

pub contains-erase :
    (xs : List ℕ) (a b : ℕ) → contains (erase xs a) b ≡ (not (a == b) && contains xs b)
unfolding contains erase
contains-erase [] a b = ground arith
contains-erase (x ∷ xs) a b = ground (arith, contains-erase xs a b)

pub length-erase-le : (xs : List ℕ) (a : ℕ) → length (erase xs a) ≤ length xs
unfolding erase
length-erase-le [] a = omega arith
length-erase-le (x ∷ xs) a = ground (arith, length-erase-le xs a)

pub length-erase : (xs : List ℕ) (a : ℕ) → contains xs a ≡ true → length (erase xs a) < length xs
unfolding contains erase
length-erase [] a h = cc
length-erase (x ∷ xs) a h = ground (arith, length-erase xs a, length-erase-le xs a)

pub contains-insert : (xs : List ℕ) (a b : ℕ) → contains (insert xs a) b ≡ (a == b || contains xs b)
unfolding contains insert
contains-insert xs a b = ground arith

pub contains-append :
    (xs ys : List ℕ) (a : ℕ) → contains (xs ++ ys) a ≡ (contains xs a || contains ys a)
unfolding contains
contains-append [] ys a = refl
contains-append (x ∷ xs) ys a = ground (arith, contains-append xs ys a)

-- How often a number occurs in a list.
unfoldable pub count : ℕ → List ℕ → ℕ
count a [] = 0
count a (x ∷ xs) = (if x == a then 1 else 0) + count a xs

pub count-append : (a : ℕ) (xs ys : List ℕ) → count a (xs ++ ys) ≡ count a xs + count a ys
unfolding count
count-append a [] ys = omega arith
count-append a (x ∷ xs) ys = omega (arith, count-append a xs ys)

pub contains-count : (xs : List ℕ) (a : ℕ) → contains xs a ≡ false → count a xs ≡ 0
unfolding contains count
contains-count [] a h = refl
contains-count (x ∷ xs) a h = ground (arith, contains-count xs a)

pub contains-count_pos : (xs : List ℕ) (a : ℕ) → contains xs a ≡ true → 1 ≤ count a xs
unfolding contains count
contains-count_pos [] a h = cc
contains-count_pos (x ∷ xs) a h = ground (arith, contains-count_pos xs a)

pub count-erase :
    (xs : List ℕ) (a b : ℕ) → count b (erase xs a) ≡ (if a == b then 0 else count b xs)
unfolding count erase
count-erase [] a b = ground arith
count-erase (x ∷ xs) a b = ground (arith, count-erase xs a b)

pub length-erase-add-count : (xs : List ℕ) (a : ℕ) → length (erase xs a) + count a xs ≡ length xs
unfolding count erase
length-erase-add-count [] a = refl
length-erase-add-count (x ∷ xs) a = ground (arith, length-erase-add-count xs a)

pub count_zero-contains : (xs : List ℕ) (a : ℕ) → count a xs ≡ 0 → contains xs a ≡ false
unfolding contains count
count_zero-contains [] a h = refl
count_zero-contains (x ∷ xs) a h = ground (arith, count_zero-contains xs a)

pub count-insert :
    (xs : List ℕ) (a b : ℕ)
    → count a xs ≡ 0
    → count b (insert xs a) ≡ (if a == b then 1 else 0) + count b xs
unfolding insert count
count-insert xs a b h = rw (count_zero-contains xs a h)

pub length-insert : (xs : List ℕ) (a : ℕ) → count a xs ≡ 0 → length (insert xs a) ≡ length xs + 1
unfolding insert
length-insert xs a h = rw (count_zero-contains xs a h) (omega arith)
