-- ===== src/Base/Words.antt =====
-- `^` on unsigned words, and word by word on shards.
use Prim.Native.Nat.{
  ℕ, zero, suc, ◌+◌, ◌-◌, ◌*◌, ◌/◌, ◌%◌, ◌≤◌, ◌<◌, ◌^◌, bit_xor, digits, bitwise, bit_xor-bitwise,
  differ,
}
use native.Mathlib.Nat.{le_refl, pow-suc}
use mathlib.Core.Path.{◌≡◌, refl, ap, ap₂, sym, ◌∙◌}
use mathlib.Core.List.{List, [], ◌∷◌}
use native.Mathlib.Omega.{arith}
use coded_llm.Base.Lists.{length, replicate}

differ-bits : (x y : ℕ) → x < 2 → y < 2 → differ x y ≡ (x + y) % 2
differ-bits zero y p q = omega arith
differ-bits (suc zero) zero p q = omega arith
differ-bits (suc zero) (suc zero) p q = omega arith
differ-bits (suc x) (suc (suc y)) p q = absurd (omega arith)
differ-bits (suc (suc x)) y p q = absurd (omega arith)

differ-eq-mod : (a b : ℕ) → differ (a % 2) (b % 2) ≡ (a % 2 + b % 2) % 2
differ-eq-mod a b = differ-bits (a % 2) (b % 2) (omega arith) (omega arith)

-- The native `^` runs on a count of digits to go; a count above the number itself changes nothing.
one_more_digit :
    (count x y : ℕ)
    → x ≤ count
    → digits (λ d. d) differ (suc count) x y ≡ digits (λ d. d) differ count x y
one_more_digit zero zero y enough = refl
one_more_digit (suc count) zero y enough = refl
one_more_digit zero (suc x) y enough = absurd (omega arith)
one_more_digit (suc count) (suc x) y enough =
    ap (λ d. d * 2 + differ (suc x % 2) (y % 2))
      (one_more_digit count (suc x / 2) (y / 2) (omega arith))

more_digits :
    (spare count fuel x y : ℕ)
    → x ≤ count
    → fuel ≡ count + spare
    → digits (λ d. d) differ fuel x y ≡ digits (λ d. d) differ count x y
more_digits zero count fuel x y enough sum = let same : fuel ≡ count = omega arith in rw same
more_digits (suc spare) count fuel x y enough sum =
    let next : fuel ≡ suc (count + spare) = omega arith in
    rw next (
      one_more_digit (count + spare) x y (omega arith)
      ∙ more_digits spare count (count + spare) x y enough refl)

bitwise-suc :
    (a b : ℕ)
    → bitwise (λ d. d) differ (suc a) b
      ≡ bitwise (λ d. d) differ (suc a / 2) (b / 2) * 2 + differ (suc a % 2) (b % 2)
bitwise-suc a b =
    let half = suc a / 2 in
    ap (λ d. d * 2 + differ (suc a % 2) (b % 2))
      (more_digits (a - half) half a half (b / 2) (le_refl _) (omega arith))

-- The law of the lowest digit, from which the others follow by induction on the digits.
bit_xor_step : (a b : ℕ) → bit_xor a b ≡ bit_xor (a / 2) (b / 2) * 2 + (a % 2 + b % 2) % 2
bit_xor_step zero b = simp bit_xor-bitwise (omega arith)
bit_xor_step (suc a) b =
    simp bit_xor-bitwise (omega (arith, bitwise-suc a b, differ-eq-mod (suc a) b))

zero-bit_xor : (a : ℕ) → bit_xor 0 a ≡ a
zero-bit_xor a = simp bit_xor-bitwise

bit_xor-half : (a b : ℕ) → bit_xor a b / 2 ≡ bit_xor (a / 2) (b / 2)
bit_xor-half a b = omega (arith, bit_xor_step a b)

bit_xor-parity : (a b : ℕ) → bit_xor a b % 2 ≡ (a % 2 + b % 2) % 2
bit_xor-parity a b = omega (arith, bit_xor_step a b)

-- Two numbers with the same half and the same last digit are the same.
eq_of_digits : (x y : ℕ) → x / 2 ≡ y / 2 → x % 2 ≡ y % 2 → x ≡ y
eq_of_digits x y p q = omega arith

comm_fuel : (n a b : ℕ) → a + b ≤ n → bit_xor a b ≡ bit_xor b a
comm_fuel zero a b h = let ea : a ≡ 0 = omega arith in let eb : b ≡ 0 = omega arith in rw (ea, eb)
comm_fuel (suc n) a b h =
    eq_of_digits _ _
      (bit_xor-half a b ∙ comm_fuel n (a / 2) (b / 2) (omega arith) ∙ sym (bit_xor-half b a))
      (omega (arith, bit_xor-parity a b, bit_xor-parity b a))

assoc_fuel : (n a b c : ℕ) → a + b + c ≤ n → bit_xor (bit_xor a b) c ≡ bit_xor a (bit_xor b c)
assoc_fuel zero a b c h =
    let ea : a ≡ 0 = omega arith in
    let eb : b ≡ 0 = omega arith in let ec : c ≡ 0 = omega arith in rw (ea, eb, ec)
assoc_fuel (suc n) a b c h =
    eq_of_digits _ _
      (rw (bit_xor-half, bit_xor-half, bit_xor-half, bit_xor-half)
        (assoc_fuel n (a / 2) (b / 2) (c / 2) (omega arith)))
      (omega (
        arith,
        bit_xor-parity a b,
        bit_xor-parity b c,
        bit_xor-parity (bit_xor a b) c,
        bit_xor-parity a (bit_xor b c),
      ))

self_fuel : (n a : ℕ) → a ≤ n → bit_xor a a ≡ 0
self_fuel zero a h = let ea : a ≡ 0 = omega arith in rw ea
self_fuel (suc n) a h = omega (arith, bit_xor_step a a, self_fuel n (a / 2) (omega arith))

pub bit_xor_comm : (a b : ℕ) → bit_xor a b ≡ bit_xor b a
bit_xor_comm a b = comm_fuel (a + b) a b (omega arith)

pub bit_xor_assoc : (a b c : ℕ) → bit_xor (bit_xor a b) c ≡ bit_xor a (bit_xor b c)
bit_xor_assoc a b c = assoc_fuel (a + b + c) a b c (omega arith)

pub bit_xor_cancel : (a b : ℕ) → bit_xor (bit_xor a b) b ≡ a
bit_xor_cancel a b =
    rw (bit_xor_assoc a b b, self_fuel b b (le_refl b), bit_xor_comm a 0) (zero-bit_xor a)

-- A word of `w` bits stays one.
pub bit_xor-lt-pow : (w a b : ℕ) → a < 2 ^ w → b < 2 ^ w → bit_xor a b < 2 ^ w
bit_xor-lt-pow zero a b p q =
    let ea : a ≡ 0 = omega arith in let eb : b ≡ 0 = omega arith in rw (ea, eb) (omega arith)
bit_xor-lt-pow (suc w) a b p q = omega (
  arith,
  pow-suc 2 w,
  bit_xor_step a b,
  bit_xor-lt-pow w (a / 2) (b / 2) (omega (arith, pow-suc 2 w)) (omega (arith, pow-suc 2 w)),
)

-- `for (word < word_count) acc.at(word) ^= input.at(word)`, for shards of equal size.
unfoldable pub xor_words : List ℕ → List ℕ → List ℕ
xor_words [] input = []
xor_words (a ∷ acc) [] = []
xor_words (a ∷ acc) (b ∷ input) = bit_xor a b ∷ xor_words acc input

pub xor_words_comm : (xs ys : List ℕ) → xor_words xs ys ≡ xor_words ys xs
unfolding xor_words
xor_words_comm [] [] = refl
xor_words_comm [] (y ∷ ys) = refl
xor_words_comm (x ∷ xs) [] = refl
xor_words_comm (x ∷ xs) (y ∷ ys) = ap₂ (◌∷◌) (bit_xor_comm x y) (xor_words_comm xs ys)

pub xor_words_assoc :
    (xs ys zs : List ℕ) → xor_words (xor_words xs ys) zs ≡ xor_words xs (xor_words ys zs)
unfolding xor_words
xor_words_assoc [] ys zs = refl
xor_words_assoc (x ∷ xs) [] zs = refl
xor_words_assoc (x ∷ xs) (y ∷ ys) [] = refl
xor_words_assoc (x ∷ xs) (y ∷ ys) (z ∷ zs) =
    ap₂ (◌∷◌) (bit_xor_assoc x y z) (xor_words_assoc xs ys zs)

pub xor_words_cancel :
    (xs ys : List ℕ) → length xs ≡ length ys → xor_words (xor_words xs ys) ys ≡ xs
unfolding xor_words
xor_words_cancel [] ys h = refl
xor_words_cancel (x ∷ xs) [] h = absurd (omega arith)
xor_words_cancel (x ∷ xs) (y ∷ ys) h =
    ap₂ (◌∷◌) (bit_xor_cancel x y) (xor_words_cancel xs ys (omega arith))

pub zeros-xor_words : (n : ℕ) (xs : List ℕ) → length xs ≡ n → xor_words (replicate n 0) xs ≡ xs
unfolding xor_words
zeros-xor_words zero [] h = refl
zeros-xor_words zero (x ∷ xs) h = absurd (omega arith)
zeros-xor_words (suc n) [] h = absurd (omega arith)
zeros-xor_words (suc n) (x ∷ xs) h = ap₂ (◌∷◌) (zero-bit_xor x) (zeros-xor_words n xs (omega arith))

pub length-xor_words :
    (xs ys : List ℕ) → length xs ≡ length ys → length (xor_words xs ys) ≡ length xs
unfolding xor_words
length-xor_words [] ys h = refl
length-xor_words (x ∷ xs) [] h = absurd (omega arith)
length-xor_words (x ∷ xs) (y ∷ ys) h = ap suc (length-xor_words xs ys (omega arith))
