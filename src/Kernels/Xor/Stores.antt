-- ===== src/Kernels/Xor/Stores.antt =====
-- Writes that all agree with one result, in whatever order they are made.
use coded_llm.Base.{
  ℕ, zero, suc, ◌<◌, ◌≡◌, refl, List, [], ◌∷◌, ◌++◌, true, false, some, length, get_elem?, set, leb,
  ◌==◌, get_elem?-lt, get_elem?-set_self, get_elem?-set_ne, length-set, All, Result, ok, arith, sym,
  ap, ◌∙◌, inl, inr, Bool-cases, ==_iff, some-eq, subst,
}
use coded_llm.Base.Sets.{contains}
use coded_llm.Coding.Codec.{WordShard}
use coded_llm.Kernels.Xor.{Thread, Writes, store_all, run_threads}

unfoldable pub targets : Writes → List ℕ
targets [] = []
targets ((i, word) ∷ rest) = i ∷ targets rest

pub targets-append : (xs ys : Writes) → targets (xs ++ ys) ≡ targets xs ++ targets ys
unfolding targets
targets-append [] ys = refl
targets-append ((i, word) ∷ xs) ys = ap (λ r. i ∷ r) (targets-append xs ys)

-- Every write puts a word of the result where it belongs.
abbrev pub Agree : WordShard → Writes → Type 0
Agree result = All (λ w. get_elem? result w.0 ≡ some w.1)

pub Agree-append :
    (result : WordShard) (xs ys : Writes)
    → Agree result xs
    → Agree result ys
    → Agree result (xs ++ ys)
Agree-append result [] ys h k = k
Agree-append result (x ∷ xs) ys h k = (h.0, Agree-append result xs ys h.1 k)

-- The word at an index is that of the result already.
abbrev pub IsRight : WordShard → WordShard → ℕ → Type 0
IsRight result output i = get_elem? output i ≡ get_elem? result i

set-IsRight :
    (result output : WordShard) (j word i : ℕ)
    → get_elem? result j ≡ some word
    → j < length output
    → IsRight result output i
    → IsRight result (set output j word) i
set-IsRight result output j word i h lt r = elim (Bool-cases (j == i)) [
  | inl e ↦ let same = (==_iff j i).0 e in rw (← same) (get_elem?-set_self output j word lt ∙ sym h)
  | inr e ↦ get_elem?-set_ne output j i word (λ same. ground arith) ∙ r
]

pub record IsStored (result output : WordShard) (writes : Writes) : Type 0 where
  pub after : WordShard
  pub stored : store_all writes output ≡ ok after
  pub sized : length after ≡ length output
  pub kept : (i : ℕ) → IsRight result output i → IsRight result after i
  pub written : (i : ℕ) → contains (targets writes) i ≡ true → IsRight result after i

pub store_all-IsStored :
    (result output : WordShard) (writes : Writes)
    → length output ≡ length result
    → Agree result writes
    → IsStored result output writes
unfolding store_all targets contains
store_all-IsStored result output [] l h = record {
  after = output;
  stored = refl;
  sized = refl;
  kept = λ i r. r;
  written = λ i c. cc;
}
store_all-IsStored result output ((j, word) ∷ rest) l h =
    let lt : j < length output = omega (arith, get_elem?-lt result j h.0, l) in
    let below : leb (length output) j ≡ false = ground arith in
    let s = store_all-IsStored result (set output j word) rest (length-set output j word ∙ l) h.1 in
    record {
      after = s.after;
      stored = rw below s.stored;
      sized = s.sized ∙ length-set output j word;
      kept = λ i r. s.kept i (set-IsRight result output j word i h.0 lt r);
      written = λ i c. elim (Bool-cases (j == i)) [
        | inl e ↦
            let same = (==_iff j i).0 e in
            s.kept i (rw (← same) (get_elem?-set_self output j word lt ∙ sym h.0))
        | inr e ↦ s.written i (ground arith)
      ];
    }

-- What a thread writes, if all of it agrees with the result.
pub record IsAgreeing (result : WordShard) (kernel : Thread → Result Writes) (thread : Thread)
    : Type 0 where
  pub writes : Writes
  pub runs : kernel thread ≡ ok writes
  pub agree : Agree result writes

pub record IsFinished (result output : WordShard) (kernel : Thread → Result Writes)
    (agreeing : (thread : Thread) → IsAgreeing result kernel thread) (order : List Thread)
    : Type 0 where
  pub after : WordShard
  pub runs : run_threads order kernel output ≡ ok after
  pub sized : length after ≡ length output
  pub kept : (i : ℕ) → IsRight result output i → IsRight result after i
  pub written :
      (p : ℕ) (thread : Thread) (i : ℕ)
      → get_elem? order p ≡ some thread
      → contains (targets (agreeing thread).writes) i ≡ true
      → IsRight result after i

pub run_threads-IsFinished :
    (result output : WordShard) (kernel : Thread → Result Writes)
    (agreeing : (thread : Thread) → IsAgreeing result kernel thread) (order : List Thread)
    → length output ≡ length result
    → IsFinished result output kernel agreeing order
unfolding run_threads
run_threads-IsFinished result output kernel agreeing [] l = record {
  after = output;
  runs = refl;
  sized = refl;
  kept = λ i r. r;
  written = λ p thread i e c. cc;
}
run_threads-IsFinished result output kernel agreeing (first ∷ rest) l =
    let a = agreeing first in
    let s = store_all-IsStored result output a.writes l a.agree in
    let r = run_threads-IsFinished result s.after kernel agreeing rest (s.sized ∙ l) in
    record {
      after = r.after;
      runs = rw (a.runs, s.stored) r.runs;
      sized = r.sized ∙ s.sized;
      kept = λ i k. r.kept i (s.kept i k);
      written = written first rest s r;
    }
  where
    written :
        (first : Thread) (rest : List Thread) (s : IsStored result output (agreeing first).writes)
        (r : IsFinished result s.after kernel agreeing rest) (p : ℕ) (thread : Thread) (i : ℕ)
        → get_elem? (first ∷ rest) p ≡ some thread
        → contains (targets (agreeing thread).writes) i ≡ true
        → IsRight result r.after i
    written first rest s r zero thread i e c =
        let same : first ≡ thread = some-eq e in
        r.kept i
          (s.written i (subst (λ t. contains (targets (agreeing t).writes) i ≡ true) (sym same) c))
    written first rest s r (suc p) thread i e c = r.written p thread i e c
