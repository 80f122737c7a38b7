-- ===== src/Coding/Recovery/Dependencies.antt =====
-- The sources and the dependencies of the planner's operations.
use coded_llm.Base.{
  ℕ, ◌+◌, ◌<◌, ◌≡◌, refl, sym, ◌∙◌, inl, inr, List, [], ◌∷◌, ◌++◌, false, some, ◌==◌, leb, length,
  All, All-append, ok, arith, Bool-cases, Option-cases, >>=-eq-ok, if_ind,
}
use mathlib.Core.List.{append-nil, append_assoc}
use coded_llm.Base.Maps.{find}
use coded_llm.Coding.Codec.{check_earlier, check_dependencies}
use coded_llm.Coding.Codec.Algebra.{without}
use coded_llm.Coding.Planner.{gather_sources, insert_sorted, sort, unique}

pub gather_sources-without :
    (producing : List (ℕ × ℕ)) (m : ℕ) (ns sources dependencies : List ℕ)
    → (gather_sources producing m ns sources dependencies).0 ≡ sources ++ without m ns
unfolding gather_sources without
gather_sources-without producing m [] sources dependencies = sym (append-nil sources)
gather_sources-without producing m (s ∷ ns) sources dependencies = elim (Bool-cases (s == m)) [
  | inl e ↦ rw (e, gather_sources) (gather_sources-without producing m ns sources dependencies)
  | inr e ↦
      rw (e, gather_sources)
        (gather_sources-without producing m ns (sources ++ s ∷ []) _
          ∙ append_assoc sources (s ∷ []) (without m ns))
]

module _ (n : ℕ) where
  abbrev Below : List ℕ → Type 0
  Below = All (λ d. d < n)

  find-lt :
      (producing : List (ℕ × ℕ)) (s v : ℕ)
      → All (λ e. e.1 < n) producing
      → find producing s ≡ some v
      → v < n
  unfolding find
  find-lt [] s v h e = cc
  find-lt ((k, w) ∷ producing) s v h e = ground (arith, find-lt producing s v h.1)

  gather-Below :
      (producing : List (ℕ × ℕ)) (m : ℕ) (ns sources dependencies : List ℕ)
      → All (λ e. e.1 < n) producing
      → Below dependencies
      → Below (gather_sources producing m ns sources dependencies).1
  unfolding gather_sources
  gather-Below producing m [] sources dependencies h b = b
  gather-Below producing m (s ∷ ns) sources dependencies h b = gather-Below producing m ns _ _ h (
      if_ind Below (s == m) (λ _. b)
        (λ _. elim (Option-cases (find producing s)) [
          | inl e ↦ rw e b
          | inr (v, e) ↦
              rw e (All-append (λ d. d < n) dependencies (v ∷ []) b (find-lt producing s v h e, tt))
        ]))

  insert_sorted-Below : (a : ℕ) (xs : List ℕ) → a < n → Below xs → Below (insert_sorted a xs)
  unfolding insert_sorted
  insert_sorted-Below a [] p b = (p, tt)
  insert_sorted-Below a (x ∷ xs) p b = ground (arith, insert_sorted-Below a xs p b.1)

  sort-Below : (xs : List ℕ) → Below xs → Below (sort xs)
  unfolding sort
  sort-Below [] b = tt
  sort-Below (x ∷ xs) b = insert_sorted-Below x (sort xs) b.0 (sort-Below xs b.1)

  unique-Below : (xs : List ℕ) → Below xs → Below (unique xs)
  unfolding unique
  unique-Below [] b = tt
  unique-Below (x ∷ []) b = b
  unique-Below (x ∷ y ∷ xs) b = ground (arith, unique-Below (y ∷ xs) b.1)

  Below-check_earlier : (xs : List ℕ) → Below xs → check_earlier n xs ≡ ok tt
  unfolding check_earlier
  Below-check_earlier [] b = refl
  Below-check_earlier (x ∷ xs) b =
      let later : leb n x ≡ false = ground (arith, b.0) in rw later (Below-check_earlier xs b.1)

  -- The dependencies of a new operation are earlier ones, if the producers are.
  pub check_earlier-gather :
      (producing : List (ℕ × ℕ)) (m : ℕ) (ns sources : List ℕ)
      → All (λ e. e.1 < n) producing
      → check_earlier n (unique (sort (gather_sources producing m ns sources []).1)) ≡ ok tt
  check_earlier-gather producing m ns sources h =
      Below-check_earlier _
        (unique-Below _ (sort-Below _ (gather-Below producing m ns sources [] h tt)))

pub check_dependencies-append :
    (i n : ℕ) (ds : List (List ℕ)) (d : List ℕ)
    → i + length ds ≡ n
    → check_dependencies i ds ≡ ok tt
    → check_earlier n d ≡ ok tt
    → check_dependencies i (ds ++ d ∷ []) ≡ ok tt
unfolding check_dependencies
check_dependencies-append i n [] d e h l = let same : i ≡ n = omega arith in rw (same, l)
check_dependencies-append i n (x ∷ ds) d e h l =
    let (_, first, later) = >>=-eq-ok (check_earlier i x) _ h in
    rw first (check_dependencies-append (i + 1) n ds d (omega arith) later l)
