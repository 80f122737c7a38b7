-- ===== src/Coding/Planner/Scan.antt =====
-- The scan of an equation's neighbours, against the number of those that are missing.
use coded_llm.Base.{
  ℕ, ◌+◌, ◌≡◌, refl, ◌⊎◌, inl, inr, List, [], ◌∷◌, true, false, if◌then◌else◌, arith, subst, sym,
  Bool-cases,
}
use coded_llm.Base.Sets.{contains}
use coded_llm.Coding.Planner.{scan_neighbors}

-- How many of the neighbours are members of the set.
unfoldable pub count_in : List ℕ → List ℕ → ℕ
count_in remaining [] = 0
count_in remaining (s ∷ rest) =
    if contains remaining s then count_in remaining rest + 1 else count_in remaining rest

-- None of the neighbours is a member.
abbrev pub NoneIn : List ℕ → List ℕ → Type 0
NoneIn remaining [] = Unit {0}
NoneIn remaining (s ∷ rest) = (contains remaining s ≡ false) × NoneIn remaining rest

-- `m` stands among the neighbours once, and is the only member of the set there.
abbrev pub OnlyIn : List ℕ → ℕ → List ℕ → Type 0
OnlyIn remaining m [] = ⊥
OnlyIn remaining m (s ∷ rest) =
    ((contains remaining s ≡ true) × (m ≡ s) × NoneIn remaining rest)
    ⊎ ((contains remaining s ≡ false) × OnlyIn remaining m rest)

pub scan-count :
    (remaining ns : List ℕ) (m c : ℕ)
    → (scan_neighbors remaining ns m c).1 ≡ c + count_in remaining ns
unfolding scan_neighbors count_in
scan-count remaining [] m c = omega arith
scan-count remaining (s ∷ ns) m c =
    let hit = contains remaining s in
    ground (arith, scan-count remaining ns (if hit then s else m) (if hit then c + 1 else c))

pub count_in-NoneIn : (remaining ns : List ℕ) → count_in remaining ns ≡ 0 → NoneIn remaining ns
unfolding count_in
count_in-NoneIn remaining [] h = tt
count_in-NoneIn remaining (s ∷ ns) h = ground (arith, count_in-NoneIn remaining ns)

scan-none :
    (remaining ns : List ℕ) (m c : ℕ)
    → NoneIn remaining ns
    → (scan_neighbors remaining ns m c).0 ≡ m
unfolding scan_neighbors
scan-none remaining [] m c h = refl
scan-none remaining (s ∷ ns) m c h = rw (h.0, scan_neighbors) (scan-none remaining ns m c h.1)

-- With one missing neighbour the scan finds it.
pub scan-OnlyIn :
    (remaining ns : List ℕ) (m c : ℕ)
    → count_in remaining ns ≡ 1
    → OnlyIn remaining (scan_neighbors remaining ns m c).0 ns
unfolding scan_neighbors count_in
scan-OnlyIn remaining [] m c h = absurd (omega arith)
scan-OnlyIn remaining (s ∷ ns) m c h = elim (Bool-cases (contains remaining s)) [
  | inl e ↦
      let none : NoneIn remaining ns = count_in-NoneIn remaining ns (ground arith) in
      inl (e, rw (e, scan_neighbors) (scan-none remaining ns s (c + 1) none), none)
  | inr e ↦
      let same : (scan_neighbors remaining (s ∷ ns) m c).0 ≡ (scan_neighbors remaining ns m c).0 =
        rw (e, scan_neighbors) in
      inr (
        e,
        subst (λ x. OnlyIn remaining x ns) (sym same) (scan-OnlyIn remaining ns m c (ground arith)),
      )
]

pub OnlyIn-contains :
    (remaining ns : List ℕ) (m : ℕ) → OnlyIn remaining m ns → contains remaining m ≡ true
OnlyIn-contains remaining [] m h = absurd h
OnlyIn-contains remaining (s ∷ ns) m (inl h) = rw (h.1) h.0
OnlyIn-contains remaining (s ∷ ns) m (inr h) = OnlyIn-contains remaining ns m h.1

pub OnlyIn-mem : (remaining ns : List ℕ) (m : ℕ) → OnlyIn remaining m ns → contains ns m ≡ true
unfolding contains
OnlyIn-mem remaining [] m h = absurd h
OnlyIn-mem remaining (s ∷ ns) m (inl h) = ground (arith, h.1)
OnlyIn-mem remaining (s ∷ ns) m (inr h) = ground (arith, OnlyIn-mem remaining ns m h.1)
