-- ===== src/Base/Maps.antt =====
-- A `std::map` or `std::unordered_map` with numbers for keys, as the list of its entries.
use Prim.Native.Nat.{ℕ}
use mathlib.Core.Path.{◌≡◌, refl}
use mathlib.Core.Option.{Option, none, some}
use mathlib.Core.List.{List, [], ◌∷◌}
use native.Mathlib.Omega.{arith}
use coded_llm.Base.Tests.{◌==◌, ltb, if◌then◌else◌}

module _ {ℓ} {V : Type ℓ} where
  -- `map.find(key)`
  unfoldable pub find : List (ℕ × V) → ℕ → Option V
  find [] key = none
  find ((k, v) ∷ rest) key = if k == key then some v else find rest key

  -- `map[key] = value`, in the order of the keys.
  unfoldable pub assign : List (ℕ × V) → ℕ → V → List (ℕ × V)
  assign [] key value = (key, value) ∷ []
  assign ((k, v) ∷ rest) key value =
      if k == key
      then (key, value) ∷ rest
      else (if ltb key k then (key, value) ∷ (k, v) ∷ rest else (k, v) ∷ assign rest key value)

  pub find-assign :
      (m : List (ℕ × V)) (key : ℕ) (value : V) (k : ℕ)
      → find (assign m key value) k ≡ (if key == k then some value else find m k)
  unfolding find assign
  find-assign [] key value k = refl
  find-assign ((j, v) ∷ rest) key value k = ground (arith, find-assign rest key value k)

module _ {ℓ} {V : Type ℓ} where
  -- `map.emplace(key, value)` and `map.try_emplace(key, value)`: an entry that is there stays.
  unfoldable pub emplace : List (ℕ × V) → ℕ → V → List (ℕ × V)
  emplace m key value = elim (find m key) [ none ↦ assign m key value | some _ ↦ m ]
