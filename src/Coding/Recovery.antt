-- ===== src/Coding/Recovery.antt =====
-- The planner and the codec together: what a decode plan does to the slots of an erased stripe.
pub mod Peel
pub mod Dependencies
pub mod Restore
pub mod RoundTrip
use coded_llm.Base.{
  ℕ, ◌+◌, ◌≤◌, ◌<◌, ◌≡◌, List, [], Bool, true, Option, none, some, get_elem?, get_or, length, All,
  if◌then◌else◌,
}
use coded_llm.Base.Sets.{contains}
use coded_llm.Coding.Codec.{WordShard, ShardSlots}
use coded_llm.Coding.Codec.Algebra.{xor_all}
use coded_llm.Coding.Codec.Decode.{Holds}

-- The neighbours of an equation are shards of the stripe, and its parity shard is none of them
-- and, if it is available, holds their sum.
abbrev pub ParityHolds : ℕ → List WordShard → List ℕ → ShardSlots → ℕ × List ℕ → Type 0
ParityHolds width stripe available shards (p, ns) =
    All (λ s. s < length stripe) ns
    × (length stripe ≤ p)
    × (contains available p ≡ true → Holds shards p (xor_all width stripe ns))

-- The slots hold the stripe but for the shards that remain to be recovered, whose slots are empty.
abbrev pub StripeHolds : List WordShard → List ℕ → ShardSlots → Type 0
StripeHolds stripe remaining shards =
    (i : ℕ)
    → i < length stripe
    → get_elem? shards i ≡ some (if contains remaining i then none else some (get_or stripe i []))

pub record IsErased (width : ℕ) (stripe : List WordShard) (equations : List (ℕ × List ℕ))
    (available remaining : List ℕ) (shards : ShardSlots) : Type 0 where
  pub systematic : StripeHolds stripe remaining shards
  pub parities : All (ParityHolds width stripe available shards) equations
