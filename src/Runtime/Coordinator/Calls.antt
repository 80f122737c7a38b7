-- ===== src/Runtime/Coordinator/Calls.antt =====
-- The requests under an update, and the submissions among the calls.
use coded_llm.Base.{
  ℕ, ◌+◌, ◌≡◌, ◌≢◌, refl, List, [], ◌∷◌, ◌++◌, Bool, true, false, some, inl, inr, arith, Bool-cases,
  ◌==◌, ==_refl, if◌then◌else◌,
}
use coded_llm.Base.Maps.{find}
use coded_llm.Coding.Codec.{WordShard}
use coded_llm.Runtime.Request.{
  RequestState, Call, Next, nothing, should_cancel, should_submit, stage_shard, cancel, submit,
  start_request, next_calls, after_submit,
}
use coded_llm.Runtime.Request.Steps.{submissions}
use coded_llm.Runtime.Coordinator.{update_request}
use coded_llm.Runtime.Coordinator.Runs.{count_submits}

pub update_request_other :
    (requests : List (ℕ × RequestState)) (id : ℕ) (state : RequestState) (other : ℕ)
    → id ≢ other
    → find (update_request requests id state) other ≡ find requests other
unfolding update_request find
update_request_other [] id state other ne = refl
update_request_other ((k, s) ∷ rest) id state other ne =
    ground (arith, update_request_other rest id state other ne)

pub update_request_self :
    (requests : List (ℕ × RequestState)) (id : ℕ) (before state : RequestState)
    → find requests id ≡ some before
    → find (update_request requests id state) id ≡ some state
unfolding update_request find
update_request_self [] id before state h = cc
update_request_self ((k, s) ∷ rest) id before state h = elim (Bool-cases (k == id)) [
  | inl e ↦ rw (update_request, e, find, e) refl
  | inr e ↦
      rw (update_request, e, find, e) (update_request_self rest id before state (rw (find, e) at h))
]

pub count_submits-append :
    (id : ℕ) (xs ys : List Call)
    → count_submits id (xs ++ ys) ≡ count_submits id xs + count_submits id ys
unfolding count_submits
count_submits-append id [] ys = omega arith
count_submits-append id (submit k plan shards ∷ xs) ys =
    omega (arith, count_submits-append id xs ys)
count_submits-append id (stage_shard k n shard payload ∷ xs) ys = count_submits-append id xs ys
count_submits-append id (cancel k ∷ xs) ys = count_submits-append id xs ys
count_submits-append id (start_request k ∷ xs) ys = count_submits-append id xs ys

pub count_submits-next_calls :
    (id : ℕ) (follow : Next) → count_submits id (next_calls id follow) ≡ submissions follow
unfolding count_submits next_calls
count_submits-next_calls id nothing = refl
count_submits-next_calls id should_cancel = refl
count_submits-next_calls id (should_submit plan shards) = rw (==_refl id) refl

pub count_submits-next_calls_other :
    (id other : ℕ) (follow : Next) → id ≢ other → count_submits other (next_calls id follow) ≡ 0
unfolding count_submits next_calls
count_submits-next_calls_other id other nothing ne = refl
count_submits-next_calls_other id other should_cancel ne = refl
count_submits-next_calls_other id other (should_submit plan shards) ne = ground arith

pub count_submits-after_submit :
    (id other : ℕ) (accepted : Bool) (state : RequestState)
    → count_submits other (after_submit id accepted state).1 ≡ 0
unfolding count_submits after_submit
count_submits-after_submit id other true state = ground arith
count_submits-after_submit id other false state = ground arith

-- What is staged is no submission.
pub count_submits-staged :
    (id : ℕ) (staged : Bool) (k n shard : ℕ) (payload : WordShard) (calls : List Call)
    → count_submits id ((if staged then stage_shard k n shard payload ∷ [] else []) ++ calls)
      ≡ count_submits id calls
unfolding count_submits
count_submits-staged id true k n shard payload calls = refl
count_submits-staged id false k n shard payload calls = refl
