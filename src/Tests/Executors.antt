-- ===== src/Tests/Executors.antt =====
-- An executor of one worker and one place in its queue, with a decoder that answers the slots.
use coded_llm.Base.{
  ℕ, ◌+◌, ◌*◌, ◌<◌, ◌≤◌, ◌≡◌, ◌↔◌, refl, List, [], ◌∷◌, true, false, none, some, ok, arith,
}
use coded_llm.Base.Int.{pos, ◌*ℤ◌}
use coded_llm.Base.Maps.{find}
use coded_llm.Base.Sets.{contains, insert, count}
use coded_llm.Coding.Plan.{DecodePlan}
use coded_llm.Coding.Codec.{ShardSlots}
use coded_llm.Runtime.Request.{RecoveryTaskResult}
use coded_llm.Runtime.Executor.{
  Backend, Task, Executor, executor, stage_all, enqueue, admit, submit, cancel, wake, take_task,
  execute_task, is_cancelled, has_queued_request, erase_key, estimate_recovery_cost, outstanding,
}
use coded_llm.Runtime.Executor.Steps.{
  waiting, executing, closing, submission, woken, executed, kept, dropped, completed, Steps, here,
  next,
}
use coded_llm.Runtime.Executor.Counts.{gather}
use coded_llm.Runtime.Executor.Delivery.{delivered-le-admitted}
use coded_llm.Runtime.Executor.Clients.{IsValid}
use coded_llm.Runtime.Executor.Invariant.{Steps-IsValid}
use coded_llm.Runtime.Executor.Admission.{
  IsNew, executor-IsNew, submit-estimate_iff, estimate-waves,
}
use coded_llm.Runtime.Executor.Cancellation.{passed, cancel-delivered}

abbrev echo : Backend
echo = record {
  Context = List ℕ;
  Float = ℕ;
  Handler = ℕ;
  thousand = 1000;
  multiply = λ x y. x * y;
  llround = pos;
  what = λ thrown. [];
  create_context = λ n. ok [];
  stage_shard_in = λ c i shard. (i ∷ c, ok tt);
  run_staged = λ c plan shards. ok (shards, record { h2d_ms = 1; kernel_ms = 2; d2h_ms = 3 });
}

abbrev plan : DecodePlan
plan = record { operations = []; dependencies = []; is_recoverable = true }

abbrev slots : ShardSlots
slots = some (5 ∷ []) ∷ none ∷ []

abbrev start : Executor echo
start = record {
  concurrency = 1;
  capacity = 2;
  estimated_service_cost = pos 10;
  queue = [];
  staged_contexts = [];
  running_requests = [];
  cancelled_requests = [];
  stopping = false;
}

abbrev task : Task echo
task = record {
  request_id = 7;
  plan = plan;
  shards = slots;
  context = 0 ∷ [];
  completion = 1;
  enqueued_at = pos 20;
}

abbrev one_queued : Executor echo
one_queued = record start { queue = task ∷ [] }

abbrev one_running : Executor echo
one_running = record start { running_requests = 7 ∷ [] }

abbrev one_cancelled : Executor echo
one_cancelled = record one_running { cancelled_requests = 7 ∷ [] }

abbrev result : RecoveryTaskResult
result = execute_task echo task (pos 21) (pos 25)

executor-start : executor echo 1 1 (pos 10) ≡ ok start
unfolding executor
executor-start = refl

submit-queued : submit echo start 7 plan slots (some 1) (pos 20) ≡ (one_queued, ok true)
unfolding submit admit enqueue stage_all find contains has_queued_request
submit-queued = refl

wake-one : wake echo one_queued ≡ take_task task one_running
unfolding wake insert contains
wake-one = refl

cancel-one : cancel echo one_running 7 ≡ (one_cancelled, true)
unfolding cancel has_queued_request contains insert erase_key
cancel-one = refl

not_cancelled : is_cancelled echo one_running 7 ≡ false
unfolding is_cancelled contains
not_cancelled = refl

found_cancelled : is_cancelled echo one_cancelled 7 ≡ true
unfolding is_cancelled contains
found_cancelled = refl

until_running : Steps echo start (waiting ∷ []) one_running (executing task ∷ []) (7 ∷ []) []
until_running =
    next
      (next here (submission 7 plan slots (some 1) (pos 20) (ok true) submit-queued refl refl refl)
        refl refl)
      (woken 0 task refl wake-one refl refl refl) refl refl

until_delivered : Steps echo start (waiting ∷ []) one_running (closing task ∷ []) (7 ∷ []) (7 ∷ [])
until_delivered =
    next
      (next
        (next until_running (executed 0 task (pos 21) (pos 25) refl refl refl refl refl) refl refl)
        (kept 0 task result refl not_cancelled refl refl refl refl) refl refl)
      (completed 0 task result refl refl refl refl refl) refl refl

after_cancel :
    Steps echo one_cancelled (executing task ∷ []) one_cancelled (closing task ∷ []) [] []
after_cancel =
    next (next here (executed 0 task (pos 21) (pos 25) refl refl refl refl refl) refl refl)
      (dropped 0 task result refl found_cancelled refl refl refl refl) refl refl

start-IsNew : IsNew echo 1 1 start
start-IsNew = executor-IsNew echo 1 1 (pos 10) start (omega arith) (omega arith) executor-start

running-IsValid : IsValid echo one_running (executing task ∷ [])
running-IsValid =
    Steps-IsValid echo start (waiting ∷ []) one_running (executing task ∷ []) (7 ∷ []) []
      start-IsNew.valid until_running

executor-IsNew_example : IsNew echo 1 1 start
executor-IsNew_example =
    executor-IsNew echo 1 1 (pos 10) start (omega arith) (omega arith) executor-start

delivered-le-admitted_example : count 7 (7 ∷ []) ≤ count 7 (7 ∷ [])
delivered-le-admitted_example =
    delivered-le-admitted echo 1 1 (pos 10) 1 start one_running (closing task ∷ []) (7 ∷ [])
      (7 ∷ []) 7 executor-start until_delivered

Steps-IsValid_example : IsValid echo one_running (closing task ∷ [])
Steps-IsValid_example =
    Steps-IsValid echo start (waiting ∷ []) one_running (closing task ∷ []) (7 ∷ []) (7 ∷ [])
      start-IsNew.valid until_delivered

start_idle : contains start.running_requests 7 ≡ false
unfolding contains
start_idle = refl

start_unqueued : has_queued_request echo start.queue 7 ≡ false
unfolding has_queued_request
start_unqueued = refl

submit-estimate_iff_example :
    ((submit echo start 7 plan slots (some 1) (pos 20)).1 ≡ ok false)
    ↔ (estimate_recovery_cost echo start ≡ none)
submit-estimate_iff_example =
    submit-estimate_iff echo start 7 plan slots 1 (pos 20) start_idle start_unqueued

estimate-queued : estimate_recovery_cost echo one_queued ≡ some (pos 20)
unfolding estimate_recovery_cost ◌*ℤ◌
estimate-queued = refl

estimate-waves_example :
    (waves : ℕ) × (pos 20 ≡ one_queued.estimated_service_cost *ℤ pos waves)
    × (outstanding echo one_queued < waves * one_queued.concurrency)
    × (waves * one_queued.concurrency ≤ outstanding echo one_queued + one_queued.concurrency)
    × (outstanding echo one_queued < one_queued.capacity)
estimate-waves_example = estimate-waves echo one_queued (pos 20) (omega arith) estimate-queued

none_admitted : count 7 [] ≡ 0
unfolding count
none_admitted = refl

cancelled-Steps :
    Steps echo
      (cancel echo one_running 7).0
      (executing task ∷ [])
      one_cancelled
      (closing task ∷ [])
      []
      []
unfolding cancel has_queued_request contains insert erase_key
cancelled-Steps = after_cancel

cancel-delivered_example : count 7 [] ≤ count 7 (gather echo (passed echo) (executing task ∷ []))
cancel-delivered_example =
    cancel-delivered echo one_running (executing task ∷ []) 7 one_cancelled (closing task ∷ []) []
      [] running-IsValid cancelled-Steps none_admitted
