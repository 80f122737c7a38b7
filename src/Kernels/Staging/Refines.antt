-- ===== src/Kernels/Staging/Refines.antt =====
-- A run on staged shards against `execute_decode_plan_cpu`.
use coded_llm.Base.{
  ℕ, ◌≡◌, refl, ◌⊎◌, inl, inr, List, [], ◌∷◌, map, false, not, ◌==◌, Option, length,
  length-replicate, replicate, Error, Result, ok, err, ◌>>=◌, ◌>>◌, Result-cases, >>=-eq-ok,
  throw_if-eq-ok, ok-injective, arith, sym, ap, subst, ◌∙◌,
}
use coded_llm.Coding.Plan.{XorOperation, DecodePlan}
use coded_llm.Coding.Codec.{
  WordShard, ShardSlots, has_value, validate_plan_shape, execute_decode_plan_cpu,
}
use coded_llm.Kernels.Tuning.{Cuda, Tuning}
use coded_llm.Kernels.Tuning.Cache.{IsCache}
use coded_llm.Kernels.Launch.Refines.{IsCuda}
use coded_llm.Kernels.Decode.{Memory, Metadata, Uploaded, scan_operations, launch_operations}
use coded_llm.Kernels.Decode.Runs.{Runs, Runs-Holds, length-Runs, execute_operations-Runs}
use coded_llm.Kernels.Decode.Scan.{size}
use coded_llm.Kernels.Decode.Collect.{Describes, Placed, scan_operations-IsCollected}
use coded_llm.Kernels.Decode.Upload.{IsMemory, IsLoaded, HasWords}
use coded_llm.Kernels.Decode.Launches.{launch_operations-IsLoaded}
use coded_llm.Kernels.Staging.{
  StagingContext, same_slots, allocate_missing, upload_sources, download_outputs, move_outputs,
  finalize, run_staged_decode_plan,
}
use coded_llm.Kernels.Staging.Buffers.{
  IsStaged, same_slots_lem, has_value-size, allocate_missing-IsLoaded,
  download_outputs-move_outputs,
}

-- What a successful finalization gives.
record Finalized (context : StagingContext) (plan : DecodePlan) (shards : ShardSlots)
    (uploaded : Uploaded) : Type 0 where
  valid : validate_plan_shape plan ≡ ok tt
  last : ShardSlots
  runs : Runs plan.operations shards last
  describes : Describes last uploaded.metadata
  placed : Placed uploaded.metadata 0 plan.operations
  loaded : IsLoaded uploaded.metadata.required_shards shards last uploaded.buffers
  ids : (plan.operations ≡ []) ⊎ (uploaded.source_ids ≡ uploaded.metadata.flattened_sources)

upload_sources_lem :
    (memory : Memory) (operations : List XorOperation) (count : ℕ) (flattened ids : List ℕ)
    → IsMemory memory
    → upload_sources memory operations count flattened ≡ ok ids
    → (operations ≡ []) ⊎ (ids ≡ flattened)
unfolding upload_sources
upload_sources_lem memory [] count flattened ids m h = inl refl
upload_sources_lem memory (operation ∷ rest) count flattened ids m h =
    let (copied, e, h₁) = >>=-eq-ok (memory.memcpy_table count) _ h in
    let (buffer, e₁, h₂) = >>=-eq-ok (memory.malloc (length flattened)) _ h₁ in
    inr (m.memcpy buffer flattened ids (m.malloc _ buffer e₁) h₂)

finalize-Finalized :
    (cuda : Cuda) (memory : Memory) (context : StagingContext) (plan : DecodePlan)
    (shards : ShardSlots) (uploaded : Uploaded)
    → IsMemory memory
    → IsStaged context
    → finalize cuda memory context plan shards ≡ ok uploaded
    → Finalized context plan shards uploaded
unfolding finalize
finalize-Finalized cuda memory context plan shards uploaded m s h =
    let n = length context.device_shards in
    let start : Metadata = record {
      word_counts = context.word_counts;
      required_shards = replicate n false;
      available_shards = map has_value context.word_counts;
      source_offsets = [];
      flattened_sources = [];
    } in
    let (open_, h₁) = throw_if-eq-ok context.finalized _ _ h in
    let (counted, h₂) = throw_if-eq-ok (not (length shards == n)) _ _ h₁ in
    let (passed, valid, h₃) = >>=-eq-ok (validate_plan_shape plan) _ h₂ in
    let (chosen, e₀, h₄) = >>=-eq-ok (cuda.set_device context.device_id) _ h₃ in
    let (matched, h₅) = throw_if-eq-ok (not (same_slots context.staged_shards shards)) _ _ h₄ in
    let (metadata, e₁, h₆) = >>=-eq-ok (scan_operations n start plan.operations) _ h₅ in
    let (buffers, e₂, h₇) =
      >>=-eq-ok
        (allocate_missing memory metadata.required_shards metadata.word_counts
          context.device_shards)
        _ h₆ in
    let (ids, e₃, h₈) =
      >>=-eq-ok (upload_sources memory plan.operations n metadata.flattened_sources) _ h₇ in
    let same : context.staged_shards ≡ shards =
      same_slots_lem context.staged_shards shards (ground arith) in
    let device : context.device_shards ≡ shards = s.buffers ∙ same in
    let sized : n ≡ length shards = ap length device in
    let d : Describes shards start = record {
      counts = s.counts ∙ ap (map size) same;
      available = ap (map has_value) (s.counts ∙ ap (map size) same) ∙ has_value-size shards;
      sized = length-replicate n false ∙ sized;
      words = subst HasWords same s.words;
    } in
    let c =
      scan_operations-IsCollected shards start plan.operations metadata d
        (ap (λ k. scan_operations k start plan.operations) (sym sized) ∙ e₁) in
    let allocates =
      ap
        (λ (p : List (Option ℕ) × ShardSlots).
          allocate_missing memory metadata.required_shards p.0 p.1)
        (λ i. (sym c.describes.counts i, sym device i))
      ∙ e₂ in
    subst (Finalized context plan shards) (ok-injective h₈) (record {
      valid = valid;
      last = c.after;
      runs = c.runs;
      describes = c.describes;
      placed = c.placed;
      loaded =
          allocate_missing-IsLoaded memory m metadata.required_shards shards c.after buffers
            allocates (λ i shard. Runs-Holds i shard c.runs) (length-Runs c.runs);
      ids = upload_sources_lem memory plan.operations n metadata.flattened_sources ids m e₃;
    })

-- Without operations the source IDs are not read.
launch_operations_ids :
    (cuda : Cuda) (metadata : Metadata) (ids : List ℕ) (device_id : ℕ)
    (operations : List XorOperation) (buffers : ShardSlots) (tuning : Tuning)
    → (operations ≡ []) ⊎ (ids ≡ metadata.flattened_sources)
    → launch_operations cuda metadata metadata.flattened_sources device_id 0 operations buffers
        tuning
      ≡ launch_operations cuda metadata ids device_id 0 operations buffers tuning
unfolding launch_operations
launch_operations_ids cuda metadata ids device_id operations buffers tuning (inl empty) =
    rw (empty, launch_operations) refl
launch_operations_ids cuda metadata ids device_id operations buffers tuning (inr same) =
    rw same refl

module _ (cuda : Cuda) (memory : Memory) (device : IsCuda cuda) (m : IsMemory memory)
    (context : StagingContext) (staged : IsStaged context) (plan : DecodePlan) (shards : ShardSlots)
    (tuning : Tuning) (cache : IsCache cuda tuning.cache) where
  outputs_complete :
      (uploaded : Uploaded) (buffers : ShardSlots) (outputs : List WordShard)
      → Finalized context plan shards uploaded
      → (launch_operations cuda uploaded.metadata uploaded.source_ids context.device_id 0
          plan.operations uploaded.buffers
          (record { device = context.device_id; cache = tuning.cache })).0
        ≡ ok buffers
      → download_outputs memory uploaded.metadata.word_counts buffers plan.operations ≡ ok outputs
      → execute_decode_plan_cpu plan shards ≡ (ok tt, move_outputs plan.operations outputs shards)
  unfolding execute_decode_plan_cpu
  outputs_complete uploaded buffers outputs f h h' =
      let current : Tuning = record { device = context.device_id; cache = tuning.cache } in
      let same =
        launch_operations_ids cuda uploaded.metadata uploaded.source_ids context.device_id
          plan.operations uploaded.buffers current f.ids in
      let after =
        (launch_operations cuda uploaded.metadata uploaded.metadata.flattened_sources
          context.device_id 0 plan.operations uploaded.buffers current).1 in
      let loaded =
        launch_operations-IsLoaded cuda device uploaded.metadata f.last f.describes
          context.device_id 0 plan.operations shards uploaded.buffers buffers current after f.runs
          f.placed f.loaded cache (ap (λ r. (r, after)) (ap (λ r. r.0) same ∙ h)) in
      let moved =
        download_outputs-move_outputs memory m uploaded.metadata f.last buffers 0 plan.operations
          shards outputs f.describes loaded f.runs f.placed h' in
      rw (execute_decode_plan_cpu, f.valid)
        (execute_operations-Runs f.runs ∙ ap (λ s. (ok tt, s)) (sym moved))

  -- On a device as for `run_decode_plan_cuda`, from a context whose staged shards are on the device:
  -- a run either ends without an error and leaves the slots as `execute_decode_plan_cpu` does, which
  -- has no error either, or it ends with an error and leaves the slots as they were.
  pub run_staged_decode_plan-execute_decode_plan_cpu :
      (answer : Result (Unit {0})) (left : ShardSlots)
      → run_staged_decode_plan cuda memory context plan shards tuning ≡ (answer, left)
      → ((answer ≡ ok tt) × (execute_decode_plan_cpu plan shards ≡ (ok tt, left)))
        ⊎ ((thrown : Error) × (answer ≡ err thrown) × (left ≡ shards))
  unfolding run_staged_decode_plan
  run_staged_decode_plan-execute_decode_plan_cpu answer left h = elim (Result-cases outputs) [
    | inr (thrown, e) ↦
        let same = rw (run_staged_decode_plan, e) at h in
        inr (thrown, sym (ap (λ r. r.0) same), sym (ap (λ r. r.1) same))
    | inl (words, e) ↦
        let same = rw (run_staged_decode_plan, e) at h in
        let (uploaded, e₁, h₁) = >>=-eq-ok (finalize cuda memory context plan shards) _ e in
        let (buffers, e₂, h₂) =
          >>=-eq-ok
            (launch_operations cuda uploaded.metadata uploaded.source_ids context.device_id 0
              plan.operations uploaded.buffers
              (record { device = context.device_id; cache = tuning.cache })).0
            _ h₁ in
        let (copied, e₃, h₃) =
          >>=-eq-ok (download_outputs memory uploaded.metadata.word_counts buffers plan.operations)
            _ h₂ in
        let (waited, e₄, h₄) = >>=-eq-ok memory.device_synchronize _ h₃ in
        let f = finalize-Finalized cuda memory context plan shards uploaded m staged e₁ in
        let complete = outputs_complete uploaded buffers copied f e₂ e₃ in
        inl (
          sym (ap (λ r. r.0) same),
          complete
              ∙ ap (λ w. (ok tt, move_outputs plan.operations w shards)) (ok-injective h₄)
              ∙ ap (λ s. (ok tt, s)) (ap (λ r. r.1) same),
        )
  ]
    where
      outputs : Result (List WordShard)
      outputs = finalize cuda memory context plan shards >>= λ uploaded.
          (launch_operations cuda uploaded.metadata uploaded.source_ids context.device_id 0
            plan.operations uploaded.buffers
            (record { device = context.device_id; cache = tuning.cache })).0
          >>= λ buffers.
              download_outputs memory uploaded.metadata.word_counts buffers plan.operations
              >>= λ outputs. memory.device_synchronize >> ok outputs
