-- ===== src/Kernels/Decode/Refines.antt =====
-- `run_decode_plan_cuda` against `execute_decode_plan_cpu`.
use coded_llm.Base.{
  ℕ, suc, ◌≡◌, refl, List, [], ◌∷◌, ◌++◌, true, Bool-cases, none, some, length, get_or, set,
  replicate, length-replicate, Error, Result, ok, err, Result-cases, >>=-eq-ok, ok-injective, inl,
  inr, sym, ap, subst, ◌∙◌,
}
use coded_llm.Base.Sets.{is_empty}
use coded_llm.Coding.Plan.{XorOperation, DecodePlan}
use coded_llm.Coding.Codec.{
  ShardSlots, validate_plan_shape, execute_operations, execute_decode_plan_cpu,
}
use coded_llm.Coding.Codec.Decode.{slot-Holds}
use coded_llm.Kernels.Tuning.{Cuda, Tuning}
use coded_llm.Kernels.Tuning.Cache.{IsCache}
use coded_llm.Kernels.Launch.Refines.{IsCuda}
use coded_llm.Kernels.Decode.{
  Memory, Metadata, Uploaded, initial_metadata, scan_operations, allocate, upload, prepare,
  launch_operations, download, run_decode_plan_cuda,
}
use coded_llm.Kernels.Decode.Runs.{
  Runs, done, step, set-Holds, Runs-Holds, length-Runs, execute_operations-Runs,
}
use coded_llm.Kernels.Decode.Scan.{get_or-size}
use coded_llm.Kernels.Decode.Collect.{Describes, Placed, scan_operations-IsCollected}
use coded_llm.Kernels.Decode.Upload.{
  IsMemory, IsLoaded, initial_metadata-Describes, initial_metadata_offsets, upload-IsLoaded,
}
use coded_llm.Kernels.Decode.Launches.{launch_operations-IsLoaded}

-- The operations whose outputs are copied, and the slots then.
record Copied (operations : List XorOperation) (shards last : ShardSlots)
    (answer : Result (Unit {0})) (left : ShardSlots) : Type 0 where
  copied : List XorOperation
  rest : List XorOperation
  split : operations ≡ copied ++ rest
  runs : Runs copied shards left
  all : answer ≡ ok tt → left ≡ last

module _ (memory : Memory) (m : IsMemory memory) (final : Metadata) (last buffers : ShardSlots)
    (d : Describes last final) (l : IsLoaded final.required_shards last last buffers) where
  download-Copied :
      (index : ℕ) (operations : List XorOperation) (shards : ShardSlots)
      → Runs operations shards last
      → Placed final index operations
      → let (answer, left) = download memory final.word_counts buffers operations shards in
        Copied operations shards last answer left
  unfolding download
  download-Copied index [] shards done p = record {
    copied = [];
    rest = [];
    split = refl;
    runs = done;
    all = λ h. refl;
  }
  download-Copied index (operation ∷ rest) shards
        (step n result some_word some_source has lacks e sized runs) (p, ps) =
      let out = operation.output in
      let kept = Runs-Holds out result runs (set-Holds shards out result lacks) in
      let held = l.same out result p.output kept in
      let count : get_or final.word_counts out none ≡ some (length result) =
        ap (λ r. get_or r out none) d.counts ∙ get_or-size last out kept in
      elim (Result-cases (memory.memcpy (replicate (length result) 0) result)) [
        | inr (thrown, failed) ↦
            rw (download, count, slot-Holds buffers out held, failed)
              (record {
                copied = [];
                rest = operation ∷ rest;
                split = refl;
                runs = done;
                all = λ h. cc;
              })
        | inl (output, copied) ↦
            let same =
              m.memcpy (replicate (length result) 0) result output
                (length-replicate (length result) 0) copied in
            let r = download-Copied (suc index) rest (set shards out (some result)) runs ps in
            rw (download, count, slot-Holds buffers out held, copied, same)
              (record {
                copied = operation ∷ r.copied;
                rest = r.rest;
                split = ap (λ o. operation ∷ o) r.split;
                runs = step n result some_word some_source has lacks e sized r.runs;
                all = r.all;
              })
      ]

-- What a successful preparation gives.
record Prepared (plan : DecodePlan) (shards : ShardSlots) (uploaded : Uploaded) : Type 0 where
  last : ShardSlots
  runs : Runs plan.operations shards last
  describes : Describes last uploaded.metadata
  placed : Placed uploaded.metadata 0 plan.operations
  loaded : IsLoaded uploaded.metadata.required_shards shards last uploaded.buffers
  ids : uploaded.source_ids ≡ uploaded.metadata.flattened_sources

prepare-Prepared :
    (cuda : Cuda) (memory : Memory) (plan : DecodePlan) (shards : ShardSlots) (uploaded : Uploaded)
    → IsMemory memory
    → prepare cuda memory plan shards ≡ ok uploaded
    → Prepared plan shards uploaded
unfolding prepare
prepare-Prepared cuda memory plan shards uploaded m h =
    let (got, e₀, h₀) = >>=-eq-ok cuda.get_device _ h in
    let (initial, e₁, h₁) = >>=-eq-ok (initial_metadata shards) _ h₀ in
    let (metadata, e₂, h₂) =
      >>=-eq-ok (scan_operations (length shards) initial plan.operations) _ h₁ in
    let (allocated, e₃, h₃) =
      >>=-eq-ok (allocate memory metadata.required_shards metadata.word_counts) _ h₂ in
    let (buffers, e₄, h₄) =
      >>=-eq-ok (upload memory metadata.required_shards shards allocated) _ h₃ in
    let (copied, e₅, h₅) = >>=-eq-ok (memory.memcpy_table (length shards)) _ h₄ in
    let (id_buffer, e₆, h₆) = >>=-eq-ok (memory.malloc (length metadata.flattened_sources)) _ h₅ in
    let (source_ids, e₇, h₇) =
      >>=-eq-ok (memory.memcpy id_buffer metadata.flattened_sources) _ h₆ in
    let c =
      scan_operations-IsCollected shards initial plan.operations metadata
        (initial_metadata-Describes shards initial e₁) e₂ in
    let allocates = ap (allocate memory metadata.required_shards) (sym c.describes.counts) ∙ e₃ in
    subst (Prepared plan shards) (ok-injective h₇) (record {
      last = c.after;
      runs = c.runs;
      describes = c.describes;
      placed =
          subst (λ k. Placed metadata k plan.operations)
            (initial_metadata_offsets shards initial e₁) c.placed;
      loaded =
          upload-IsLoaded memory m metadata.required_shards shards c.after allocated buffers
            allocates e₄ (λ i shard. Runs-Holds i shard c.runs) (length-Runs c.runs);
      ids = m.memcpy id_buffer metadata.flattened_sources source_ids (m.malloc _ id_buffer e₆) e₇;
    })

no_operations : (operations : List XorOperation) → is_empty operations ≡ true → operations ≡ []
unfolding is_empty
no_operations [] h = refl
no_operations (operation ∷ rest) h = cc

-- What a run has done to the slots of the host.
record Ran (plan : DecodePlan) (shards : ShardSlots) (answer : Result (Unit {0}))
    (left : ShardSlots) : Type 0 where
  copied : List XorOperation
  rest : List XorOperation
  split : plan.operations ≡ copied ++ rest
  executed : execute_operations copied shards ≡ (ok tt, left)
  all : answer ≡ ok tt → execute_decode_plan_cpu plan shards ≡ (ok tt, left)

module _ (cuda : Cuda) (memory : Memory) (device : IsCuda cuda) (m : IsMemory memory)
    (plan : DecodePlan) (shards : ShardSlots) (tuning : Tuning)
    (cache : IsCache cuda tuning.cache) where
  nothing : (thrown : Error) → Ran plan shards (err thrown) shards
  unfolding execute_operations
  nothing thrown = record {
    copied = [];
    rest = plan.operations;
    split = refl;
    executed = refl;
    all = λ h. cc;
  }

  launched-Ran :
      (uploaded : Uploaded)
      → Prepared plan shards uploaded
      → validate_plan_shape plan ≡ ok tt
      → (buffers : ShardSlots) (tuned : Tuning)
      → launch_operations cuda uploaded.metadata uploaded.source_ids tuning.device 0 plan.operations
          uploaded.buffers tuning
        ≡ (ok buffers, tuned)
      → let (answer, left) =
          download memory uploaded.metadata.word_counts buffers plan.operations shards in
        Ran plan shards answer left
  unfolding execute_decode_plan_cpu
  launched-Ran uploaded p valid buffers tuned h =
      let h₁ = rw p.ids at h in
      let loaded =
        launch_operations-IsLoaded cuda device uploaded.metadata p.last p.describes tuning.device 0
          plan.operations shards uploaded.buffers buffers tuning tuned p.runs p.placed p.loaded
          cache h₁ in
      let c =
        download-Copied memory m uploaded.metadata p.last buffers p.describes loaded 0
          plan.operations shards p.runs p.placed in
      record {
        copied = c.copied;
        rest = c.rest;
        split = c.split;
        executed = execute_operations-Runs c.runs;
        all = λ e.
            rw (execute_decode_plan_cpu, valid)
              (execute_operations-Runs p.runs ∙ ap (λ s. (ok tt, s)) (sym (c.all e)));
      }

  run_decode_plan_cuda-Ran :
      let (answer, left, tuned) = run_decode_plan_cuda cuda memory plan shards tuning in
      Ran plan shards answer left
  unfolding run_decode_plan_cuda execute_decode_plan_cpu execute_operations
  run_decode_plan_cuda-Ran = elim (Result-cases (validate_plan_shape plan)) [
    | inr (thrown, e) ↦ rw (run_decode_plan_cuda, e) (nothing thrown)
    | inl (passed, e) ↦ elim (Bool-cases (is_empty plan.operations)) [
      | inl none_there ↦
          rw (run_decode_plan_cuda, e, none_there)
            (record {
              copied = [];
              rest = plan.operations;
              split = refl;
              executed = refl;
              all = λ h.
                  rw (execute_decode_plan_cpu, e, no_operations plan.operations none_there) refl;
            })
      | inr some_there ↦ elim (Result-cases (prepare cuda memory plan shards)) [
        | inr (thrown, e₁) ↦ rw (run_decode_plan_cuda, e, some_there, e₁) (nothing thrown)
        | inl (uploaded, e₁) ↦
            let p = prepare-Prepared cuda memory plan shards uploaded m e₁ in
            let launch =
              launch_operations cuda uploaded.metadata uploaded.source_ids tuning.device 0
                plan.operations uploaded.buffers tuning in
            elim (Result-cases launch.0) [
              | inr (thrown, e₂) ↦ rw (run_decode_plan_cuda, e, some_there, e₁, e₂) (nothing thrown)
              | inl (buffers, e₂) ↦ elim (Result-cases memory.device_synchronize) [
                | inr (thrown, e₃) ↦
                    rw (run_decode_plan_cuda, e, some_there, e₁, e₂, e₃) (nothing thrown)
                | inl (waited, e₃) ↦
                    rw (run_decode_plan_cuda, e, some_there, e₁, e₂, e₃)
                      (launched-Ran uploaded p e buffers launch.1 (ap (λ r. (r, launch.1)) e₂))
              ]
            ]
      ]
    ]
  ]

  -- If the device runs every thread of a grid and recommends at least one warp for a block, an
  -- allocation has its size, a copy that succeeds copies, and the cache holds answers of the CUDA
  -- runtime, then a run on the device that ends without an error leaves the slots as
  -- `execute_decode_plan_cpu` does, which has no error either.
  pub run_decode_plan_cuda-execute_decode_plan_cpu :
      (left : ShardSlots) (tuned : Tuning)
      → run_decode_plan_cuda cuda memory plan shards tuning ≡ (ok tt, left, tuned)
      → execute_decode_plan_cpu plan shards ≡ (ok tt, left)
  run_decode_plan_cuda-execute_decode_plan_cpu left tuned h =
      run_decode_plan_cuda-Ran.all (ap (λ r. r.0) h) ∙ ap (λ s. (ok tt, s)) (ap (λ r. r.1) h)

  -- Under the same conditions, a run that ends in any way, errors included, has executed the first
  -- operations of the plan on the slots, as the decoder of the CPU does, and no others.
  pub run_decode_plan_cuda-prefix :
      (answer : Result (Unit {0})) (left : ShardSlots) (tuned : Tuning)
      → run_decode_plan_cuda cuda memory plan shards tuning ≡ (answer, left, tuned)
      → (copied rest : List XorOperation) × (plan.operations ≡ copied ++ rest)
        × (execute_operations copied shards ≡ (ok tt, left))
  run_decode_plan_cuda-prefix answer left tuned h =
      let r = run_decode_plan_cuda-Ran in
      (r.copied, r.rest, r.split, r.executed ∙ ap (λ s. (ok tt, s)) (ap (λ r. r.1) h))
