-- ===== src/Lib.antt =====
-- CodedLLM: erasure-coded shards of requests, recovered by XOR decode plans.
--
-- A stripe of k systematic shards is encoded into m parity shards over a bipartite graph. The
-- shards of a request arrive one by one. When some are late, the planner peels the graph into a
-- decode plan, the policy weighs the cost of the recovery against the expected wait, and an
-- executor runs the plan. The simulators replay arrivals against a bounded queue of recoveries.
--
-- Files, and the code that they model (paths from the repository's root):
--
-- - Core: include/codedllm/core/types.hpp. `ShardLayout` and its checked byte length.
-- - Coding/Graph: src/coding/graph.cpp. `validate` is CodeGraph::Validate, `code_graph` the
--   constructor. Coding/GraphGenerator: src/coding/graph_generator.cpp, over any generator and
--   shuffle. Coding/Plan: include/codedllm/coding/plan.hpp.
-- - Coding/Codec: src/coding/codec.cpp. `encode_parity_cpu` and `execute_decode_plan_cpu` with a
--   function for each of their loops; the second answers the slots as they are left, errors
--   included. Codec/Algebra has the sums of shards, Codec/Encode and Codec/Decode what the loops
--   compute.
-- - Coding/Planner: src/coding/planner.cpp. `create_plan` is DecodePlanner::CreatePlan;
--   `visit_equation`, `peel_pass` and `peel_loop` are its nested loops. Planner/Scan, Rules and
--   Inputs have the loops' rules, Planner/Stopping the theory of stopping sets.
-- - Coding/Recovery: planner and codec together. Recovery/Restore and Recovery/RoundTrip have the
--   end-to-end theorems, Recovery/Peel and Recovery/Dependencies the invariant of the loop.
-- - Runtime/Policy: src/runtime/policy.cpp. The arrival tracker and the policy.
-- - Runtime/Request and Runtime/Coordinator: src/runtime/coordinator.cpp and
--   include/codedllm/runtime/serving.hpp. Each critical section of RecoveryCoordinator::Impl is a
--   function of the request's state: `arrive` (OnShardArrived up to its unlocking), `after_submit`
--   (what follows the executor's answer to Submit) and `finish` (OnRecoveryComplete). The calls of
--   executor and transport are values of `Call`. Request/Steps has the orders in which the critical
--   sections of a request can follow one another, Request/Slots and Request/Agreement the
--   consistency of a request, and Coordinator/Runs and Traces what becomes of it
--   in a run of the whole coordinator, with Coordinator/Calls about the calls that are made.
-- - Runtime/Executor: src/runtime/cuda_recovery_executor.cpp. One function for each critical section:
--   `estimate_recovery_cost`, `stage_shard`, `submit`, `cancel` and `stop` for clients, `wake`,
--   `execute_task`, `is_cancelled` and `release` for WorkerLoop. Executor/Steps has their
--   interleavings, Executor/Counts how often a request occurs in a state, Executor/Clients what
--   the operations of clients keep, Executor/Delivery,
--   Invariant, Admission and Cancellation what follows.
-- - Kernels/Xor: the XOR kernels of kernels/sparse_decoder.cu. A thread is the list of its writes, a
--   grid its threads in an order of the device. Xor/Words and Xor/Stores are about one word and about
--   sequences of writes, Xor/Grid about which thread writes which word. Kernels/Tuning:
--   include/codedllm/kernels/tuning.cuh and CalculateGridBlocks. Kernels/Launch:
--   LaunchXorOperationCuda, with Launch/Refines for its contract. Kernels/Decode: RunDecodePlanCuda
--   without its timings. `prepare` is everything before the launches, `launch_operations` and
--   `download` are the loops behind it. Decode/Runs has the runs that both decoders make, Decode/Scan
--   and Collect what the checks promise, Decode/Upload and Launches what the device holds, and
--   Decode/Refines compares the results. Kernels/Staging: create_device_shard_staging_context_cuda,
--   stage_decode_shard_cuda and run_staged_decode_plan_cuda (`finalize` is everything before its
--   launches); Staging/Stage is about the staging, Staging/Buffers about the buffers of
--   a run and Staging/Refines about its result. Kernels/Pair: dummy_reconstruct_kernel and
--   src/cpu_reference.cpp, on a fuel of one unit more than there are words.
-- - Simulation/RecoveryQueue, Simulation/Simulator, Simulation/ClusterSimulator:
--   src/simulation/recovery_queue.cpp, simulator.cpp and cluster_simulator.cpp.
-- - Simulation/Workload: src/simulation/workload_generator.cpp. Simulation/Workload/Replication has
--   what replication does to the arrivals, Workload/Selection and Normalized which shards
--   capacity-normalised replication moves, and where to.
-- - Base: errors as values of `Result`, integers over the native numbers, sets and maps as lists,
--   XOR on words. Tests: a stripe, a request, a queue, a workload, an
--   executor and a device on which the theorems are applied.
--
-- Conventions. A `std::size_t` is a number below 2 ^ 64 and a `ShardId` one below 2 ^ 32; where the
-- code can wrap around, `% 2 ^ w` is written out. Times are integers, and no sum of times is taken
-- to overflow; a time and the distance of two times are whole microseconds, so that a `duration_cast`
-- changes nothing. A `std::map` is an association list by rising key, an `unordered_set` a list without
-- an order that matters. An exception is `err` of its kind; its text is not modelled. A call that
-- throws is no step of a request.
--
-- Fuel. `peel_loop` runs on one unit more than there are missing shards: each pass but the last
-- erases one. `run_events`, `time_loop` and `event_loop` run on one unit more than there are events:
-- each round takes at least one. `vector_loop` runs on one unit more than there are vectors: its
-- index rises by at least one in each round.
--
-- Parameters: the random generator and `std::shuffle`, the answers of the executor and of the clock,
-- the wait-cost and recovery-cost oracles, the estimator of service times, and `Random` for the
-- floating point and the distributions of the workload generator; `Backend` for the CUDA functions
-- that the executor calls; `Cuda` and `Memory` for the CUDA runtime, with the order in which the threads
-- of a grid run.
--
-- Not modelled: RecoveryCoordinator::WaitForCompletion (a wait on a condition variable), the timings
-- of a decode on the device, DeviceDecodeContext, a staging context after its run, the host code
-- of run_sparse_decode_cuda, experiments, benchmarks and tools.
mod Base
pub mod Core
pub mod Coding
pub mod Runtime
pub mod Kernels
pub mod Simulation
mod Tests
