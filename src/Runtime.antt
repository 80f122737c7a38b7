-- ===== src/Runtime.antt =====
-- src/runtime and include/codedllm/runtime: arrival tracking, the recovery policy and the
-- coordinator of requests.
pub mod Policy
pub mod Request
pub mod Coordinator
pub mod Executor
