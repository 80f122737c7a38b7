-- ===== src/Coding.antt =====
-- src/coding and include/codedllm/coding: the code graphs, the codec and the decode planner.
pub mod Plan
pub mod Graph
pub mod GraphGenerator
pub mod Codec
pub mod Planner
pub mod Recovery
