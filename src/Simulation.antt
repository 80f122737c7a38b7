-- ===== src/Simulation.antt =====
-- src/simulation and include/codedllm/simulation: the bounded recovery queue, the
-- simulators and the workload generator.
pub mod RecoveryQueue
pub mod Simulator
pub mod ClusterSimulator
pub mod Workload
