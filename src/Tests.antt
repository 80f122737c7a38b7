-- ===== src/Tests.antt =====
-- Runs of the model at concrete inputs, and the theorems at inputs that meet their hypotheses.
mod Stripes
mod Requests
mod Coordinators
mod Queues
mod Workloads
mod Executors
mod Devices
mod Decodes
