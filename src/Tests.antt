-- ===== src/Tests.antt =====
-- Runs of the model on small inputs, and the theorems at inputs that meet their hypotheses.
mod Histories
mod Reductions
mod Descriptors
mod Devices
mod Runs
mod Interleavings
mod Echoes
mod Cuts
mod Faulty
mod Replays
mod Adapters
mod Workloads
mod Generated
