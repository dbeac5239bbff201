-- ===== src/Tests.antt =====
-- The theorems at concrete inputs.
mod Samples
mod Toy
mod Chains
mod Payments
mod Mining
mod Pool
mod Files
mod Nodes
mod Sessions
mod Restarts
mod Keys
