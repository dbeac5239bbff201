-- ===== src/Server.antt =====
-- cmd/server: the API server. Its handlers run one after another here; the source takes no lock.
pub mod Json
pub mod Node
pub mod Handlers
pub mod Minted
pub mod Answers
pub mod Grown
pub mod Refusal
pub mod Reachable
pub mod Supply
pub mod Storable
pub mod Earned
pub mod Lookup
