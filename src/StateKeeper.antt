-- ===== src/StateKeeper.antt =====
-- zksync/core/bin/zksync_core/src/state_keeper/mod.rs: the actor that executes what the mempool
-- proposes and forms blocks.
pub mod Defs
pub mod Apply
pub mod ApplyBatch
pub mod Seal
pub mod Run
pub mod Inversion
pub mod Invariant
pub mod Sealing
pub mod Queue
pub mod Settles
pub mod GasRoom
pub mod Takes
pub mod TakesBatch
pub mod Restore
pub mod Restored
pub mod Storing
pub mod Termination
pub mod Batches
pub mod Examples
pub mod Forming
