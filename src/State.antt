-- ===== src/State.antt =====
-- zksync/core/lib/state/src/: the state of the network and its operations.
pub mod Defs
pub mod Handler
pub mod Updates
pub mod Execute
pub mod View
pub mod Refine
pub mod Reverse
pub mod Consistent
pub mod RoundTrip
pub mod Steps
pub mod Inversion
pub mod Explains
pub mod Errors
pub mod Batch
pub mod Conversion
pub mod Undo
pub mod Spending
pub mod Authority
pub mod Supply
pub mod Conservation
pub mod Priority
pub mod PriorityBalance
pub mod Density
pub mod Growth
pub mod Fees
pub mod NoPanic
pub mod Accepted
pub mod Examples
