-- ===== src/State/Handler.antt =====
-- zksync/core/lib/state/src/handler/: `create_op`, which reads the state only, `apply_op` and
-- `apply_tx` for each transaction and priority operation. A nonce is a `u32` that wraps.
pub mod Base
pub mod Transfer
pub mod Withdraw
pub mod ChangePubKey
pub mod ForcedExit
pub mod Close
pub mod Priority
