-- ===== src/EthSender.antt =====
-- zksync/core/bin/zksync_eth_sender/src: the sender of Ethereum transactions, its queues and its gas
-- price.
pub mod CounterQueue
pub mod SparseQueue
pub mod TxQueue
pub mod Order
pub mod Policy
pub mod Returns
pub mod Typed
pub mod Calls
pub mod GasAdjuster
pub mod GasPrice
pub mod Examples
