-- ===== src/StateKeeper/Defs.antt =====
-- The state keeper and its pending block, what it sends to the committer, and what the mempool
-- proposes (mempool.rs, committer.rs of zksync_core, mempool.rs of the types).
use qs_react_native_zksync.Prelude.{ℕ, Bool, false, List, []}
use qs_react_native_zksync.Account.{AccountUpdates}
use qs_react_native_zksync.State.Defs.{ZkSyncState, CollectedFee}
use qs_react_native_zksync.State.Execute.{SignedZkSyncTx}
use qs_react_native_zksync.Gas.{GasCounter, new_gas_counter, Outcome}
use qs_react_native_zksync.Block.{Block, ExecutedTx, ExecutedOperations, PriorityOp}

pub record PendingBlock : Type 0 where
  pub success_operations : List ExecutedOperations
  pub failed_txs : List ExecutedTx
  pub account_updates : AccountUpdates
  pub chunks_left : ℕ
  pub pending_op_block_index : ℕ
  pub unprocessed_priority_op_before : ℕ
  pub pending_block_iteration : ℕ
  pub withdrawals_amount : ℕ
  pub gas_counter : GasCounter
  pub fast_processing_required : Bool
  pub collected_fees : List CollectedFee
  pub stored_account_updates : ℕ

-- `PendingBlock::new`
abbrev pub new_pending_block : ℕ → ℕ → PendingBlock
new_pending_block unprocessed_priority_op_before chunks_left = record {
  success_operations = [];
  failed_txs = [];
  account_updates = [];
  chunks_left = chunks_left;
  pending_op_block_index = 0;
  unprocessed_priority_op_before = unprocessed_priority_op_before;
  pending_block_iteration = 0;
  withdrawals_amount = 0;
  gas_counter = new_gas_counter;
  fast_processing_required = false;
  collected_fees = [];
  stored_account_updates = 0;
}

-- `block::PendingBlock`, the form that is stored
pub record SendablePendingBlock : Type 0 where
  pub number : ℕ
  pub chunks_left : ℕ
  pub unprocessed_priority_op_before : ℕ
  pub pending_block_iteration : ℕ
  pub success_operations : List ExecutedOperations
  pub failed_txs : List ExecutedTx

pub record BlockCommitRequest : Type 0 where
  pub block : Block
  pub accounts_updated : AccountUpdates

pub record AppliedUpdatesRequest : Type 0 where
  pub account_updates : AccountUpdates
  pub first_update_order_id : ℕ

pub data CommitRequest : Type 0 where
  pending_block : SendablePendingBlock → AppliedUpdatesRequest → CommitRequest
  block : BlockCommitRequest → AppliedUpdatesRequest → CommitRequest

-- The keeper, with the requests it has sent on the channel `tx_for_commitments`, the oldest first.
pub record ZkSyncStateKeeper : Type 0 where
  pub state : ZkSyncState
  pub fee_account_id : ℕ
  pub current_unprocessed_priority_op : ℕ
  pub pending_block : PendingBlock
  pub tx_for_commitments : List CommitRequest
  pub available_block_chunk_sizes : List ℕ
  pub max_miniblock_iterations : ℕ
  pub fast_miniblock_iterations : ℕ
  pub max_number_of_withdrawals_per_block : ℕ

pub record SignedTxsBatch : Type 0 where
  pub txs : List SignedZkSyncTx
  pub batch_id : ℕ

pub data SignedTxVariant : Type 0 where
  tx : SignedZkSyncTx → SignedTxVariant
  batch : SignedTxsBatch → SignedTxVariant

pub record ProposedBlock : Type 0 where
  pub priority_ops : List PriorityOp
  pub txs : List SignedTxVariant

-- What a call on the keeper returns, and the keeper after it.
abbrev pub Call : Type 0 → Type 0 → Type 0
Call E A = ZkSyncStateKeeper → Outcome E A × ZkSyncStateKeeper
