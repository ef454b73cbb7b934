-- ===== src/StateKeeper/Storing.antt =====
-- `store_pending_block`, and what the committer receives.
use qs_react_native_zksync.Prelude.{[], ◌∷◌, ◌++◌, length}
use qs_react_native_zksync.Account.{AccountUpdates}
use qs_react_native_zksync.StateKeeper.Defs.{ZkSyncStateKeeper, SendablePendingBlock, CommitRequest}

-- The form in which the pending block is stored.
abbrev pub sendable : ZkSyncStateKeeper → SendablePendingBlock
sendable k = record {
  number = k.state.block_number;
  chunks_left = k.pending_block.chunks_left;
  unprocessed_priority_op_before = k.pending_block.unprocessed_priority_op_before;
  pending_block_iteration = k.pending_block.pending_block_iteration;
  success_operations = k.pending_block.success_operations;
  failed_txs = k.pending_block.failed_txs;
}

abbrev pub after_storing : ZkSyncStateKeeper → AccountUpdates → ZkSyncStateKeeper
after_storing k us = record k {
  pending_block = record k.pending_block {
    stored_account_updates = length k.pending_block.account_updates;
  };
  tx_for_commitments =
      k.tx_for_commitments
      ++ CommitRequest.pending_block (sendable k) (record {
        account_updates = us;
        first_update_order_id = k.pending_block.stored_account_updates;
      })
        ∷ [];
}
