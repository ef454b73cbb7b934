-- ===== src/Block.antt =====
-- zksync/core/lib/types/src/block.rs, and the priority operation of priority_ops/mod.rs: executed
-- operations, blocks and their sizes. Times of creation are left out.
use qs_react_native_zksync.Prelude.{
  ℕ, ◌+◌, Bool, Option, none, some, List, [], ◌∷◌, leb, if◌then◌else◌,
}
use qs_react_native_zksync.State.Defs.{ZkSyncOp, ZkSyncPriorityOp, Error, Result, ok, err, panic}
use qs_react_native_zksync.State.Execute.{SignedZkSyncTx, chunks}
use qs_react_native_zksync.Tx.{Bytes}

pub record PriorityOp : Type 0 where
  pub serial_id : ℕ
  pub «data» : ZkSyncPriorityOp
  pub deadline_block : ℕ
  pub eth_hash : Bytes
  pub eth_block : ℕ

-- `ZkSyncPriorityOp::chunks`
abbrev pub priority_chunks : ZkSyncPriorityOp → ℕ
priority_chunks (ZkSyncPriorityOp.deposit op) = 6
priority_chunks (ZkSyncPriorityOp.full_exit op) = 6

pub record ExecutedTx : Type 0 where
  pub signed_tx : SignedZkSyncTx
  pub success : Bool
  pub op : Option ZkSyncOp
  pub fail_reason : Option Error
  pub block_index : Option ℕ
  pub batch_id : Option ℕ

pub record ExecutedPriorityOp : Type 0 where
  pub priority_op : PriorityOp
  pub op : ZkSyncOp
  pub block_index : ℕ

pub data ExecutedOperations : Type 0 where
  tx : ExecutedTx → ExecutedOperations
  priority_op : ExecutedPriorityOp → ExecutedOperations

unfoldable pub get_executed_op : ExecutedOperations → Option ZkSyncOp
get_executed_op (ExecutedOperations.tx e) = e.op
get_executed_op (ExecutedOperations.priority_op e) = some e.op

pub record Block : Type 0 where
  pub block_number : ℕ
  pub new_root_hash : ℕ
  pub fee_account : ℕ
  pub block_transactions : List ExecutedOperations
  pub processed_priority_ops : ℕ × ℕ
  pub block_chunks_size : ℕ
  pub commit_gas_limit : ℕ
  pub verify_gas_limit : ℕ

-- the sum over a block's operations
unfoldable pub chunks_used : List ExecutedOperations → ℕ
unfolding get_executed_op
chunks_used [] = 0
chunks_used (e ∷ es) = elim (get_executed_op e) [
  | none ↦ chunks_used es
  | some op ↦ chunks op + chunks_used es
]

-- The first of the supported sizes that fits.
unfoldable pub smallest_block_size_for_chunks : ℕ → List ℕ → Result ℕ
smallest_block_size_for_chunks used [] = panic
smallest_block_size_for_chunks used (size ∷ sizes) =
    let rest = smallest_block_size_for_chunks used sizes in if leb used size then ok size else rest

unfoldable pub new_from_available_block_sizes :
    ℕ → ℕ → ℕ → List ExecutedOperations → ℕ × ℕ → List ℕ → ℕ → ℕ → Result Block
unfolding chunks_used smallest_block_size_for_chunks
new_from_available_block_sizes number root fee_account txs processed sizes commit verify =
    elim (smallest_block_size_for_chunks (chunks_used txs) sizes) [
      | ok size ↦ ok (record {
        block_number = number;
        new_root_hash = root;
        fee_account = fee_account;
        block_transactions = txs;
        processed_priority_ops = processed;
        block_chunks_size = size;
        commit_gas_limit = commit;
        verify_gas_limit = verify;
      })
      | err e ↦ err e
      | panic ↦ panic
    ]
