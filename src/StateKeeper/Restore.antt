-- ===== src/StateKeeper/Restore.antt =====
-- `ZkSyncStateKeeper::new` and `initialize`: a keeper after a start, and the pending block that is
-- executed again.
use qs_react_native_zksync.Prelude.{
  ℕ, ◌+◌, ◌%◌, Bool, true, Option, none, some, List, [], ◌∷◌, length, leb, if◌then◌else◌,
}
use qs_react_native_zksync.Params.{u32_mod}
use qs_react_native_zksync.HashMap.{HashMap}
use qs_react_native_zksync.Tx.{Crypto}
use qs_react_native_zksync.State.Defs.{
  ZkSyncState, AccountTree, Result, ok, err, panic, get_account_by_address,
}
use qs_react_native_zksync.Gas.{done, refused, crash}
use qs_react_native_zksync.Block.{ExecutedOperations}
use qs_react_native_zksync.StateKeeper.Defs.{
  ZkSyncStateKeeper, Call, SendablePendingBlock, new_pending_block,
}
use qs_react_native_zksync.StateKeeper.Apply.{apply_tx, apply_priority_op}

pub record ZkSyncStateInitParams : Type 0 where
  pub tree : AccountTree
  pub acc_id_by_addr : HashMap ℕ
  pub last_block_number : ℕ
  pub unprocessed_priority_op : ℕ

-- a list equals its sorted copy
unfoldable pub is_sorted : List ℕ → Bool
is_sorted [] = true
is_sorted (a ∷ []) = true
is_sorted (a ∷ b ∷ rest) =
    let sorted = is_sorted (b ∷ rest) in if leb a b then sorted else Bool.false

-- `iter().max()`
unfoldable pub maximum : List ℕ → Option ℕ
maximum [] = none
maximum (a ∷ rest) = elim (maximum rest) [
  | none ↦ some a
  | some b ↦ if leb a b then some b else some a
]

unfoldable pub new : ZkSyncStateInitParams → ℕ → List ℕ → ℕ → ℕ → ℕ → Result ZkSyncStateKeeper
unfolding is_sorted maximum get_account_by_address
new initial fee_account_address sizes max_iterations fast_iterations max_withdrawals =
    let state : ZkSyncState = record {
      balance_tree = initial.tree;
      account_id_by_address = initial.acc_id_by_addr;
      block_number = (initial.last_block_number + 1) % u32_mod;
    } in
    if is_sorted sizes
    then elim (maximum sizes) [
      | none ↦ panic
      | some max_block_size ↦ elim (get_account_by_address fee_account_address state) [
        | err e ↦ panic
        | panic ↦ panic
        | ok found ↦ elim found [
          | none ↦ panic
          | some account ↦ ok (record {
            state = state;
            fee_account_id = account.0;
            current_unprocessed_priority_op = initial.unprocessed_priority_op;
            pending_block = new_pending_block initial.unprocessed_priority_op max_block_size;
            tx_for_commitments = [];
            available_block_chunk_sizes = sizes;
            max_miniblock_iterations = max_iterations;
            fast_miniblock_iterations = fast_iterations;
            max_number_of_withdrawals_per_block = max_withdrawals;
          })
        ]
      ]
    ]
    else panic

-- An operation of the restored block, executed again; a refusal is a panic.
unfoldable pub execute_again : Crypto → ExecutedOperations → Call (Unit {0}) ExecutedOperations
execute_again c (ExecutedOperations.tx executed) k = apply_tx c executed.signed_tx k
execute_again c (ExecutedOperations.priority_op executed) k =
    let (out, k') = apply_priority_op executed.priority_op k in
    elim out [ done made ↦ (done made, k') | refused op ↦ (refused tt, k') | crash ↦ (crash, k') ]

-- The loop of `initialize` over the operations.
unfoldable pub execute_all_again : Crypto → List ExecutedOperations → Call (Unit {0}) (Unit {0})
unfolding execute_again
execute_all_again c [] k = (done tt, k)
execute_all_again c (operation ∷ operations) k =
    let (out, k') = execute_again c operation k in
    elim out [
      | done made ↦ execute_all_again c operations k'
      | refused u ↦ (crash, k')
      | crash ↦ (crash, k')
    ]

unfoldable pub initialize : Crypto → Option SendablePendingBlock → Call (Unit {0}) (Unit {0})
unfolding execute_all_again
initialize c none k = (done tt, k)
initialize c (some pending) k =
    let (out, k') = execute_all_again c pending.success_operations k in
    elim out [
      | refused u ↦ (crash, k')
      | crash ↦ (crash, k')
      | done u ↦ (
        done tt,
        record k' {
          pending_block = record k'.pending_block {
            stored_account_updates = length k'.pending_block.account_updates;
            failed_txs = pending.failed_txs;
          };
        },
      )
    ]
