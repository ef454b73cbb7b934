-- ===== src/StateKeeper/Examples.antt =====
-- A keeper on the state with two accounts, and what the theorems say of it.
pub mod Proposals
use qs_react_native_zksync.Prelude.{
  ℕ, ◌+◌, ◌≡◌, ◌≢◌, refl, arith, none, some, List, [], ◌∷◌, map, length, true, replicate,
}
use qs_react_native_zksync.HashMap
use qs_react_native_zksync.Account.{AccountUpdates, replace_balance, update_balance}
use qs_react_native_zksync.Tx.{withdraw, transfer, not_cached}
use qs_react_native_zksync.Tx.Verify.{transfer_signer}
use qs_react_native_zksync.State.Defs.{
  ZkSyncState, OpSuccess, ZkSyncOp, ok, get_account, get_account_by_address,
}
use qs_react_native_zksync.State.Execute.{
  SignedZkSyncTx, chunks_for_batch, execute_txs_batch, execute_tx, chunks_for_tx,
  execute_priority_op, priority_op_to_zksync_op, zksync_tx_to_zksync_op,
}
use qs_react_native_zksync.State.Handler.Transfer.{create_transfer}
use qs_react_native_zksync.State.Handler.Priority.{create_deposit}
use qs_react_native_zksync.StateKeeper.Inversion.{executed_priority_op}
use qs_react_native_zksync.State.Examples.{
  toy_crypto, two_accounts, two_accounts-IsValid, bob, pay, payment, paid_success,
}
use qs_react_native_zksync.State.Examples.Priority.{deposit, deposit_success}
use qs_react_native_zksync.Gas.{Outcome, done, add_op, commit_op_cost, verify_op_cost, scale_up}
use qs_react_native_zksync.Block.{Block, ExecutedOperations, PriorityOp, chunks_used}
use qs_react_native_zksync.StateKeeper.Defs.{
  ZkSyncStateKeeper, SignedTxVariant, SignedTxsBatch, SendablePendingBlock, new_pending_block,
}
use qs_react_native_zksync.StateKeeper.Apply.{
  executed_tx, apply_tx, apply_priority_op, count_gas, count_withdrawal, record_result,
}
use qs_react_native_zksync.StateKeeper.ApplyBatch.{
  apply_batch, admit_batch, record_results, count_batch_withdrawal,
}
use qs_react_native_zksync.StateKeeper.Seal.{last, seal_pending_block}
use qs_react_native_zksync.StateKeeper.Run.{run_queue, apply_variant, execute_proposed_block}
use qs_react_native_zksync.StateKeeper.Restore.{initialize, execute_all_again, execute_again}
use qs_react_native_zksync.StateKeeper.Forming.{IsForming, HasRoom, Explains-nothing}
use qs_react_native_zksync.StateKeeper.Sealing.{
  IsSealed, after_sealing, sent_block, new_gas_counter-GasFits, seal_pending_block-seals,
}
use qs_react_native_zksync.StateKeeper.Invariant.{apply_tx-IsForming, apply_priority_op-IsForming}
use qs_react_native_zksync.StateKeeper.Restored.{initialize-IsForming}
use qs_react_native_zksync.StateKeeper.Batches.{
  oversized_batch-never_done, apply_batch-takes_chunks,
}
use qs_react_native_zksync.StateKeeper.Termination.{execute_proposed_block-ends}

-- Blocks of 6 or 30 chunks, with at most 2 withdrawals.
abbrev pub keeper : ZkSyncStateKeeper
keeper = record {
  state = two_accounts;
  fee_account_id = 1;
  current_unprocessed_priority_op = 0;
  pending_block = new_pending_block 0 30;
  tx_for_commitments = [];
  available_block_chunk_sizes = 6 ∷ 30 ∷ [];
  max_miniblock_iterations = 10;
  fast_miniblock_iterations = 5;
  max_number_of_withdrawals_per_block = 2;
}

keeper-IsForming : IsForming two_accounts keeper
unfolding chunks_used
keeper-IsForming = record {
  valid = two_accounts-IsValid;
  explains = Explains-nothing two_accounts two_accounts-IsValid.unique;
  gas = new_gas_counter-GasFits;
  index = refl;
  stored = omega arith;
  failures = refl;
}

keeper-HasRoom : HasRoom 30 keeper.pending_block
unfolding chunks_used
keeper-HasRoom = refl

abbrev pub signed_pay : SignedZkSyncTx
signed_pay = record { tx = pay; eth_sign_data = none }

abbrev paid : Outcome (Unit {0}) ExecutedOperations × ZkSyncStateKeeper
paid = apply_tx toy_crypto signed_pay keeper

abbrev paid_op : ExecutedOperations
paid_op = ExecutedOperations.tx (executed_tx signed_pay none paid_success 0)

paid_is : paid ≡ (done paid_op, paid.1)
unfolding apply_tx chunks_for_tx count_gas add_op commit_op_cost verify_op_cost scale_up
    count_withdrawal record_result execute_tx zksync_tx_to_zksync_op transfer_signer HashMap.get
    replace_balance HashMap.insert HashMap.remove get_account_by_address create_transfer
paid_is = refl

apply_tx-IsForming_example : IsForming two_accounts paid.1 × HasRoom 30 paid.1.pending_block
apply_tx-IsForming_example =
    apply_tx-IsForming toy_crypto signed_pay two_accounts 30 keeper paid.1 paid_op keeper-IsForming
      keeper-HasRoom tt paid_is

abbrev pub deposit_op : PriorityOp
deposit_op = record {
  serial_id = 0;
  «data» = deposit;
  deadline_block = 100;
  eth_hash = [];
  eth_block = 1;
}

abbrev deposited : Outcome PriorityOp ExecutedOperations × ZkSyncStateKeeper
deposited = apply_priority_op deposit_op keeper

abbrev deposited_op : ExecutedOperations
deposited_op = executed_priority_op deposit_op deposit_success 0

deposited_is : deposited ≡ (done deposited_op, deposited.1)
unfolding apply_priority_op count_gas add_op commit_op_cost verify_op_cost scale_up
    execute_priority_op priority_op_to_zksync_op HashMap.get replace_balance HashMap.insert
    HashMap.remove create_deposit
deposited_is = refl

apply_priority_op-IsForming_example :
    IsForming two_accounts deposited.1 × HasRoom 30 deposited.1.pending_block
apply_priority_op-IsForming_example =
    apply_priority_op-IsForming deposit_op two_accounts 30 keeper deposited.1 deposited_op
      keeper-IsForming keeper-HasRoom deposited_is

-- The root hash stands for itself.
abbrev pub toy_root : ZkSyncState → ℕ
toy_root s = s.block_number

bob_there : get_account 1 two_accounts ≡ some bob
unfolding HashMap.get
bob_there = refl

pub largest_is_30 : last (6 ∷ 30 ∷ []) ≡ some 30
unfolding last
largest_is_30 = refl

seal_pending_block-seals_example :
    (block : Block) × (updates : AccountUpdates) × (s : ZkSyncState) × (seal_pending_block toy_root
        keeper
      ≡ (done tt, after_sealing keeper s 30 (sent_block keeper block updates)))
    × IsSealed two_accounts 30 keeper block updates s
    × (let k' = after_sealing keeper s 30 (sent_block keeper block updates) in
        IsForming k'.state k' × HasRoom 30 k'.pending_block)
seal_pending_block-seals_example =
    seal_pending_block-seals toy_root two_accounts 30 keeper bob keeper-IsForming keeper-HasRoom
      largest_is_30 bob_there

abbrev pending : SendablePendingBlock
pending = record {
  number = 0;
  chunks_left = 22;
  unprocessed_priority_op_before = 0;
  pending_block_iteration = 1;
  success_operations = paid_op ∷ [];
  failed_txs = [];
}

abbrev restored : Outcome (Unit {0}) (Unit {0}) × ZkSyncStateKeeper
restored = initialize toy_crypto (some pending) keeper

restored_is : restored ≡ (done tt, restored.1)
unfolding initialize execute_all_again execute_again apply_tx chunks_for_tx count_gas add_op
    commit_op_cost verify_op_cost scale_up count_withdrawal record_result execute_tx
    zksync_tx_to_zksync_op transfer_signer HashMap.get replace_balance HashMap.insert HashMap.remove
    get_account_by_address create_transfer
restored_is = refl

initialize-IsForming_example :
    IsForming two_accounts restored.1
    × HasRoom 30 restored.1.pending_block
    × (restored.1.pending_block.stored_account_updates
        ≡ length restored.1.pending_block.account_updates)
    × (restored.1.pending_block.failed_txs ≡ [])
initialize-IsForming_example =
    initialize-IsForming toy_crypto two_accounts 30 pending keeper restored.1 (tt, tt)
      (unfold chunks_used in refl) keeper-IsForming keeper-HasRoom restored_is
