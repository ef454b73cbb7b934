-- ===== src/StateKeeper/Examples/Proposals.antt =====
-- Proposals and batches for the keeper of the examples.
use qs_react_native_zksync.Prelude.{
  ◌+◌, ◌≡◌, ◌≢◌, refl, arith, none, some, List, [], ◌∷◌, map, true, replicate,
}
use qs_react_native_zksync.HashMap
use qs_react_native_zksync.Account.{replace_balance, update_balance}
use qs_react_native_zksync.Tx.{withdraw, transfer, not_cached}
use qs_react_native_zksync.Tx.Verify.{transfer_signer}
use qs_react_native_zksync.State.Defs.{OpSuccess, ZkSyncOp, ok, get_account_by_address}
use qs_react_native_zksync.State.Execute.{
  SignedZkSyncTx, chunks_for_batch, execute_txs_batch, execute_tx, chunks_for_tx,
  zksync_tx_to_zksync_op,
}
use qs_react_native_zksync.State.Handler.Transfer.{create_transfer}
use qs_react_native_zksync.State.Examples.{toy_crypto, two_accounts, payment, paid_success}
use qs_react_native_zksync.Gas.{Outcome, done, add_op, commit_op_cost, verify_op_cost, scale_up}
use qs_react_native_zksync.Block.{ExecutedOperations, chunks_used}
use qs_react_native_zksync.StateKeeper.Defs.{
  ZkSyncStateKeeper, SignedTxVariant, SignedTxsBatch, ProposedBlock,
}
use qs_react_native_zksync.StateKeeper.Apply.{executed_tx, count_gas, record_result}
use qs_react_native_zksync.StateKeeper.ApplyBatch.{
  apply_batch, admit_batch, record_results, count_batch_withdrawal,
}
use qs_react_native_zksync.StateKeeper.Run.{run_queue, apply_variant, execute_proposed_block}
use qs_react_native_zksync.StateKeeper.Batches.{
  oversized_batch-never_done, apply_batch-takes_chunks,
}
use qs_react_native_zksync.StateKeeper.Termination.{ProposalExecutes, execute_proposed_block-ends}
use qs_react_native_zksync.StateKeeper.Examples.{
  keeper, signed_pay, deposit_op, toy_root, largest_is_30,
}

-- A batch of two payments, the second with the next nonce.
abbrev two_payments : List SignedZkSyncTx
two_payments =
    signed_pay ∷ record { tx = transfer (record payment { nonce = 6 }); eth_sign_data = none } ∷ []

-- A deposit, a payment and a batch.
abbrev three_items : ProposedBlock
three_items = record {
  priority_ops = deposit_op ∷ [];
  txs =
      SignedTxVariant.tx signed_pay
      ∷ SignedTxVariant.batch (record { txs = two_payments; batch_id = 1 })
      ∷ [];
}

execute_proposed_block-ends_example :
    (r : Outcome (Unit {0}) (Unit {0}) × ZkSyncStateKeeper) × (execute_proposed_block toy_crypto
        toy_root 4 three_items keeper
      ≡ some r)
    × ProposalExecutes toy_crypto toy_root three_items keeper r
execute_proposed_block-ends_example =
    execute_proposed_block-ends toy_crypto toy_root 30 2 (omega arith) (omega arith) three_items 4
      keeper (largest_is_30, refl) (tt, ((omega arith, omega arith, omega arith), tt)) (omega arith)
      (omega arith)

-- Three withdrawals, where a block may have two.
abbrev withdrawal : SignedZkSyncTx
withdrawal = record {
  tx = withdraw (record {
    account_id = 0;
    from = 100;
    to = 100;
    token = 0;
    amount = 1;
    fee = 0;
    nonce = 5;
    signature = payment.signature;
    cached_signer = not_cached;
    fast = true;
  });
  eth_sign_data = none;
}

abbrev three_withdrawals : SignedTxsBatch
three_withdrawals = record { txs = replicate 3 withdrawal; batch_id = 2 }

oversized_batch-never_done_example :
    run_queue toy_crypto toy_root
      (apply_variant toy_crypto toy_root)
      100
      (SignedTxVariant.batch three_withdrawals ∷ [])
      keeper
    ≢ some (done tt, keeper)
oversized_batch-never_done_example =
    oversized_batch-never_done toy_crypto toy_root three_withdrawals 2 (omega arith) (omega arith)
      100 [] keeper keeper refl (omega arith)

abbrev payments_ran : Outcome (Unit {0}) (List ExecutedOperations) × ZkSyncStateKeeper
payments_ran = apply_batch toy_crypto two_payments 1 keeper

abbrev second_payment : OpSuccess
second_payment = record {
  fee = some (record { token = 0; amount = 1 });
  updates = (0, update_balance 6 7 0 989 978) ∷ (1, update_balance 0 0 0 60 70) ∷ [];
  executed_op = ZkSyncOp.transfer (record { tx = record payment { nonce = 6 }; from = 0; to = 1 });
}

abbrev executed_payments : List ExecutedOperations
executed_payments =
    ExecutedOperations.tx (executed_tx signed_pay (some 1) paid_success 0)
    ∷ ExecutedOperations.tx (
        executed_tx (record { tx = transfer (record payment { nonce = 6 }); eth_sign_data = none })
          (some 1) second_payment 1)
    ∷ []

payments_succeed :
    (execute_txs_batch toy_crypto two_payments two_accounts).0
    ≡ ok (map ok (paid_success ∷ second_payment ∷ []))
unfolding execute_txs_batch execute_tx transfer_signer HashMap.get replace_balance HashMap.insert
    HashMap.remove
payments_succeed = refl

payments_ran_is : payments_ran ≡ (done executed_payments, payments_ran.1)
unfolding apply_batch chunks_for_batch chunks_for_tx admit_batch count_gas add_op commit_op_cost
    verify_op_cost scale_up count_batch_withdrawal record_results record_result execute_txs_batch
    execute_tx zksync_tx_to_zksync_op transfer_signer HashMap.get replace_balance HashMap.insert
    HashMap.remove get_account_by_address create_transfer
payments_ran_is = refl

payments_chunks : chunks_for_batch two_payments two_accounts ≡ ok 4
unfolding chunks_for_batch chunks_for_tx get_account_by_address HashMap.get
payments_chunks = refl

-- Two payments of two chunks each take eight chunks.
apply_batch-takes_chunks_example : payments_ran.1.pending_block.chunks_left + 8 ≡ 30
apply_batch-takes_chunks_example =
    apply_batch-takes_chunks toy_crypto two_payments 1 4 keeper payments_ran.1
      (paid_success ∷ second_payment ∷ []) executed_payments payments_chunks payments_succeed refl
      (omega arith) payments_ran_is

payments_used : chunks_used payments_ran.1.pending_block.success_operations ≡ 4
unfolding apply_batch chunks_for_batch chunks_for_tx admit_batch count_gas add_op commit_op_cost
    verify_op_cost scale_up count_batch_withdrawal record_results record_result execute_txs_batch
    execute_tx zksync_tx_to_zksync_op transfer_signer HashMap.get replace_balance HashMap.insert
    HashMap.remove get_account_by_address create_transfer chunks_used
payments_used = refl
