-- ===== src/StateKeeper/Apply.antt =====
-- `apply_priority_op`, `apply_tx` and `apply_batch`: one proposal on the pending block.
use qs_react_native_zksync.Prelude.{
  u64_mod, usize_sub, ℕ, ◌+◌, ◌%◌, Bool, true, false, Option, none, some, List, [], ◌∷◌, ◌++◌, ltb,
  if◌then◌else◌,
}
use qs_react_native_zksync.Params.{u32_mod}
use qs_react_native_zksync.Tx.{
  Crypto, ZkSyncTx, transfer, withdraw, close, change_pub_key, forced_exit,
}
use qs_react_native_zksync.State.Defs.{
  ZkSyncOp, OpSuccess, CollectedFee, Error, Result, ok, err, panic,
}
use qs_react_native_zksync.State.Execute.{
  SignedZkSyncTx, execute_tx, execute_priority_op, chunks_for_tx, zksync_tx_to_zksync_op,
  priority_op_to_zksync_op,
}
use qs_react_native_zksync.Gas.{GasCounter, add_op, Outcome, done, refused, crash}
use qs_react_native_zksync.Block.{ExecutedTx, ExecutedOperations, PriorityOp, priority_chunks}
use qs_react_native_zksync.StateKeeper.Defs.{PendingBlock, ZkSyncStateKeeper, Call}

-- The gas counter with an operation that is about to run. A failed conversion is not counted: the
-- transaction fails as well.
unfoldable pub count_gas : Result ZkSyncOp → GasCounter → Outcome (Unit {0}) GasCounter
count_gas (ok op) gas = add_op op gas
count_gas (err e) gas = done gas
count_gas panic gas = crash

abbrev pub push_fee : Option CollectedFee → List CollectedFee → List CollectedFee
push_fee none fees = fees
push_fee (some fee) fees = fees ++ (fee ∷ [])

-- What a success adds to the pending block; `made` is the executed operation at its index.
unfoldable pub push_success : ℕ → OpSuccess → ExecutedOperations → PendingBlock → PendingBlock
push_success chunks_needed r made pb = record pb {
  chunks_left = usize_sub pb.chunks_left chunks_needed;
  account_updates = pb.account_updates ++ r.updates;
  collected_fees = push_fee r.fee pb.collected_fees;
  pending_op_block_index = (pb.pending_op_block_index + 1) % u32_mod;
  success_operations = pb.success_operations ++ (made ∷ []);
}

unfoldable pub apply_priority_op : PriorityOp → Call PriorityOp ExecutedOperations
unfolding count_gas push_success
apply_priority_op op k =
    let pb = k.pending_block in
    let needed = priority_chunks op.«data» in
    if ltb pb.chunks_left needed
    then (refused op, k)
    else elim (count_gas (priority_op_to_zksync_op op.«data» k.state).0 pb.gas_counter) [
      | refused u ↦ (refused op, k)
      | crash ↦ (crash, k)
      | done gas ↦
          let (r, s) = execute_priority_op op.«data» k.state in
          elim r [
            | ok success ↦
                let made = ExecutedOperations.priority_op (record {
                  priority_op = op;
                  op = success.executed_op;
                  block_index = pb.pending_op_block_index;
                }) in
                (
                  done made,
                  record k {
                    state = s;
                    pending_block =
                        push_success needed success made (record pb { gas_counter = gas });
                    current_unprocessed_priority_op =
                        (k.current_unprocessed_priority_op + 1) % u64_mod;
                  },
                )
            | err e ↦ (crash, k)
            | panic ↦ (crash, k)
          ]
    ]

-- The record of a transaction that succeeded, and of one that failed.
abbrev pub executed_tx : SignedZkSyncTx → Option ℕ → OpSuccess → ℕ → ExecutedTx
executed_tx tx batch_id r index = record {
  signed_tx = tx;
  success = true;
  op = some r.executed_op;
  fail_reason = none;
  block_index = some index;
  batch_id = batch_id;
}

abbrev pub failed_tx : SignedZkSyncTx → Option ℕ → Error → ExecutedTx
failed_tx tx batch_id e = record {
  signed_tx = tx;
  success = false;
  op = none;
  fail_reason = some e;
  block_index = none;
  batch_id = batch_id;
}

-- What the result of a transaction adds to the pending block.
unfoldable pub record_result :
    SignedZkSyncTx
    → Option ℕ
    → ℕ
    → Result OpSuccess
    → PendingBlock
    → Outcome (Unit {0}) ExecutedOperations × PendingBlock
unfolding push_success
record_result tx batch_id needed (ok r) pb =
    let made = ExecutedOperations.tx (executed_tx tx batch_id r pb.pending_op_block_index) in
    (done made, push_success needed r made pb)
record_result tx batch_id needed (err e) pb =
    let failed = failed_tx tx batch_id e in
    (done (ExecutedOperations.tx failed), record pb { failed_txs = pb.failed_txs ++ (failed ∷ []) })
record_result tx batch_id needed panic pb = (crash, pb)

-- A withdrawal is counted, and asks for fast processing where it is to be fast.
unfoldable pub count_withdrawal : ZkSyncTx → PendingBlock → PendingBlock
count_withdrawal (transfer tx) pb = pb
count_withdrawal (withdraw tx) pb = record pb {
  withdrawals_amount = (pb.withdrawals_amount + 1) % u32_mod;
  fast_processing_required = if tx.fast then true else pb.fast_processing_required;
}
count_withdrawal (close tx) pb = pb
count_withdrawal (change_pub_key tx) pb = pb
count_withdrawal (forced_exit tx) pb = pb

-- More withdrawals than a block may have, where the limit is cast to u32.
abbrev pub too_many : ZkSyncStateKeeper → PendingBlock → Bool
too_many k pb = ltb (k.max_number_of_withdrawals_per_block % u32_mod) pb.withdrawals_amount

unfoldable pub apply_tx : Crypto → SignedZkSyncTx → Call (Unit {0}) ExecutedOperations
unfolding count_gas record_result count_withdrawal
apply_tx c tx k = elim (chunks_for_tx tx.tx k.state) [
  | ok needed ↦
      if ltb k.pending_block.chunks_left needed
      then (refused tt, k)
      else elim (count_gas (zksync_tx_to_zksync_op c tx.tx k.state).0 k.pending_block.gas_counter) [
        | refused u ↦ (refused tt, k)
        | crash ↦ (crash, k)
        | done gas ↦
            let pb = count_withdrawal tx.tx (record k.pending_block { gas_counter = gas }) in
            if too_many k pb
            then (refused tt, record k { pending_block = pb })
            else let (r, s) = execute_tx c tx.tx k.state in
              let (out, pb') = record_result tx none needed r pb in
              (out, record k { state = s; pending_block = pb' })
      ]
  | err e ↦ (crash, k)
  | panic ↦ (crash, k)
]
