-- ===== src/StateKeeper/Takes.antt =====
-- `apply_priority_op` and `apply_tx` on a fresh block.
use qs_react_native_zksync.Prelude.{
  ℕ, ◌+◌, ◌%◌, ◌≡◌, ◌≢◌, ◌≤◌, ap, arith, inl, inr, none, Option, false,
}
use qs_react_native_zksync.Params.{u32_mod}
use qs_react_native_zksync.Tx.{
  Crypto, ZkSyncTx, transfer, withdraw, close, change_pub_key, forced_exit,
}
use qs_react_native_zksync.State.Defs.{ZkSyncState, OpSuccess, Result, ok, err, panic}
use qs_react_native_zksync.State.Execute.{
  SignedZkSyncTx, chunks_for_tx, zksync_tx_to_zksync_op, priority_op_to_zksync_op,
  execute_priority_op, execute_tx,
}
use qs_react_native_zksync.State.Defs.{get_account_by_address}
use qs_react_native_zksync.Gas.{new_gas_counter, refused}
use qs_react_native_zksync.Block.{PriorityOp}
use qs_react_native_zksync.StateKeeper.Defs.{PendingBlock, ZkSyncStateKeeper, new_pending_block}
use qs_react_native_zksync.StateKeeper.Apply.{
  count_gas, count_withdrawal, too_many, apply_tx, apply_priority_op, record_result,
}
use qs_react_native_zksync.StateKeeper.Inversion.{Result-cases, Outcome-cases}
use qs_react_native_zksync.StateKeeper.Invariant.{priority_chunks_is_six}
use qs_react_native_zksync.StateKeeper.GasRoom.{UsedBy, new_gas_counter-UsedBy, count_gas-room}

pub apply_priority_op-takes :
    (op : PriorityOp) (size : ℕ)
    → 6 ≤ size
    → (k : ZkSyncStateKeeper) (before : ℕ) → k.pending_block ≡ new_pending_block before size
    → (back : PriorityOp) → (apply_priority_op op k).0 ≢ refused back
unfolding apply_priority_op
apply_priority_op-takes op size six k before fresh back h =
    let gas : k.pending_block.gas_counter ≡ new_gas_counter =
      ap (λ (pb : PendingBlock). pb.gas_counter) fresh in
    let room : k.pending_block.chunks_left ≡ size =
      ap (λ (pb : PendingBlock). pb.chunks_left) fresh in
    let r = (priority_op_to_zksync_op op.«data» k.state).0 in
    let used : UsedBy 0 k.pending_block.gas_counter = rw gas new_gas_counter-UsedBy in
    let fits = count_gas-room r 0 k.pending_block.gas_counter used (ground arith) in
    let small = priority_chunks_is_six op.«data» in
    elim (Outcome-cases (count_gas r k.pending_block.gas_counter)) [
      | inr (inl (u, full)) ↦ fits.0 full
      | inr (inr full) ↦ ground arith
      | inl (g, counts) ↦ elim (Result-cases (execute_priority_op op.«data» k.state).0) [
        | inl (success, ran) ↦ ground arith
        | inr (inl (e, ran)) ↦ ground arith
        | inr (inr ran) ↦ ground arith
      ]
    ]

pub chunks_for_tx-bound :
    (tx : ZkSyncTx) (s : ZkSyncState) (n : ℕ) → chunks_for_tx tx s ≡ ok n → n ≤ 6
unfolding chunks_for_tx get_account_by_address
chunks_for_tx-bound (transfer tx) s n h = ground arith
chunks_for_tx-bound (withdraw tx) s n h = ground arith
chunks_for_tx-bound (close tx) s n h = ground arith
chunks_for_tx-bound (change_pub_key tx) s n h = ground arith
chunks_for_tx-bound (forced_exit tx) s n h = ground arith

withdrawals-count_withdrawal :
    (tx : ZkSyncTx) (pb : PendingBlock)
    → (count_withdrawal tx pb).withdrawals_amount ≤ pb.withdrawals_amount + 1
unfolding count_withdrawal
withdrawals-count_withdrawal (transfer tx) pb = ground arith
withdrawals-count_withdrawal (withdraw tx) pb = ground arith
withdrawals-count_withdrawal (close tx) pb = ground arith
withdrawals-count_withdrawal (change_pub_key tx) pb = ground arith
withdrawals-count_withdrawal (forced_exit tx) pb = ground arith

pub record_result-takes :
    (tx : SignedZkSyncTx) (batch : Option ℕ) (n : ℕ) (r : Result OpSuccess) (pb : PendingBlock)
    (u : Unit {0})
    → (record_result tx batch n r pb).0 ≢ refused u
unfolding record_result
record_result-takes tx batch n (ok r) pb u h = ground arith
record_result-takes tx batch n (err e) pb u h = ground arith
record_result-takes tx batch n panic pb u h = ground arith

pub apply_tx-takes :
    (c : Crypto) (tx : SignedZkSyncTx) (size limit : ℕ)
    → 6 ≤ size
    → 1 ≤ limit % u32_mod
    → (k : ZkSyncStateKeeper) (before : ℕ) → k.pending_block ≡ new_pending_block before size
    → k.max_number_of_withdrawals_per_block ≡ limit
    → (u : Unit {0}) → (apply_tx c tx k).0 ≢ refused u
unfolding apply_tx
apply_tx-takes c tx size limit six one k before fresh same u h =
    let gas : k.pending_block.gas_counter ≡ new_gas_counter =
      ap (λ (pb : PendingBlock). pb.gas_counter) fresh in
    let room : k.pending_block.chunks_left ≡ size =
      ap (λ (pb : PendingBlock). pb.chunks_left) fresh in
    let none_yet : k.pending_block.withdrawals_amount ≡ 0 =
      ap (λ (pb : PendingBlock). pb.withdrawals_amount) fresh in
    let r = (zksync_tx_to_zksync_op c tx.tx k.state).0 in
    let used : UsedBy 0 k.pending_block.gas_counter = rw gas new_gas_counter-UsedBy in
    let fits = count_gas-room r 0 k.pending_block.gas_counter used (ground arith) in
    elim (Result-cases (chunks_for_tx tx.tx k.state)) [
      | inr (inl (e, is)) ↦ ground arith
      | inr (inr is) ↦ ground arith
      | inl (needed, is) ↦
          let small = chunks_for_tx-bound tx.tx k.state needed is in
          elim (Outcome-cases (count_gas r k.pending_block.gas_counter)) [
            | inr (inl (u', full)) ↦ fits.0 full
            | inr (inr full) ↦ ground arith
            | inl (g, counts) ↦
                let pb = count_withdrawal tx.tx (record k.pending_block { gas_counter = g }) in
                let amount =
                  withdrawals-count_withdrawal tx.tx (record k.pending_block { gas_counter = g }) in
                let few : too_many k pb ≡ false = ground arith in
                record_result-takes tx none needed (execute_tx c tx.tx k.state).0 pb u
                  (ground arith)
          ]
    ]
