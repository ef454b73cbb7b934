-- ===== src/StateKeeper/Invariant.antt =====
-- The block that is being formed, before and after `apply_tx` and `apply_priority_op`.
use qs_react_native_zksync.Prelude.{
  ℕ, ◌≡◌, ◌≤◌, refl, sym, subst, arith, none, Option, List, map, ◌++◌, [], ◌∷◌,
}
use qs_react_native_zksync.Tx.{
  Crypto, ZkSyncTx, transfer, withdraw, close, change_pub_key, forced_exit,
}
use qs_react_native_zksync.State.Defs.{
  ZkSyncState, ZkSyncOp, ZkSyncPriorityOp, OpSuccess, Error, Result, ok, err, panic,
}
use qs_react_native_zksync.State.Execute.{SignedZkSyncTx, execute_tx, chunks, chunks_for_tx}
use qs_react_native_zksync.State.Conversion.{execute_tx-chunks, execute_priority_op-converted}
use qs_react_native_zksync.State.Explains.Handlers.{SignerIsSet, execute_tx-Explains}
use qs_react_native_zksync.State.Errors.{execute_tx-FailsClean}
use qs_react_native_zksync.State.Undo.{execute_tx-IsValid, execute_priority_op-IsValid}
use qs_react_native_zksync.State.Priority.{execute_priority_op-Explains}
use qs_react_native_zksync.Gas.{GasCounter, done}
use qs_react_native_zksync.Block.{
  ExecutedTx, ExecutedOperations, PriorityOp, priority_chunks, chunks_used, get_executed_op,
}
use qs_react_native_zksync.StateKeeper.Defs.{PendingBlock, ZkSyncStateKeeper}
use qs_react_native_zksync.StateKeeper.Apply.{
  count_gas, count_withdrawal, record_result, apply_tx, apply_priority_op, executed_tx, failed_tx,
}
use qs_react_native_zksync.StateKeeper.Forming.{
  GasFits, add_op-GasFits, SameWork, IsForming, push_success-IsForming, SameWork-IsForming, HasRoom,
  push_success-HasRoom, SameWork-HasRoom,
}
use qs_react_native_zksync.StateKeeper.Inversion.{
  counted, apply_tx_inv, executed_priority_op, apply_priority_op_inv,
}

pub count_gas-GasFits :
    (r : Result ZkSyncOp) (gas gas' : GasCounter)
    → GasFits gas
    → count_gas r gas ≡ done gas'
    → GasFits gas'
unfolding count_gas
count_gas-GasFits (ok op) gas gas' f h = add_op-GasFits op gas gas' h
count_gas-GasFits (err e) gas gas' f h = ground (arith, f.commit, f.verify)
count_gas-GasFits panic gas gas' f h = absurd (ground arith)

count_withdrawal-SameWork :
    (tx : ZkSyncTx) (pb : PendingBlock) (gas : GasCounter)
    → SameWork pb (count_withdrawal tx (record pb { gas_counter = gas }))
unfolding count_withdrawal
count_withdrawal-SameWork (transfer tx) pb gas = ground arith
count_withdrawal-SameWork (withdraw tx) pb gas = ground arith
count_withdrawal-SameWork (close tx) pb gas = ground arith
count_withdrawal-SameWork (change_pub_key tx) pb gas = ground arith
count_withdrawal-SameWork (forced_exit tx) pb gas = ground arith

gas_counter-count_withdrawal :
    (tx : ZkSyncTx) (pb : PendingBlock) → (count_withdrawal tx pb).gas_counter ≡ pb.gas_counter
unfolding count_withdrawal
gas_counter-count_withdrawal (transfer tx) pb = refl
gas_counter-count_withdrawal (withdraw tx) pb = refl
gas_counter-count_withdrawal (close tx) pb = refl
gas_counter-count_withdrawal (change_pub_key tx) pb = refl
gas_counter-count_withdrawal (forced_exit tx) pb = refl

failures_append :
    (failed : List ExecutedTx) (tx : ExecutedTx)
    → chunks_used (map ExecutedOperations.tx failed) ≡ 0
    → tx.op ≡ none
    → chunks_used (map ExecutedOperations.tx (failed ++ tx ∷ [])) ≡ 0
unfolding chunks_used get_executed_op
failures_append [] tx h e = ground arith
failures_append (t ∷ failed) tx h e = ground (arith, failures_append failed tx)

failed-SameWork :
    (tx : SignedZkSyncTx) (batch : Option ℕ) (n : ℕ) (e : Error) (pb pb' : PendingBlock)
    → SameWork pb pb'
    → SameWork pb (record_result tx batch n (err e) pb').1
unfolding record_result
failed-SameWork tx batch n e pb pb' same = record {
  operations = same.operations;
  updates = same.updates;
  room = same.room;
  index = same.index;
  stored = same.stored;
  failures = λ h. failures_append pb'.failed_txs (failed_tx tx batch e) (same.failures h) refl;
}

module _ (c : Crypto) (tx : SignedZkSyncTx) (start : ZkSyncState) (k : ZkSyncStateKeeper)
    (f : IsForming start k) (set : SignerIsSet c tx.tx) (n : ℕ) (pb : PendingBlock)
    (gas : GasFits pb.gas_counter) (same : SameWork k.pending_block pb) where
  -- What a result adds, where the transaction has run on the keeper's state.
  recorded-IsForming :
      (p : Result OpSuccess × ZkSyncState)
      → execute_tx c tx.tx k.state ≡ p
      → (op : ExecutedOperations) → (record_result tx none n p.0 pb).0 ≡ done op
      → IsForming start
          (record k { state = p.1; pending_block = (record_result tx none n p.0 pb).1 })
  unfolding record_result
  recorded-IsForming (ok r, s) h op e =
      push_success-IsForming start k pb f gas same s r
        (ExecutedOperations.tx (executed_tx tx none r pb.pending_op_block_index)) n
        k.current_unprocessed_priority_op (execute_tx-IsValid c tx.tx k.state s r f.valid set h)
        (execute_tx-Explains c tx.tx k.state s r f.valid set h)
  recorded-IsForming (err x, s) h op e =
      subst
        (λ t.
          IsForming start
            (record k { state = t; pending_block = (record_result tx none n (err x) pb).1 }))
        (sym (execute_tx-FailsClean c tx.tx k.state s x h))
        (SameWork-IsForming start k (record_result tx none n (err x) pb).1 f gas
          (failed-SameWork tx none n x k.pending_block pb same))
  recorded-IsForming (panic, s) h op e = absurd (ground arith)

  recorded-HasRoom :
      (size : ℕ)
      → HasRoom size k.pending_block
      → chunks_for_tx tx.tx k.state ≡ ok n
      → n ≤ k.pending_block.chunks_left
      → (p : Result OpSuccess × ZkSyncState) → execute_tx c tx.tx k.state ≡ p
      → (op : ExecutedOperations) → (record_result tx none n p.0 pb).0 ≡ done op
      → HasRoom size (record_result tx none n p.0 pb).1
  unfolding record_result
  recorded-HasRoom size room asked fits (ok r, s) h op e =
      push_success-HasRoom size pb n r
        (ExecutedOperations.tx (executed_tx tx none r pb.pending_op_block_index))
        (SameWork-HasRoom size k.pending_block pb same room) (ground (arith, same.room))
        (unfold chunks_used get_executed_op in
          ground (arith, execute_tx-chunks c tx.tx k.state s r n h asked))
  recorded-HasRoom size room asked fits (err x, s) h op e =
      SameWork-HasRoom size k.pending_block (record_result tx none n (err x) pb).1
        (failed-SameWork tx none n x k.pending_block pb same) room
  recorded-HasRoom size room asked fits (panic, s) h op e = absurd (ground arith)

-- A transaction that the keeper takes into a block in order, whether it succeeds or fails, leaves the
-- block in order, and the room left and the operations together stay the size of the block. The signer
-- of a forced exit is assumed not to be the hash that stands for no key.
pub apply_tx-IsForming :
    (c : Crypto) (tx : SignedZkSyncTx) (start : ZkSyncState) (size : ℕ) (k k' : ZkSyncStateKeeper)
    (op : ExecutedOperations)
    → IsForming start k
    → HasRoom size k.pending_block
    → SignerIsSet c tx.tx
    → apply_tx c tx k ≡ (done op, k')
    → IsForming start k' × HasRoom size k'.pending_block
apply_tx-IsForming c tx start size k k' op f room set h =
    let x = apply_tx_inv c tx k k' op h in
    let pb = counted c tx k k' op x.gas in
    let same = count_withdrawal-SameWork tx.tx k.pending_block x.gas in
    let gas : GasFits pb.gas_counter =
      subst GasFits
        (sym (gas_counter-count_withdrawal tx.tx (record k.pending_block { gas_counter = x.gas })))
        (count_gas-GasFits _ k.pending_block.gas_counter x.gas f.gas x.counts) in
    (
      subst (IsForming start) (sym x.recorded.1) (
          recorded-IsForming c tx start k f set x.needed pb gas same (execute_tx c tx.tx k.state)
            refl op x.recorded.0),
      subst (λ (q : ZkSyncStateKeeper). HasRoom size q.pending_block) (sym x.recorded.1)
          (recorded-HasRoom c tx start k f set x.needed pb gas same size room x.asked x.fits
            (execute_tx c tx.tx k.state) refl op x.recorded.0),
    )

pub priority_chunks_is_six : (op : ZkSyncPriorityOp) → priority_chunks op ≡ 6
priority_chunks_is_six (ZkSyncPriorityOp.deposit op) = refl
priority_chunks_is_six (ZkSyncPriorityOp.full_exit op) = refl

six_chunks :
    (op : PriorityOp) (r : OpSuccess) (index : ℕ)
    → chunks r.executed_op ≡ 6
    → chunks_used (executed_priority_op op r index ∷ []) ≡ priority_chunks op.«data»
unfolding chunks_used get_executed_op
six_chunks op r index h = ground (arith, priority_chunks_is_six op.«data»)

-- A priority operation that the keeper takes into a block in order leaves it in order, and the room
-- left and the operations together stay the size of the block.
pub apply_priority_op-IsForming :
    (op : PriorityOp) (start : ZkSyncState) (size : ℕ) (k k' : ZkSyncStateKeeper)
    (made : ExecutedOperations)
    → IsForming start k
    → HasRoom size k.pending_block
    → apply_priority_op op k ≡ (done made, k')
    → IsForming start k' × HasRoom size k'.pending_block
apply_priority_op-IsForming op start size k k' made f room h =
    let x = apply_priority_op_inv op k k' made h in
    let pb : PendingBlock = record k.pending_block { gas_counter = x.gas } in
    let run = executed_priority_op op x.success k.pending_block.pending_op_block_index in
    let gas = count_gas-GasFits _ k.pending_block.gas_counter x.gas f.gas x.counts in
    let same : SameWork k.pending_block pb = record {
      operations = refl;
      updates = refl;
      room = refl;
      index = refl;
      stored = refl;
      failures = λ h. h;
    } in
    (
      subst (IsForming start) (sym x.left) (
          push_success-IsForming start k pb f gas same x.next x.success run _ _
            (execute_priority_op-IsValid op.«data» k.state x.next x.success f.valid x.runs)
            (execute_priority_op-Explains k.state x.next x.success op.«data» f.valid x.runs)),
      subst (λ (q : ZkSyncStateKeeper). HasRoom size q.pending_block) (sym x.left)
          (push_success-HasRoom size pb (priority_chunks op.«data») x.success run room x.fits (
            six_chunks op x.success k.pending_block.pending_op_block_index
              (execute_priority_op-converted op.«data» k.state x.next x.success x.runs).1)),
    )
