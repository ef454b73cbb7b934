-- ===== src/StateKeeper/Inversion.antt =====
-- What an answer of `apply_tx` and of `apply_priority_op` says of the keeper before and after.
use qs_react_native_zksync.Prelude.{
  u64_mod, ℕ, ◌+◌, ◌%◌, ◌≡◌, ◌≤◌, ◌⊎◌, refl, arith, inl, inr, none, false, Bool-cases,
}
use qs_react_native_zksync.Tx.{Crypto}
use qs_react_native_zksync.State.Defs.{ZkSyncState, OpSuccess, Error, Result, ok, err, panic}
use qs_react_native_zksync.State.Execute.{
  SignedZkSyncTx, execute_tx, execute_priority_op, chunks_for_tx, zksync_tx_to_zksync_op,
  priority_op_to_zksync_op,
}
use qs_react_native_zksync.Gas.{GasCounter, Outcome, done, refused, crash}
use qs_react_native_zksync.Block.{ExecutedOperations, PriorityOp, priority_chunks}
use qs_react_native_zksync.StateKeeper.Defs.{PendingBlock, ZkSyncStateKeeper}
use qs_react_native_zksync.StateKeeper.Apply.{
  count_gas, push_success, count_withdrawal, too_many, record_result, apply_tx, apply_priority_op,
}

pub Result-cases :
    {A : Type 0} (r : Result A)
    → ((a : A) × (r ≡ ok a)) ⊎ (((e : Error) × (r ≡ err e)) ⊎ (r ≡ panic))
Result-cases (ok a) = inl (a, refl)
Result-cases (err e) = inr (inl (e, refl))
Result-cases panic = inr (inr refl)

pub Outcome-cases :
    {E A : Type 0} (o : Outcome E A)
    → ((a : A) × (o ≡ done a)) ⊎ (((e : E) × (o ≡ refused e)) ⊎ (o ≡ crash))
Outcome-cases (done a) = inl (a, refl)
Outcome-cases (refused e) = inr (inl (e, refl))
Outcome-cases crash = inr (inr refl)

module _ (c : Crypto) (tx : SignedZkSyncTx) (k k' : ZkSyncStateKeeper)
    (op : ExecutedOperations) where
  -- The pending block after the counting.
  abbrev pub counted : GasCounter → PendingBlock
  counted gas = count_withdrawal tx.tx (record k.pending_block { gas_counter = gas })

  pub record TxDone : Type 0 where
    pub needed : ℕ
    pub gas : GasCounter
    pub asked : chunks_for_tx tx.tx k.state ≡ ok needed
    pub fits : needed ≤ k.pending_block.chunks_left
    pub counts :
        count_gas (zksync_tx_to_zksync_op c tx.tx k.state).0 k.pending_block.gas_counter ≡ done gas
    pub few : too_many k (counted gas) ≡ false
    pub recorded :
        ((record_result tx none needed (execute_tx c tx.tx k.state).0 (counted gas)).0 ≡ done op)
        × (k' ≡ record k {
          state = (execute_tx c tx.tx k.state).1;
          pending_block =
              (record_result tx none needed (execute_tx c tx.tx k.state).0 (counted gas)).1;
        })

  pub apply_tx_inv : apply_tx c tx k ≡ (done op, k') → TxDone
  unfolding apply_tx
  apply_tx_inv h = elim (Result-cases (chunks_for_tx tx.tx k.state)) [
    | inr (inl (e, is)) ↦ absurd (ground arith)
    | inr (inr is) ↦ absurd (ground arith)
    | inl (needed, is) ↦
        elim (Outcome-cases
          (count_gas (zksync_tx_to_zksync_op c tx.tx k.state).0 k.pending_block.gas_counter)) [
            | inr (inl (u, counts)) ↦ absurd (ground arith)
            | inr (inr counts) ↦ absurd (ground arith)
            | inl (gas, counts) ↦ elim (Bool-cases (too_many k (counted gas))) [
              | inl many ↦ absurd (ground arith)
              | inr few ↦ record {
                needed = needed;
                gas = gas;
                asked = is;
                fits = ground arith;
                counts = counts;
                few = few;
                recorded = ground arith;
              }
            ]
          ]
  ]

-- The record of a priority operation that has run.
abbrev pub executed_priority_op : PriorityOp → OpSuccess → ℕ → ExecutedOperations
executed_priority_op op r index =
    ExecutedOperations.priority_op
      (record { priority_op = op; op = r.executed_op; block_index = index })

module _ (op : PriorityOp) (k k' : ZkSyncStateKeeper) (made : ExecutedOperations) where
  pub record PriorityDone : Type 0 where
    pub gas : GasCounter
    pub success : OpSuccess
    pub next : ZkSyncState
    pub fits : priority_chunks op.«data» ≤ k.pending_block.chunks_left
    pub counts :
        count_gas (priority_op_to_zksync_op op.«data» k.state).0 k.pending_block.gas_counter
        ≡ done gas
    pub runs : execute_priority_op op.«data» k.state ≡ (ok success, next)
    pub is : made ≡ executed_priority_op op success k.pending_block.pending_op_block_index
    pub left : k' ≡ record k {
      state = next;
      pending_block =
          push_success
            (priority_chunks op.«data»)
            success
            (executed_priority_op op success k.pending_block.pending_op_block_index)
            (record k.pending_block { gas_counter = gas });
      current_unprocessed_priority_op = (k.current_unprocessed_priority_op + 1) % u64_mod;
    }

  pub apply_priority_op_inv : apply_priority_op op k ≡ (done made, k') → PriorityDone
  unfolding apply_priority_op
  apply_priority_op_inv h =
      elim (Outcome-cases
        (count_gas (priority_op_to_zksync_op op.«data» k.state).0 k.pending_block.gas_counter)) [
          | inr (inl (u, counts)) ↦ absurd (ground arith)
          | inr (inr counts) ↦ absurd (ground arith)
          | inl (gas, counts) ↦ elim (Result-cases (execute_priority_op op.«data» k.state).0) [
            | inr (inl (e, is)) ↦ absurd (ground arith)
            | inr (inr is) ↦ absurd (ground arith)
            | inl (r, is) ↦ record {
              gas = gas;
              success = r;
              next = (execute_priority_op op.«data» k.state).1;
              fits = ground arith;
              counts = counts;
              runs = λ i. (is i, (execute_priority_op op.«data» k.state).1);
              is = ground arith;
              left = ground arith;
            }
          ]
        ]
