-- ===== src/StateKeeper/ApplyBatch.antt =====
-- `apply_batch`: transactions that go into one block and succeed or fail together.
use qs_react_native_zksync.Prelude.{ℕ, some, List, [], ◌∷◌, ltb, if◌then◌else◌}
use qs_react_native_zksync.Tx.{Crypto}
use qs_react_native_zksync.State.Defs.{OpSuccess, Result, ok, err, panic}
use qs_react_native_zksync.State.Execute.{
  SignedZkSyncTx, execute_txs_batch, chunks_for_batch, zksync_tx_to_zksync_op,
}
use qs_react_native_zksync.Tx.{ZkSyncTx, transfer, withdraw, close, change_pub_key, forced_exit}
use qs_react_native_zksync.Params.{u32_mod}
use qs_react_native_zksync.Prelude.{◌+◌, ◌%◌}
use qs_react_native_zksync.Gas.{Outcome, done, refused, crash}
use qs_react_native_zksync.Block.{ExecutedOperations}
use qs_react_native_zksync.StateKeeper.Defs.{PendingBlock, ZkSyncStateKeeper, Call}
use qs_react_native_zksync.StateKeeper.Apply.{count_gas, record_result, too_many}

-- A withdrawal of a batch is counted; it does not ask for fast processing.
unfoldable pub count_batch_withdrawal : ZkSyncTx → PendingBlock → PendingBlock
count_batch_withdrawal (transfer tx) pb = pb
count_batch_withdrawal (withdraw tx) pb = record pb {
  withdrawals_amount = (pb.withdrawals_amount + 1) % u32_mod;
}
count_batch_withdrawal (close tx) pb = pb
count_batch_withdrawal (change_pub_key tx) pb = pb
count_batch_withdrawal (forced_exit tx) pb = pb

-- The loop that counts gas and withdrawals before the batch runs. What it has counted stays when a
-- later transaction is refused.
unfoldable pub admit_batch :
    Crypto
    → ZkSyncStateKeeper
    → List SignedZkSyncTx
    → PendingBlock
    → Outcome (Unit {0}) (Unit {0}) × PendingBlock
unfolding count_gas count_batch_withdrawal
admit_batch c k [] pb = (done tt, pb)
admit_batch c k (tx ∷ txs) pb =
    elim (count_gas (zksync_tx_to_zksync_op c tx.tx k.state).0 pb.gas_counter) [
      | refused u ↦ (refused tt, pb)
      | crash ↦ (crash, pb)
      | done gas ↦
          let counted = count_batch_withdrawal tx.tx (record pb { gas_counter = gas }) in
          let rest = admit_batch c k txs counted in
          if too_many k counted then (refused tt, counted) else rest
    ]

-- The loop over the transactions with their results.
unfoldable pub record_results :
    ℕ
    → ℕ
    → List SignedZkSyncTx
    → List (Result OpSuccess)
    → PendingBlock
    → Outcome (Unit {0}) (List ExecutedOperations) × PendingBlock
unfolding record_result
record_results batch_id needed [] results pb = (done [], pb)
record_results batch_id needed (tx ∷ txs) [] pb = (done [], pb)
record_results batch_id needed (tx ∷ txs) (result ∷ results) pb =
    let (out, pb1) = record_result tx (some batch_id) needed result pb in
    let (rest, pb2) = record_results batch_id needed txs results pb1 in
    elim out [
      | refused u ↦ (refused u, pb1)
      | crash ↦ (crash, pb1)
      | done op ↦ elim rest [
        | refused u ↦ (refused u, pb2)
        | crash ↦ (crash, pb2)
        | done ops ↦ (done (op ∷ ops), pb2)
      ]
    ]

unfoldable pub apply_batch :
    Crypto → List SignedZkSyncTx → ℕ → Call (Unit {0}) (List ExecutedOperations)
unfolding admit_batch record_results
apply_batch c txs batch_id k = elim (chunks_for_batch txs k.state) [
  | ok needed ↦
      if ltb k.pending_block.chunks_left needed
      then (refused tt, k)
      else let (admitted, pb) = admit_batch c k txs k.pending_block in
        elim admitted [
          | refused u ↦ (refused tt, record k { pending_block = pb })
          | crash ↦ (crash, k)
          | done u ↦
              let (all_updates, s) = execute_txs_batch c txs k.state in
              elim all_updates [
                | ok results ↦
                    let (out, pb') = record_results batch_id needed txs results pb in
                    (out, record k { state = s; pending_block = pb' })
                | err e ↦ (crash, k)
                | panic ↦ (crash, k)
              ]
        ]
  | err e ↦ (crash, k)
  | panic ↦ (crash, k)
]
