-- ===== src/StateKeeper/TakesBatch.antt =====
-- `apply_batch` on a fresh block.
use qs_react_native_zksync.Prelude.{
  ℕ, ◌+◌, ◌*◌, ◌%◌, ◌≡◌, ◌≢◌, ◌≤◌, ap, sym, subst, arith, inl, inr, some, List, [], ◌∷◌, length,
  false,
}
use qs_react_native_zksync.Params.{u32_mod}
use qs_react_native_zksync.Tx.{
  Crypto, ZkSyncTx, transfer, withdraw, close, change_pub_key, forced_exit,
}
use qs_react_native_zksync.State.Defs.{ZkSyncState, OpSuccess, Result, ok}
use qs_react_native_zksync.State.Execute.{
  SignedZkSyncTx, chunks_for_tx, chunks_for_batch, zksync_tx_to_zksync_op, execute_txs_batch,
}
use qs_react_native_zksync.Gas.{new_gas_counter, refused}
use qs_react_native_zksync.StateKeeper.Defs.{PendingBlock, ZkSyncStateKeeper, new_pending_block}
use qs_react_native_zksync.StateKeeper.Apply.{count_gas, too_many, record_result}
use qs_react_native_zksync.StateKeeper.ApplyBatch.{
  admit_batch, apply_batch, record_results, count_batch_withdrawal,
}
use qs_react_native_zksync.StateKeeper.Inversion.{Result-cases, Outcome-cases}
use qs_react_native_zksync.StateKeeper.GasRoom.{UsedBy, new_gas_counter-UsedBy, count_gas-room}
use qs_react_native_zksync.StateKeeper.Takes.{chunks_for_tx-bound, record_result-takes}

chunks_for_batch-bound :
    (txs : List SignedZkSyncTx) (s : ZkSyncState) (n : ℕ)
    → chunks_for_batch txs s ≡ ok n
    → n ≤ 6 * length txs
unfolding chunks_for_batch
chunks_for_batch-bound [] s n h = ground arith
chunks_for_batch-bound (tx ∷ txs) s n h = elim (Result-cases (chunks_for_tx tx.tx s)) [
  | inr (inl (e, is)) ↦ absurd (ground arith)
  | inr (inr is) ↦ absurd (ground arith)
  | inl (first, is) ↦ elim (Result-cases (chunks_for_batch txs s)) [
    | inr (inl (e, more)) ↦ absurd (ground arith)
    | inr (inr more) ↦ absurd (ground arith)
    | inl (rest, more) ↦
        ground (arith, chunks_for_tx-bound tx.tx s first is, chunks_for_batch-bound txs s rest more)
  ]
]

withdrawals-count_batch_withdrawal :
    (tx : ZkSyncTx) (pb : PendingBlock)
    → ((count_batch_withdrawal tx pb).withdrawals_amount ≤ pb.withdrawals_amount + 1)
      × ((count_batch_withdrawal tx pb).gas_counter ≡ pb.gas_counter)
unfolding count_batch_withdrawal
withdrawals-count_batch_withdrawal (transfer tx) pb = ground arith
withdrawals-count_batch_withdrawal (withdraw tx) pb = ground arith
withdrawals-count_batch_withdrawal (close tx) pb = ground arith
withdrawals-count_batch_withdrawal (change_pub_key tx) pb = ground arith
withdrawals-count_batch_withdrawal (forced_exit tx) pb = ground arith

admit_batch-takes :
    (c : Crypto) (k : ZkSyncStateKeeper) (txs : List SignedZkSyncTx) (pb : PendingBlock) (n : ℕ)
    → UsedBy n pb.gas_counter
    → n + length txs ≤ 45
    → pb.withdrawals_amount + length txs ≤ k.max_number_of_withdrawals_per_block % u32_mod
    → (u : Unit {0}) → (admit_batch c k txs pb).0 ≢ refused u
unfolding admit_batch
admit_batch-takes c k [] pb n used few some_left u h = ground arith
admit_batch-takes c k (tx ∷ txs) pb n used few some_left u h =
    let r = (zksync_tx_to_zksync_op c tx.tx k.state).0 in
    let fits = count_gas-room r n pb.gas_counter used (omega arith) in
    elim (Outcome-cases (count_gas r pb.gas_counter)) [
      | inr (inl (u', full)) ↦ fits.0 full
      | inr (inr full) ↦ ground arith
      | inl (g, counts) ↦
          let pb' = count_batch_withdrawal tx.tx (record pb { gas_counter = g }) in
          let amount = withdrawals-count_batch_withdrawal tx.tx (record pb { gas_counter = g }) in
          let few' : too_many k pb' ≡ false = ground (arith, amount.0) in
          let used' : UsedBy (n + 1) pb'.gas_counter =
            subst (UsedBy (n + 1)) (sym amount.1) (fits.1 g counts) in
          admit_batch-takes c k txs pb' (n + 1) used' (omega arith) (ground (arith, amount.0)) u
            (ground arith)
    ]

record_results-takes :
    (id n : ℕ) (txs : List SignedZkSyncTx) (results : List (Result OpSuccess)) (pb : PendingBlock)
    (u : Unit {0})
    → (record_results id n txs results pb).0 ≢ refused u
unfolding record_results
record_results-takes id n [] results pb u h = ground arith
record_results-takes id n (tx ∷ txs) [] pb u h = ground arith
record_results-takes id n (tx ∷ txs) (r ∷ rs) pb u h =
    let one = record_result tx (some id) n r pb in
    elim (Outcome-cases one.0) [
      | inr (inl (u', e)) ↦ record_result-takes tx (some id) n r pb u' e
      | inr (inr e) ↦ ground arith
      | inl (op, e) ↦ elim (Outcome-cases (record_results id n txs rs one.1).0) [
        | inr (inl (u', f)) ↦ record_results-takes id n txs rs one.1 u' f
        | inr (inr f) ↦ ground arith
        | inl (ops, f) ↦ ground arith
      ]
    ]

-- A batch that fits in any fresh block: few enough transactions for the gas of both calls, for the
-- chunks of the block, and for its withdrawals.
abbrev pub Small : ℕ → ℕ → List SignedZkSyncTx → Type 0
Small size limit txs = (length txs ≤ 45) × (6 * length txs ≤ size) × (length txs ≤ limit % u32_mod)

pub apply_batch-takes :
    (c : Crypto) (txs : List SignedZkSyncTx) (id size limit : ℕ)
    → Small size limit txs
    → (k : ZkSyncStateKeeper) (before : ℕ) → k.pending_block ≡ new_pending_block before size
    → k.max_number_of_withdrawals_per_block ≡ limit
    → (u : Unit {0}) → (apply_batch c txs id k).0 ≢ refused u
unfolding apply_batch
apply_batch-takes c txs id size limit (few, short, allowed) k before fresh same u h =
    let pb = k.pending_block in
    let gas : pb.gas_counter ≡ new_gas_counter = ap (λ (pb : PendingBlock). pb.gas_counter) fresh in
    let room : pb.chunks_left ≡ size = ap (λ (pb : PendingBlock). pb.chunks_left) fresh in
    let none_yet : pb.withdrawals_amount ≡ 0 =
      ap (λ (pb : PendingBlock). pb.withdrawals_amount) fresh in
    let used : UsedBy 0 pb.gas_counter = rw gas new_gas_counter-UsedBy in
    let admits = admit_batch-takes c k txs pb 0 used (omega arith) (ground arith) in
    elim (Result-cases (chunks_for_batch txs k.state)) [
      | inr (inl (e, is)) ↦ ground arith
      | inr (inr is) ↦ ground arith
      | inl (needed, is) ↦
          let small = chunks_for_batch-bound txs k.state needed is in
          elim (Outcome-cases (admit_batch c k txs pb).0) [
            | inr (inl (u', full)) ↦ admits u' full
            | inr (inr full) ↦ ground arith
            | inl (u', counts) ↦ elim (Result-cases (execute_txs_batch c txs k.state).0) [
              | inr (inl (e, ran)) ↦ ground arith
              | inr (inr ran) ↦ ground arith
              | inl (results, ran) ↦
                  record_results-takes id needed txs results (admit_batch c k txs pb).1 u
                    (ground arith)
            ]
          ]
    ]
