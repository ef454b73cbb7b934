-- ===== src/StateKeeper/Batches.antt =====
-- Batches in the keeper: the chunks that they take, and batches with too many withdrawals.
use qs_react_native_zksync.Prelude.{
  ℕ, zero, suc, ◌+◌, ◌*◌, ◌≡◌, ◌≢◌, ◌≤◌, ◌<◌, ◌⊎◌, refl, arith, inl, inr, some, List, [], ◌∷◌, map,
  length, false, Bool-cases,
}
use qs_react_native_zksync.Params.{u32_mod}
use qs_react_native_zksync.Tx.{
  Crypto, ZkSyncTx, transfer, withdraw, close, change_pub_key, forced_exit,
}
use qs_react_native_zksync.State.Defs.{ZkSyncState, OpSuccess, ok}
use qs_react_native_zksync.State.Execute.{
  SignedZkSyncTx, chunks_for_batch, execute_txs_batch, zksync_tx_to_zksync_op,
}
use qs_react_native_zksync.Gas.{done, crash}
use qs_react_native_zksync.Block.{ExecutedOperations}
use qs_react_native_zksync.StateKeeper.Defs.{
  PendingBlock, ZkSyncStateKeeper, SignedTxVariant, SignedTxsBatch,
}
use qs_react_native_zksync.StateKeeper.Apply.{
  executed_tx, count_gas, push_success, record_result, too_many,
}
use qs_react_native_zksync.StateKeeper.ApplyBatch.{
  count_batch_withdrawal, admit_batch, record_results, apply_batch,
}
use qs_react_native_zksync.StateKeeper.Seal.{seal_pending_block}
use qs_react_native_zksync.StateKeeper.Run.{or_seal, apply_variant, run_queue}
use qs_react_native_zksync.StateKeeper.Inversion.{Result-cases, Outcome-cases}
use qs_react_native_zksync.StateKeeper.Queue.{apply_batch-Keeps}

-- The loop over successes takes the same number of chunks for each of them.
record_results-chunks :
    (id n : ℕ) (txs : List SignedZkSyncTx) (rs : List OpSuccess) (pb : PendingBlock)
    → length rs ≡ length txs
    → n * length txs ≤ pb.chunks_left
    → (record_results id n txs (map ok rs) pb).1.chunks_left + n * length txs ≡ pb.chunks_left
unfolding record_results record_result push_success
record_results-chunks id n [] rs pb same fits = ground arith
record_results-chunks id n (tx ∷ txs) [] pb same fits = absurd (ground arith)
record_results-chunks id n (tx ∷ txs) (r ∷ rs) pb same fits =
    let made = ExecutedOperations.tx (executed_tx tx (some id) r pb.pending_op_block_index) in
    let pb1 = push_success n r made pb in
    let unfolded : n * suc (length txs) ≡ n + n * length txs = omega arith in
    let left : pb1.chunks_left + n ≡ pb.chunks_left = ground arith in
    let rest = record_results-chunks id n txs rs pb1 (ground arith) (omega arith) in
    elim (Outcome-cases (record_results id n txs (map ok rs) pb1).0) [
      | inr (inl (u, e)) ↦ ground arith
      | inr (inr e) ↦ ground arith
      | inl (ops, e) ↦ ground arith
    ]

count_batch_withdrawal-chunks :
    (tx : ZkSyncTx) (pb : PendingBlock)
    → (count_batch_withdrawal tx pb).chunks_left ≡ pb.chunks_left
unfolding count_batch_withdrawal
count_batch_withdrawal-chunks (transfer tx) pb = refl
count_batch_withdrawal-chunks (withdraw tx) pb = refl
count_batch_withdrawal-chunks (close tx) pb = refl
count_batch_withdrawal-chunks (change_pub_key tx) pb = refl
count_batch_withdrawal-chunks (forced_exit tx) pb = refl

admit_batch-chunks :
    (c : Crypto) (k : ZkSyncStateKeeper) (txs : List SignedZkSyncTx) (pb : PendingBlock)
    → (admit_batch c k txs pb).1.chunks_left ≡ pb.chunks_left
unfolding admit_batch
admit_batch-chunks c k [] pb = refl
admit_batch-chunks c k (tx ∷ txs) pb =
    elim (Outcome-cases (count_gas (zksync_tx_to_zksync_op c tx.tx k.state).0 pb.gas_counter)) [
      | inr (inl (u, e)) ↦ ground arith
      | inr (inr e) ↦ ground arith
      | inl (gas, e) ↦
          let counted = count_batch_withdrawal tx.tx (record pb { gas_counter = gas }) in
          ground (
            arith,
            count_batch_withdrawal-chunks tx.tx (record pb { gas_counter = gas }),
            admit_batch-chunks c k txs counted,
          )
    ]

-- The withdrawals of a batch.
abbrev pub withdrawals : List SignedZkSyncTx → ℕ
withdrawals [] = 0
withdrawals (tx ∷ txs) = elim tx.tx [
  | withdraw w ↦ suc (withdrawals txs)
  | transfer t ↦ withdrawals txs
  | close t ↦ withdrawals txs
  | change_pub_key t ↦ withdrawals txs
  | forced_exit t ↦ withdrawals txs
]

count_batch_withdrawal-withdraw :
    (tx : SignedZkSyncTx) (txs : List SignedZkSyncTx) (pb : PendingBlock)
    → pb.withdrawals_amount + 1 < u32_mod
    → (count_batch_withdrawal tx.tx pb).withdrawals_amount + withdrawals txs
      ≡ pb.withdrawals_amount + withdrawals (tx ∷ txs)
unfolding count_batch_withdrawal
count_batch_withdrawal-withdraw tx txs pb small = ground arith

-- A batch is admitted only within the limit of withdrawals.
admit_batch-within :
    (c : Crypto) (k : ZkSyncStateKeeper) (txs : List SignedZkSyncTx) (pb : PendingBlock)
    → k.max_number_of_withdrawals_per_block + 1 < u32_mod
    → pb.withdrawals_amount ≤ k.max_number_of_withdrawals_per_block
    → (admit_batch c k txs pb).0 ≡ done tt
    → pb.withdrawals_amount + withdrawals txs ≤ k.max_number_of_withdrawals_per_block
unfolding admit_batch
admit_batch-within c k [] pb small before h = ground arith
admit_batch-within c k (tx ∷ txs) pb small before h =
    elim (Outcome-cases (count_gas (zksync_tx_to_zksync_op c tx.tx k.state).0 pb.gas_counter)) [
      | inr (inl (u, e)) ↦ absurd (ground arith)
      | inr (inr e) ↦ absurd (ground arith)
      | inl (gas, e) ↦
          let pb0 : PendingBlock = record pb { gas_counter = gas } in
          let counted = count_batch_withdrawal tx.tx pb0 in
          elim (Bool-cases (too_many k counted)) [
            | inl many ↦ absurd (ground arith)
            | inr few ↦
                let within : counted.withdrawals_amount ≤ k.max_number_of_withdrawals_per_block =
                  ground arith in
                let rest = admit_batch-within c k txs counted small within (ground arith) in
                let sum = count_batch_withdrawal-withdraw tx txs pb0 (omega arith) in omega arith
          ]
    ]

-- A keeper with a limit of withdrawals, within it.
abbrev Within : ℕ → ZkSyncStateKeeper → Type 0
Within limit k =
    (k.max_number_of_withdrawals_per_block ≡ limit) × (k.pending_block.withdrawals_amount ≤ limit)

module _ (c : Crypto) (txs : List SignedZkSyncTx) (id limit : ℕ) (small : limit + 1 < u32_mod)
    (many : limit < withdrawals txs) where
  apply_batch-refuses :
      (k : ZkSyncStateKeeper)
      → Within limit k
      → (ops : List ExecutedOperations) → (apply_batch c txs id k).0 ≢ done ops
  unfolding apply_batch
  apply_batch-refuses k (is, within) ops h = elim (Result-cases (chunks_for_batch txs k.state)) [
    | inr (inl (e, f)) ↦ ground arith
    | inr (inr f) ↦ ground arith
    | inl (needed, f) ↦ elim (Outcome-cases (admit_batch c k txs k.pending_block).0) [
      | inr (inl (u, g)) ↦ ground arith
      | inr (inr g) ↦ ground arith
      | inl (u, g) ↦
          let sum = admit_batch-within c k txs k.pending_block (ground arith) (ground arith) g in
          omega (arith, is)
    ]
  ]

withdrawals-seal_pending_block :
    (root_hash : ZkSyncState → ℕ) (k : ZkSyncStateKeeper)
    → (seal_pending_block root_hash k).0 ≡ done tt
    → ((seal_pending_block root_hash k).1.pending_block.withdrawals_amount ≡ 0)
      × ((seal_pending_block root_hash k).1.max_number_of_withdrawals_per_block
          ≡ k.max_number_of_withdrawals_per_block)
unfolding seal_pending_block
withdrawals-seal_pending_block root_hash k h = ground arith

module _ (c : Crypto) (root_hash : ZkSyncState → ℕ) (batch : SignedTxsBatch) (limit : ℕ)
    (small : limit + 1 < u32_mod) (many : limit < withdrawals batch.txs) where
  -- One round with the batch seals the block, or panics.
  put_back_again :
      (k : ZkSyncStateKeeper)
      → Within limit k
      → ((apply_variant c root_hash (SignedTxVariant.batch batch) k).0 ≡ crash)
        ⊎ (((apply_variant c root_hash (SignedTxVariant.batch batch) k).0 ≡ done false)
            × Within limit (apply_variant c root_hash (SignedTxVariant.batch batch) k).1)
  unfolding apply_variant or_seal
  put_back_again k w =
      let call = apply_batch c batch.txs batch.batch_id in
      let never = apply_batch-refuses c batch.txs batch.batch_id limit small many k w in
      let keeps = apply_batch-Keeps c batch.txs batch.batch_id k in
      elim (Outcome-cases (call k).0) [
        | inl (ops, e) ↦ absurd (never ops e)
        | inr (inr e) ↦ inl (ground arith)
        | inr (inl (u, e)) ↦ elim (Outcome-cases (seal_pending_block root_hash (call k).1).0) [
          | inr (inl (v, f)) ↦ inl (ground arith)
          | inr (inr f) ↦ inl (ground arith)
          | inl (v, f) ↦
              let fresh = withdrawals-seal_pending_block root_hash (call k).1 f in
              inr (ground arith, ground (arith, fresh.0, fresh.1, keeps.1))
        ]
      ]

  -- A batch with more withdrawals than a block may have is never executed, and holds up what comes
  -- after it: whatever the fuel, the queue is not finished, for every round seals a block and puts the
  -- batch back, or panics. The limit fits in a u32 with room for one more.
  pub oversized_batch-never_done :
      (fuel : ℕ) (rest : List SignedTxVariant) (k k' : ZkSyncStateKeeper)
      → k.max_number_of_withdrawals_per_block ≡ limit
      → k.pending_block.withdrawals_amount ≤ limit
      → run_queue c root_hash
          (apply_variant c root_hash)
          fuel
          (SignedTxVariant.batch batch ∷ rest)
          k
        ≢ some (done tt, k')
  unfolding run_queue
  oversized_batch-never_done zero rest k k' is within h = absurd (ground arith)
  oversized_batch-never_done (suc fuel) rest k k' is within h =
      elim (put_back_again k (is, within)) [
        | inl e ↦ ground arith
        | inr (e, w) ↦
            oversized_batch-never_done fuel rest
              (apply_variant c root_hash (SignedTxVariant.batch batch) k).1 k' w.0 w.1
              (ground arith)
      ]

-- A batch whose transactions all succeed takes, for each of them, the chunks of the whole batch from
-- the room that is left, where there is that much room.
pub apply_batch-takes_chunks :
    (c : Crypto) (txs : List SignedZkSyncTx) (id needed : ℕ) (k k' : ZkSyncStateKeeper)
    (rs : List OpSuccess) (ops : List ExecutedOperations)
    → chunks_for_batch txs k.state ≡ ok needed
    → (execute_txs_batch c txs k.state).0 ≡ ok (map ok rs)
    → length rs ≡ length txs
    → needed * length txs ≤ k.pending_block.chunks_left
    → apply_batch c txs id k ≡ (done ops, k')
    → k'.pending_block.chunks_left + needed * length txs ≡ k.pending_block.chunks_left
unfolding apply_batch
apply_batch-takes_chunks c txs id needed k k' rs ops asked ran same fits h =
    let pb = (admit_batch c k txs k.pending_block).1 in
    let left = admit_batch-chunks c k txs k.pending_block in
    let taken = record_results-chunks id needed txs rs pb same (ground arith) in
    elim (Outcome-cases (admit_batch c k txs k.pending_block).0) [
      | inr (inl (u, e)) ↦ absurd (ground arith)
      | inr (inr e) ↦ absurd (ground arith)
      | inl (u, e) ↦ ground arith
    ]
