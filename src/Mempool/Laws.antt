-- ===== src/Mempool/Laws.antt =====
-- What the mempool proposes, and the batches that it accepts.
use qs_react_native_zksync.Prelude.{
  ℕ, ◌+◌, ◌-◌, ◌≡◌, ◌≢◌, ◌≤◌, ◌<◌, ◌⊎◌, refl, arith, inl, inr, none, some, Option, List, [], ◌∷◌,
  ◌++◌, true, false, Bool, Bool-cases, leb, ltb, ◌==◌, Option-cases,
}
use qs_react_native_zksync.State.Execute.{SignedZkSyncTx}
use qs_react_native_zksync.State.Spending.{nonce}
use qs_react_native_zksync.Block.{PriorityOp}
use qs_react_native_zksync.StateKeeper.Defs.{SignedTxVariant}
use qs_react_native_zksync.Mempool.{
  MempoolState, Mempool, required_chunks, take_fitting, prepare_tx_for_block, priority_ops_chunks,
  propose_new_block, chunks_for_batch, number_of_withdrawals, nonces_fit, add_batch, insert_batch,
  added, rejected, panicked, Added, db_error, batch_too_big, batch_withdrawals_overload,
  nonce_mismatch, commit_transaction, nonce_of, account,
}

-- The chunks that variants take.
abbrev pub total_chunks : MempoolState → List SignedTxVariant → ℕ
total_chunks s [] = 0
total_chunks s (variant ∷ txs) = required_chunks variant s + total_chunks s txs

-- The first of the rest takes more than what is left.
abbrev pub NoMoreFit : MempoolState → ℕ → List SignedTxVariant → Type 0
NoMoreFit s left [] = Unit
NoMoreFit s left (variant ∷ txs) = left < required_chunks variant s

take_fitting-fits :
    (s : MempoolState) (chunks_left : ℕ) (txs : List SignedTxVariant)
    → (let (left, taken, rest) = take_fitting s chunks_left txs in
        (taken ++ rest ≡ txs) × (left + total_chunks s taken ≡ chunks_left) × NoMoreFit s left rest)
unfolding take_fitting
take_fitting-fits s chunks_left [] = (refl, omega arith, tt)
take_fitting-fits s chunks_left (variant ∷ txs) =
    let rest = take_fitting-fits s (chunks_left - required_chunks variant s) txs in
    elim (Bool-cases (leb (required_chunks variant s) chunks_left)) [
      | inl fits ↦ ground (arith, rest.0, rest.1, rest.2)
      | inr large ↦ ground arith
    ]

-- A proposal takes from the front of the queue, in its order, and leaves the rest: what is taken and
-- what stays make up the queue; the priority operations and what is taken fit in the largest block,
-- where the priority operations do; and the first that stays does not fit in what is left.
pub propose_new_block-fits :
    (ops : List PriorityOp) (m : Mempool)
    → priority_ops_chunks ops ≤ m.max_block_size_chunks
    → (let (proposed, m') = propose_new_block ops m in
        (proposed.priority_ops ≡ ops)
        × (proposed.txs ++ m'.mempool_state.ready_txs ≡ m.mempool_state.ready_txs)
        × ((left : ℕ) × (left + priority_ops_chunks ops + total_chunks m.mempool_state proposed.txs
              ≡ m.max_block_size_chunks)
            × NoMoreFit m.mempool_state left m'.mempool_state.ready_txs))
unfolding propose_new_block prepare_tx_for_block
propose_new_block-fits ops m small =
    let left = m.max_block_size_chunks - priority_ops_chunks ops in
    let (all, sum, no_more) = take_fitting-fits m.mempool_state left m.mempool_state.ready_txs in
    (
      refl,
      all,
      ((take_fitting m.mempool_state left m.mempool_state.ready_txs).0, omega arith, no_more),
    )

-- No nonce is below that of its account.
abbrev pub NoncesFit : MempoolState → List SignedZkSyncTx → Type 0
NoncesFit s [] = Unit
NoncesFit s (tx ∷ txs) = (nonce_of (account tx.tx) s ≤ nonce tx.tx) × NoncesFit s txs

nonces_fit-cases :
    (s : MempoolState) (txs : List SignedZkSyncTx)
    → ((nonces_fit txs s ≡ true) × NoncesFit s txs)
      ⊎ ((nonces_fit txs s ≡ false) × (NoncesFit s txs → ⊥))
unfolding nonces_fit
nonces_fit-cases s [] = inl (refl, tt)
nonces_fit-cases s (tx ∷ txs) = elim (Bool-cases (ltb (nonce tx.tx) (nonce_of (account tx.tx) s))) [
  | inl low ↦ inr (ground arith, λ fit. ground (arith, fit.0))
  | inr high ↦ elim (nonces_fit-cases s txs) [
    | inl (e, fit) ↦ inl (ground arith, (ground arith, fit))
    | inr (e, low) ↦ inr (ground arith, λ fit. low fit.1)
  ]
]

module _ (txs : List SignedZkSyncTx) (m : Mempool) where
  -- A batch that a block can hold.
  abbrev pub FitsBlock : Type 0
  FitsBlock =
      (chunks_for_batch txs m.mempool_state ≤ m.max_block_size_chunks)
      × (number_of_withdrawals txs ≤ m.max_number_of_withdrawals_per_block)

  -- The mempool after the database has stored the batch under an id.
  abbrev pub stored_as : ℕ → Mempool
  stored_as id = record m {
    committed = m.committed ++ SignedTxVariant.batch (record { txs = txs; batch_id = id }) ∷ [];
  }

  -- The mempool after that with the batch at the end of its queue.
  abbrev pub queued_as : ℕ → Mempool
  queued_as id = record (stored_as id) {
    mempool_state = record m.mempool_state {
      ready_txs =
          m.mempool_state.ready_txs
          ++ SignedTxVariant.batch (record { txs = txs; batch_id = id }) ∷ [];
    };
  }

  -- The answers to a batch that is stored under an id, and the mempool then.
  abbrev pub StoredAnswer : ℕ → Added × Mempool → Type 0
  StoredAnswer id end =
      ((id ≢ 0) × NoncesFit m.mempool_state txs × (end ≡ (added, queued_as id)))
      ⊎ (((id ≢ 0)
            × (NoncesFit m.mempool_state txs → ⊥)
            × (end ≡ (rejected nonce_mismatch, stored_as id)))
          ⊎ ((id ≡ 0) × (end ≡ (panicked, stored_as id))))

  -- The answers to a batch, by whether the database opens and the id under which it stores.
  abbrev pub Answer : Bool → Option ℕ → Added × Mempool → Type 0
  Answer false id end = end ≡ (rejected db_error, m)
  Answer true id end =
      ((m.max_block_size_chunks < chunks_for_batch txs m.mempool_state)
        × (end ≡ (rejected batch_too_big, m)))
      ⊎ (((chunks_for_batch txs m.mempool_state ≤ m.max_block_size_chunks)
            × (m.max_number_of_withdrawals_per_block < number_of_withdrawals txs)
            × (end ≡ (rejected batch_withdrawals_overload, m)))
          ⊎ ((FitsBlock × (id ≡ none) × (end ≡ (rejected db_error, m)))
              ⊎ (FitsBlock × ((n : ℕ) × (id ≡ some n) × StoredAnswer n end))))

-- A batch is accepted exactly if the database opens and stores it under an id that is not 0, it takes
-- at most the chunks of the largest block, it has at most as many withdrawals as a block may have,
-- and no nonce is below that of its account; then it goes to the end of the queue. Before the
-- database has stored it, nothing changes where it is refused; a batch with a nonce that is too low
-- is refused after the database has stored it, and an id 0 panics then, and the queue stays as it was.
pub insert_batch-accepts :
    (opened : Bool) (id : Option ℕ) (txs : List SignedZkSyncTx) (m : Mempool)
    → Answer txs m opened id (insert_batch opened id txs m)
unfolding insert_batch add_batch commit_transaction
insert_batch-accepts false id txs m = refl
insert_batch-accepts true id txs m =
    elim (Bool-cases (ltb m.max_block_size_chunks (chunks_for_batch txs m.mempool_state))) [
      | inl big ↦ inl (ground arith, ground arith)
      | inr small ↦
          elim (Bool-cases
            (ltb m.max_number_of_withdrawals_per_block (number_of_withdrawals txs))) [
              | inl many ↦ inr (inl (ground arith, ground arith, ground arith))
              | inr few ↦
                  let fits : FitsBlock txs m = (ground arith, ground arith) in
                  elim (Option-cases id) [
                    | inl e ↦ inr (inr (inl (fits, e, ground arith)))
                    | inr (n, e) ↦ inr (
                        inr (
                          inr (
                            fits,
                            (
                              n,
                              e,
                              elim (Bool-cases (n == 0)) [
                                | inl zero_id ↦ inr (inr (ground arith, ground arith))
                                | inr proper ↦ elim (nonces_fit-cases m.mempool_state txs) [
                                  | inl (f, fit) ↦ inl (λ z. ground arith, fit, ground arith)
                                  | inr (f, low) ↦ inr (inl (λ z. ground arith, low, ground arith))
                                ]
                              ],
                            ),
                          )))
                  ]
            ]
    ]
