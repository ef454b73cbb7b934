-- ===== src/Mempool/Examples.antt =====
-- A mempool over the state with two accounts, and what the theorems say of it.
use qs_react_native_zksync.Prelude.{
  ℕ, ◌+◌, ◌≡◌, arith, inl, inr, none, some, [], ◌∷◌, ◌++◌, true, eq_cases,
}
use qs_react_native_zksync.HashMap
use qs_react_native_zksync.State.Execute.{SignedZkSyncTx}
use qs_react_native_zksync.State.View.{view}
use qs_react_native_zksync.State.Explains.Handlers.{execute_tx-Explains}
use qs_react_native_zksync.State.Examples.{
  toy_crypto, two_accounts, two_accounts-IsValid, pay, pay_runs, paid_success, after_payment,
}
use qs_react_native_zksync.StateKeeper.Defs.{SignedTxVariant, ProposedBlock}
use qs_react_native_zksync.Mempool.{
  Mempool, insert_batch, priority_ops_chunks, propose_new_block, update_nonces,
}
use qs_react_native_zksync.Mempool.Laws.{
  total_chunks, NoMoreFit, Answer, propose_new_block-fits, insert_batch-accepts,
}
use qs_react_native_zksync.Mempool.Nonces.{Mirrors, update_nonces-Mirrors}

abbrev signed : SignedZkSyncTx
signed = record { tx = pay; eth_sign_data = none }

-- Two payments wait, where the largest block has room for one.
abbrev pool : Mempool
pool = record {
  committed = [];
  mempool_state = record {
    account_nonces = (100, 5) ∷ (200, 0) ∷ [];
    account_ids = (0, 100) ∷ (1, 200) ∷ [];
    ready_txs = SignedTxVariant.tx signed ∷ SignedTxVariant.tx signed ∷ [];
  };
  max_block_size_chunks = 3;
  max_number_of_withdrawals_per_block = 2;
}

abbrev proposed : ProposedBlock × Mempool
proposed = propose_new_block [] pool

propose_new_block-fits_example :
    (proposed.0.priority_ops ≡ [])
    × (proposed.0.txs ++ proposed.1.mempool_state.ready_txs ≡ pool.mempool_state.ready_txs)
    × ((left : ℕ) × (left + priority_ops_chunks [] + total_chunks pool.mempool_state proposed.0.txs
          ≡ 3)
        × NoMoreFit pool.mempool_state left proposed.1.mempool_state.ready_txs)
propose_new_block-fits_example =
    propose_new_block-fits [] pool (unfold priority_ops_chunks in omega arith)

insert_batch-accepts_example :
    Answer (signed ∷ []) pool true (some 1) (insert_batch true (some 1) (signed ∷ []) pool)
insert_batch-accepts_example = insert_batch-accepts true (some 1) (signed ∷ []) pool

pool-Mirrors : Mirrors pool.mempool_state (view two_accounts)
unfolding HashMap.get
pool-Mirrors = record {
  ids = λ id. elim (eq_cases 0 id) [
    | inl e ↦ ground arith
    | inr n ↦ elim (eq_cases 1 id) [ inl f ↦ ground arith | inr m ↦ ground arith ]
  ];
  nonces = λ id a h. elim (eq_cases 0 id) [
    | inl e ↦ ground arith
    | inr n ↦ elim (eq_cases 1 id) [ inl f ↦ ground arith | inr m ↦ absurd (ground arith) ]
  ];
}

update_nonces-Mirrors_example :
    Mirrors (update_nonces paid_success.updates pool.mempool_state) (view after_payment)
update_nonces-Mirrors_example =
    update_nonces-Mirrors paid_success.updates pool.mempool_state two_accounts after_payment
      two_accounts-IsValid
      (execute_tx-Explains toy_crypto pay two_accounts after_payment paid_success
        two_accounts-IsValid tt pay_runs)
      pool-Mirrors
