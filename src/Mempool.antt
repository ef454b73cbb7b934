-- ===== src/Mempool.antt =====
-- zksync/core/bin/zksync_core/src/mempool.rs: the transactions that wait, and the nonces that they are
-- checked against. The database and the answer of the Ethereum watcher are arguments.
pub mod Laws
pub mod Nonces
pub mod Examples
use qs_react_native_zksync.Prelude.{
  ℕ, ◌+◌, ◌-◌, Bool, true, false, Option, none, some, List, [], ◌∷◌, ◌++◌, ltb, leb, ◌==◌, is_some,
  if◌then◌else◌,
}
use qs_react_native_zksync.HashMap
use qs_react_native_zksync.HashMap.{HashMap}
use qs_react_native_zksync.Account.{
  AccountUpdate, AccountUpdates, create, delete, update_balance, change_pub_key_hash,
}
use qs_react_native_zksync.Tx.{ZkSyncTx, transfer, withdraw, close, change_pub_key, forced_exit}
use qs_react_native_zksync.State.Execute.{SignedZkSyncTx, min_chunks}
use qs_react_native_zksync.State.Spending.{nonce}
use qs_react_native_zksync.Block.{PriorityOp, priority_chunks}
use qs_react_native_zksync.StateKeeper.Defs.{SignedTxVariant, SignedTxsBatch, ProposedBlock}

pub data TxAddError : Type 0 where
  nonce_mismatch db_error batch_too_big batch_withdrawals_overload : TxAddError

pub record MempoolState : Type 0 where
  pub account_nonces : HashMap ℕ
  pub account_ids : HashMap ℕ
  pub ready_txs : List SignedTxVariant

-- What adding answers; `assert_ne!` panics.
pub data Added : Type 0 where
  added : Added
  rejected : TxAddError → Added
  panicked : Added

-- `ZkSyncTx::account`
unfoldable pub account : ZkSyncTx → ℕ
account (transfer tx) = tx.from
account (withdraw tx) = tx.from
account (close tx) = tx.account
account (change_pub_key tx) = tx.account
account (forced_exit tx) = tx.target

-- `ZkSyncTx::is_withdraw`
unfoldable pub is_withdraw : ZkSyncTx → Bool
is_withdraw (transfer tx) = false
is_withdraw (withdraw tx) = true
is_withdraw (close tx) = false
is_withdraw (change_pub_key tx) = false
is_withdraw (forced_exit tx) = true

unfoldable pub chunks_for_tx : ZkSyncTx → MempoolState → ℕ
unfolding HashMap.get
chunks_for_tx (transfer tx) s = if is_some (HashMap.get tx.to s.account_nonces) then 2 else 6
chunks_for_tx (withdraw tx) s = min_chunks (withdraw tx)
chunks_for_tx (close tx) s = min_chunks (close tx)
chunks_for_tx (change_pub_key tx) s = min_chunks (change_pub_key tx)
chunks_for_tx (forced_exit tx) s = min_chunks (forced_exit tx)

unfoldable pub chunks_for_batch : List SignedZkSyncTx → MempoolState → ℕ
unfolding chunks_for_tx
chunks_for_batch [] s = 0
chunks_for_batch (tx ∷ txs) s = chunks_for_tx tx.tx s + chunks_for_batch txs s

unfoldable pub required_chunks : SignedTxVariant → MempoolState → ℕ
unfolding chunks_for_batch
required_chunks (SignedTxVariant.tx tx) s = chunks_for_tx tx.tx s
required_chunks (SignedTxVariant.batch batch) s = chunks_for_batch batch.txs s

-- `MempoolState::nonce`, 0 for an unknown address
unfoldable pub nonce_of : ℕ → MempoolState → ℕ
unfolding HashMap.get
nonce_of address s = elim (HashMap.get address s.account_nonces) [ none ↦ 0 | some n ↦ n ]

unfoldable pub add_tx : SignedZkSyncTx → MempoolState → Added × MempoolState
unfolding nonce_of account
add_tx tx s =
    if leb (nonce_of (account tx.tx) s) (nonce tx.tx)
    then (added, record s { ready_txs = s.ready_txs ++ SignedTxVariant.tx tx ∷ [] })
    else (rejected nonce_mismatch, s)

-- The loop of `add_batch`: no nonce is too low.
unfoldable pub nonces_fit : List SignedZkSyncTx → MempoolState → Bool
unfolding nonce_of account
nonces_fit [] s = true
nonces_fit (tx ∷ txs) s =
    let rest = nonces_fit txs s in
    if ltb (nonce tx.tx) (nonce_of (account tx.tx) s) then false else rest

unfoldable pub add_batch : SignedTxsBatch → MempoolState → Added × MempoolState
unfolding nonces_fit
add_batch batch s =
    if batch.batch_id == 0
    then (panicked, s)
    else if nonces_fit batch.txs s
    then (added, record s { ready_txs = s.ready_txs ++ SignedTxVariant.batch batch ∷ [] })
    else (rejected nonce_mismatch, s)

-- `committed` is what the mempool has written to its database, the latest last.
pub record Mempool : Type 0 where
  pub committed : List SignedTxVariant
  pub mempool_state : MempoolState
  pub max_block_size_chunks : ℕ
  pub max_number_of_withdrawals_per_block : ℕ

-- the count of withdrawals in `Mempool::add_batch`
unfoldable pub number_of_withdrawals : List SignedZkSyncTx → ℕ
unfolding is_withdraw
number_of_withdrawals [] = 0
number_of_withdrawals (tx ∷ txs) = (if is_withdraw tx.tx then 1 else 0) + number_of_withdrawals txs

-- a transaction of the database, committed
unfoldable pub commit_transaction : SignedTxVariant → Mempool → Mempool
commit_transaction variant m = record m { committed = m.committed ++ variant ∷ [] }

-- `Mempool::add_tx` and `Mempool::add_batch`, with whether the database can be opened and written
-- to, and the id under which it stores a batch.
unfoldable pub insert_tx : Bool → SignedZkSyncTx → Mempool → Added × Mempool
unfolding add_tx commit_transaction
insert_tx stored tx m =
    let (answer, s) = add_tx tx m.mempool_state in
    if stored
    then (answer, record (commit_transaction (SignedTxVariant.tx tx) m) { mempool_state = s })
    else (rejected db_error, m)

unfoldable pub insert_batch : Bool → Option ℕ → List SignedZkSyncTx → Mempool → Added × Mempool
unfolding chunks_for_batch number_of_withdrawals add_batch commit_transaction
insert_batch opened batch_id txs m = elim opened [
  | false ↦ (rejected db_error, m)
  | true ↦
      if ltb m.max_block_size_chunks (chunks_for_batch txs m.mempool_state)
      then (rejected batch_too_big, m)
      else if ltb m.max_number_of_withdrawals_per_block (number_of_withdrawals txs)
      then (rejected batch_withdrawals_overload, m)
      else elim batch_id [
        | none ↦ (rejected db_error, m)
        | some id ↦
            let batch : SignedTxsBatch = record { txs = txs; batch_id = id } in
            let (answer, s) = add_batch batch m.mempool_state in
            (
              answer,
              record (commit_transaction (SignedTxVariant.batch batch) m) { mempool_state = s },
            )
      ]
]

-- a nonce of a known address, under a known id
unfoldable pub set_nonce : ℕ → ℕ → MempoolState → MempoolState
unfolding HashMap.get HashMap.insert
set_nonce id new_nonce s = elim (HashMap.get id s.account_ids) [
  | none ↦ s
  | some address ↦ elim (HashMap.get address s.account_nonces) [
    | none ↦ s
    | some old ↦ record s { account_nonces = HashMap.insert address new_nonce s.account_nonces }
  ]
]

-- `MempoolRequest::UpdateNonces`
unfoldable pub update_nonce : ℕ → AccountUpdate → MempoolState → MempoolState
unfolding set_nonce HashMap.insert HashMap.remove
update_nonce id (create address n) s = record s {
  account_ids = HashMap.insert id address s.account_ids;
  account_nonces = HashMap.insert address n s.account_nonces;
}
update_nonce id (delete address n) s = record s {
  account_ids = HashMap.remove id s.account_ids;
  account_nonces = HashMap.remove address s.account_nonces;
}
update_nonce id (update_balance old_nonce new_nonce token old_balance new_balance) s =
    set_nonce id new_nonce s
update_nonce id (change_pub_key_hash old_hash new_hash old_nonce new_nonce) s =
    set_nonce id new_nonce s

unfoldable pub update_nonces : AccountUpdates → MempoolState → MempoolState
unfolding update_nonce
update_nonces [] s = s
update_nonces ((id, u) ∷ us) s = update_nonces us (update_nonce id u s)

-- The loop of `prepare_tx_for_block`: the chunks left, what is taken, and what stays.
unfoldable pub take_fitting :
    MempoolState → ℕ → List SignedTxVariant → ℕ × List SignedTxVariant × List SignedTxVariant
unfolding required_chunks
take_fitting s chunks_left [] = (chunks_left, [], [])
take_fitting s chunks_left (variant ∷ txs) =
    let needed = required_chunks variant s in
    let (left, taken, rest) = take_fitting s (chunks_left - needed) txs in
    if leb needed chunks_left
    then (left, variant ∷ taken, rest)
    else (chunks_left, [], variant ∷ txs)

unfoldable pub prepare_tx_for_block : ℕ → MempoolState → (ℕ × List SignedTxVariant) × MempoolState
unfolding take_fitting
prepare_tx_for_block chunks_left s =
    let (left, taken, rest) = take_fitting s chunks_left s.ready_txs in
    ((left, taken), record s { ready_txs = rest })

-- the chunks of priority operations
unfoldable pub priority_ops_chunks : List PriorityOp → ℕ
priority_ops_chunks [] = 0
priority_ops_chunks (op ∷ ops) = priority_chunks op.«data» + priority_ops_chunks ops

-- The watcher's answer has at most the chunks that it is asked for.
unfoldable pub propose_new_block : List PriorityOp → Mempool → ProposedBlock × Mempool
unfolding prepare_tx_for_block priority_ops_chunks
propose_new_block priority_ops m =
    let left = m.max_block_size_chunks - priority_ops_chunks priority_ops in
    let (out, s) = prepare_tx_for_block left m.mempool_state in
    (record { priority_ops = priority_ops; txs = out.1 }, record m { mempool_state = s })
