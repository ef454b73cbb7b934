-- ===== src/State/Execute.antt =====
-- The entry points of state.rs: single transactions, batches, priority operations, the collection
-- of fees, and the conversions into operations.
use mathlib.Core.List.{reverse}
use qs_react_native_zksync.Prelude.{
  ℕ, ◌+◌, Option, none, some, List, [], ◌∷◌, map, ◌==◌, length, replicate, if◌then◌else◌,
}
use qs_react_native_zksync.HashMap.{HashMap}
use qs_react_native_zksync.Account.{
  Account, AccountUpdates, update_balance, get_balance, add_balance,
}
use qs_react_native_zksync.Tx.{
  Bytes, Crypto, ZkSyncTx, transfer, withdraw, close, change_pub_key, forced_exit,
}
use qs_react_native_zksync.State.Defs.{
  ZkSyncState, Result, ok, err, panic, batch_failed, closing_is_disabled, Action, OpSuccess,
  ZkSyncOp, ZkSyncPriorityOp, CollectedFee, into_franklin_op, ◌>>=◌, ◌>>◌, pure, gets, unwrap,
  empty, get_account, get_account_by_address, insert_account,
}
use qs_react_native_zksync.State.Updates.{apply_account_updates, reverse_updates}
use qs_react_native_zksync.State.Handler.Transfer.{create_transfer, apply_transfer}
use qs_react_native_zksync.State.Handler.Withdraw.{create_withdraw, apply_withdraw}
use qs_react_native_zksync.State.Handler.ChangePubKey.{create_change_pub_key, apply_change_pub_key}
use qs_react_native_zksync.State.Handler.ForcedExit.{create_forced_exit, apply_forced_exit}
use qs_react_native_zksync.State.Handler.Close.{apply_close}
use qs_react_native_zksync.State.Handler.Priority.{
  create_deposit, apply_deposit, create_full_exit, apply_full_exit,
}

pub record SignedZkSyncTx : Type 0 where
  pub tx : ZkSyncTx
  pub eth_sign_data : Option (Bytes × Bytes)

unfoldable pub execute_tx : Crypto → ZkSyncTx → Action OpSuccess
unfolding apply_transfer apply_withdraw apply_close apply_change_pub_key apply_forced_exit
execute_tx c (transfer tx) = apply_transfer c tx
execute_tx c (withdraw tx) = apply_withdraw c tx
execute_tx c (close tx) = apply_close tx
execute_tx c (change_pub_key tx) = apply_change_pub_key c tx
execute_tx c (forced_exit tx) = apply_forced_exit c tx

-- An error of a priority operation is a panic.
abbrev pub expect_ok : {A : Type 0} → Action A → Action A
expect_ok m s =
    let (r, s') = m s in elim r [ ok a ↦ (ok a, s') | err e ↦ (panic, s') | panic ↦ (panic, s') ]

unfoldable pub execute_priority_op : ZkSyncPriorityOp → Action OpSuccess
unfolding apply_deposit apply_full_exit
execute_priority_op (ZkSyncPriorityOp.deposit op) = expect_ok (apply_deposit op)
execute_priority_op (ZkSyncPriorityOp.full_exit op) = expect_ok (apply_full_exit op)

-- Takes back the executed transactions, the newest first.
unfoldable pub roll_back : List OpSuccess → Action (Unit {0})
roll_back [] = pure tt
roll_back (success ∷ rest) =
    apply_account_updates (reverse_updates success.updates) >> roll_back rest

-- The loop of `execute_txs_batch` from transaction number `id`, with the successes newest first and
-- the length of the whole batch.
unfoldable pub batch_loop :
    Crypto → ℕ → ℕ → List SignedZkSyncTx → List OpSuccess → Action (List (Result OpSuccess))
batch_loop c total id [] successes = pure (map ok (reverse successes))
batch_loop c total id (tx ∷ txs) successes = λ s.
    let (r, s') = execute_tx c tx.tx s in
    elim r [
      | ok success ↦ batch_loop c total (id + 1) txs (success ∷ successes) s'
      | err error ↦
          (roll_back successes >> pure (replicate total (err (batch_failed (id + 1) error)))) s'
      | panic ↦ (panic, s')
    ]

unfoldable pub execute_txs_batch : Crypto → List SignedZkSyncTx → Action (List (Result OpSuccess))
unfolding batch_loop
execute_txs_batch c txs = batch_loop c (length txs) 0 txs []

-- The loop of `collect_fee` over a copy of the account; a fee of zero is skipped.
unfoldable pub collect_loop : ℕ → List CollectedFee → Account → Account × AccountUpdates
unfolding get_balance add_balance
collect_loop id [] account = (account, [])
collect_loop id (fee ∷ fees) account =
    let account' = add_balance fee.token fee.amount account in
    let rest = collect_loop id fees account' in
    let skipped = collect_loop id fees account in
    if fee.amount == 0 then skipped else (
      rest.0,
      (
        id,
        update_balance account.nonce account.nonce fee.token (get_balance fee.token account)
            (get_balance fee.token account'),
      )
          ∷ rest.1,
    )

unfoldable pub collect_fee : List CollectedFee → ℕ → Action AccountUpdates
unfolding collect_loop insert_account
collect_fee fees fee_account = do
  account ← unwrap (← gets (get_account fee_account))
  let collected = collect_loop fee_account fees account
  insert_account fee_account collected.0
  pure collected.1

-- `from_acc_map`, over the entries in the order of the map's iteration
unfoldable pub insert_accounts : HashMap Account → Action (Unit {0})
unfolding insert_account
insert_accounts [] = pure tt
insert_accounts ((id, account) ∷ accounts) = insert_account id account >> insert_accounts accounts

unfoldable pub from_acc_map : HashMap Account → ℕ → Result (Unit {0}) × ZkSyncState
unfolding insert_accounts empty
from_acc_map accounts current_block =
    insert_accounts accounts (record empty { block_number = current_block })

-- chunks of public data that an operation takes: operations/
abbrev pub min_chunks : ZkSyncTx → ℕ
min_chunks (transfer tx) = 2
min_chunks (withdraw tx) = 6
min_chunks (close tx) = 1
min_chunks (change_pub_key tx) = 6
min_chunks (forced_exit tx) = 6

abbrev pub chunks : ZkSyncOp → ℕ
chunks ZkSyncOp.noop = 1
chunks (ZkSyncOp.deposit op) = 6
chunks (ZkSyncOp.transfer_to_new op) = 6
chunks (ZkSyncOp.withdraw op) = 6
chunks (ZkSyncOp.close op) = 1
chunks (ZkSyncOp.transfer op) = 2
chunks (ZkSyncOp.full_exit op) = 6
chunks (ZkSyncOp.change_pub_key_offchain op) = 6
chunks (ZkSyncOp.forced_exit op) = 6

-- a transfer to an unknown address takes the chunks of `TransferToNew`
abbrev transfer_chunks : Result (Option (ℕ × Account)) → Result ℕ
transfer_chunks (ok (some _)) = ok 2
transfer_chunks (ok none) = ok 6
transfer_chunks (err e) = err e
transfer_chunks panic = panic

unfoldable pub chunks_for_tx : ZkSyncTx → ZkSyncState → Result ℕ
unfolding get_account_by_address
chunks_for_tx (transfer tx) s = transfer_chunks (get_account_by_address tx.to s)
chunks_for_tx (withdraw tx) s = ok (min_chunks (withdraw tx))
chunks_for_tx (close tx) s = ok (min_chunks (close tx))
chunks_for_tx (change_pub_key tx) s = ok (min_chunks (change_pub_key tx))
chunks_for_tx (forced_exit tx) s = ok (min_chunks (forced_exit tx))

-- the sum over a batch, in the state before it
unfoldable pub chunks_for_batch : List SignedZkSyncTx → ZkSyncState → Result ℕ
unfolding chunks_for_tx
chunks_for_batch [] s = ok 0
chunks_for_batch (tx ∷ txs) s =
    let rest = chunks_for_batch txs s in
    elim (chunks_for_tx tx.tx s) [
      | err e ↦ err e
      | panic ↦ panic
      | ok first ↦ elim rest [ ok more ↦ ok (first + more) | err e ↦ err e | panic ↦ panic ]
    ]

-- `zksync_tx_to_zksync_op`
unfoldable pub zksync_tx_to_zksync_op : Crypto → ZkSyncTx → Action ZkSyncOp
unfolding create_transfer create_withdraw create_change_pub_key create_forced_exit
zksync_tx_to_zksync_op c (transfer tx) = do op ← create_transfer c tx; pure (into_franklin_op op)
zksync_tx_to_zksync_op c (withdraw tx) = do op ← create_withdraw c tx; pure (ZkSyncOp.withdraw op)
zksync_tx_to_zksync_op c (change_pub_key tx) = do
  op ← create_change_pub_key c tx
  pure (ZkSyncOp.change_pub_key_offchain op)
zksync_tx_to_zksync_op c (close tx) = λ s. (err closing_is_disabled, s)
zksync_tx_to_zksync_op c (forced_exit tx) = do
  op ← create_forced_exit c tx
  pure (ZkSyncOp.forced_exit op)

-- `priority_op_to_zksync_op`
unfoldable pub priority_op_to_zksync_op : ZkSyncPriorityOp → Action ZkSyncOp
unfolding create_deposit create_full_exit
priority_op_to_zksync_op (ZkSyncPriorityOp.deposit op) =
    expect_ok (do created ← create_deposit op; pure (ZkSyncOp.deposit created))
priority_op_to_zksync_op (ZkSyncPriorityOp.full_exit op) =
    expect_ok (do created ← create_full_exit op; pure (ZkSyncOp.full_exit created))
