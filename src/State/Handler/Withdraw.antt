-- ===== src/State/Handler/Withdraw.antt =====
-- handler/withdraw.rs
use qs_react_native_zksync.Prelude.{◌+◌, some, [], ◌∷◌, leb, ◌==◌, not, eq_some}
use qs_react_native_zksync.Params.{max_account_id, max_token_id}
use qs_react_native_zksync.Account.{default_pub_key_hash, update_balance, get_balance, sub_balance}
use qs_react_native_zksync.Tx.{Crypto, Withdraw}
use qs_react_native_zksync.Tx.Verify.{withdraw_signer}
use qs_react_native_zksync.State.Defs.{
  Action, Applied, OpSuccess, WithdrawOp, ZkSyncOp, ◌>>=◌, ◌>>◌, pure, gets, reads, ensure, unwrap,
  get_account, get_account_by_address, insert_account, token_not_supported, account_does_not_exist,
  account_is_locked, signature_is_incorrect, account_id_is_incorrect, account_id_too_big,
  nonce_mismatch, not_enough_balance,
}
use qs_react_native_zksync.State.Handler.Base.{apply_created, ok_or, next_nonce}

-- `create_op`
unfoldable pub create_withdraw : Crypto → Withdraw → Action WithdrawOp
unfolding get_account_by_address
create_withdraw c tx = do
  ensure (leb tx.token max_token_id) token_not_supported
  found ← reads (get_account_by_address tx.from)
  from ← ok_or found account_does_not_exist
  ensure (not (from.1.pub_key_hash == default_pub_key_hash)) account_is_locked
  signer ← unwrap (withdraw_signer c tx)
  ensure (eq_some signer from.1.pub_key_hash) signature_is_incorrect
  ensure (from.0 == tx.account_id) account_id_is_incorrect
  pure (record { tx = tx; account_id = from.0 })

-- `apply_op`
unfoldable pub apply_withdraw_op : WithdrawOp → Action Applied
unfolding insert_account get_balance sub_balance
apply_withdraw_op op = do
  ensure (leb op.account_id max_account_id) account_id_too_big
  from ← unwrap (← gets (get_account op.account_id))
  let from_old_balance = get_balance op.tx.token from
  ensure (op.tx.nonce == from.nonce) nonce_mismatch
  ensure (leb (op.tx.amount + op.tx.fee) from_old_balance) not_enough_balance
  paid ← unwrap (sub_balance op.tx.token (op.tx.amount + op.tx.fee) from)
  let from' = next_nonce paid
  insert_account op.account_id from'
  pure (
    some (record { token = op.tx.token; amount = op.tx.fee }),
    (
      op.account_id,
      update_balance from.nonce from'.nonce op.tx.token from_old_balance
          (get_balance op.tx.token from'),
    )
        ∷ [],
  )

-- `apply_tx`
unfoldable pub apply_withdraw : Crypto → Withdraw → Action OpSuccess
unfolding create_withdraw apply_withdraw_op
apply_withdraw c tx = apply_created (create_withdraw c tx) apply_withdraw_op ZkSyncOp.withdraw
