-- ===== src/State/Handler/ChangePubKey.antt =====
-- handler/change_pubkey.rs
use qs_react_native_zksync.Prelude.{ℕ, some, [], ◌∷◌, leb, ◌==◌, not, ◌||◌, eq_some, is_some}
use qs_react_native_zksync.Params.{max_account_id}
use qs_react_native_zksync.Account.{
  Account, update_balance, change_pub_key_hash, get_balance, sub_balance,
}
use qs_react_native_zksync.Tx.{Crypto, ChangePubKey}
use qs_react_native_zksync.Tx.Verify.{change_pub_key_signer, eth_signer}
use qs_react_native_zksync.State.Defs.{
  Action, Applied, OpSuccess, ChangePubKeyOp, ZkSyncOp, ◌>>=◌, ◌>>◌, pure, gets, reads, ensure,
  unwrap, get_account, get_account_by_address, insert_account, account_does_not_exist,
  signature_is_incorrect, eth_signature_is_incorrect, account_id_is_incorrect, account_id_too_big,
  nonce_mismatch, not_enough_balance,
}
use qs_react_native_zksync.State.Handler.Base.{apply_created, ok_or, next_nonce}

-- `create_op`
unfoldable pub create_change_pub_key : Crypto → ChangePubKey → Action ChangePubKeyOp
unfolding get_account_by_address
create_change_pub_key c tx = do
  found ← reads (get_account_by_address tx.account)
  account ← ok_or found account_does_not_exist
  ensure (not (is_some tx.eth_signature) || eq_some (eth_signer c tx) account.1.address)
      eth_signature_is_incorrect
  signer ← unwrap (change_pub_key_signer c tx)
  ensure (eq_some signer tx.new_pk_hash) signature_is_incorrect
  ensure (account.0 == tx.account_id) account_id_is_incorrect
  ensure (leb account.0 max_account_id) account_id_too_big
  pure (record { tx = tx; account_id = account.0 })

abbrev pub with_key : ℕ → Account → Account
with_key hash a = record a { pub_key_hash = hash }

-- `apply_op`: nonce, then key, then fee; the account is stored only after the last check.
unfoldable pub apply_change_pub_key_op : ChangePubKeyOp → Action Applied
unfolding insert_account get_balance sub_balance
apply_change_pub_key_op op = do
  account ← unwrap (← gets (get_account op.account_id))
  let old_balance = get_balance op.tx.fee_token account
  ensure (op.tx.nonce == account.nonce) nonce_mismatch
  let changed = with_key op.tx.new_pk_hash (next_nonce account)
  ensure (leb op.tx.fee old_balance) not_enough_balance
  account' ← unwrap (sub_balance op.tx.fee_token op.tx.fee changed)
  insert_account op.account_id account'
  pure (
    some (record { token = op.tx.fee_token; amount = op.tx.fee }),
    (
      op.account_id,
      change_pub_key_hash account.pub_key_hash account'.pub_key_hash account.nonce account'.nonce,
    )
        ∷ (
          op.account_id,
          update_balance account'.nonce account'.nonce op.tx.fee_token old_balance
              (get_balance op.tx.fee_token account'),
        )
        ∷ [],
  )

-- `apply_tx`
unfoldable pub apply_change_pub_key : Crypto → ChangePubKey → Action OpSuccess
unfolding create_change_pub_key apply_change_pub_key_op
apply_change_pub_key c tx =
    apply_created (create_change_pub_key c tx) apply_change_pub_key_op
      ZkSyncOp.change_pub_key_offchain
