-- ===== src/State/Handler/ForcedExit.antt =====
-- handler/forced_exit.rs
use qs_react_native_zksync.Prelude.{
  ℕ, Option, none, some, [], ◌∷◌, leb, ◌==◌, eq_some, if◌then◌else◌,
}
use qs_react_native_zksync.Params.{max_account_id, max_token_id}
use qs_react_native_zksync.Account.{
  Account, default_pub_key_hash, or_zero, update_balance, get_balance, sub_balance,
}
use qs_react_native_zksync.Tx.{Crypto, ForcedExit}
use qs_react_native_zksync.Tx.Verify.{forced_exit_signer}
use qs_react_native_zksync.State.Defs.{
  Action, Applied, OpSuccess, ForcedExitOp, ZkSyncOp, ◌>>=◌, ◌>>◌, pure, gets, reads, ensure,
  unwrap, get_account, get_account_by_address, insert_account, token_not_supported,
  account_does_not_exist, signature_is_incorrect, target_does_not_exist, target_is_not_locked,
  account_id_too_big, nonce_mismatch, not_enough_balance, target_balance_mismatch,
}
use qs_react_native_zksync.State.Handler.Base.{apply_created, ok_or, next_nonce}

-- `.filter(|account| account.address == address).map(|account| account.get_balance(token))`
abbrev pub balance_of_address : ℕ → ℕ → Option Account → Option ℕ
balance_of_address address token none = none
balance_of_address address token (some a) =
    if a.address == address then some (get_balance token a) else none

-- `create_op`
unfoldable pub create_forced_exit : Crypto → ForcedExit → Action ForcedExitOp
unfolding get_account_by_address get_balance
create_forced_exit c tx = do
  found ← gets (get_account tx.initiator_account_id)
  initiator ← ok_or found account_does_not_exist
  signer ← unwrap (forced_exit_signer c tx)
  ensure (eq_some signer initiator.pub_key_hash) signature_is_incorrect
  ensure (leb tx.token max_token_id) token_not_supported
  found_target ← reads (get_account_by_address tx.target)
  target ← ok_or found_target target_does_not_exist
  ensure (target.1.pub_key_hash == default_pub_key_hash) target_is_not_locked
  balance ← gets (λ s. balance_of_address tx.target tx.token (get_account target.0 s))
  pure (record { tx = tx; target_account_id = target.0; withdraw_amount = balance })

-- `apply_op`: the initiator is stored first, then the target.
unfoldable pub apply_forced_exit_op : ForcedExitOp → Action Applied
unfolding insert_account get_balance sub_balance
apply_forced_exit_op op = do
  ensure (leb op.tx.initiator_account_id max_account_id) account_id_too_big
  initiator ← unwrap (← gets (get_account op.tx.initiator_account_id))
  target ← unwrap (← gets (get_account op.target_account_id))
  let amount = or_zero op.withdraw_amount
  let initiator_old_balance = get_balance op.tx.token initiator
  ensure (op.tx.nonce == initiator.nonce) nonce_mismatch
  ensure (leb op.tx.fee initiator_old_balance) not_enough_balance
  let target_old_balance = get_balance op.tx.token target
  ensure (target_old_balance == amount) target_balance_mismatch
  paid ← unwrap (sub_balance op.tx.token op.tx.fee initiator)
  let initiator' = next_nonce paid
  target' ← unwrap (sub_balance op.tx.token amount target)
  insert_account op.tx.initiator_account_id initiator'
  insert_account op.target_account_id target'
  pure (
    some (record { token = op.tx.token; amount = op.tx.fee }),
    (
      op.tx.initiator_account_id,
      update_balance initiator.nonce initiator'.nonce op.tx.token initiator_old_balance
          (get_balance op.tx.token initiator'),
    )
        ∷ (
          op.target_account_id,
          update_balance target.nonce target.nonce op.tx.token target_old_balance
              (get_balance op.tx.token target'),
        )
        ∷ [],
  )

-- `apply_tx`
unfoldable pub apply_forced_exit : Crypto → ForcedExit → Action OpSuccess
unfolding create_forced_exit apply_forced_exit_op
apply_forced_exit c tx =
    apply_created (create_forced_exit c tx) apply_forced_exit_op ZkSyncOp.forced_exit
