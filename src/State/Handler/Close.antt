-- ===== src/State/Handler/Close.antt =====
-- handler/close.rs: `create_op` panics and `apply_tx` fails, so `apply_op` is never reached.
use qs_react_native_zksync.Prelude.{ℕ, zero, suc, Bool, true, ◌+◌, some, [], ◌∷◌, leb, ◌==◌, ◌&&◌}
use qs_react_native_zksync.Params.{max_account_id, total_tokens, eth_token_id}
use qs_react_native_zksync.Account.{Account, delete, get_balance}
use qs_react_native_zksync.Tx.{Close}
use qs_react_native_zksync.State.Defs.{
  Action, Applied, OpSuccess, CloseOp, panic, err, ◌>>=◌, ◌>>◌, pure, gets, ensure, unwrap,
  get_account, remove_account, closing_is_disabled, account_is_not_empty, account_id_too_big,
  nonce_mismatch,
}

unfoldable pub create_close : Close → Action CloseOp
create_close tx s = (panic, s)

unfoldable pub apply_close : Close → Action OpSuccess
apply_close tx s = (err closing_is_disabled, s)

-- no balance among the `n` tokens from `token`
unfoldable pub is_empty_from : ℕ → ℕ → Account → Bool
unfolding get_balance
is_empty_from token zero a = true
is_empty_from token (suc n) a = get_balance token a == 0 && is_empty_from (token + 1) n a

unfoldable pub apply_close_op : CloseOp → Action Applied
unfolding is_empty_from remove_account
apply_close_op op = do
  ensure (leb op.account_id max_account_id) account_id_too_big
  account ← unwrap (← gets (get_account op.account_id))
  ensure (is_empty_from 0 total_tokens account) account_is_not_empty
  ensure (op.tx.nonce == account.nonce) nonce_mismatch
  remove_account op.account_id
  pure (
    some (record { token = eth_token_id; amount = 0 }),
    (op.account_id, delete account.address account.nonce) ∷ [],
  )
