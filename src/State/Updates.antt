-- ===== src/State/Updates.antt =====
-- `apply_account_updates` of state.rs and `reverse_updates` of
-- zksync/core/lib/types/src/helpers.rs. Every `expect` and `assert` is a panic here.
use mathlib.Core.List.{reverse}
use qs_react_native_zksync.Prelude.{ℕ, [], ◌∷◌, map, ◌==◌, not, is_some}
use qs_react_native_zksync.Account.{
  Account, AccountUpdate, AccountUpdates, create, delete, update_balance, change_pub_key_hash,
  default_account, get_balance, set_balance, reversed_update,
}
use qs_react_native_zksync.State.Defs.{
  Action, ◌>>=◌, ◌>>◌, pure, gets, reads, assert, unwrap, get_account, get_account_by_address,
  insert_account, remove_account,
}

abbrev pub with_nonce : ℕ → Account → Account
with_nonce nonce a = record a { nonce = nonce }

-- one round of the loop
unfoldable pub apply_account_update : ℕ → AccountUpdate → Action (Unit {0})
unfolding get_account_by_address insert_account remove_account get_balance set_balance
apply_account_update id (create address nonce) = do
  found ← reads (get_account_by_address address)
  assert (not (is_some found))
  insert_account id (record default_account { address = address; nonce = nonce })
apply_account_update id (delete address nonce) = do
  account ← unwrap (← gets (get_account id))
  assert (account.address == address)
  assert (account.nonce == nonce)
  remove_account id
apply_account_update id (update_balance old_nonce new_nonce token old_balance new_balance) = do
  account ← unwrap (← gets (get_account id))
  assert (get_balance token account == old_balance)
  assert (account.nonce == old_nonce)
  insert_account id (with_nonce new_nonce (set_balance token new_balance account))
apply_account_update id (change_pub_key_hash old_hash new_hash old_nonce new_nonce) = do
  account ← unwrap (← gets (get_account id))
  assert (account.pub_key_hash == old_hash)
  assert (account.nonce == old_nonce)
  insert_account id (record account { pub_key_hash = new_hash; nonce = new_nonce })

unfoldable pub apply_account_updates : AccountUpdates → Action (Unit {0})
unfolding apply_account_update
apply_account_updates [] = pure tt
apply_account_updates ((id, u) ∷ us) = apply_account_update id u >> apply_account_updates us

abbrev pub reverse_one : ℕ × AccountUpdate → ℕ × AccountUpdate
reverse_one (id, u) = (id, reversed_update u)

unfoldable pub reverse_updates : AccountUpdates → AccountUpdates
unfolding reversed_update
reverse_updates us = map reverse_one (reverse us)
