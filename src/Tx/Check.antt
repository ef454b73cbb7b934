-- ===== src/Tx/Check.antt =====
-- `check_correctness` of the transactions, which the mempool and the API run before a transaction is
-- taken. `none` is a panic, in the packing of an amount; the result is the answer and the transaction
-- with its cache filled.
use qs_react_native_zksync.Prelude.{
  ℕ, Bool, true, false, Option, none, some, map_some, is_some, eq_some, leb, ◌==◌, ◌&&◌, ◌||◌, not,
}
use qs_react_native_zksync.Params.{u128_max, max_account_id, max_token_id}
use qs_react_native_zksync.Account.{zero_address}
use qs_react_native_zksync.Float.{is_token_amount_packable, is_fee_amount_packable}
use qs_react_native_zksync.Tx.{
  Crypto, VerifiedSignatureCache, cached, Transfer, Withdraw, ChangePubKey, ForcedExit, Close,
  ZkSyncTx, transfer, withdraw, close, change_pub_key, forced_exit,
}
use qs_react_native_zksync.Tx.Encode.{close_bytes}
use qs_react_native_zksync.Tx.Verify.{
  transfer_signer, withdraw_signer, change_pub_key_signer, forced_exit_signer, eth_signer,
}

-- `&&`, whose right side is not run where the left one is false
abbrev pub and_also : Option Bool → Option Bool → Option Bool
and_also none rest = none
and_also (some false) rest = some false
and_also (some true) rest = rest

-- The end of `check_correctness`: a transaction that passed the checks has its signer cached.
abbrev pub with_signer {ℓ} :
    {A : Type ℓ}
    → Option Bool
    → Option (Option ℕ)
    → A
    → (VerifiedSignatureCache → A)
    → Option (Bool × A)
with_signer none signer tx cache = none
with_signer (some false) signer tx cache = some (false, tx)
with_signer (some true) none tx cache = none
with_signer (some true) (some signer) tx cache = some (is_some signer, cache (cached signer))

abbrev pub transfer_bounds : Transfer → Bool
transfer_bounds tx =
    leb tx.account_id max_account_id && leb tx.token max_token_id && not (tx.to == zero_address)

module _ (c : Crypto) where
  unfoldable pub check_transfer : Transfer → Option (Bool × Transfer)
  check_transfer tx =
      with_signer
        (and_also (some (leb tx.amount u128_max && leb tx.fee u128_max)) (
          and_also (is_token_amount_packable tx.amount)
            (and_also (is_fee_amount_packable tx.fee) (some (transfer_bounds tx)))))
        (transfer_signer c tx) tx (λ cache. record tx { cached_signer = cache })

  unfoldable pub check_withdraw : Withdraw → Option (Bool × Withdraw)
  check_withdraw tx =
      with_signer
        (and_also (some (leb tx.amount u128_max)) (
          and_also (is_fee_amount_packable tx.fee)
            (some (leb tx.account_id max_account_id && leb tx.token max_token_id))))
        (withdraw_signer c tx) tx (λ cache. record tx { cached_signer = cache })

  unfoldable pub check_forced_exit : ForcedExit → Option (Bool × ForcedExit)
  check_forced_exit tx =
      with_signer
        (and_also (is_fee_amount_packable tx.fee)
          (some (leb tx.initiator_account_id max_account_id && leb tx.token max_token_id)))
        (forced_exit_signer c tx) tx (λ cache. record tx { cached_signer = cache })

  -- The cache of a `ChangePubKey` is not filled.
  unfoldable pub check_change_pub_key : ChangePubKey → Option Bool
  check_change_pub_key tx =
      and_also (some (not (is_some tx.eth_signature) || eq_some (eth_signer c tx) tx.account)) (
        and_also (map_some (change_pub_key_signer c tx) (λ signer. eq_some signer tx.new_pk_hash)) (
          and_also (some (leb tx.account_id max_account_id && leb tx.fee_token max_token_id))
            (is_fee_amount_packable tx.fee)))

  unfoldable pub check_close : Close → Bool
  check_close tx = is_some (map_some (c.verify_musig tx.signature (close_bytes tx)) c.from_pubkey)

-- `ZkSyncTx::check_correctness`
unfoldable pub check_correctness : Crypto → ZkSyncTx → Option (Bool × ZkSyncTx)
unfolding check_transfer check_withdraw check_forced_exit check_change_pub_key check_close
check_correctness c (transfer tx) = map_some (check_transfer c tx) (λ p. (p.0, transfer p.1))
check_correctness c (withdraw tx) = map_some (check_withdraw c tx) (λ p. (p.0, withdraw p.1))
check_correctness c (close tx) = some (check_close c tx, close tx)
check_correctness c (change_pub_key tx) =
    map_some (check_change_pub_key c tx) (λ valid. (valid, change_pub_key tx))
check_correctness c (forced_exit tx) =
    map_some (check_forced_exit c tx) (λ p. (p.0, forced_exit p.1))
