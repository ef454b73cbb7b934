-- ===== src/Tx/Checks.antt =====
-- The checks of each transaction, as conditions on its fields.
use qs_react_native_zksync.Prelude.{ℕ, ◌≡◌, ◌≢◌, ◌≤◌, true, none, some, ◌⊎◌}
use qs_react_native_zksync.Params.{u128_max, max_account_id, max_token_id}
use qs_react_native_zksync.Account.{zero_address}
use qs_react_native_zksync.Float.{is_token_amount_packable, is_fee_amount_packable}
use qs_react_native_zksync.Tx.{
  Bytes, Crypto, cached, Transfer, Withdraw, ChangePubKey, ForcedExit, Close, ZkSyncTx, transfer,
  withdraw, close, change_pub_key, forced_exit,
}
use qs_react_native_zksync.Tx.Encode.{close_bytes}
use qs_react_native_zksync.Tx.Verify.{
  transfer_signer, withdraw_signer, change_pub_key_signer, forced_exit_signer, eth_signer,
}

-- What the checks of each transaction have to find, with the signer where it is cached.
abbrev pub TransferChecked : Crypto → ℕ → Transfer → Type 0
TransferChecked c signer tx =
    (transfer_signer c tx ≡ some (some signer))
    × (tx.amount ≤ u128_max)
    × (tx.fee ≤ u128_max)
    × (is_token_amount_packable tx.amount ≡ some true)
    × (is_fee_amount_packable tx.fee ≡ some true)
    × (tx.account_id ≤ max_account_id)
    × (tx.token ≤ max_token_id)
    × (tx.to ≢ zero_address)

abbrev pub WithdrawChecked : Crypto → ℕ → Withdraw → Type 0
WithdrawChecked c signer tx =
    (withdraw_signer c tx ≡ some (some signer))
    × (tx.amount ≤ u128_max)
    × (is_fee_amount_packable tx.fee ≡ some true)
    × (tx.account_id ≤ max_account_id)
    × (tx.token ≤ max_token_id)

abbrev pub ForcedExitChecked : Crypto → ℕ → ForcedExit → Type 0
ForcedExitChecked c signer tx =
    (forced_exit_signer c tx ≡ some (some signer))
    × (is_fee_amount_packable tx.fee ≡ some true)
    × (tx.initiator_account_id ≤ max_account_id)
    × (tx.token ≤ max_token_id)

-- An Ethereum signature, if there is one, is the account's.
abbrev pub EthSigned : Crypto → ChangePubKey → Type 0
EthSigned c tx = (tx.eth_signature ≡ none) ⊎ (eth_signer c tx ≡ some tx.account)

abbrev pub ChangePubKeyChecked : Crypto → ChangePubKey → Type 0
ChangePubKeyChecked c tx =
    EthSigned c tx
    × (change_pub_key_signer c tx ≡ some (some tx.new_pk_hash))
    × (is_fee_amount_packable tx.fee ≡ some true)
    × (tx.account_id ≤ max_account_id)
    × (tx.fee_token ≤ max_token_id)

abbrev pub CloseChecked : Crypto → Close → Type 0
CloseChecked c tx = (key : Bytes) × (c.verify_musig tx.signature (close_bytes tx) ≡ some key)

-- The checks, and the transaction with its signer cached.
abbrev pub Checked : Crypto → ZkSyncTx → ZkSyncTx → Type 0
Checked c (transfer tx) tx' =
    (k : ℕ) × TransferChecked c k tx
    × (tx' ≡ transfer (record tx { cached_signer = cached (some k) }))
Checked c (withdraw tx) tx' =
    (k : ℕ) × WithdrawChecked c k tx
    × (tx' ≡ withdraw (record tx { cached_signer = cached (some k) }))
Checked c (close tx) tx' = CloseChecked c tx × (tx' ≡ close tx)
Checked c (change_pub_key tx) tx' = ChangePubKeyChecked c tx × (tx' ≡ change_pub_key tx)
Checked c (forced_exit tx) tx' =
    (k : ℕ) × ForcedExitChecked c k tx
    × (tx' ≡ forced_exit (record tx { cached_signer = cached (some k) }))
