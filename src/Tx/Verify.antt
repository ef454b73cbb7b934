-- ===== src/Tx/Verify.antt =====
-- `verify_signature` and `verify_eth_signature` of the transactions. The outer `none` is a panic.
use qs_react_native_zksync.Prelude.{ℕ, Option, some, and_then, map_some}
use qs_react_native_zksync.Tx.{
  Bytes, TxSignature, Crypto, VerifiedSignatureCache, not_cached, cached, Transfer, Withdraw,
  ChangePubKey, ForcedExit,
}
use qs_react_native_zksync.Tx.Encode.{
  transfer_bytes, withdraw_bytes, change_pub_key_bytes, forced_exit_bytes, get_eth_signed_data,
}

-- The signer of a message: the cache, or the hash of the key that verifies.
abbrev recover_cached :
    Crypto → VerifiedSignatureCache → TxSignature → Option Bytes → Option (Option ℕ)
recover_cached c (cached signer) signature bytes = some signer
recover_cached c not_cached signature bytes =
    map_some bytes λ msg. map_some (c.verify_musig signature msg) c.from_pubkey

module _ (c : Crypto) where
  unfoldable pub transfer_signer : Transfer → Option (Option ℕ)
  unfolding transfer_bytes
  transfer_signer tx = recover_cached c tx.cached_signer tx.signature (transfer_bytes tx)

  unfoldable pub withdraw_signer : Withdraw → Option (Option ℕ)
  unfolding withdraw_bytes
  withdraw_signer tx = recover_cached c tx.cached_signer tx.signature (withdraw_bytes tx)

  unfoldable pub change_pub_key_signer : ChangePubKey → Option (Option ℕ)
  unfolding change_pub_key_bytes
  change_pub_key_signer tx =
      recover_cached c tx.cached_signer tx.signature (change_pub_key_bytes tx)

  unfoldable pub forced_exit_signer : ForcedExit → Option (Option ℕ)
  unfolding forced_exit_bytes
  forced_exit_signer tx = recover_cached c tx.cached_signer tx.signature (forced_exit_bytes tx)

  -- `verify_eth_signature`
  unfoldable pub eth_signer : ChangePubKey → Option ℕ
  unfolding get_eth_signed_data
  eth_signer tx =
      and_then tx.eth_signature
        λ sign. and_then (get_eth_signed_data tx) λ msg. c.recover_signer sign msg
