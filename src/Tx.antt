-- ===== src/Tx.antt =====
-- zksync/core/lib/types/src/tx/: the transactions that users sign, their bytes and the recovery of
-- the signer. The curve arithmetic is not part of the repository's code: a `Crypto` stands for it.
pub mod Encode
pub mod Verify
pub mod Check
pub mod Checks
pub mod Checked
pub mod Accepts
pub mod Message
pub mod Examples
use qs_react_native_zksync.Prelude.{ℕ, Bool, Option, List}

abbrev pub Bytes : Type 0
Bytes = List ℕ

pub record TxSignature : Type 0 where
  pub pub_key : Bytes
  pub signature : Bytes

-- `TxSignature::verify_musig` of a message, `PubKeyHash::from_pubkey`, and the recovery of an
-- Ethereum address from a `ChangePubKey`'s Ethereum signature (`verify_eth_signature`).
pub record Crypto : Type 0 where
  pub verify_musig : TxSignature → Bytes → Option Bytes
  pub from_pubkey : Bytes → ℕ
  pub recover_signer : Bytes → Bytes → Option ℕ

pub data VerifiedSignatureCache : Type 0 where
  not_cached : VerifiedSignatureCache
  cached : Option ℕ → VerifiedSignatureCache

pub record Transfer : Type 0 where
  pub account_id : ℕ
  pub from : ℕ
  pub to : ℕ
  pub token : ℕ
  pub amount : ℕ
  pub fee : ℕ
  pub nonce : ℕ
  pub signature : TxSignature
  pub cached_signer : VerifiedSignatureCache

pub record Withdraw : Type 0 where
  pub account_id : ℕ
  pub from : ℕ
  pub to : ℕ
  pub token : ℕ
  pub amount : ℕ
  pub fee : ℕ
  pub nonce : ℕ
  pub signature : TxSignature
  pub cached_signer : VerifiedSignatureCache
  pub fast : Bool

pub record Close : Type 0 where
  pub account : ℕ
  pub nonce : ℕ
  pub signature : TxSignature

pub record ChangePubKey : Type 0 where
  pub account_id : ℕ
  pub account : ℕ
  pub new_pk_hash : ℕ
  pub fee_token : ℕ
  pub fee : ℕ
  pub nonce : ℕ
  pub signature : TxSignature
  pub eth_signature : Option Bytes
  pub cached_signer : VerifiedSignatureCache

pub record ForcedExit : Type 0 where
  pub initiator_account_id : ℕ
  pub target : ℕ
  pub token : ℕ
  pub fee : ℕ
  pub nonce : ℕ
  pub signature : TxSignature
  pub cached_signer : VerifiedSignatureCache

pub data ZkSyncTx : Type 0 where
  transfer : Transfer → ZkSyncTx
  withdraw : Withdraw → ZkSyncTx
  close : Close → ZkSyncTx
  change_pub_key : ChangePubKey → ZkSyncTx
  forced_exit : ForcedExit → ZkSyncTx
