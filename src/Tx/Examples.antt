-- ===== src/Tx/Examples.antt =====
-- A change of the key and its message.
use qs_react_native_zksync.Prelude.{none, []}
use qs_react_native_zksync.Tx.{ChangePubKey, not_cached}

abbrev new_key : ChangePubKey
new_key = record {
  account_id = 3;
  account = 100;
  new_pk_hash = 7;
  fee_token = 0;
  fee = 1;
  nonce = 2;
  signature = record { pub_key = []; signature = [] };
  eth_signature = none;
  cached_signer = not_cached;
}

-- Another fee is not in the message.
abbrev other_fee : ChangePubKey
other_fee = record new_key { fee = 5 }
