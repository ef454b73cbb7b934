-- ===== src/Tx/Encode.antt =====
-- `get_bytes` of each transaction, the bytes that are signed, and `get_eth_signed_data` of
-- `ChangePubKey`. `none` is a panic of the packing of an amount.
use qs_react_native_zksync.Prelude.{
  Option, none, some, [], ◌∷◌, ◌++◌, length, and_then, leb, ◌==◌, if◌then◌else◌,
}
use qs_react_native_zksync.Prelude.Text.{codes, hex_encode}
use qs_react_native_zksync.Params.{u128_max}
use qs_react_native_zksync.Bits.{to_be_bytes}
use qs_react_native_zksync.Float.{pack_token_amount, pack_fee_amount}
use qs_react_native_zksync.Tx.{Bytes, Transfer, Withdraw, Close, ChangePubKey, ForcedExit}

unfoldable pub transfer_bytes : Transfer → Option Bytes
unfolding pack_token_amount pack_fee_amount to_be_bytes
transfer_bytes tx = and_then (pack_token_amount tx.amount) λ amount.
    and_then (pack_fee_amount tx.fee) λ fee. some (
      (5 ∷ [])
      ++ (to_be_bytes 4 tx.account_id
          ++ (to_be_bytes 20 tx.from
              ++ (to_be_bytes 20 tx.to
                  ++ (to_be_bytes 2 tx.token ++ (amount ++ (fee ++ to_be_bytes 4 tx.nonce)))))))

-- The amount is not packed: `to_u128().unwrap()` panics above the range.
unfoldable pub withdraw_bytes : Withdraw → Option Bytes
unfolding pack_fee_amount to_be_bytes
withdraw_bytes tx =
    and_then (if leb tx.amount u128_max then some (to_be_bytes 16 tx.amount) else none) λ amount.
      and_then (pack_fee_amount tx.fee) λ fee. some (
        (3 ∷ [])
        ++ (to_be_bytes 4 tx.account_id
            ++ (to_be_bytes 20 tx.from
                ++ (to_be_bytes 20 tx.to
                    ++ (to_be_bytes 2 tx.token ++ (amount ++ (fee ++ to_be_bytes 4 tx.nonce)))))))

unfoldable pub close_bytes : Close → Bytes
unfolding to_be_bytes
close_bytes tx = (4 ∷ []) ++ (to_be_bytes 20 tx.account ++ to_be_bytes 4 tx.nonce)

unfoldable pub change_pub_key_bytes : ChangePubKey → Option Bytes
unfolding pack_fee_amount to_be_bytes
change_pub_key_bytes tx = and_then (pack_fee_amount tx.fee) λ fee. some (
    (7 ∷ [])
    ++ (to_be_bytes 4 tx.account_id
        ++ (to_be_bytes 20 tx.account
            ++ (to_be_bytes 20 tx.new_pk_hash
                ++ (to_be_bytes 2 tx.fee_token ++ (fee ++ to_be_bytes 4 tx.nonce))))))

unfoldable pub forced_exit_bytes : ForcedExit → Option Bytes
unfolding pack_fee_amount to_be_bytes
forced_exit_bytes tx = and_then (pack_fee_amount tx.fee) λ fee. some (
    (8 ∷ [])
    ++ (to_be_bytes 4 tx.initiator_account_id
        ++ (to_be_bytes 20 tx.target
            ++ (to_be_bytes 2 tx.token ++ (fee ++ to_be_bytes 4 tx.nonce)))))

-- the line feed
abbrev nl : Bytes
nl = 10 ∷ []

abbrev pub eth_signed_msg : ChangePubKey → Bytes
eth_signed_msg tx =
    codes "Register zkSync pubkey:"
    ++ (nl
        ++ (nl
            ++ (hex_encode (to_be_bytes 20 tx.new_pk_hash)
                ++ (nl
                    ++ (codes "nonce: 0x"
                        ++ (hex_encode (to_be_bytes 4 tx.nonce)
                            ++ (nl
                                ++ (codes "account id: 0x"
                                    ++ (hex_encode (to_be_bytes 4 tx.account_id)
                                        ++ (nl
                                            ++ (nl
                                                ++ codes
                                                    "Only sign this message for a trusted client!")))))))))))

-- `none` is the error of the check on the length.
unfoldable pub get_eth_signed_data : ChangePubKey → Option Bytes
unfolding hex_encode to_be_bytes
get_eth_signed_data tx =
    if length (eth_signed_msg tx) == 152 then some (eth_signed_msg tx) else none
