-- ===== src/Tx/Message.antt =====
-- The message of a change of the key, which an Ethereum account signs.
use qs_react_native_zksync.Prelude.{
  ℕ, ◌+◌, ◌*◌, ◌^◌, ◌<◌, List, [], ◌∷◌, take, drop, ltb, if◌then◌else◌, ◌-◌,
}
use qs_react_native_zksync.Tx.{Bytes, ChangePubKey}

-- The number that hex digits stand for, the most significant first, after one that stands before.
abbrev digit_value : ℕ → ℕ
digit_value d = if ltb d 58 then d - 48 else d - 87

abbrev value_after : ℕ → List ℕ → ℕ
value_after v [] = v
value_after v (d ∷ ds) = value_after (v * 16 + digit_value d) ds

-- A part of a message.
abbrev slice : ℕ → ℕ → Bytes → Bytes
slice from n msg = take n (drop from msg)

-- The widths of the fields: 20 bytes of the hash, 4 of the nonce and of the account id.
abbrev pub IsEncodable : ChangePubKey → Type 0
IsEncodable tx = (tx.new_pk_hash < 256 ^ 20) × (tx.nonce < 256 ^ 4) × (tx.account_id < 256 ^ 4)
