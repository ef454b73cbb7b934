-- ===== src/Params.antt =====
-- zksync/core/lib/crypto/src/params.rs: the limits of the network. A `u32` power saturates.
use qs_react_native_zksync.Prelude.{ℕ, ◌-◌, ◌^◌, ◌==◌, leb, if◌then◌else◌}

abbrev pub u8_mod : ℕ
u8_mod = 2 ^ 8

abbrev pub u16_mod : ℕ
u16_mod = 2 ^ 16

abbrev pub u32_mod : ℕ
u32_mod = 2 ^ 32

abbrev pub u64_mod : ℕ
u64_mod = 2 ^ 64

abbrev pub u128_mod : ℕ
u128_mod = 2 ^ 128

abbrev pub u128_max : ℕ
u128_max = 2 ^ 128 - 1

abbrev pub account_tree_depth : ℕ
account_tree_depth = 32

abbrev pub balance_tree_depth : ℕ
balance_tree_depth = 11

abbrev pub total_tokens : ℕ
total_tokens = 2 ^ balance_tree_depth

abbrev pub number_of_processable_tokens : ℕ
number_of_processable_tokens = 128

abbrev pub used_account_subtree_depth : ℕ
used_account_subtree_depth = 24

abbrev saturating_pow_u32 : ℕ → ℕ → ℕ
saturating_pow_u32 b e = if leb (b ^ e) (2 ^ 32 - 1) then b ^ e else 2 ^ 32 - 1

abbrev pub max_account_id : ℕ
max_account_id =
    if saturating_pow_u32 2 used_account_subtree_depth == 2 ^ 32 - 1
    then saturating_pow_u32 2 used_account_subtree_depth
    else saturating_pow_u32 2 used_account_subtree_depth - 1

abbrev pub max_token_id : ℕ
max_token_id = number_of_processable_tokens - 1

abbrev pub eth_token_id : ℕ
eth_token_id = 0

abbrev pub chunk_bytes : ℕ
chunk_bytes = 9

abbrev pub amount_exponent_bit_width : ℕ
amount_exponent_bit_width = 5

abbrev pub amount_mantissa_bit_width : ℕ
amount_mantissa_bit_width = 35

abbrev pub fee_exponent_bit_width : ℕ
fee_exponent_bit_width = 5

abbrev pub fee_mantissa_bit_width : ℕ
fee_mantissa_bit_width = 11
