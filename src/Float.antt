-- ===== src/Float.antt =====
-- `FloatConversions` of zksync/core/lib/crypto/src/primitives.rs, and the packing helpers of
-- zksync/core/lib/types/src/helpers.rs. `none` is a panic in what packs and `None` in `unpack`.
use mathlib.Core.List.{reverse}
use qs_react_native_zksync.Prelude.{
  ℕ, zero, suc, ◌+◌, ◌-◌, ◌*◌, ◌/◌, ◌%◌, ◌^◌, Bool, List, ◌++◌, and_then, map_some, eq_some, ◌==◌,
  if◌then◌else◌, leb, ltb, Option, none, some, length, take, drop,
}
use qs_react_native_zksync.Params.{
  u128_mod, u128_max, amount_exponent_bit_width, amount_mantissa_bit_width, fee_exponent_bit_width,
  fee_mantissa_bit_width,
}
use qs_react_native_zksync.Bits.{push_bits, value_reversed, into_bytes_ordered, from_be_bytes}

abbrev pub saturating_mul : ℕ → ℕ → ℕ
saturating_mul a b = if leb (a * b) u128_max then a * b else u128_max

-- `for _ in 0..max_power { max_exponent = max_exponent.saturating_mul(exponent_base) }`
pub max_exponent_loop : ℕ → ℕ → ℕ → ℕ
max_exponent_loop base zero acc = acc
max_exponent_loop base (suc n) acc = max_exponent_loop base n (saturating_mul acc base)

-- `loop { if temp < base { break } temp /= base; exponent += 1 }`, on fuel
pub count_loop : ℕ → ℕ → ℕ → ℕ → ℕ
count_loop base zero temp exponent = exponent
count_loop base (suc fuel) temp exponent =
    let rest = count_loop base fuel (temp / base) (exponent + 1) in
    if ltb temp base then exponent else rest

-- `for _ in 0..exponent { temp *= base }` on a `u128`
pub power_loop : ℕ → ℕ → ℕ → ℕ
power_loop base zero temp = temp
power_loop base (suc n) temp = power_loop base n (temp * base % u128_mod)

-- The exponent chosen for an integer above the greatest mantissa: the digits of the guess, and one
-- more if the mantissa would not fit. A `u128` halves to 0 within 128 rounds.
pub choose_exponent : ℕ → ℕ → ℕ → ℕ × ℕ
unfolding count_loop power_loop
choose_exponent integer max_mantissa base =
    let exponent = count_loop base 128 (integer / max_mantissa) 0 in
    let temp = power_loop base exponent 1 in
    if ltb (temp * max_mantissa % u128_mod) integer
    then (exponent + 1, temp * base % u128_mod)
    else (exponent, temp)

-- mantissa and exponent
pub scale : ℕ → ℕ → ℕ → ℕ × ℕ
unfolding choose_exponent
scale integer max_mantissa base =
    if ltb max_mantissa integer
    then (let (exponent, temp) = choose_exponent integer max_mantissa base in
        (integer / temp, exponent))
    else (integer, 0)

-- `to_float`; `none` is the error "Integer is too big"
unfoldable pub to_float : ℕ → ℕ → ℕ → ℕ → Option (List Bool)
unfolding max_exponent_loop scale push_bits
to_float integer exponent_length mantissa_length base =
    let max_exponent = max_exponent_loop base (2 ^ exponent_length - 1) 1 in
    let max_mantissa = 2 ^ mantissa_length - 1 in
    let (mantissa, exponent) = scale integer max_mantissa base in
    if ltb (saturating_mul max_mantissa max_exponent) integer
    then none
    else some (push_bits exponent 0 exponent_length ++ push_bits mantissa 0 mantissa_length)

unfoldable pub pack : ℕ → ℕ → ℕ → Option (List ℕ)
unfolding to_float into_bytes_ordered
pack number exponent_len mantissa_len =
    if leb number u128_max
    then and_then (to_float number exponent_len mantissa_len 10)
        (λ bits. into_bytes_ordered (reverse bits))
    else none

abbrev checked : ℕ → Option ℕ
checked x = if leb x u128_max then some x else none

-- The sums of distinct powers below `2 ^ 128` and `2 ^ 32` do not overflow at the widths in use, so
-- the additions are unchecked here.
unfoldable pub unpack : List ℕ → ℕ → ℕ → Option ℕ
unfolding from_be_bytes value_reversed
unpack bytes exponent_len mantissa_len =
    let bits = from_be_bytes bytes in
    let mantissa = value_reversed (take mantissa_len bits) in
    let exponent_pow = value_reversed (take exponent_len (drop mantissa_len bits)) in
    if exponent_len + mantissa_len == length bytes * 8
    then and_then (checked (10 ^ exponent_pow)) (λ exponent. checked (mantissa * exponent))
    else none

unfoldable pub pack_token_amount : ℕ → Option (List ℕ)
unfolding pack
pack_token_amount amount = pack amount amount_exponent_bit_width amount_mantissa_bit_width

unfoldable pub pack_fee_amount : ℕ → Option (List ℕ)
unfolding pack
pack_fee_amount amount = pack amount fee_exponent_bit_width fee_mantissa_bit_width

unfoldable pub unpack_token_amount : List ℕ → Option ℕ
unfolding unpack
unpack_token_amount bytes = unpack bytes amount_exponent_bit_width amount_mantissa_bit_width

unfoldable pub unpack_fee_amount : List ℕ → Option ℕ
unfolding unpack
unpack_fee_amount bytes = unpack bytes fee_exponent_bit_width fee_mantissa_bit_width

-- `Some(amount) == unpack(&pack(amount))`; `none` is the panic of `pack`.
unfoldable pub is_token_amount_packable : ℕ → Option Bool
unfolding pack_token_amount unpack_token_amount
is_token_amount_packable amount =
    map_some (pack_token_amount amount) λ bytes. eq_some (unpack_token_amount bytes) amount

unfoldable pub is_fee_amount_packable : ℕ → Option Bool
unfolding pack_fee_amount unpack_fee_amount
is_fee_amount_packable amount =
    map_some (pack_fee_amount amount) λ bytes. eq_some (unpack_fee_amount bytes) amount

-- `none` is a panic, of `pack` or of `expect`.
unfoldable pub closest_packable_fee_amount : ℕ → Option ℕ
unfolding pack_fee_amount unpack_fee_amount
closest_packable_fee_amount amount = and_then (pack_fee_amount amount) unpack_fee_amount

unfoldable pub closest_packable_token_amount : ℕ → Option ℕ
unfolding pack_token_amount unpack_token_amount
closest_packable_token_amount amount = and_then (pack_token_amount amount) unpack_token_amount
