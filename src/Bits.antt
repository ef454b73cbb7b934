-- ===== src/Bits.antt =====
-- `BitConvert` of zksync/core/lib/crypto/src/primitives.rs, and big-endian bytes. A bit set by `|=`
-- at a position of its own is an addition of that power of two.
use mathlib.Core.List.{reverse}
use qs_react_native_zksync.Prelude.{
  ℕ, zero, suc, ◌+◌, ◌*◌, ◌/◌, ◌%◌, ◌^◌, Bool, List, [], ◌∷◌, ◌++◌, ◌==◌, if◌then◌else◌, leb,
  Option, none, some, length, take, drop,
}

-- `x & (1 << i) != 0`
pub test_bit : ℕ → ℕ → Bool
test_bit x i = (x / 2 ^ i) % 2 == 1

-- `for i in from..from + n { push(x & (1 << i) != 0) }`
unfoldable pub push_bits : ℕ → ℕ → ℕ → List Bool
unfolding test_bit
push_bits x from zero = []
push_bits x from (suc n) = test_bit x from ∷ push_bits x (from + 1) n

-- `for (i, bit) in bits.enumerate() { if bit { acc |= 1 << i } }`, from position `i`
pub value_from : ℕ → List Bool → ℕ
value_from i [] = 0
value_from i (b ∷ bits) = (if b then 2 ^ i else 0) + value_from (i + 1) bits

-- the value of the bits read in reverse, `bits.iter().rev().enumerate()`
unfoldable pub value_reversed : List Bool → ℕ
unfolding value_from
value_reversed bits = value_from 0 (reverse bits)

-- The bytes of whole chunks of eight bits; what is left over is no byte.
chunks8 : ℕ → List Bool → List (List Bool)
chunks8 zero bits = []
chunks8 (suc n) bits = take 8 bits ∷ chunks8 n (drop 8 bits)

pub bytes_of : List (List Bool) → List ℕ
unfolding value_reversed
bytes_of [] = []
bytes_of (c ∷ cs) = value_reversed c ∷ bytes_of cs

-- `BitConvert::into_bytes_ordered`; `none` is the failed assertion on the length
unfoldable pub into_bytes_ordered : List Bool → Option (List ℕ)
unfolding chunks8 bytes_of
into_bytes_ordered bits =
    if length bits % 8 == 0 then some (bytes_of (chunks8 (length bits / 8) bits)) else none

-- the eight rounds on `temp`, a `u8`: test the top bit, shift left
pub byte_bits : ℕ → ℕ → List Bool
byte_bits zero temp = []
byte_bits (suc n) temp = leb 128 temp ∷ byte_bits n (temp * 2 % 256)

-- `BitConvert::from_be_bytes`
unfoldable pub from_be_bytes : List ℕ → List Bool
unfolding byte_bits
from_be_bytes [] = []
from_be_bytes (byte ∷ bytes) = byte_bits 8 byte ++ from_be_bytes bytes

-- `to_be_bytes` of an integer of `n` bytes
unfoldable pub to_be_bytes : ℕ → ℕ → List ℕ
to_be_bytes zero x = []
to_be_bytes (suc n) x = ((x / 256 ^ n) % 256) ∷ to_be_bytes n x
