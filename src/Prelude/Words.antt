-- ===== src/Prelude/Words.antt =====
-- A usize of 64 bits, in a build without overflow checks.
use Prim.Native.Nat.{ℕ, ◌+◌, ◌-◌, ◌^◌, ◌%◌}
use qs_react_native_zksync.Prelude.Tests.{ltb, if◌then◌else◌}

abbrev pub u64_mod : ℕ
u64_mod = 2 ^ 64

-- `a += b` and `a -= b`
abbrev pub usize_add : ℕ → ℕ → ℕ
usize_add a b = (a + b) % u64_mod

abbrev pub usize_sub : ℕ → ℕ → ℕ
usize_sub a b = if ltb a b then (a + u64_mod - b) % u64_mod else a - b
