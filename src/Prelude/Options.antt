-- ===== src/Prelude/Options.antt =====
-- Chains of optional values, under Rust's names.
use Prim.Native.Nat.{ℕ}
use qs_react_native_zksync.Prelude.Tests.{◌==◌}
use mathlib.Core.Bool.{Bool, true, false}
use mathlib.Core.Option.{Option, none, some}

abbrev pub and_then {ℓ κ} : {A : Type ℓ} {B : Type κ} → Option A → (A → Option B) → Option B
and_then none f = none
and_then (some a) f = f a

-- `Option::map`, with its argument first
abbrev pub map_some {ℓ κ} : {A : Type ℓ} {B : Type κ} → Option A → (A → B) → Option B
map_some none f = none
map_some (some a) f = some (f a)

abbrev pub is_some {ℓ} : {A : Type ℓ} → Option A → Bool
is_some none = false
is_some (some _) = true

-- `option == Some(x)`
abbrev pub eq_some : Option ℕ → ℕ → Bool
eq_some none x = false
eq_some (some y) x = y == x
