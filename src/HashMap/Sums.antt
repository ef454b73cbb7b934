-- ===== src/HashMap/Sums.antt =====
-- The sum of a measure over the values of a map.
use qs_react_native_zksync.Prelude.{ℕ, ◌+◌, ◌≡◌, none, some, [], ◌∷◌, arith}
use qs_react_native_zksync.HashMap.{HashMap, get, insert}

module _ {ℓ} {V : Type ℓ} where
  abbrev pub sum_by : (V → ℕ) → HashMap V → ℕ
  sum_by f [] = 0
  sum_by f ((k, v) ∷ m) = f v + sum_by f m

  pub sum_by-insert_new :
      (f : V → ℕ) (k : ℕ) (v : V) (m : HashMap V)
      → get k m ≡ none
      → sum_by f (insert k v m) ≡ sum_by f m + f v
  unfolding get insert
  sum_by-insert_new f k v [] h = omega arith
  sum_by-insert_new f k v ((i, w) ∷ m) h = ground (arith, sum_by-insert_new f k v m)

  pub sum_by-insert_old :
      (f : V → ℕ) (k : ℕ) (v : V) (u : V) (m : HashMap V)
      → get k m ≡ some u
      → sum_by f (insert k v m) + f u ≡ sum_by f m + f v
  unfolding get insert
  sum_by-insert_old f k v u [] h = cc
  sum_by-insert_old f k v u ((i, w) ∷ m) h = ground (arith, sum_by-insert_old f k v u m)
