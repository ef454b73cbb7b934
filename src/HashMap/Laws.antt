-- ===== src/HashMap/Laws.antt =====
-- What a read returns after each write, and how the number of entries changes.
use qs_react_native_zksync.Prelude.{
  ℕ, ◌+◌, ◌≡◌, refl, none, some, [], ◌∷◌, arith, ◌==◌, if◌then◌else◌,
}
use qs_react_native_zksync.HashMap.{HashMap, get, insert, remove, len}

module _ {ℓ} {V : Type ℓ} where
  pub get-insert :
      (k j : ℕ) (v : V) (m : HashMap V)
      → get j (insert k v m) ≡ (if k == j then some v else get j m)
  unfolding get insert
  get-insert k j v [] = refl
  get-insert k j v ((i, w) ∷ m) = ground (arith, get-insert k j v m)

  pub get-remove :
      (k j : ℕ) (m : HashMap V) → get j (remove k m) ≡ (if k == j then none else get j m)
  unfolding get remove
  get-remove k j [] = ground arith
  get-remove k j ((i, w) ∷ m) = ground (arith, get-remove k j m)

  -- No key is listed twice.
  abbrev pub IsUnique : HashMap V → Type ℓ
  IsUnique [] = Unit
  IsUnique ((k, v) ∷ m) = (get k m ≡ none) × IsUnique m

  pub insert-IsUnique : (k : ℕ) (v : V) (m : HashMap V) → IsUnique m → IsUnique (insert k v m)
  unfolding get insert
  insert-IsUnique k v [] h = (refl, tt)
  insert-IsUnique k v ((i, w) ∷ m) h = ground (arith, insert-IsUnique k v m h.1, get-insert k i v m)

  pub remove-IsUnique : (k : ℕ) (m : HashMap V) → IsUnique m → IsUnique (remove k m)
  unfolding remove
  remove-IsUnique k [] h = tt
  remove-IsUnique k ((i, w) ∷ m) h = ground (arith, remove-IsUnique k m h.1, get-remove k i m)

  pub len-insert_new :
      (k : ℕ) (v : V) (m : HashMap V) → get k m ≡ none → len (insert k v m) ≡ len m + 1
  unfolding get insert
  len-insert_new k v [] h = omega arith
  len-insert_new k v ((i, w) ∷ m) h = ground (arith, len-insert_new k v m)

  pub len-insert_old :
      (k : ℕ) (v : V) {u : V} (m : HashMap V) → get k m ≡ some u → len (insert k v m) ≡ len m
  unfolding get insert
  len-insert_old k v [] h = cc
  len-insert_old k v {u} ((i, w) ∷ m) h = ground (arith, len-insert_old k v {u = u} m)

  pub remove_absent : (k : ℕ) (m : HashMap V) → get k m ≡ none → remove k m ≡ m
  unfolding get remove
  remove_absent k [] h = refl
  remove_absent k ((i, w) ∷ m) h = ground (arith, remove_absent k m)

  pub len-remove :
      (k : ℕ) {u : V} (m : HashMap V) → IsUnique m → get k m ≡ some u → len (remove k m) + 1 ≡ len m
  unfolding get remove
  len-remove k [] h e = cc
  len-remove k {u} ((i, w) ∷ m) h e = ground (arith, len-remove k {u = u} m h.1, remove_absent k m)
