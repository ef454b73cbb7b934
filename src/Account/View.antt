-- ===== src/Account/View.antt =====
-- What an account shows: a balance that is absent reads as zero, so the map is forgotten but for
-- what it returns. Two accounts with one view have the same leaf in the account tree.
use qs_react_native_zksync.Prelude.{
  ℕ, ◌≡◌, fun_ext, arith, ◌==◌, if◌then◌else◌, inl, inr, ==_refl, ==→eq, Bool-cases,
}
use qs_react_native_zksync.HashMap.Laws.{get-insert, get-remove}
use qs_react_native_zksync.Account.{Account, get_balance, set_balance, replace_balance}

-- A function changed at one point.
abbrev pub put {ℓ} : {A : Type ℓ} → (ℕ → A) → ℕ → A → ℕ → A
put f k v j = if k == j then v else f j

module _ {ℓ} {A : Type ℓ} (f : ℕ → A) (k : ℕ) where
  pub put_self : (v : A) → put f k v k ≡ v
  put_self v = rw (==_refl k)

  pub put-put_self : (v w : A) → put (put f k v) k w ≡ put f k w
  put-put_self v w = fun_ext λ j. ground arith

  pub put_restore : (v : A) → f k ≡ v → put f k v ≡ f
  put_restore v h =
      fun_ext
        λ j. elim (Bool-cases (k == j)) [ inl e ↦ rw e (rw (← ==→eq k j e) (rw h)) | inr e ↦ rw e ]

pub record AccountView : Type 0 where
  pub pub_key_hash : ℕ
  pub address : ℕ
  pub nonce : ℕ
  pub balance : ℕ → ℕ

abbrev pub view_account : Account → AccountView
view_account a = record {
  pub_key_hash = a.pub_key_hash;
  address = a.address;
  nonce = a.nonce;
  balance = λ t. get_balance t a;
}

abbrev pub with_balance : ℕ → ℕ → AccountView → AccountView
with_balance t x v = record v { balance = put v.balance t x }

abbrev pub at_nonce : ℕ → AccountView → AccountView
at_nonce n v = record v { nonce = n }

get_balance-set_balance :
    (t u x : ℕ) (a : Account) → get_balance u (set_balance t x a) ≡ put (λ w. get_balance w a) t x u
unfolding get_balance set_balance
get_balance-set_balance t u x a = ground (arith, get-insert t u x a.balances)

pub get_balance-replace_balance :
    (t u x : ℕ) (a : Account)
    → get_balance u (replace_balance t x a) ≡ put (λ w. get_balance w a) t x u
unfolding get_balance replace_balance
get_balance-replace_balance t u x a =
    rw get-insert
      (elim (Bool-cases (t == u)) [ inl e ↦ rw e | inr e ↦ rw (e, get-remove t u a.balances, e) ])

pub get_balance-replace_self : (t x : ℕ) (a : Account) → get_balance t (replace_balance t x a) ≡ x
get_balance-replace_self t x a =
    rw get_balance-replace_balance (put_self (λ w. get_balance w a) t x)

pub view-set_balance :
    (t x : ℕ) (a : Account) → view_account (set_balance t x a) ≡ with_balance t x (view_account a)
unfolding set_balance
view-set_balance t x a = λ i. record {
  pub_key_hash = a.pub_key_hash;
  address = a.address;
  nonce = a.nonce;
  balance = λ u. get_balance-set_balance t u x a i;
}

pub view-replace_balance :
    (t x : ℕ) (a : Account)
    → view_account (replace_balance t x a) ≡ with_balance t x (view_account a)
unfolding replace_balance
view-replace_balance t x a = λ i. record {
  pub_key_hash = a.pub_key_hash;
  address = a.address;
  nonce = a.nonce;
  balance = λ u. get_balance-replace_balance t u x a i;
}
