-- ===== src/State/Supply.antt =====
-- How much of a token all accounts hold together, and how one stored account changes it.
use qs_react_native_zksync.Prelude.{
  ℕ, ◌+◌, ◌-◌, ◌≡◌, ◌≤◌, refl, ap, arith, none, some, ◌==◌, if◌then◌else◌, inl, inr, eq_cases,
}
use qs_react_native_zksync.HashMap
use qs_react_native_zksync.HashMap.Sums.{sum_by, sum_by-insert_new, sum_by-insert_old}
use qs_react_native_zksync.Account.{Account, get_balance}
use qs_react_native_zksync.Account.View.{AccountView}
use qs_react_native_zksync.State.Defs.{ZkSyncState, get_account, inserted}
use qs_react_native_zksync.State.Steps.{rebalanced, rekeyed, view-rebalanced, fresh_account}
use qs_react_native_zksync.State.Inversion.Transfers.{next, payer, payee}

-- The sum of a token over all accounts.
abbrev pub supply : ℕ → ZkSyncState → ℕ
supply token s = sum_by (get_balance token) s.balance_tree.items

-- An amount of one token, counted for another.
abbrev pub counted : ℕ → ℕ → ℕ → ℕ
counted token amount t = if token == t then amount else 0

get_balance-rebalanced_any :
    (token x n t : ℕ) (a : Account)
    → get_balance t (rebalanced token x n a) ≡ (if token == t then x else get_balance t a)
get_balance-rebalanced_any token x n t a =
    ap (λ (w : AccountView). w.balance t) (view-rebalanced token x n a)

module _ (id token t : ℕ) (a : Account) (s : ZkSyncState) where
  pub supply-rebalanced :
      (x n : ℕ)
      → get_account id s ≡ some a
      → supply t (inserted id (rebalanced token x n a) s) + counted token (get_balance token a) t
        ≡ supply t s + counted token x t
  supply-rebalanced x n e = elim (eq_cases token t) [
    | inl same ↦ ground (
      arith,
      same,
      sum_by-insert_old (get_balance t) id (rebalanced token x n a) a s.balance_tree.items e,
      get_balance-rebalanced_any token x n t a,
      ap (λ k. get_balance k a) same,
    )
    | inr differ ↦ ground (
      arith,
      differ,
      sum_by-insert_old (get_balance t) id (rebalanced token x n a) a s.balance_tree.items e,
      get_balance-rebalanced_any token x n t a,
    )
  ]

  pub supply-payer :
      (cost : ℕ)
      → get_account id s ≡ some a
      → cost ≤ get_balance token a
      → supply t (inserted id (payer token cost a) s) + counted token cost t ≡ supply t s
  supply-payer cost e d =
      ground (arith, supply-rebalanced (get_balance token a - cost) (next a.nonce) e)

  -- The same where the key is replaced before.
  pub supply-rekeyed :
      (key n cost : ℕ)
      → get_account id s ≡ some a
      → cost ≤ get_balance token a
      → supply t (inserted id (rebalanced token (get_balance token a - cost) n (rekeyed key n a)) s)
          + counted token cost t
        ≡ supply t s
  unfolding get_balance
  supply-rekeyed key n cost e d =
      let b : Account = rebalanced token (get_balance token a - cost) n (rekeyed key n a) in
      let kept : get_balance t (rekeyed key n a) ≡ get_balance t a = refl in
      let read =
        get_balance-rebalanced_any token (get_balance token a - cost) n t (rekeyed key n a) in
      let sum = sum_by-insert_old (get_balance t) id b a s.balance_tree.items e in
      elim (eq_cases token t) [
        | inl same ↦ ground (arith, same, sum, read, kept, ap (λ k. get_balance k a) same)
        | inr differ ↦ ground (arith, differ, sum, read, kept)
      ]

  pub supply-payee :
      (amount : ℕ)
      → get_account id s ≡ some a
      → supply t (inserted id (payee token amount a) s) ≡ supply t s + counted token amount t
  supply-payee amount e = ground (arith, supply-rebalanced (get_balance token a + amount) a.nonce e)

  pub supply-new :
      (amount address : ℕ)
      → get_account id s ≡ none
      → supply t (inserted id (payee token amount (fresh_account address)) s)
        ≡ supply t s + counted token amount t
  unfolding get_balance HashMap.get
  supply-new amount address e = ground (
    arith,
    sum_by-insert_new (get_balance t) id (payee token amount (fresh_account address))
        s.balance_tree.items e,
    get_balance-rebalanced_any token amount 0 t (fresh_account address),
  )
