-- ===== src/State/Density.antt =====
-- The ids of the accounts: `get_free_account_id` takes the number of accounts as the next one.
use qs_react_native_zksync.Prelude.{subst}
use qs_react_native_zksync.Prelude.{
  ℕ, ◌≡◌, ◌≢◌, ◌<◌, sym, ap, ◌∙◌, arith, none, some, inl, inr, eq_cases, Option-cases,
}
use qs_react_native_zksync.Params.{u32_mod}
use qs_react_native_zksync.HashMap
use qs_react_native_zksync.HashMap.Laws.{len-insert_new, len-insert_old}
use qs_react_native_zksync.Account.{Account}
use qs_react_native_zksync.State.Defs.{ZkSyncState, get_account, get_free_account_id, inserted}
use qs_react_native_zksync.State.Steps.{get_account_here, get_account_there}

-- Every id is below the number of accounts.
abbrev pub IsDense : ZkSyncState → Type 0
IsDense s =
    (id : ℕ) (a : Account) → get_account id s ≡ some a → id < HashMap.len s.balance_tree.items

module _ (s : ZkSyncState) (dense : IsDense s) where
  -- The free id is free.
  pub free_id_free :
      HashMap.len s.balance_tree.items < u32_mod → get_account (get_free_account_id s) s ≡ none
  unfolding get_free_account_id
  free_id_free small = elim (Option-cases (get_account (get_free_account_id s) s)) [
    | inl e ↦ e
    | inr (a, e) ↦ let below = dense (get_free_account_id s) a e in absurd (omega arith)
  ]

  pub inserted_old-IsDense :
      (id : ℕ) (a b : Account) → get_account id s ≡ some a → IsDense (inserted id b s)
  inserted_old-IsDense id a b e j x f =
      let same = len-insert_old id b {u = a} s.balance_tree.items e in
      elim (eq_cases id j) [
        | inl here ↦ let below = dense id a e in omega arith
        | inr there ↦
            let below = dense j x (sym (get_account_there id j b s there) ∙ f) in omega arith
      ]

  pub inserted_new-IsDense :
      (id : ℕ) (b : Account)
      → id ≡ HashMap.len s.balance_tree.items
      → get_account id s ≡ none
      → IsDense (inserted id b s)
  inserted_new-IsDense id b next e j x f =
      let more = len-insert_new id b s.balance_tree.items e in
      elim (eq_cases id j) [
        | inl here ↦ omega arith
        | inr there ↦
            let below = dense j x (sym (get_account_there id j b s there) ∙ f) in omega arith
      ]

-- Two accounts that were there are stored again.
pub inserted_both-IsDense :
    (s s' : ZkSyncState) (id j : ℕ) (a b c d : Account)
    → IsDense s
    → get_account id s ≡ some a
    → get_account j s ≡ some b
    → s' ≡ inserted j d (inserted id c s)
    → IsDense s'
inserted_both-IsDense s s' id j a b c d dense e f left =
    let s1 : ZkSyncState = inserted id c s in
    let first : IsDense s1 = inserted_old-IsDense s dense id a c e in
    subst IsDense (sym left) (elim (eq_cases id j) [
      | inl same ↦
          inserted_old-IsDense s1 first j c d
            (ap (λ k. get_account k s1) (sym same) ∙ get_account_here id c s)
      | inr differ ↦ inserted_old-IsDense s1 first j b d (get_account_there id j c s differ ∙ f)
    ])

-- An account that was there is stored again, then one under the next id.
pub inserted_next-IsDense :
    (s s' : ZkSyncState) (id j : ℕ) (a c d : Account)
    → IsDense s
    → get_account id s ≡ some a
    → get_account j s ≡ none
    → j ≡ HashMap.len s.balance_tree.items
    → s' ≡ inserted j d (inserted id c s)
    → IsDense s'
inserted_next-IsDense s s' id j a c d dense e free next left =
    let differ : id ≢ j = λ same. cc (sym e ∙ ap (λ k. get_account k s) same ∙ free) in
    subst IsDense (sym left) (
      inserted_new-IsDense (inserted id c s) (inserted_old-IsDense s dense id a c e) j d
        (next ∙ sym (len-insert_old id c {u = a} s.balance_tree.items e))
        (get_account_there id j c s differ ∙ free))

-- The free id is the number of accounts, while that fits.
pub free_id_is_len :
    (s : ZkSyncState)
    → HashMap.len s.balance_tree.items < u32_mod
    → get_free_account_id s ≡ HashMap.len s.balance_tree.items
unfolding get_free_account_id
free_id_is_len s small = omega arith
