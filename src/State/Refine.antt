-- ===== src/State/Refine.antt =====
-- `apply_account_updates` against the updates of views.
use qs_react_native_zksync.Prelude.{
  ℕ, ◌^◌, ◌≡◌, refl, ap, ◌∙◌, true, false, none, some, [], ◌∷◌, arith, ◌==◌, ◌&&◌, ltb, inl, inr,
  Bool-cases, Option-cases, and_then, Option,
}
use qs_react_native_zksync.HashMap
use qs_react_native_zksync.HashMap.Laws.{IsUnique, insert-IsUnique, remove-IsUnique}
use qs_react_native_zksync.Account.{
  Account, AccountUpdate, AccountUpdates, create, delete, update_balance, change_pub_key_hash,
  default_account, get_balance, set_balance,
}
use qs_react_native_zksync.Account.View.{view_account, view-set_balance, AccountView, at_nonce}
use qs_react_native_zksync.State.Defs.{
  ZkSyncState, Result, ok, err, panic, ◌>>◌, get_account, get_account_by_address, insert_account,
  remove_account,
}
use qs_react_native_zksync.State.Updates.{apply_account_update, apply_account_updates, with_nonce}
use qs_react_native_zksync.State.View.{
  StateView, view, store, new_account, fits, update_view, outcome, removed, view-inserted,
  view-removed, drop_account,
}

insert_account-refines :
    (id : ℕ) (a : Account) (s : ZkSyncState)
    → outcome (insert_account id a s) ≡ fits id (view s) (some (store id (view_account a) (view s)))
unfolding insert_account
insert_account-refines id a s = elim (Bool-cases (ltb id (2 ^ s.balance_tree.tree_depth))) [
  | inl h ↦ rw h (ap some (view-inserted id a s))
  | inr h ↦ rw h
]

-- The view of `Account::default()` under an address.
default-view :
    (address nonce : ℕ)
    → view_account (record default_account { address = address; nonce = nonce })
      ≡ new_account address nonce
unfolding get_balance HashMap.get
default-view address nonce = refl

outcome_panic {ℓ} : {A : Type ℓ} (p : Result A × ZkSyncState) → p.0 ≡ panic → outcome p ≡ none
outcome_panic (ok a, s) h = cc
outcome_panic (err e, s) h = cc
outcome_panic (panic, s) h = refl

module _ (id : ℕ) (s : ZkSyncState) where
  create_runs :
      (address nonce : ℕ)
      → HashMap.get address s.account_id_by_address ≡ none
      → apply_account_update id (create address nonce) s
        ≡ insert_account id (record default_account { address = address; nonce = nonce }) s
  unfolding apply_account_update get_account_by_address
  create_runs address nonce e = ground arith

  create_stops :
      (address nonce j : ℕ)
      → HashMap.get address s.account_id_by_address ≡ some j
      → (apply_account_update id (create address nonce) s).0 ≡ panic
  unfolding apply_account_update get_account_by_address
  create_stops address nonce j e = ground arith

  update_runs :
      (old_nonce new_nonce token old_balance new_balance : ℕ) (a : Account)
      → get_account id s ≡ some a
      → (get_balance token a == old_balance && a.nonce == old_nonce) ≡ true
      → apply_account_update id (update_balance old_nonce new_nonce token old_balance new_balance) s
        ≡ insert_account id (with_nonce new_nonce (set_balance token new_balance a)) s
  unfolding apply_account_update
  update_runs old_nonce new_nonce token old_balance new_balance a e h = ground arith

  update_stops :
      (old_nonce new_nonce token old_balance new_balance : ℕ) (a : Account)
      → get_account id s ≡ some a
      → (get_balance token a == old_balance && a.nonce == old_nonce) ≡ false
      → (apply_account_update id
          (update_balance old_nonce new_nonce token old_balance new_balance)
          s).0
        ≡ panic
  unfolding apply_account_update
  update_stops old_nonce new_nonce token old_balance new_balance a e h = ground arith

  change_runs :
      (old_hash new_hash old_nonce new_nonce : ℕ) (a : Account)
      → get_account id s ≡ some a
      → (a.pub_key_hash == old_hash && a.nonce == old_nonce) ≡ true
      → apply_account_update id (change_pub_key_hash old_hash new_hash old_nonce new_nonce) s
        ≡ insert_account id (record a { pub_key_hash = new_hash; nonce = new_nonce }) s
  unfolding apply_account_update
  change_runs old_hash new_hash old_nonce new_nonce a e h = ground arith

  change_stops :
      (old_hash new_hash old_nonce new_nonce : ℕ) (a : Account)
      → get_account id s ≡ some a
      → (a.pub_key_hash == old_hash && a.nonce == old_nonce) ≡ false
      → (apply_account_update id (change_pub_key_hash old_hash new_hash old_nonce new_nonce) s).0
        ≡ panic
  unfolding apply_account_update
  change_stops old_hash new_hash old_nonce new_nonce a e h = ground arith

  delete_runs :
      (address nonce : ℕ) (a : Account)
      → get_account id s ≡ some a
      → (a.address == address && a.nonce == nonce) ≡ true
      → apply_account_update id (delete address nonce) s ≡ (ok tt, removed id a s)
  unfolding apply_account_update remove_account
  delete_runs address nonce a e h = ground arith

  delete_stops :
      (address nonce : ℕ) (a : Account)
      → get_account id s ≡ some a
      → (a.address == address && a.nonce == nonce) ≡ false
      → (apply_account_update id (delete address nonce) s).0 ≡ panic
  unfolding apply_account_update
  delete_stops address nonce a e h = ground arith

  delete_absent :
      (address nonce : ℕ)
      → get_account id s ≡ none
      → (apply_account_update id (delete address nonce) s).0 ≡ panic
  unfolding apply_account_update
  delete_absent address nonce e = ground arith

  update_absent :
      (old_nonce new_nonce token old_balance new_balance : ℕ)
      → get_account id s ≡ none
      → (apply_account_update id
          (update_balance old_nonce new_nonce token old_balance new_balance)
          s).0
        ≡ panic
  unfolding apply_account_update
  update_absent old_nonce new_nonce token old_balance new_balance e = ground arith

  change_absent :
      (old_hash new_hash old_nonce new_nonce : ℕ)
      → get_account id s ≡ none
      → (apply_account_update id (change_pub_key_hash old_hash new_hash old_nonce new_nonce) s).0
        ≡ panic
  unfolding apply_account_update
  change_absent old_hash new_hash old_nonce new_nonce e = ground arith

-- A changed account of the state is stored as its view.
module _ (id : ℕ) (s : ZkSyncState) where
  stores :
      (a : Account) (w : AccountView)
      → view_account a ≡ w
      → outcome (insert_account id a s) ≡ fits id (view s) (some (store id w (view s)))
  stores a w e =
      insert_account-refines id a s ∙ ap (λ v. fits id (view s) (some (store id v (view s)))) e

==-and-left : (a b c d : ℕ) → (a == b && c == d) ≡ true → a ≡ b
==-and-left a b c d h = ground arith

pub apply_account_update-refines :
    (id : ℕ) (u : AccountUpdate) (s : ZkSyncState)
    → IsUnique s.balance_tree.items
    → outcome (apply_account_update id u s) ≡ update_view id u (view s)
unfolding update_view get_balance
apply_account_update-refines id (create address nonce) s unique =
    elim (Option-cases (HashMap.get address s.account_id_by_address)) [
      | inl e ↦ rw (create_runs id s address nonce e) (
          rw e (
            insert_account-refines id _ s
            ∙ ap (λ w. fits id (view s) (some (store id w (view s)))) (default-view address nonce)))
      | inr (j, e) ↦ rw e (outcome_panic _ (create_stops id s address nonce j e))
    ]
apply_account_update-refines id (delete address nonce) s unique =
    elim (Option-cases (get_account id s)) [
      | inl e ↦ rw e (outcome_panic _ (delete_absent id s address nonce e))
      | inr (a, e) ↦ rw e (elim (Bool-cases (a.address == address && a.nonce == nonce)) [
        | inl h ↦ rw h (
            rw (delete_runs id s address nonce a e h) (
              ap some (
                view-removed id a s unique e
                ∙ ap (λ n. drop_account id n (view s))
                    (==-and-left a.address address a.nonce nonce h))))
        | inr h ↦ rw h (outcome_panic _ (delete_stops id s address nonce a e h))
      ])
    ]
apply_account_update-refines id (update_balance old_nonce new_nonce token old_balance new_balance) s
      unique =
    elim (Option-cases (get_account id s)) [
      | inl e ↦
          rw e (
            outcome_panic _
              (update_absent id s old_nonce new_nonce token old_balance new_balance e))
      | inr (a, e) ↦
          rw e (elim (Bool-cases (get_balance token a == old_balance && a.nonce == old_nonce)) [
            | inl h ↦ rw h (
                rw (update_runs id s old_nonce new_nonce token old_balance new_balance a e h) (
                  rw e at (
                    stores id s _ _
                      (ap (at_nonce new_nonce) (view-set_balance token new_balance a)))))
            | inr h ↦ rw h (
                outcome_panic _
                  (update_stops id s old_nonce new_nonce token old_balance new_balance a e h))
          ])
    ]
apply_account_update-refines id (change_pub_key_hash old_hash new_hash old_nonce new_nonce) s
      unique =
    elim (Option-cases (get_account id s)) [
      | inl e ↦ rw e (outcome_panic _ (change_absent id s old_hash new_hash old_nonce new_nonce e))
      | inr (a, e) ↦ rw e (elim (Bool-cases (a.pub_key_hash == old_hash && a.nonce == old_nonce)) [
        | inl h ↦ rw h (
            rw (change_runs id s old_hash new_hash old_nonce new_nonce a e h) (
              rw e at
                (stores id s (record a { pub_key_hash = new_hash; nonce = new_nonce }) _ refl)))
        | inr h ↦
            rw h (outcome_panic _ (change_stops id s old_hash new_hash old_nonce new_nonce a e h))
      ])
    ]

-- The update keeps the ids unique.
pub apply_account_update-IsUnique :
    (id : ℕ) (u : AccountUpdate) (s : ZkSyncState)
    → IsUnique s.balance_tree.items
    → IsUnique (apply_account_update id u s).1.balance_tree.items
unfolding apply_account_update insert_account get_account_by_address remove_account
apply_account_update-IsUnique id (create address nonce) s unique = ground (
  arith,
  insert-IsUnique id (record default_account { address = address; nonce = nonce })
      s.balance_tree.items unique,
)
apply_account_update-IsUnique id (delete address nonce) s unique =
    ground (arith, remove-IsUnique id s.balance_tree.items unique)
apply_account_update-IsUnique id (update_balance old_nonce new_nonce token old_balance new_balance)
      s unique =
    elim (Option-cases (get_account id s)) [
      | inl e ↦ ground arith
      | inr (a, e) ↦ ground (
        arith,
        insert-IsUnique id (with_nonce new_nonce (set_balance token new_balance a))
            s.balance_tree.items unique,
      )
    ]
apply_account_update-IsUnique id (change_pub_key_hash old_hash new_hash old_nonce new_nonce) s
      unique =
    elim (Option-cases (get_account id s)) [
      | inl e ↦ ground arith
      | inr (a, e) ↦ ground (
        arith,
        insert-IsUnique id (record a { pub_key_hash = new_hash; nonce = new_nonce })
            s.balance_tree.items unique,
      )
    ]

abbrev pub update_views : AccountUpdates → StateView → Option StateView
update_views [] v = some v
update_views ((id, u) ∷ us) v = and_then (update_view id u v) (update_views us)

-- Where no account id is stored twice, what the updates do to a state is determined by its view, and
-- they panic exactly where the updates of views are undefined: an address that is taken, an account
-- that is missing, an old value that differs, an index beyond the tree.
pub apply_account_updates-refines :
    (us : AccountUpdates) (s : ZkSyncState)
    → IsUnique s.balance_tree.items
    → outcome (apply_account_updates us s) ≡ update_views us (view s)
unfolding apply_account_updates
apply_account_updates-refines [] s unique = refl
apply_account_updates-refines ((id, u) ∷ us) s unique =
    go (apply_account_updates-refines us) (apply_account_update id u s)
      (apply_account_update-refines id u s unique) (apply_account_update-IsUnique id u s unique)
  where
    go :
        ((t : ZkSyncState)
          → IsUnique t.balance_tree.items
          → outcome (apply_account_updates us t) ≡ update_views us (view t))
        → (p : Result (Unit {0}) × ZkSyncState) → outcome p ≡ update_view id u (view s)
        → IsUnique p.1.balance_tree.items
        → outcome {A = Unit {0}} (elim p.0 [
          | ok a ↦ apply_account_updates us p.1
          | err e ↦ (err e, p.1)
          | panic ↦ (panic, p.1)
        ])
          ≡ and_then (update_view id u (view s)) (update_views us)
    go later (ok a, t) e q = rw (← e) (later t q)
    go later (err x, t) e q = rw (← e)
    go later (panic, t) e q = rw (← e)

pub apply_account_updates-IsUnique :
    (us : AccountUpdates) (s : ZkSyncState)
    → IsUnique s.balance_tree.items
    → IsUnique (apply_account_updates us s).1.balance_tree.items
unfolding apply_account_updates
apply_account_updates-IsUnique [] s unique = unique
apply_account_updates-IsUnique ((id, u) ∷ us) s unique =
    go (apply_account_updates-IsUnique us) (apply_account_update id u s)
      (apply_account_update-IsUnique id u s unique)
  where
    go :
        ((t : ZkSyncState)
          → IsUnique t.balance_tree.items
          → IsUnique (apply_account_updates us t).1.balance_tree.items)
        → (p : Result (Unit {0}) × ZkSyncState) → IsUnique p.1.balance_tree.items
        → IsUnique (((λ (t : ZkSyncState). p) >> apply_account_updates us) p.1).1.balance_tree.items
    go later (ok a, t) q = later t q
    go later (err x, t) q = q
    go later (panic, t) q = q
