-- ===== src/State/Steps.antt =====
-- The updates that the handlers report, one at a time, against the stored accounts.
use qs_react_native_zksync.Prelude.{
  ℕ, ◌^◌, ◌≡◌, ◌≢◌, ◌<◌, refl, ap, ◌∙◌, sym, none, some, arith, ==_refl, ne→==,
}
use qs_react_native_zksync.HashMap
use qs_react_native_zksync.HashMap.Laws.{get-insert}
use qs_react_native_zksync.Account.{
  Account, default_account, create, update_balance, change_pub_key_hash, get_balance,
  replace_balance,
}
use qs_react_native_zksync.Account.View.{
  AccountView, view_account, view-replace_balance, get_balance-replace_self, at_nonce, with_balance,
  put, put_self, put-put_self,
}
use qs_react_native_zksync.State.Defs.{ZkSyncState, get_account, inserted}
use qs_react_native_zksync.State.Updates.{with_nonce}
use qs_react_native_zksync.State.View.{
  StateView, view, view-inserted, store, new_account, update_view,
}

-- Reads after a write.
pub get_account_here :
    (id : ℕ) (a : Account) (s : ZkSyncState) → get_account id (inserted id a s) ≡ some a
get_account_here id a s = get-insert id id a s.balance_tree.items ∙ rw (==_refl id)

pub get_account_there :
    (id j : ℕ) (a : Account) (s : ZkSyncState)
    → id ≢ j
    → get_account j (inserted id a s) ≡ get_account j s
get_account_there id j a s ne = get-insert id j a s.balance_tree.items ∙ rw (ne→== id j ne)

view_runs :
    (id m n t x y : ℕ) (v : StateView) {a : AccountView}
    → v.accounts id ≡ some a
    → a.balance t ≡ x
    → a.nonce ≡ m
    → id < 2 ^ v.depth
    → update_view id (update_balance m n t x y) v
      ≡ some (store id (at_nonce n (with_balance t y a)) v)
unfolding update_view
view_runs id m n t x y v e b k d = ground arith

-- The account with another balance of one token, and another nonce.
abbrev pub rebalanced : ℕ → ℕ → ℕ → Account → Account
rebalanced t x n a = with_nonce n (replace_balance t x a)

pub address-rebalanced : (t x n : ℕ) (a : Account) → (rebalanced t x n a).address ≡ a.address
unfolding replace_balance
address-rebalanced t x n a = refl

pub pub_key_hash-rebalanced :
    (t x n : ℕ) (a : Account) → (rebalanced t x n a).pub_key_hash ≡ a.pub_key_hash
unfolding replace_balance
pub_key_hash-rebalanced t x n a = refl

pub view-rebalanced :
    (t x n : ℕ) (a : Account)
    → view_account (rebalanced t x n a) ≡ at_nonce n (with_balance t x (view_account a))
unfolding get_balance
view-rebalanced t x n a = ap (at_nonce n) (view-replace_balance t x a)

pub get_balance-rebalanced : (t x n : ℕ) (a : Account) → get_balance t (rebalanced t x n a) ≡ x
get_balance-rebalanced t x n a = unfold get_balance in get_balance-replace_self t x a

-- A reported balance update leads to the state with the account stored.
pub balance_step :
    (id t x n : ℕ) (a : Account) (s : ZkSyncState)
    → get_account id s ≡ some a
    → id < 2 ^ s.balance_tree.tree_depth
    → update_view id
        (update_balance a.nonce n t (get_balance t a) (get_balance t (rebalanced t x n a)))
        (view s)
      ≡ some (view (inserted id (rebalanced t x n a) s))
balance_step id t x n a s e d = rw (get_balance-rebalanced t x n a) (
    view_runs id a.nonce n t (get_balance t a) x (view s) {a = view_account a} (rw e) refl refl d
    ∙ ap some (
        ap (λ w. store id w (view s)) (sym (view-rebalanced t x n a))
        ∙ sym (view-inserted id (rebalanced t x n a) s)))

create_runs :
    (id address : ℕ) (v : StateView)
    → v.accounts id ≡ none
    → v.ids address ≡ none
    → id < 2 ^ v.depth
    → update_view id (create address 0) v ≡ some (store id (new_account address 0) v)
unfolding update_view
create_runs id address v e f d = ground arith

abbrev pub fresh_account : ℕ → Account
fresh_account address = record default_account { address = address }

view-fresh_account : (address : ℕ) → view_account (fresh_account address) ≡ new_account address 0
unfolding get_balance HashMap.get
view-fresh_account address = refl

-- A reported creation leads to the state with the new account.
pub create_step :
    (id address : ℕ) (s : ZkSyncState)
    → get_account id s ≡ none
    → HashMap.get address s.account_id_by_address ≡ none
    → id < 2 ^ s.balance_tree.tree_depth
    → update_view id (create address 0) (view s)
      ≡ some (view (inserted id (fresh_account address) s))
create_step id address s e f d =
    create_runs id address (view s) (rw e) f d
    ∙ ap some (
        ap (λ w. store id w (view s)) (sym (view-fresh_account address))
        ∙ sym (view-inserted id (fresh_account address) s))

key_runs :
    (id m n x y : ℕ) (v : StateView) {a : AccountView}
    → v.accounts id ≡ some a
    → a.pub_key_hash ≡ x
    → a.nonce ≡ m
    → id < 2 ^ v.depth
    → update_view id (change_pub_key_hash x y m n) v
      ≡ some (store id (record a { pub_key_hash = y; nonce = n }) v)
unfolding update_view
key_runs id m n x y v e b k d = ground arith

abbrev pub rekeyed : ℕ → ℕ → Account → Account
rekeyed key n a = record a { pub_key_hash = key; nonce = n }

-- A reported change of the key leads to the state with the account stored.
pub key_step :
    (id key n : ℕ) (a : Account) (s : ZkSyncState)
    → get_account id s ≡ some a
    → id < 2 ^ s.balance_tree.tree_depth
    → update_view id (change_pub_key_hash a.pub_key_hash key a.nonce n) (view s)
      ≡ some (view (inserted id (rekeyed key n a) s))
unfolding get_balance
key_step id key n a s e d =
    key_runs id a.nonce n a.pub_key_hash key (view s) {a = view_account a} (rw e) refl refl d
    ∙ ap some (sym (view-inserted id (rekeyed key n a) s))

-- The second of two accounts stored under one id and address is the one that counts.
pub view-inserted_twice :
    (id : ℕ) (a b : Account) (s : ZkSyncState)
    → a.address ≡ b.address
    → view (inserted id b (inserted id a s)) ≡ view (inserted id b s)
view-inserted_twice id a b s same =
    view-inserted id b (inserted id a s)
    ∙ ap (store id (view_account b)) (view-inserted id a s)
    ∙ twice
    ∙ sym (view-inserted id b s)
  where
    sizes :
        (store id (view_account b) (store id (view_account a) (view s))).size
        ≡ (store id (view_account b) (view s)).size
    sizes = rw (put_self (view s).accounts id (some (view_account a)))

    twice :
        store id (view_account b) (store id (view_account a) (view s))
        ≡ store id (view_account b) (view s)
    twice = λ k. record {
      accounts =
          put-put_self (view s).accounts id (some (view_account a)) (some (view_account b)) k;
      ids = index k;
      size = sizes k;
      depth = (view s).depth;
      block_number = (view s).block_number;
    }
      where
        index :
            put (put (view s).ids a.address (some id)) b.address (some id)
            ≡ put (view s).ids b.address (some id)
        index = rw same (put-put_self (view s).ids b.address (some id) (some id))
