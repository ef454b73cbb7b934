-- ===== src/State/View.antt =====
-- What a state shows: a function from ids to account views, the ids by address, and the number of
-- accounts; and the updates of `apply_account_updates`, given on views.
use qs_react_native_zksync.Prelude.{
  ℕ, ◌+◌, ◌-◌, ◌^◌, ◌≡◌, refl, Option, none, some, arith, ◌==◌, ◌&&◌, ltb, if◌then◌else◌, and_then,
  map_some, is_some, inl, inr, Bool-cases, Option-cases,
}
use qs_react_native_zksync.HashMap
use qs_react_native_zksync.HashMap.Laws.{
  IsUnique, get-insert, get-remove, len-insert_new, len-insert_old, len-remove,
}
use qs_react_native_zksync.Account.{
  Account, AccountUpdate, create, delete, update_balance, change_pub_key_hash,
}
use qs_react_native_zksync.Account.View.{AccountView, view_account, with_balance, at_nonce, put}
use qs_react_native_zksync.State.Defs.{ZkSyncState, Result, ok, err, panic, inserted, get_account}

pub record StateView : Type 0 where
  pub accounts : ℕ → Option AccountView
  pub ids : ℕ → Option ℕ
  pub size : ℕ
  pub depth : ℕ
  pub block_number : ℕ

abbrev pub view : ZkSyncState → StateView
view s = record {
  accounts = λ id. map_some (HashMap.get id s.balance_tree.items) view_account;
  ids = λ address. HashMap.get address s.account_id_by_address;
  size = HashMap.len s.balance_tree.items;
  depth = s.balance_tree.tree_depth;
  block_number = s.block_number;
}

abbrev pub store : ℕ → AccountView → StateView → StateView
store id a v = record v {
  accounts = put v.accounts id (some a);
  ids = put v.ids a.address (some id);
  size = if is_some (v.accounts id) then v.size else v.size + 1;
}

abbrev pub drop_account : ℕ → ℕ → StateView → StateView
drop_account id address v = record v {
  accounts = put v.accounts id none;
  ids = put v.ids address none;
  size = v.size - 1;
}

abbrev pub new_account : ℕ → ℕ → AccountView
new_account address nonce = record {
  pub_key_hash = 0;
  address = address;
  nonce = nonce;
  balance = λ t. 0;
}

-- `none` where the code panics.
abbrev pub fits : ℕ → StateView → Option StateView → Option StateView
fits id v r = if ltb id (2 ^ v.depth) then r else none

unfoldable pub update_view : ℕ → AccountUpdate → StateView → Option StateView
update_view id (create address nonce) v =
    if is_some (v.ids address)
    then none
    else fits id v (some (store id (new_account address nonce) v))
update_view id (delete address nonce) v =
    and_then (v.accounts id) λ a.
      if a.address == address && a.nonce == nonce then some (drop_account id address v) else none
update_view id (update_balance old_nonce new_nonce token old_balance new_balance) v =
    and_then (v.accounts id) λ a.
      if a.balance token == old_balance && a.nonce == old_nonce
      then fits id v (some (store id (at_nonce new_nonce (with_balance token new_balance a)) v))
      else none
update_view id (change_pub_key_hash old_hash new_hash old_nonce new_nonce) v =
    and_then (v.accounts id) λ a.
      if a.pub_key_hash == old_hash && a.nonce == old_nonce
      then fits id v (some (store id (record a { pub_key_hash = new_hash; nonce = new_nonce }) v))
      else none

map_some-put :
    (f : ℕ → Option Account) (id : ℕ) (a : Account) (j : ℕ) (o : Option Account)
    → o ≡ (if id == j then some a else f j)
    → map_some o view_account ≡ put (λ k. map_some (f k) view_account) id (some (view_account a)) j
map_some-put f id a j o e = rw e (elim (Bool-cases (id == j)) [ inl h ↦ rw h | inr h ↦ rw h ])

is_some-map_some : (o : Option Account) → is_some (map_some o view_account) ≡ is_some o
is_some-map_some none = refl
is_some-map_some (some a) = refl

size_inserted :
    (id : ℕ) (a : Account) (m : HashMap.HashMap Account)
    → HashMap.len (HashMap.insert id a m) ≡ (
        if is_some (map_some (HashMap.get id m) view_account)
        then HashMap.len m
        else HashMap.len m + 1)
size_inserted id a m = elim (Option-cases (HashMap.get id m)) [
  | inl e ↦ rw e (len-insert_new id a m e)
  | inr (b, e) ↦ rw e (len-insert_old id a {u = b} m e)
]

-- Storing an account is `store` on the view.
pub view-inserted :
    (id : ℕ) (a : Account) (s : ZkSyncState)
    → view (inserted id a s) ≡ store id (view_account a) (view s)
view-inserted id a s = λ i. record {
  accounts = λ j.
      map_some-put (λ k. HashMap.get k s.balance_tree.items) id a j _
        (get-insert id j a s.balance_tree.items) i;
  ids = λ j. get-insert a.address j id s.account_id_by_address i;
  size = size_inserted id a s.balance_tree.items i;
  depth = s.balance_tree.tree_depth;
  block_number = s.block_number;
}

map_some-remove :
    (f : ℕ → Option Account) (id : ℕ) (j : ℕ) (o : Option Account)
    → o ≡ (if id == j then none else f j)
    → map_some o view_account ≡ put (λ k. map_some (f k) view_account) id none j
map_some-remove f id j o e = rw e (elim (Bool-cases (id == j)) [ inl h ↦ rw h | inr h ↦ rw h ])

-- the state without the account `a` at `id`
abbrev pub removed : ℕ → Account → ZkSyncState → ZkSyncState
removed id a s = record s {
  balance_tree = record s.balance_tree { items = HashMap.remove id s.balance_tree.items };
  account_id_by_address = HashMap.remove a.address s.account_id_by_address;
}

pub view-removed :
    (id : ℕ) (a : Account) (s : ZkSyncState)
    → IsUnique s.balance_tree.items
    → get_account id s ≡ some a
    → view (removed id a s) ≡ drop_account id a.address (view s)
view-removed id a s unique e = λ i. record {
  accounts = λ j.
      map_some-remove (λ k. HashMap.get k s.balance_tree.items) id j _
        (get-remove id j s.balance_tree.items) i;
  ids = λ j. get-remove a.address j s.account_id_by_address i;
  size = shorter i;
  depth = s.balance_tree.tree_depth;
  block_number = s.block_number;
}
  where
    shorter :
        HashMap.len (HashMap.remove id s.balance_tree.items) ≡ HashMap.len s.balance_tree.items - 1
    shorter = omega (arith, len-remove id {u = a} s.balance_tree.items unique e)

-- The view that an action leaves; `none` if it did not return.
abbrev pub outcome {ℓ} : {A : Type ℓ} → Result A × ZkSyncState → Option StateView
outcome (ok a, s) = some (view s)
outcome (err e, s) = none
outcome (panic, s) = none
