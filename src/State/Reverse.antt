-- ===== src/State/Reverse.antt =====
-- `reversed_update` and `reverse_updates` on views.

use qs_react_native_zksync.Prelude.{
  ℕ, ◌^◌, ◌≡◌, ◌<◌, refl, sym, ap, ◌∙◌, none, some, arith, inl, inr, Option-cases,
}
use qs_react_native_zksync.Account.{
  AccountUpdate, create, delete, update_balance, change_pub_key_hash, reversed_update,
}
use qs_react_native_zksync.Account.View.{
  AccountView, at_nonce, with_balance, put, put_self, put-put_self, put_restore,
}
use qs_react_native_zksync.State.View.{StateView, store, drop_account, new_account, update_view}

-- The index by address and the accounts agree, and the accounts lie in the tree.
pub record IsConsistent (v : StateView) : Type 0 where
  pub indexed : (id : ℕ) (a : AccountView) → v.accounts id ≡ some a → v.ids a.address ≡ some id
  pub backed :
      (address id : ℕ)
      → v.ids address ≡ some id
      → (a : AccountView) × (v.accounts id ≡ some a) × (a.address ≡ address)
  pub within : (id : ℕ) (a : AccountView) → v.accounts id ≡ some a → id < 2 ^ v.depth

-- An account is created under a free id, and only one that is as it was created is deleted.
abbrev pub IsReversible : ℕ → AccountUpdate → StateView → Type 0
IsReversible id (create address nonce) v = v.accounts id ≡ none
IsReversible id (delete address nonce) v =
    (v.accounts id ≡ some (new_account address nonce)) × (0 < v.size)
IsReversible id (update_balance a b c d e) v = Unit
IsReversible id (change_pub_key_hash a b c d) v = Unit

-- What an update that succeeds has found and done.
pub create_inv :
    (id address nonce : ℕ) (v : StateView) {w : StateView}
    → update_view id (create address nonce) v ≡ some w
    → (v.ids address ≡ none) × (id < 2 ^ v.depth) × (store id (new_account address nonce) v ≡ w)
unfolding update_view
create_inv id address nonce v h = ground arith

pub update_inv :
    (id old_nonce new_nonce token old_balance new_balance : ℕ) (v : StateView) {w : StateView}
    → update_view id (update_balance old_nonce new_nonce token old_balance new_balance) v ≡ some w
    → (a : AccountView) × (v.accounts id ≡ some a)
      × (a.balance token ≡ old_balance)
      × (a.nonce ≡ old_nonce)
      × (store id (at_nonce new_nonce (with_balance token new_balance a)) v ≡ w)
unfolding update_view
update_inv id old_nonce new_nonce token old_balance new_balance v h =
    elim (Option-cases (v.accounts id)) [
      | inl e ↦ absurd (ground arith)
      | inr (a, e) ↦ (a, e, ground arith, ground arith, ground arith)
    ]

pub change_inv :
    (id old_hash new_hash old_nonce new_nonce : ℕ) (v : StateView) {w : StateView}
    → update_view id (change_pub_key_hash old_hash new_hash old_nonce new_nonce) v ≡ some w
    → (a : AccountView) × (v.accounts id ≡ some a)
      × (a.pub_key_hash ≡ old_hash)
      × (a.nonce ≡ old_nonce)
      × (store id (record a { pub_key_hash = new_hash; nonce = new_nonce }) v ≡ w)
unfolding update_view
change_inv id old_hash new_hash old_nonce new_nonce v h = elim (Option-cases (v.accounts id)) [
  | inl e ↦ absurd (ground arith)
  | inr (a, e) ↦ (a, e, ground arith, ground arith, ground arith)
]

pub delete_inv :
    (id address nonce : ℕ) (v : StateView) {w : StateView}
    → update_view id (delete address nonce) v ≡ some w
    → (a : AccountView) × (v.accounts id ≡ some a)
      × (a.address ≡ address)
      × (a.nonce ≡ nonce)
      × (drop_account id address v ≡ w)
unfolding update_view
delete_inv id address nonce v h = elim (Option-cases (v.accounts id)) [
  | inl e ↦ absurd (ground arith)
  | inr (a, e) ↦ (a, e, ground arith, ground arith, ground arith)
]

-- Storing an account over another of the same address and storing the first again restores.
store-store :
    (id : ℕ) (a b : AccountView) (v : StateView)
    → v.accounts id ≡ some a
    → v.ids a.address ≡ some id
    → b.address ≡ a.address
    → store id a (store id b v) ≡ v
store-store id a b v e i same = λ k. record {
  accounts =
      (put-put_self v.accounts id (some b) (some a) ∙ put_restore v.accounts id (some a) e) k;
  ids = ids_restored k;
  size = size_kept k;
  depth = v.depth;
  block_number = v.block_number;
}
  where
    ids_restored : put (put v.ids b.address (some id)) a.address (some id) ≡ v.ids
    ids_restored =
        rw same (
          put-put_self v.ids a.address (some id) (some id)
          ∙ put_restore v.ids a.address (some id) i)

    size_kept : (store id a (store id b v)).size ≡ v.size
    size_kept = rw (put_self v.accounts id (some b), e)

update_runs :
    (id old_nonce new_nonce token old_balance new_balance : ℕ) (v : StateView) {a : AccountView}
    → v.accounts id ≡ some a
    → a.balance token ≡ old_balance
    → a.nonce ≡ old_nonce
    → id < 2 ^ v.depth
    → update_view id (update_balance old_nonce new_nonce token old_balance new_balance) v
      ≡ some (store id (at_nonce new_nonce (with_balance token new_balance a)) v)
unfolding update_view
update_runs id old_nonce new_nonce token old_balance new_balance v e b n d = ground arith

change_runs :
    (id old_hash new_hash old_nonce new_nonce : ℕ) (v : StateView) {a : AccountView}
    → v.accounts id ≡ some a
    → a.pub_key_hash ≡ old_hash
    → a.nonce ≡ old_nonce
    → id < 2 ^ v.depth
    → update_view id (change_pub_key_hash old_hash new_hash old_nonce new_nonce) v
      ≡ some (store id (record a { pub_key_hash = new_hash; nonce = new_nonce }) v)
unfolding update_view
change_runs id old_hash new_hash old_nonce new_nonce v e b n d = ground arith

delete_runs :
    (id address nonce : ℕ) (v : StateView) {a : AccountView}
    → v.accounts id ≡ some a
    → a.address ≡ address
    → a.nonce ≡ nonce
    → update_view id (delete address nonce) v ≡ some (drop_account id address v)
unfolding update_view
delete_runs id address nonce v e b n = ground arith

-- The account with its balance and nonce put back.
restored :
    (token x y m n : ℕ) (a : AccountView)
    → a.balance token ≡ y
    → a.nonce ≡ n
    → at_nonce n (with_balance token y (at_nonce m (with_balance token x a))) ≡ a
restored token x y m n a b e = λ k. record {
  pub_key_hash = a.pub_key_hash;
  address = a.address;
  nonce = sym e k;
  balance = (put-put_self a.balance token x y ∙ put_restore a.balance token y b) k;
}

-- A balance update is taken back.
undo_update :
    (id old_nonce new_nonce token old_balance new_balance : ℕ) (v : StateView) {w : StateView}
    → IsConsistent v
    → update_view id (update_balance old_nonce new_nonce token old_balance new_balance) v ≡ some w
    → update_view id (update_balance new_nonce old_nonce token new_balance old_balance) w ≡ some v
undo_update id old_nonce new_nonce token old_balance new_balance v c h =
    let (a, e, b, n, done) = update_inv id old_nonce new_nonce token old_balance new_balance v h in
    let changed : AccountView = at_nonce new_nonce (with_balance token new_balance a) in
    rw (← done) (
      update_runs id new_nonce old_nonce token new_balance old_balance (store id changed v)
        {a = changed} (put_self v.accounts id (some changed)) (put_self a.balance token new_balance)
        refl (c.within id a e)
      ∙ ap some (
          ap (λ x. store id x (store id changed v))
            (restored token new_balance old_balance new_nonce old_nonce a b n)
          ∙ store-store id a changed v e (c.indexed id a e) refl))

rekeyed :
    (y n : ℕ) (a : AccountView)
    → a.pub_key_hash ≡ y
    → a.nonce ≡ n
    → record a { pub_key_hash = y; nonce = n } ≡ a
rekeyed y n a b e = λ k. record {
  pub_key_hash = sym b k;
  address = a.address;
  nonce = sym e k;
  balance = a.balance;
}

-- A change of the key is taken back.
undo_change :
    (id old_hash new_hash old_nonce new_nonce : ℕ) (v : StateView) {w : StateView}
    → IsConsistent v
    → update_view id (change_pub_key_hash old_hash new_hash old_nonce new_nonce) v ≡ some w
    → update_view id (change_pub_key_hash new_hash old_hash new_nonce old_nonce) w ≡ some v
undo_change id old_hash new_hash old_nonce new_nonce v c h =
    let (a, e, b, n, done) = change_inv id old_hash new_hash old_nonce new_nonce v h in
    let changed : AccountView = record a { pub_key_hash = new_hash; nonce = new_nonce } in
    rw (← done) (
      change_runs id new_hash old_hash new_nonce old_nonce (store id changed v) {a = changed}
        (put_self v.accounts id (some changed)) refl refl (c.within id a e)
      ∙ ap some (
          ap (λ x. store id x (store id changed v)) (rekeyed old_hash old_nonce a b n)
          ∙ store-store id a changed v e (c.indexed id a e) refl))

-- The creation of an account under a free id is taken back.
undo_create :
    (id address nonce : ℕ) (v : StateView) {w : StateView}
    → v.accounts id ≡ none
    → update_view id (create address nonce) v ≡ some w
    → update_view id (delete address nonce) w ≡ some v
undo_create id address nonce v free h =
    let (unknown, d, done) = create_inv id address nonce v h in
    let stored : StateView = store id (new_account address nonce) v in
    rw (← done) (
      delete_runs id address nonce stored {a = new_account address nonce}
        (put_self v.accounts id (some (new_account address nonce))) refl refl
      ∙ ap some λ k. record {
        accounts =
            (put-put_self v.accounts id (some (new_account address nonce)) none
                ∙ put_restore v.accounts id none free)
              k;
        ids =
            (put-put_self v.ids address (some id) none ∙ put_restore v.ids address none unknown) k;
        size = size_kept k;
        depth = v.depth;
        block_number = v.block_number;
      })
  where
    size_kept : (drop_account id address (store id (new_account address nonce) v)).size ≡ v.size
    size_kept = rw free (omega arith)

create_runs :
    (id address nonce : ℕ) (v : StateView)
    → v.ids address ≡ none
    → id < 2 ^ v.depth
    → update_view id (create address nonce) v ≡ some (store id (new_account address nonce) v)
unfolding update_view
create_runs id address nonce v e d = ground arith

-- The deletion of an account that was as new is taken back.
undo_delete :
    (id address nonce : ℕ) (v : StateView) {w : StateView}
    → IsConsistent v
    → v.accounts id ≡ some (new_account address nonce)
    → 0 < v.size
    → update_view id (delete address nonce) v ≡ some w
    → update_view id (create address nonce) w ≡ some v
undo_delete id address nonce v c fresh positive h =
    let (a, e, b, n, done) = delete_inv id address nonce v h in
    let new : AccountView = new_account address nonce in
    rw (← done) (
      create_runs id address nonce (drop_account id address v) (put_self v.ids address none)
        (c.within id a e)
      ∙ ap some λ k. record {
        accounts =
            (put-put_self v.accounts id none (some new)
                ∙ put_restore v.accounts id (some new) fresh)
              k;
        ids =
            (put-put_self v.ids address none (some id)
                ∙ put_restore v.ids address (some id) (c.indexed id new fresh))
              k;
        size = size_kept k;
        depth = v.depth;
        block_number = v.block_number;
      })
  where
    size_kept : (store id (new_account address nonce) (drop_account id address v)).size ≡ v.size
    size_kept = rw (put_self v.accounts id none) (omega arith)

-- Every update is taken back by its reverse.
pub update_view-reversed_update :
    (id : ℕ) (u : AccountUpdate) (v : StateView) {w : StateView}
    → IsConsistent v
    → IsReversible id u v
    → update_view id u v ≡ some w
    → update_view id (reversed_update u) w ≡ some v
unfolding reversed_update
update_view-reversed_update id (create address nonce) v c r h = undo_create id address nonce v r h
update_view-reversed_update id (delete address nonce) v c r h =
    undo_delete id address nonce v c r.0 r.1 h
update_view-reversed_update id (update_balance m n t x y) v c r h = undo_update id m n t x y v c h
update_view-reversed_update id (change_pub_key_hash x y m n) v c r h = undo_change id x y m n v c h
