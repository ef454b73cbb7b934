-- ===== src/State/Consistent.antt =====
-- The index by address against the accounts, after every update.
use qs_react_native_zksync.Prelude.{
  ℕ, ◌^◌, ◌≡◌, ◌<◌, refl, ap, none, some, arith, inl, inr, eq_cases, ◌⊎◌,
}
use qs_react_native_zksync.Account.{
  AccountUpdate, create, delete, update_balance, change_pub_key_hash,
}
use qs_react_native_zksync.Account.View.{AccountView, at_nonce, with_balance, put}
use qs_react_native_zksync.State.View.{StateView, store, drop_account, new_account, update_view}
use qs_react_native_zksync.State.Reverse.{
  IsConsistent, IsReversible, create_inv, update_inv, change_inv, delete_inv,
}

-- The id is free and the address unknown, or the id holds an account of that address.
abbrev pub Fits : ℕ → AccountView → StateView → Type 0
Fits id a v =
    ((v.accounts id ≡ none) × (v.ids a.address ≡ none))
    ⊎ ((b : AccountView) × (v.accounts id ≡ some b) × (b.address ≡ a.address))

module _ (id : ℕ) (a : AccountView) (v : StateView) (c : IsConsistent v) (fit : Fits id a v) where
  -- Before the account is stored, its address is unknown or stands for the same id.
  known : (v.ids a.address ≡ none) ⊎ (v.ids a.address ≡ some id)
  known = elim fit [
    | inl (free, unknown) ↦ inl unknown
    | inr (b, e, same) ↦ inr (rw same at (c.indexed id b e))
  ]

  store_indexed :
      (j : ℕ) (b : AccountView)
      → put v.accounts id (some a) j ≡ some b
      → put v.ids a.address (some id) b.address ≡ some j
  store_indexed j b h = elim (eq_cases id j) [
    | inl e ↦ ground arith
    | inr e ↦ elim (eq_cases a.address b.address) [
      | inl same ↦ absurd (ground (arith, known, c.indexed j b, ap v.ids same))
      | inr differ ↦ ground (arith, c.indexed j b)
    ]
  ]

  store_backed :
      (address j : ℕ)
      → put v.ids a.address (some id) address ≡ some j
      → (b : AccountView) × (put v.accounts id (some a) j ≡ some b) × (b.address ≡ address)
  store_backed address j h = elim (eq_cases a.address address) [
    | inl e ↦ (a, ground arith, e)
    | inr e ↦
        let (b, at_j, same) = c.backed address j (ground arith) in
        elim (eq_cases id j) [
          | inl here ↦ absurd (ground (arith, fit, ap v.accounts here))
          | inr there ↦ (b, ground arith, same)
        ]
  ]

  pub store-IsConsistent : id < 2 ^ v.depth → IsConsistent (store id a v)
  store-IsConsistent d = record {
    indexed = store_indexed;
    backed = store_backed;
    within =
        λ j b h. elim (eq_cases id j) [ inl e ↦ rw (← e) d | inr e ↦ c.within j b (ground arith) ];
  }

module _ (id : ℕ) (a : AccountView) (v : StateView) (c : IsConsistent v) where
  drop-IsConsistent : v.accounts id ≡ some a → IsConsistent (drop_account id a.address v)
  drop-IsConsistent e = record {
    indexed = λ j b h. elim (eq_cases id j) [
      | inl here ↦ absurd (ground arith)
      | inr there ↦ elim (eq_cases a.address b.address) [
        | inl same ↦ absurd (ground (arith, c.indexed j b, c.indexed id a e, ap v.ids same))
        | inr differ ↦ ground (arith, c.indexed j b)
      ]
    ];
    backed = λ address j h. elim (eq_cases a.address address) [
      | inl same ↦ absurd (ground arith)
      | inr differ ↦
          let (b, at_j, same) = c.backed address j (ground arith) in
          elim (eq_cases id j) [
            | inl here ↦ absurd (ground (arith, e, ap v.accounts here))
            | inr there ↦ (b, ground arith, same)
          ]
    ];
    within = λ j b h. c.within j b (ground arith);
  }

-- An update that fits the state keeps the agreement.
pub update_view-IsConsistent :
    (id : ℕ) (u : AccountUpdate) (v : StateView) {w : StateView}
    → IsConsistent v
    → IsReversible id u v
    → update_view id u v ≡ some w
    → IsConsistent w
update_view-IsConsistent id (create address nonce) v c free h =
    let (unknown, d, done) = create_inv id address nonce v h in
    rw done at (store-IsConsistent id (new_account address nonce) v c (inl (free, unknown)) d)
update_view-IsConsistent id (delete address nonce) v c r h =
    let (a, e, same, n, done) = delete_inv id address nonce v h in
    rw done at (rw same at (drop-IsConsistent id a v c e))
update_view-IsConsistent id (update_balance m n t x y) v c r h =
    let (a, e, same, k, done) = update_inv id m n t x y v h in
    rw done at (
      store-IsConsistent id (at_nonce n (with_balance t y a)) v c (inr (a, e, refl))
        (c.within id a e))
update_view-IsConsistent id (change_pub_key_hash x y m n) v c r h =
    let (a, e, same, k, done) = change_inv id x y m n v h in
    rw done at (
      store-IsConsistent id (record a { pub_key_hash = y; nonce = n }) v c (inr (a, e, refl))
        (c.within id a e))
