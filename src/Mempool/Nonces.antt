-- ===== src/Mempool/Nonces.antt =====
-- `update_nonces` against the accounts.
use qs_react_native_zksync.Prelude.{
  ℕ, ◌≡◌, refl, ap, sym, ◌∙◌, subst, arith, inl, inr, none, some, Option-cases, [], ◌∷◌, map_some,
  and_then, eq_cases, ◌==◌, if◌then◌else◌,
}
use qs_react_native_zksync.HashMap
use qs_react_native_zksync.HashMap.Laws.{get-insert, get-remove}
use qs_react_native_zksync.Account.{
  AccountUpdate, AccountUpdates, create, delete, update_balance, change_pub_key_hash,
}
use qs_react_native_zksync.Account.View.{AccountView, at_nonce, with_balance}
use qs_react_native_zksync.State.Defs.{ZkSyncState}
use qs_react_native_zksync.State.View.{
  StateView, view, update_view, store, drop_account, new_account,
}
use qs_react_native_zksync.State.RoundTrip.{AllReversible}
use qs_react_native_zksync.State.Consistent.{update_view-IsConsistent}
use qs_react_native_zksync.State.Inversion.Create.{some_eq}
use qs_react_native_zksync.State.Refine.{update_views}
use qs_react_native_zksync.State.Reverse.{IsConsistent}
use qs_react_native_zksync.State.Explains.{Explains, IsValid}
use qs_react_native_zksync.Mempool.{MempoolState, set_nonce, update_nonce, update_nonces}

-- The mempool knows the address of every account id, and the nonce of every account.
pub record Mirrors (s : MempoolState) (v : StateView) : Type 0 where
  pub ids :
      (id : ℕ)
      → HashMap.get id s.account_ids ≡ map_some (v.accounts id) (λ (a : AccountView). a.address)
  pub nonces :
      (id : ℕ) (a : AccountView)
      → v.accounts id ≡ some a
      → HashMap.get a.address s.account_nonces ≡ some a.nonce

-- Two accounts of a consistent state with one address are one.
same_id :
    (v : StateView) (i j : ℕ) (a b : AccountView)
    → IsConsistent v
    → v.accounts i ≡ some a
    → v.accounts j ≡ some b
    → a.address ≡ b.address
    → i ≡ j
same_id v i j a b c e f same =
    let one = c.indexed i a e in let other = c.indexed j b f in cc (sym one ∙ ap v.ids same ∙ other)

module _ (id : ℕ) (s : MempoolState) (v w : StateView) (m : Mirrors s v) (c : IsConsistent v) where
  -- A nonce is set for a stored account, which stays at its address.
  set_nonce-Mirrors :
      (n : ℕ) (a b : AccountView)
      → v.accounts id ≡ some a
      → b.address ≡ a.address
      → b.nonce ≡ n
      → ((j : ℕ) → w.accounts j ≡ (if id == j then some b else v.accounts j))
      → Mirrors (set_nonce id n s) w
  unfolding set_nonce
  set_nonce-Mirrors n a b e same is stored =
      let known : HashMap.get id s.account_ids ≡ some a.address =
        m.ids id ∙ ap (λ o. map_some o (λ (a : AccountView). a.address)) e in
      let old = m.nonces id a e in
      let t : MempoolState = record s {
        account_nonces = HashMap.insert a.address n s.account_nonces;
      } in
      let here : set_nonce id n s ≡ t = ground arith in
      subst (λ t. Mirrors t w) (sym here)
        (record {
          ids = λ j. elim (eq_cases id j) [
            | inl i ↦ ground (arith, m.ids j, stored j, ap v.accounts i, e, same)
            | inr i ↦ ground (arith, m.ids j, stored j)
          ];
          nonces = λ j x f. elim (eq_cases id j) [
            | inl i ↦
                ground
                  (arith, get-insert a.address x.address n s.account_nonces, stored j, same, is)
            | inr i ↦
                let there : v.accounts j ≡ some x = ground (arith, stored j) in
                elim (eq_cases a.address x.address) [
                  | inl one ↦ absurd (i (same_id v id j a x c e there one))
                  | inr differ ↦
                      ground (
                        arith,
                        get-insert a.address x.address n s.account_nonces,
                        m.nonces j x there,
                      )
                ]
          ];
        })

  create-Mirrors :
      (n : ℕ) (b : AccountView)
      → v.ids b.address ≡ none
      → b.nonce ≡ n
      → ((j : ℕ) → w.accounts j ≡ (if id == j then some b else v.accounts j))
      → Mirrors
          (record s {
            account_ids = HashMap.insert id b.address s.account_ids;
            account_nonces = HashMap.insert b.address n s.account_nonces;
          })
          w
  create-Mirrors n b free is stored = record {
    ids = λ j. elim (eq_cases id j) [
      | inl i ↦ ground (arith, get-insert id j b.address s.account_ids, stored j)
      | inr i ↦ ground (arith, get-insert id j b.address s.account_ids, m.ids j, stored j)
    ];
    nonces = λ j x f. elim (eq_cases id j) [
      | inl i ↦ ground (arith, get-insert b.address x.address n s.account_nonces, stored j, is)
      | inr i ↦
          let there : v.accounts j ≡ some x = ground (arith, stored j) in
          elim (eq_cases b.address x.address) [
            | inl one ↦ absurd (cc (sym free ∙ ap v.ids one ∙ c.indexed j x there))
            | inr differ ↦
                ground
                  (arith, get-insert b.address x.address n s.account_nonces, m.nonces j x there)
          ]
    ];
  }

  delete-Mirrors :
      (a : AccountView)
      → v.accounts id ≡ some a
      → ((j : ℕ) → w.accounts j ≡ (if id == j then none else v.accounts j))
      → Mirrors
          (record s {
            account_ids = HashMap.remove id s.account_ids;
            account_nonces = HashMap.remove a.address s.account_nonces;
          })
          w
  delete-Mirrors a e stored = record {
    ids = λ j. elim (eq_cases id j) [
      | inl i ↦ ground (arith, get-remove id j s.account_ids, stored j)
      | inr i ↦ ground (arith, get-remove id j s.account_ids, m.ids j, stored j)
    ];
    nonces = λ j x f. elim (eq_cases id j) [
      | inl i ↦ absurd (ground (arith, stored j))
      | inr i ↦
          let there : v.accounts j ≡ some x = ground (arith, stored j) in
          elim (eq_cases a.address x.address) [
            | inl one ↦ absurd (i (same_id v id j a x c e there one))
            | inr differ ↦
                ground (arith, get-remove a.address x.address s.account_nonces, m.nonces j x there)
          ]
    ];
  }

update_nonce-Mirrors :
    (id : ℕ) (u : AccountUpdate) (s : MempoolState) (v w : StateView)
    → Mirrors s v
    → IsConsistent v
    → update_view id u v ≡ some w
    → Mirrors (update_nonce id u s) w
unfolding update_nonce update_view
update_nonce-Mirrors id (create address n) s v w m c h = elim (Option-cases (v.ids address)) [
  | inr (j, e) ↦ absurd (ground arith)
  | inl free ↦
      let left : w ≡ store id (new_account address n) v = ground arith in
      create-Mirrors id s v w m c n (new_account address n) free refl
        (λ j. ap (λ (w : StateView). w.accounts j) left)
]
update_nonce-Mirrors id (delete address n) s v w m c h = elim (Option-cases (v.accounts id)) [
  | inl e ↦ absurd (ground arith)
  | inr (a, e) ↦
      let left : w ≡ drop_account id address v = ground arith in
      let same : a.address ≡ address = ground arith in
      subst
        (λ address.
          Mirrors
            (record s {
              account_ids = HashMap.remove id s.account_ids;
              account_nonces = HashMap.remove address s.account_nonces;
            })
            w)
        same (delete-Mirrors id s v w m c a e (λ j. ap (λ (w : StateView). w.accounts j) left))
]
update_nonce-Mirrors id (update_balance old_nonce new_nonce token old_balance new_balance) s v w m c
      h =
    elim (Option-cases (v.accounts id)) [
      | inl e ↦ absurd (ground arith)
      | inr (a, e) ↦
          let b : AccountView = at_nonce new_nonce (with_balance token new_balance a) in
          let left : w ≡ store id b v = ground arith in
          set_nonce-Mirrors id s v w m c new_nonce a b e refl refl
            (λ j. ap (λ (w : StateView). w.accounts j) left)
    ]
update_nonce-Mirrors id (change_pub_key_hash old_hash new_hash old_nonce new_nonce) s v w m c h =
    elim (Option-cases (v.accounts id)) [
      | inl e ↦ absurd (ground arith)
      | inr (a, e) ↦
          let b : AccountView = record a { pub_key_hash = new_hash; nonce = new_nonce } in
          let left : w ≡ store id b v = ground arith in
          set_nonce-Mirrors id s v w m c new_nonce a b e refl refl
            (λ j. ap (λ (w : StateView). w.accounts j) left)
    ]

update_nonces-all :
    (us : AccountUpdates) (s : MempoolState) (v w : StateView)
    → Mirrors s v
    → IsConsistent v
    → AllReversible us v
    → update_views us v ≡ some w
    → Mirrors (update_nonces us s) w
unfolding update_nonces
update_nonces-all [] s v w m c r h = subst (Mirrors s) (some_eq h) m
update_nonces-all ((id, u) ∷ us) s v w m c r h = elim (Option-cases (update_view id u v)) [
  | inl e ↦ absurd (cc (ap (λ o. and_then o (update_views us)) (sym e) ∙ h))
  | inr (x, e) ↦
      update_nonces-all us (update_nonce id u s) x w (update_nonce-Mirrors id u s v x m c e)
        (update_view-IsConsistent id u v c r.0 e) (r.1 x e)
        (ap (λ o. and_then o (update_views us)) (sym e) ∙ h)
]

-- The updates of a block keep the mempool in step: where it knows the address of every account and the
-- nonce of every address in a valid state, and the updates lead from that state to the next, it knows
-- them in the next state.
pub update_nonces-Mirrors :
    (us : AccountUpdates) (s : MempoolState) (before after : ZkSyncState)
    → IsValid before
    → Explains us before after
    → Mirrors s (view before)
    → Mirrors (update_nonces us s) (view after)
update_nonces-Mirrors us s before after valid x m =
    update_nonces-all us s (view before) (view after) m valid.consistent x.reversible x.agrees
