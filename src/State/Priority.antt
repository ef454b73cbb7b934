-- ===== src/State/Priority.antt =====
-- `execute_priority_op`: its updates, and its `expect`s and assertions.
use qs_react_native_zksync.Prelude.{
  ℕ, ◌-◌, ◌^◌, ◌≡◌, ◌≢◌, ◌≤◌, ◌<◌, ◌⊎◌, refl, sym, ap, ◌∙◌, arith, none, some, inl, inr,
  Option-cases,
}
use qs_react_native_zksync.Params.{max_token_id}
use qs_react_native_zksync.Prelude.{map_some}
use qs_react_native_zksync.HashMap
use qs_react_native_zksync.Account.{Account, get_balance, sub_balance}
use qs_react_native_zksync.Account.View.{get_balance-replace_self, view_account}
use qs_react_native_zksync.State.Defs.{
  ZkSyncState, Result, Action, OpSuccess, ZkSyncOp, ok, err, panic, get_account,
  get_free_account_id, insert_account, Deposit, FullExit, DepositOp, ZkSyncPriorityOp,
}
use qs_react_native_zksync.State.Execute.{execute_priority_op, expect_ok}
use qs_react_native_zksync.State.Handler.Priority.{
  create_deposit, apply_deposit_op, apply_deposit, create_full_exit, withdraw_all,
  apply_full_exit_op, apply_full_exit,
}
use qs_react_native_zksync.State.Inversion.Bind.{apply_created_ok}
use qs_react_native_zksync.State.Inversion.Create.{Owns, deposit_target, full_exit_amount}
use qs_react_native_zksync.State.Explains.{Explains, IsValid, found_within}
use qs_react_native_zksync.State.Explains.Operations.{deposit_op-Explains, full_exit_op-Explains}
use qs_react_native_zksync.State.Explains.Handlers.{reported}

pub expect_ok_inv :
    {A : Type 0} (m : Action A) (s : ZkSyncState) {a : A} {s' : ZkSyncState}
    → expect_ok m s ≡ (ok a, s')
    → m s ≡ (ok a, s')
expect_ok_inv m s h = ground (arith, h)

module _ (s s' : ZkSyncState) (r : OpSuccess) where
  deposit-Explains :
      (op : Deposit) → IsValid s → apply_deposit op s ≡ (ok r, s') → Explains r.updates s s'
  unfolding apply_deposit
  deposit-Explains op valid h =
      let (created, t, done, made, applied, is) =
        apply_created_ok (create_deposit op) apply_deposit_op ZkSyncOp.deposit s h in
      let (_, same, is_op, target) = deposit_target op s t created made in
      reported is (
        deposit_op-Explains s s' valid done created (unknown created is_op target)
          (rw same at applied))
    where
      unknown :
          (created : DepositOp)
          → created.priority_op ≡ op
          → ((a : Account) × Owns op.to created.account_id a s)
            ⊎ ((HashMap.get op.to s.account_id_by_address ≡ none)
                × (created.account_id ≡ get_free_account_id s))
          → get_account created.account_id s ≡ none
          → HashMap.get created.priority_op.to s.account_id_by_address ≡ none
      unknown created is (inl (a, owns)) free = cc (sym free ∙ owns.1)
      unknown created is (inr (new, _)) free = rw is new

  full_exit-Explains :
      (op : FullExit) → IsValid s → apply_full_exit op s ≡ (ok r, s') → Explains r.updates s s'
  unfolding apply_full_exit
  full_exit-Explains op valid h =
      let (created, t, done, made, applied, is) =
        apply_created_ok (create_full_exit op) apply_full_exit_op ZkSyncOp.full_exit s h in
      let (_, same, _) = full_exit_amount op s t created made in
      reported is (full_exit_op-Explains s s' valid done created (rw same at applied))

  -- The updates that a priority operation reports in a valid state lead from what the state shows
  -- before it to what it shows after it, and each of them can be reversed.
  pub execute_priority_op-Explains :
      (op : ZkSyncPriorityOp)
      → IsValid s
      → execute_priority_op op s ≡ (ok r, s')
      → Explains r.updates s s'
  unfolding execute_priority_op
  execute_priority_op-Explains (ZkSyncPriorityOp.deposit op) valid h =
      deposit-Explains op valid (expect_ok_inv (apply_deposit op) s h)
  execute_priority_op-Explains (ZkSyncPriorityOp.full_exit op) valid h =
      full_exit-Explains op valid (expect_ok_inv (apply_full_exit op) s h)

-- The token of a priority operation.
abbrev pub token : ZkSyncPriorityOp → ℕ
token (ZkSyncPriorityOp.deposit op) = op.token
token (ZkSyncPriorityOp.full_exit op) = op.token

expect_ok_runs :
    {A : Type 0} (m : Action A) (s : ZkSyncState)
    → (expect_ok m s).0 ≢ panic
    → (a : A) × (s' : ZkSyncState) × (expect_ok m s ≡ (ok a, s'))
expect_ok_runs {A} m s h = go (m s) h
  where
    go :
        (p : Result A × ZkSyncState)
        → (expect_ok (λ (t : ZkSyncState). p) s).0 ≢ panic
        → (a : A) × (s' : ZkSyncState) × (expect_ok (λ (t : ZkSyncState). p) s ≡ (ok a, s'))
    go (ok a, t) h = (a, t, refl)
    go (err e, t) h = absurd (h refl)
    go (panic, t) h = absurd (h refl)

module _ (s : ZkSyncState) (valid : IsValid s) where
  -- The account that the index names is stored, in the tree.
  pub backed_account :
      (address id : ℕ)
      → HashMap.get address s.account_id_by_address ≡ some id
      → (a : Account) × (get_account id s ≡ some a) × (id < 2 ^ s.balance_tree.tree_depth)
  backed_account address id e =
      let (v, found, _) = valid.consistent.backed address id e in
      elim (Option-cases (get_account id s)) [
        | inl f ↦ absurd (cc (ap (λ o. map_some o view_account) (sym f) ∙ found))
        | inr (a, f) ↦ (a, f, found_within id a s valid f)
      ]

  deposit_runs :
      (op : Deposit)
      → op.token ≤ max_token_id
      → get_free_account_id s < 2 ^ s.balance_tree.tree_depth
      → (expect_ok (apply_deposit op) s).0 ≢ panic
  unfolding apply_deposit create_deposit apply_deposit_op insert_account
  deposit_runs op small room h = elim (Option-cases (HashMap.get op.to s.account_id_by_address)) [
    | inl e ↦ elim (Option-cases (get_account (get_free_account_id s) s)) [
      | inl f ↦ ground arith
      | inr (a, f) ↦ ground arith
    ]
    | inr (id, e) ↦ let (a, f, d) = backed_account op.to id e in ground arith
  ]

  full_exit_runs :
      (op : FullExit) → op.token ≤ max_token_id → (expect_ok (apply_full_exit op) s).0 ≢ panic
  unfolding apply_full_exit create_full_exit apply_full_exit_op withdraw_all insert_account
      sub_balance
  full_exit_runs op small h = elim (Option-cases (get_account op.account_id s)) [
    | inl e ↦ ground arith
    | inr (a, e) ↦
        let d = found_within op.account_id a s valid e in
        ground (
          arith,
          get_balance-replace_self op.token (get_balance op.token a - get_balance op.token a) a,
        )
  ]

  -- A priority operation never makes a valid state panic: its token is one of the network's, and the
  -- tree has room for one more account.
  pub execute_priority_op-runs :
      (op : ZkSyncPriorityOp)
      → token op ≤ max_token_id
      → get_free_account_id s < 2 ^ s.balance_tree.tree_depth
      → (r : OpSuccess) × (s' : ZkSyncState) × (execute_priority_op op s ≡ (ok r, s'))
  unfolding execute_priority_op
  execute_priority_op-runs (ZkSyncPriorityOp.deposit op) small room =
      expect_ok_runs (apply_deposit op) s (deposit_runs op small room)
  execute_priority_op-runs (ZkSyncPriorityOp.full_exit op) small room =
      expect_ok_runs (apply_full_exit op) s (full_exit_runs op small)
