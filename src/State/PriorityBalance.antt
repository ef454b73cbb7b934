-- ===== src/State/PriorityBalance.antt =====
-- Priority operations and the sum of a token over all accounts.
use qs_react_native_zksync.Prelude.{ℕ, ◌+◌, ◌≡◌, ap, ◌∙◌, arith, none, inl, inr, Option-cases}
use qs_react_native_zksync.Account.{or_zero}
use qs_react_native_zksync.State.Defs.{
  ZkSyncState, Applied, OpSuccess, ZkSyncOp, ok, get_account, DepositOp, FullExitOp,
  ZkSyncPriorityOp,
}
use qs_react_native_zksync.State.Execute.{execute_priority_op}
use qs_react_native_zksync.State.Handler.Priority.{
  create_deposit, apply_deposit_op, apply_deposit, create_full_exit, apply_full_exit_op,
  apply_full_exit, account_or_created,
}
use qs_react_native_zksync.State.Inversion.Bind.{apply_created_ok}
use qs_react_native_zksync.State.Inversion.Create.{deposit_target, full_exit_amount}
use qs_react_native_zksync.State.Inversion.Others.{deposit_inv, withdraw_all_inv}
use qs_react_native_zksync.State.Priority.{expect_ok_inv}
use qs_react_native_zksync.State.Supply.{
  supply, counted, supply-payee, supply-new, supply-rebalanced,
}
use qs_react_native_zksync.State.Conservation.{exit_part}

-- What a priority operation brings into the network, counted for a token.
abbrev pub entry_part : ZkSyncPriorityOp → ℕ → ℕ
entry_part (ZkSyncPriorityOp.deposit op) t = counted op.token op.amount t
entry_part (ZkSyncPriorityOp.full_exit op) t = 0

module _ (s s' : ZkSyncState) (t : ℕ) where
  deposit_op-supply :
      (op : DepositOp) (done : Applied)
      → apply_deposit_op op s ≡ (ok done, s')
      → supply t s' ≡ supply t s + counted op.priority_op.token op.priority_op.amount t
  deposit_op-supply op done h = elim (Option-cases (get_account op.account_id s)) [
    | inl free ↦
        let (_, _, left) = rw free at (deposit_inv op s s' done h) in
        ap (supply t) left
        ∙ supply-new op.account_id op.priority_op.token t
            (account_or_created op.account_id op.priority_op.to none).0 s op.priority_op.amount
            op.priority_op.to free
    | inr (a, e) ↦
        let (_, _, left) = rw e at (deposit_inv op s s' done h) in
        ap (supply t) left
        ∙ supply-payee op.account_id op.priority_op.token t a s op.priority_op.amount e
  ]

  full_exit_op-supply :
      (op : FullExitOp) (done : Applied)
      → apply_full_exit_op op s ≡ (ok done, s')
      → supply t s' + counted op.priority_op.token (or_zero op.withdraw_amount) t ≡ supply t s
  unfolding apply_full_exit_op
  full_exit_op-supply op done h = elim (Option-cases op.withdraw_amount) [
    | inl e ↦ let same : s' ≡ s = ground arith in rw (same, e) (ground arith)
    | inr (amount, e) ↦
        let (a, f, whole, _, left) =
          withdraw_all_inv op.priority_op amount s s' done (ground arith) in
        ground (
          arith,
          ap (supply t) left,
          supply-rebalanced op.priority_op.account_id op.priority_op.token t a s 0 a.nonce f,
        )
  ]

  -- A priority operation that succeeds conserves every token: what all accounts hold after it, with
  -- the amount that a full exit takes out, is what they held before, with the amount that a deposit
  -- brings in.
  pub execute_priority_op-conserves :
      (op : ZkSyncPriorityOp) (r : OpSuccess)
      → execute_priority_op op s ≡ (ok r, s')
      → supply t s' + exit_part r.executed_op t ≡ supply t s + entry_part op t
  unfolding execute_priority_op apply_deposit apply_full_exit
  execute_priority_op-conserves (ZkSyncPriorityOp.deposit op) r h =
      let (created, u, done, made, applied, is) =
        apply_created_ok (create_deposit op) apply_deposit_op ZkSyncOp.deposit s
          (expect_ok_inv (apply_deposit op) s h) in
      let (_, same, is_op, _) = deposit_target op s u created made in
      let sum = deposit_op-supply created done (rw same at applied) in
      rw is (ground (arith, rw is_op at sum))
  execute_priority_op-conserves (ZkSyncPriorityOp.full_exit op) r h =
      let (created, u, done, made, applied, is) =
        apply_created_ok (create_full_exit op) apply_full_exit_op ZkSyncOp.full_exit s
          (expect_ok_inv (apply_full_exit op) s h) in
      let (_, same, _) = full_exit_amount op s u created made in
      let sum = full_exit_op-supply created done (rw same at applied) in rw is (ground (arith, sum))
