-- ===== src/State/Growth.antt =====
-- The ids of the accounts after each operation.
use qs_react_native_zksync.Prelude.{
  ℕ, ◌≡◌, ◌<◌, sym, ◌∙◌, subst, arith, some, inl, inr, eq_cases, Option-cases,
}
use qs_react_native_zksync.Params.{u32_mod}
use qs_react_native_zksync.HashMap
use qs_react_native_zksync.Account.{Account}
use qs_react_native_zksync.Tx.{
  Crypto, ZkSyncTx, transfer, withdraw, close, change_pub_key, forced_exit, Transfer,
}
use qs_react_native_zksync.State.Defs.{
  ZkSyncState, Applied, OpSuccess, ok, get_account, get_free_account_id, inserted, into_franklin_op,
  ZkSyncOp, TransferOutcome, TransferOp, TransferToNewOp, Deposit, FullExit, ZkSyncPriorityOp,
}
use qs_react_native_zksync.State.Execute.{execute_tx, execute_priority_op}
use qs_react_native_zksync.State.Handler.Transfer.{
  create_transfer, apply_transfer_op, apply_transfer_to_new_op, apply_transfer_outcome,
  apply_transfer,
}
use qs_react_native_zksync.State.Handler.Withdraw.{
  create_withdraw, apply_withdraw_op, apply_withdraw,
}
use qs_react_native_zksync.State.Handler.ChangePubKey.{
  create_change_pub_key, apply_change_pub_key_op, apply_change_pub_key,
}
use qs_react_native_zksync.State.Handler.ForcedExit.{
  create_forced_exit, apply_forced_exit_op, apply_forced_exit,
}
use qs_react_native_zksync.State.Handler.Priority.{
  create_deposit, apply_deposit_op, apply_deposit, create_full_exit, apply_full_exit_op,
  apply_full_exit,
}
use qs_react_native_zksync.State.Priority.{expect_ok_inv}
use qs_react_native_zksync.State.Inversion.Create.{deposit_target, full_exit_amount}
use qs_react_native_zksync.State.Inversion.Others.{deposit_inv, withdraw_all_inv}
use qs_react_native_zksync.State.Inversion.Bind.{apply_created_ok}
use qs_react_native_zksync.State.Inversion.Create.{
  transfer_sender, transfer_recipient, withdraw_sender, change_pub_key_sender, forced_exit_parties,
}
use qs_react_native_zksync.State.Inversion.Transfers.{
  transfer_inv, to_self_inv, transfer_self, to_new_inv, withdraw_inv,
}
use qs_react_native_zksync.State.Inversion.Others.{change_pub_key_inv, forced_exit_inv}
use qs_react_native_zksync.State.Authority.{close_fails}
use qs_react_native_zksync.State.Density.{
  IsDense, inserted_old-IsDense, inserted_new-IsDense, inserted_both-IsDense, inserted_next-IsDense,
  free_id_is_len,
}

module _ (s s' : ZkSyncState) (dense : IsDense s) where
  -- One account that was there is stored again.
  stored-IsDense :
      (id : ℕ) (a b : Account) → get_account id s ≡ some a → s' ≡ inserted id b s → IsDense s'
  stored-IsDense id a b e left = subst IsDense (sym left) (inserted_old-IsDense s dense id a b e)

  transfer_op-IsDense :
      (done : Applied) (op : TransferOp) → apply_transfer_op op s ≡ (ok done, s') → IsDense s'
  transfer_op-IsDense done op h = elim (eq_cases op.from op.to) [
    | inl same ↦
        let (a, e, _, _, _, _, left) =
          to_self_inv op s s' done (transfer_self op s s' done same h) in
        stored-IsDense op.from a _ e left
    | inr differ ↦
        let (a, b, e, f, _, _, _, left) = transfer_inv op s s' done differ h in
        inserted_both-IsDense s s' op.from op.to a b _ _ dense e f left
  ]

  transfer_to_new_op-IsDense :
      (done : Applied) (op : TransferToNewOp)
      → op.to ≡ HashMap.len s.balance_tree.items
      → apply_transfer_to_new_op op s ≡ (ok done, s')
      → IsDense s'
  transfer_to_new_op-IsDense done op next h =
      let (a, e, free, _, _, _, _, left) = to_new_inv op s s' done h in
      inserted_next-IsDense s s' op.from op.to a _ _ dense e free next left

module _ (c : Crypto) (s s' : ZkSyncState) (dense : IsDense s)
    (small : HashMap.len s.balance_tree.items < u32_mod) (r : OpSuccess) where
  transfer_outcome-IsDense :
      (tx : Transfer) (out : TransferOutcome) (done : Applied) {t : ZkSyncState}
      → create_transfer c tx s ≡ (ok out, t)
      → apply_transfer_outcome out s ≡ (ok done, s')
      → IsDense s'
  unfolding apply_transfer_outcome
  transfer_outcome-IsDense tx out done {t} h k = elim (transfer_recipient c tx s t out h) [
    | inl (to, b, owns, is) ↦
        transfer_op-IsDense s s' dense done (record { tx = tx; from = tx.account_id; to = to })
          (rw is at k)
    | inr (unknown, is) ↦
        transfer_to_new_op-IsDense s s' dense done
          (record { tx = tx; from = tx.account_id; to = get_free_account_id s })
          (free_id_is_len s small) (rw is at k)
  ]

  -- While there are fewer than 2 ^ 32 accounts, a transaction that succeeds keeps every account id
  -- below the number of accounts, so the next free id is free again.
  pub execute_tx-IsDense : (tx : ZkSyncTx) → execute_tx c tx s ≡ (ok r, s') → IsDense s'
  unfolding execute_tx apply_transfer apply_withdraw apply_change_pub_key apply_forced_exit
  execute_tx-IsDense (transfer tx) h =
      let (out, t, done, made, applied, is) =
        apply_created_ok (create_transfer c tx) apply_transfer_outcome into_franklin_op s h in
      let (_, _, _, _, _, _, same) = transfer_sender c tx s t out made in
      transfer_outcome-IsDense tx out done made (rw same at applied)
  execute_tx-IsDense (withdraw tx) h =
      let (op, t, done, made, applied, is) =
        apply_created_ok (create_withdraw c tx) apply_withdraw_op ZkSyncOp.withdraw s h in
      let (_, _, _, _, _, same, _) = withdraw_sender c tx s t op made in
      let (a, e, _, _, _, left) = withdraw_inv op s s' done (rw same at applied) in
      stored-IsDense s s' dense op.account_id a _ e left
  execute_tx-IsDense (close tx) h = absurd (close_fails tx s s' r h)
  execute_tx-IsDense (change_pub_key tx) h =
      let (op, t, done, made, applied, is) =
        apply_created_ok (create_change_pub_key c tx) apply_change_pub_key_op
          ZkSyncOp.change_pub_key_offchain s h in
      let (_, _, _, _, _, same, _) = change_pub_key_sender c tx s t op made in
      let (a, e, _, _, _, left) = change_pub_key_inv op s s' done (rw same at applied) in
      stored-IsDense s s' dense op.account_id a _ e left
  execute_tx-IsDense (forced_exit tx) h =
      let (op, t, done, made, applied, is) =
        apply_created_ok (create_forced_exit c tx) apply_forced_exit_op ZkSyncOp.forced_exit s h in
      let (_, _, _, _, _, _, _, same, _, _) = forced_exit_parties c tx s t op made in
      let (a, b, e, f, _, _, _, _, left) = forced_exit_inv op s s' done (rw same at applied) in
      inserted_both-IsDense s s' op.tx.initiator_account_id op.target_account_id a b _ _ dense e f
        left

module _ (s s' : ZkSyncState) (dense : IsDense s)
    (small : HashMap.len s.balance_tree.items < u32_mod) (r : OpSuccess) where
  deposit-IsDense : (op : Deposit) → apply_deposit op s ≡ (ok r, s') → IsDense s'
  unfolding apply_deposit
  deposit-IsDense op h =
      let (created, t, done, made, applied, _) =
        apply_created_ok (create_deposit op) apply_deposit_op ZkSyncOp.deposit s h in
      let (_, same, _, target) = deposit_target op s t created made in
      let (_, _, left) = deposit_inv created s s' done (rw same at applied) in
      elim (Option-cases (get_account created.account_id s)) [
        | inr (a, e) ↦ stored-IsDense s s' dense created.account_id a _ e left
        | inl free ↦ elim target [
          | inl (a, owns) ↦ absurd (cc (sym free ∙ owns.1))
          | inr (_, next) ↦ subst IsDense (sym left) (
              inserted_new-IsDense s dense created.account_id _ (next ∙ free_id_is_len s small)
                free)
        ]
      ]

  full_exit-IsDense : (op : FullExit) → apply_full_exit op s ≡ (ok r, s') → IsDense s'
  unfolding apply_full_exit apply_full_exit_op
  full_exit-IsDense op h =
      let (created, t, done, made, applied, _) =
        apply_created_ok (create_full_exit op) apply_full_exit_op ZkSyncOp.full_exit s h in
      let (_, same, _) = full_exit_amount op s t created made in
      let here : apply_full_exit_op created s ≡ (ok done, s') = rw same at applied in
      elim (Option-cases created.withdraw_amount) [
        | inl e ↦ let kept : s' ≡ s = ground arith in subst IsDense (sym kept) dense
        | inr (amount, e) ↦
            let (a, f, _, _, left) =
              withdraw_all_inv created.priority_op amount s s' done (ground arith) in
            stored-IsDense s s' dense created.priority_op.account_id a _ f left
      ]

  -- While there are fewer than 2 ^ 32 accounts, a priority operation that succeeds keeps every account
  -- id below the number of accounts.
  pub execute_priority_op-IsDense :
      (op : ZkSyncPriorityOp) → execute_priority_op op s ≡ (ok r, s') → IsDense s'
  unfolding execute_priority_op
  execute_priority_op-IsDense (ZkSyncPriorityOp.deposit op) h =
      deposit-IsDense op (expect_ok_inv (apply_deposit op) s h)
  execute_priority_op-IsDense (ZkSyncPriorityOp.full_exit op) h =
      full_exit-IsDense op (expect_ok_inv (apply_full_exit op) s h)
