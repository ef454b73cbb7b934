-- ===== src/State/Spending.antt =====
-- The account that pays for a transaction, and its nonce, operation by operation.
use qs_react_native_zksync.Prelude.{
  ℕ, ◌+◌, ◌≡◌, ◌≢◌, ◌≤◌, ◌<◌, sym, ap, ◌∙◌, arith, Option, none, some, inl, inr, eq_cases,
}
use qs_react_native_zksync.Params.{u32_mod}
use qs_react_native_zksync.Account.{Account, get_balance}
use qs_react_native_zksync.Tx.{ZkSyncTx, transfer, withdraw, close, change_pub_key, forced_exit}
use qs_react_native_zksync.State.Defs.{
  ZkSyncState, Applied, ok, get_account, inserted, TransferOp, TransferToNewOp, WithdrawOp,
  ChangePubKeyOp, ForcedExitOp,
}
use qs_react_native_zksync.State.Handler.Transfer.{apply_transfer_op, apply_transfer_to_new_op}
use qs_react_native_zksync.State.Handler.Withdraw.{apply_withdraw_op}
use qs_react_native_zksync.State.Handler.ChangePubKey.{apply_change_pub_key_op}
use qs_react_native_zksync.State.Handler.ForcedExit.{apply_forced_exit_op}
use qs_react_native_zksync.State.Steps.{get_account_here, get_account_there}
use qs_react_native_zksync.State.Inversion.Transfers.{
  next, payer, transfer_inv, to_self_inv, transfer_self, to_new_inv, withdraw_inv,
}
use qs_react_native_zksync.State.Inversion.Others.{
  change_pub_key_inv, forced_exit_inv, with_fee_paid,
}

-- The account that pays the fee; a `Close` has none, since it never succeeds.
abbrev pub paying_account : ZkSyncTx → Option ℕ
paying_account (transfer tx) = some tx.account_id
paying_account (withdraw tx) = some tx.account_id
paying_account (change_pub_key tx) = some tx.account_id
paying_account (forced_exit tx) = some tx.initiator_account_id
paying_account (close tx) = none

-- `ZkSyncTx::nonce`
abbrev pub nonce : ZkSyncTx → ℕ
nonce (transfer tx) = tx.nonce
nonce (withdraw tx) = tx.nonce
nonce (close tx) = tx.nonce
nonce (change_pub_key tx) = tx.nonce
nonce (forced_exit tx) = tx.nonce

-- The account had this nonce and could pay the cost; its nonce is now the next one.
pub record Spent (id n token cost : ℕ) (s s' : ZkSyncState) : Type 0 where
  pub before : Account
  pub found : get_account id s ≡ some before
  pub matches : n ≡ before.nonce
  pub covered : cost ≤ get_balance token before
  pub after : Account
  pub found_after : get_account id s' ≡ some after
  pub used : after.nonce ≡ next n

-- An account is still found after another one was stored.
found_behind :
    (id j : ℕ) (a b : Account) (s t : ZkSyncState)
    → j ≢ id
    → t ≡ inserted j b (inserted id a s)
    → get_account id t ≡ some a
found_behind id j a b s t differ left =
    ap (get_account id) left
    ∙ get_account_there j id b (inserted id a s) differ
    ∙ get_account_here id a s

module _ (s s' : ZkSyncState) (done : Applied) where
  pub transfer_op-Spent :
      (op : TransferOp)
      → apply_transfer_op op s ≡ (ok done, s')
      → Spent op.from op.tx.nonce op.tx.token (op.tx.amount + op.tx.fee) s s'
  transfer_op-Spent op h = elim (eq_cases op.from op.to) [
    | inl same ↦
        let (a, e, _, n, d, _, left) =
          to_self_inv op s s' done (transfer_self op s s' done same h) in
        record {
          before = a;
          found = e;
          matches = n;
          covered = d;
          after = payer op.tx.token op.tx.fee a;
          found_after = ap (get_account op.from) left ∙ get_account_here op.from _ s;
          used = ap next (sym n);
        }
    | inr differ ↦
        let (a, b, e, f, n, d, _, left) = transfer_inv op s s' done differ h in
        record {
          before = a;
          found = e;
          matches = n;
          covered = d;
          after = payer op.tx.token (op.tx.amount + op.tx.fee) a;
          found_after = found_behind op.from op.to _ _ s s' (λ same. differ (sym same)) left;
          used = ap next (sym n);
        }
  ]

  pub transfer_to_new_op-Spent :
      (op : TransferToNewOp)
      → apply_transfer_to_new_op op s ≡ (ok done, s')
      → Spent op.from op.tx.nonce op.tx.token (op.tx.amount + op.tx.fee) s s'
  transfer_to_new_op-Spent op h =
      let (a, e, free, n, d, _, _, left) = to_new_inv op s s' done h in
      let differ : op.to ≢ op.from = λ same. cc (sym free ∙ ap (λ j. get_account j s) same ∙ e) in
      record {
        before = a;
        found = e;
        matches = n;
        covered = d;
        after = payer op.tx.token (op.tx.amount + op.tx.fee) a;
        found_after = found_behind op.from op.to _ _ s s' differ left;
        used = ap next (sym n);
      }

  pub withdraw_op-Spent :
      (op : WithdrawOp)
      → apply_withdraw_op op s ≡ (ok done, s')
      → Spent op.account_id op.tx.nonce op.tx.token (op.tx.amount + op.tx.fee) s s'
  withdraw_op-Spent op h =
      let (a, e, n, d, _, left) = withdraw_inv op s s' done h in
      record {
        before = a;
        found = e;
        matches = n;
        covered = d;
        after = payer op.tx.token (op.tx.amount + op.tx.fee) a;
        found_after = ap (get_account op.account_id) left ∙ get_account_here op.account_id _ s;
        used = ap next (sym n);
      }

  pub change_pub_key_op-Spent :
      (op : ChangePubKeyOp)
      → apply_change_pub_key_op op s ≡ (ok done, s')
      → Spent op.account_id op.tx.nonce op.tx.fee_token op.tx.fee s s'
  change_pub_key_op-Spent op h =
      let (a, e, n, d, _, left) = change_pub_key_inv op s s' done h in
      record {
        before = a;
        found = e;
        matches = n;
        covered = d;
        after = with_fee_paid op a;
        found_after = ap (get_account op.account_id) left ∙ get_account_here op.account_id _ s;
        used = ap next (sym n);
      }

  pub forced_exit_op-Spent :
      (op : ForcedExitOp)
      → op.tx.initiator_account_id ≢ op.target_account_id
      → apply_forced_exit_op op s ≡ (ok done, s')
      → Spent op.tx.initiator_account_id op.tx.nonce op.tx.token op.tx.fee s s'
  forced_exit_op-Spent op differ h =
      let (a, b, e, f, n, d, _, _, left) = forced_exit_inv op s s' done h in
      record {
        before = a;
        found = e;
        matches = n;
        covered = d;
        after = payer op.tx.token op.tx.fee a;
        found_after =
            found_behind op.tx.initiator_account_id op.target_account_id _ _ s s'
              (λ same. differ (sym same)) left;
        used = ap next (sym n);
      }

-- The nonce after the next operation is another one.
pub next_ne : (n : ℕ) → n < u32_mod → next n ≢ n
next_ne n small h = omega arith
