-- ===== src/State/Explains/Operations.antt =====
-- The reported updates of operations: `apply_op` of each handler.
use qs_react_native_zksync.Prelude.{
  ℕ, ◌+◌, ◌-◌, ◌≡◌, ◌≢◌, refl, ap, ◌∙◌, sym, fun_ext, subst, none, some, [], arith, inl, inr,
  eq_cases, Option-cases, Option,
}
use qs_react_native_zksync.HashMap
use qs_react_native_zksync.HashMap.Laws.{insert-IsUnique}
use qs_react_native_zksync.Account.{Account, AccountUpdates, get_balance}
use qs_react_native_zksync.Account.View.{AccountView, view_account, put}
use qs_react_native_zksync.State.Defs.{
  ZkSyncState, Applied, CollectedFee, TransferOp, TransferToNewOp, WithdrawOp, ChangePubKeyOp,
  ForcedExitOp, DepositOp, FullExitOp, ok, get_account, inserted,
}
use qs_react_native_zksync.State.Handler.Transfer.{apply_transfer_op, apply_transfer_to_new_op}
use qs_react_native_zksync.State.Handler.Withdraw.{apply_withdraw_op}
use qs_react_native_zksync.State.Handler.ChangePubKey.{apply_change_pub_key_op}
use qs_react_native_zksync.State.Handler.ForcedExit.{apply_forced_exit_op}
use qs_react_native_zksync.State.Handler.Priority.{apply_deposit_op, apply_full_exit_op}
use qs_react_native_zksync.State.View.{StateView, view, store, view-inserted}
use qs_react_native_zksync.State.Steps.{
  balance_step, create_step, key_step, fresh_account, get_account_here, get_account_there,
  view-inserted_twice, address-rebalanced,
}
use qs_react_native_zksync.State.Inversion.Transfers.{
  transfer_inv, to_self_inv, transfer_self, withdraw_inv, to_new_inv, payer, payee, next,
}
use qs_react_native_zksync.State.Inversion.Others.{
  change_pub_key_inv, forced_exit_inv, deposit_inv, withdraw_all_inv, with_new_key, with_fee_paid,
}
use qs_react_native_zksync.State.Explains.{Explains, IsValid, one_change, two_changes, found_within}

explained :
    {s s' t : ZkSyncState} {r : Applied} {fee : Option CollectedFee} {us : AccountUpdates}
    → r ≡ (fee, us)
    → s' ≡ t
    → Explains us s t
    → Explains r.1 s s'
explained {s} {s'} {t} {r} {us = us} p q e =
    subst (λ u. Explains u s s') (sym (ap (λ (x : Applied). x.1) p))
      (subst (λ x. Explains us s x) (sym q) e)

-- A new account stored, then another that exists, then the new one again: the first write is lost.
store-lost :
    (id j : ℕ) (a b p q : AccountView) (v : StateView)
    → id ≢ j
    → v.accounts id ≡ none
    → v.accounts j ≡ some q
    → a.address ≡ b.address
    → store id b (store j p (store id a v)) ≡ store id b (store j p v)
store-lost id j a b p q v ne free found same = λ k. record {
  accounts = accounts_lost k;
  ids = ids_lost k;
  size = size_lost k;
  depth = v.depth;
  block_number = v.block_number;
}
  where
    accounts_lost :
        put (put (put v.accounts id (some a)) j (some p)) id (some b)
        ≡ put (put v.accounts j (some p)) id (some b)
    accounts_lost = fun_ext λ k. ground arith

    ids_lost :
        put (put (put v.ids a.address (some id)) p.address (some j)) b.address (some id)
        ≡ put (put v.ids p.address (some j)) b.address (some id)
    ids_lost = rw same (fun_ext λ k. ground arith)

    size_lost : (store id b (store j p (store id a v))).size ≡ (store id b (store j p v)).size
    size_lost = ground arith

view-lost :
    (id j : ℕ) (a b p q : Account) (s : ZkSyncState)
    → id ≢ j
    → get_account id s ≡ none
    → get_account j s ≡ some q
    → a.address ≡ b.address
    → view (inserted id b (inserted j p (inserted id a s))) ≡ view (inserted id b (inserted j p s))
view-lost id j a b p q s ne free found same =
    view-inserted id b (inserted j p (inserted id a s))
    ∙ ap (store id (view_account b))
        (view-inserted j p (inserted id a s) ∙ ap (store j (view_account p)) (view-inserted id a s))
    ∙ store-lost id j (view_account a) (view_account b) (view_account p) (view_account q) (view s)
        ne (rw free) (rw found) same
    ∙ sym
        (view-inserted id b (inserted j p s) ∙ ap (store id (view_account b)) (view-inserted j p s))

module _ (s s' : ZkSyncState) (valid : IsValid s) (r : Applied) where
  pub transfer_op-Explains :
      (op : TransferOp) → apply_transfer_op op s ≡ (ok r, s') → Explains r.1 s s'
  transfer_op-Explains op h = elim (eq_cases op.from op.to) [
    | inl same ↦
        let (a, e, _, _, _, reported, left) =
          to_self_inv op s s' r (transfer_self op s s' r same h) in
        explained reported left (one_change op.from op.tx.token _ _ a s valid e)
    | inr differ ↦
        let (a, b, e, f, _, _, reported, left) = transfer_inv op s s' r differ h in
        explained reported left
          (two_changes op.from op.tx.token _ _ op.to _ _ a b s valid differ e f)
  ]

  pub withdraw_op-Explains :
      (op : WithdrawOp) → apply_withdraw_op op s ≡ (ok r, s') → Explains r.1 s s'
  withdraw_op-Explains op h =
      let (a, e, _, _, reported, left) = withdraw_inv op s s' r h in
      explained reported left (one_change op.account_id op.tx.token _ _ a s valid e)

  pub transfer_to_new_op-Explains :
      (op : TransferToNewOp)
      → HashMap.get op.tx.to s.account_id_by_address ≡ none
      → apply_transfer_to_new_op op s ≡ (ok r, s')
      → Explains r.1 s s'
  transfer_to_new_op-Explains op unknown h =
      let (a, e, free, _, _, d, reported, left) = to_new_inv op s s' r h in
      let new : Account = fresh_account op.tx.to in
      let t = op.tx.token in
      let paid : Account = payer t (op.tx.amount + op.tx.fee) a in
      let credited : Account = payee t op.tx.amount new in
      let differ : op.to ≢ op.from = λ same. cc (sym free ∙ ap (λ j. get_account j s) same ∙ e) in
      let s1 : ZkSyncState = inserted op.to new s in
      let s2 : ZkSyncState = inserted op.from paid s1 in
      explained reported left (record {
        agrees = rw (create_step op.to op.tx.to s free unknown d) (
            rw
              (balance_step op.from t _ _ a s1 (get_account_there op.to op.from new s differ ∙ e)
                (found_within op.from a s valid e))
              (rw
                (balance_step op.to t _ _ new s2
                  (get_account_there op.from op.to paid s1 (λ same. differ (sym same))
                    ∙ get_account_here op.to new s)
                  d)
                (ap some (
                  view-lost op.to op.from new credited paid a s differ free e (
                    sym
                      (address-rebalanced t (get_balance t new + op.tx.amount) new.nonce new))))));
        reversible = (rw free, λ w p. (tt, λ x q. (tt, λ y z. tt)));
        unique =
            insert-IsUnique op.to credited (HashMap.insert op.from paid s.balance_tree.items)
              (insert-IsUnique op.from paid s.balance_tree.items valid.unique);
      })

  pub change_pub_key_op-Explains :
      (op : ChangePubKeyOp) → apply_change_pub_key_op op s ≡ (ok r, s') → Explains r.1 s s'
  change_pub_key_op-Explains op h =
      let (a, e, _, _, reported, left) = change_pub_key_inv op s s' r h in
      let id = op.account_id in
      let d = found_within id a s valid e in
      let keyed : Account = with_new_key op a in
      let s1 : ZkSyncState = inserted id keyed s in
      explained reported left (record {
        agrees = rw (key_step id op.tx.new_pk_hash (next a.nonce) a s e d) (
            rw (balance_step id op.tx.fee_token _ _ keyed s1 (get_account_here id keyed s) d) (
              ap some (
                view-inserted_twice id keyed (with_fee_paid op a) s (
                  sym (
                    address-rebalanced op.tx.fee_token
                      (get_balance op.tx.fee_token keyed - op.tx.fee) (next a.nonce) keyed)))));
        reversible = (tt, λ w p. (tt, λ x q. tt));
        unique = insert-IsUnique id (with_fee_paid op a) s.balance_tree.items valid.unique;
      })

  -- The initiator and the target are different accounts.
  pub forced_exit_op-Explains :
      (op : ForcedExitOp)
      → op.tx.initiator_account_id ≢ op.target_account_id
      → apply_forced_exit_op op s ≡ (ok r, s')
      → Explains r.1 s s'
  forced_exit_op-Explains op differ h =
      let (a, b, e, f, _, _, _, reported, left) = forced_exit_inv op s s' r h in
      explained reported left (
        two_changes op.tx.initiator_account_id op.tx.token _ _ op.target_account_id _ _ a b s valid
          differ e f)

  pub full_exit_op-Explains :
      (op : FullExitOp) → apply_full_exit_op op s ≡ (ok r, s') → Explains r.1 s s'
  unfolding apply_full_exit_op
  full_exit_op-Explains op h = elim (Option-cases op.withdraw_amount) [
    | inl e ↦
        explained {s = s} {s' = s'} {t = s} {r = r} {fee = none} {us = []} (ground arith)
          (ground arith) (record { agrees = refl; reversible = tt; unique = valid.unique })
    | inr (amount, e) ↦
        let (a, f, _, reported, left) =
          withdraw_all_inv op.priority_op amount s s' r (ground arith) in
        explained reported left
          (one_change op.priority_op.account_id op.priority_op.token _ _ a s valid f)
  ]

  -- A deposit that creates an account does so for an address that is unknown.
  pub deposit_op-Explains :
      (op : DepositOp)
      → (get_account op.account_id s ≡ none
          → HashMap.get op.priority_op.to s.account_id_by_address ≡ none)
      → apply_deposit_op op s ≡ (ok r, s')
      → Explains r.1 s s'
  deposit_op-Explains op unknown h = elim (Option-cases (get_account op.account_id s)) [
    | inl free ↦
        let (d, reported, left) = rw free at (deposit_inv op s s' r h) in
        let id = op.account_id in
        let t = op.priority_op.token in
        let new : Account = fresh_account op.priority_op.to in
        let credited : Account = payee t op.priority_op.amount new in
        explained reported left (record {
          agrees = rw (create_step id op.priority_op.to s free (unknown free) d) (
              rw (balance_step id t _ _ new (inserted id new s) (get_account_here id new s) d) (
                ap some (
                  view-inserted_twice id new credited s (
                    sym (
                      address-rebalanced t (get_balance t new + op.priority_op.amount) new.nonce
                        new)))));
          reversible = (rw free, λ w p. (tt, λ x q. tt));
          unique = insert-IsUnique id credited s.balance_tree.items valid.unique;
        })
    | inr (a, e) ↦
        let (d, reported, left) = rw e at (deposit_inv op s s' r h) in
        explained reported left (one_change op.account_id op.priority_op.token _ _ a s valid e)
  ]
