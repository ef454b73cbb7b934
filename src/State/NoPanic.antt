-- ===== src/State/NoPanic.antt =====
-- The `expect`s, assertions and subtractions on the way of a transaction.
use qs_react_native_zksync.Prelude.{
  ◌^◌, ◌≡◌, ◌≢◌, ◌<◌, refl, ap, ◌∙◌, arith, none, some, inl, inr, Option-cases,
}
use qs_react_native_zksync.HashMap
use qs_react_native_zksync.Account.{Account, get_balance, sub_balance}
use qs_react_native_zksync.Tx.{
  Crypto, ZkSyncTx, transfer, withdraw, close, change_pub_key, forced_exit, Transfer, Withdraw,
  ChangePubKey, ForcedExit,
}
use qs_react_native_zksync.Tx.Verify.{
  transfer_signer, withdraw_signer, change_pub_key_signer, forced_exit_signer,
}
use qs_react_native_zksync.State.Defs.{
  ZkSyncState, Result, Action, Applied, OpSuccess, ZkSyncOp, ok, err, panic, pure, ◌>>=◌,
  get_account, get_free_account_id, insert_account, TransferOp, TransferToNewOp, TransferOutcome,
  WithdrawOp, ChangePubKeyOp, into_franklin_op,
}
use qs_react_native_zksync.State.Execute.{execute_tx}
use qs_react_native_zksync.State.Handler.Base.{apply_created}
use qs_react_native_zksync.State.Handler.Transfer.{
  create_transfer, apply_transfer_op_to_self, apply_transfer_op, apply_transfer_to_new_op,
  apply_transfer_outcome, apply_transfer,
}
use qs_react_native_zksync.State.Handler.Withdraw.{
  create_withdraw, apply_withdraw_op, apply_withdraw,
}
use qs_react_native_zksync.State.Handler.ChangePubKey.{
  create_change_pub_key, apply_change_pub_key_op, apply_change_pub_key,
}
use qs_react_native_zksync.State.Handler.ForcedExit.{
  create_forced_exit, apply_forced_exit_op, apply_forced_exit,
}
use qs_react_native_zksync.State.Handler.Close.{apply_close}
use qs_react_native_zksync.State.Explains.{IsValid, found_within}
use qs_react_native_zksync.State.Errors.{
  Reads, create_withdraw-Reads, create_transfer-Reads, create_change_pub_key-Reads,
  create_forced_exit-Reads,
}
use qs_react_native_zksync.State.Priority.{backed_account}
use qs_react_native_zksync.State.Inversion.Create.{
  transfer_sender, transfer_recipient, withdraw_sender, change_pub_key_sender, forced_exit_parties,
}

-- An `apply_tx` does not panic if neither its creation nor its application does.
apply_created-runs :
    {Op : Type 0} (create : Action Op) (apply_op : Op → Action Applied) (wrap : Op → ZkSyncOp)
    (s : ZkSyncState)
    → Reads create
    → (create s).0 ≢ panic
    → ((op : Op) → create s ≡ (ok op, s) → (apply_op op s).0 ≢ panic)
    → (apply_created create apply_op wrap s).0 ≢ panic
apply_created-runs {Op} create apply_op wrap s reads made applied =
    go (create s) (reads s) made applied
  where
    report : Op → Applied → OpSuccess
    report op done = record { fee = done.0; updates = done.1; executed_op = wrap op }

    last :
        (op : Op) (q : Result Applied × ZkSyncState)
        → q.0 ≢ panic
        → (((λ (t : ZkSyncState). q) >>= λ done. pure (report op done)) s).0 ≢ panic
    last op (ok a, t) h e = cc
    last op (err e, t) h i = cc
    last op (panic, t) h e = h refl

    go :
        (p : Result Op × ZkSyncState)
        → p.1 ≡ s
        → p.0 ≢ panic
        → ((op : Op) → p ≡ (ok op, s) → (apply_op op s).0 ≢ panic)
        → (apply_created (λ (t : ZkSyncState). p) apply_op wrap s).0 ≢ panic
    go (ok op, t) same h k = rw same (last op (apply_op op s) (k op (rw same)))
    go (err e, t) same h k = λ i. cc
    go (panic, t) same h k = λ e. h refl

module _ (c : Crypto) (s : ZkSyncState) (valid : IsValid s) where
  create_withdraw_runs :
      (tx : Withdraw) → withdraw_signer c tx ≢ none → (create_withdraw c tx s).0 ≢ panic
  unfolding create_withdraw
  create_withdraw_runs tx signer h =
      elim (Option-cases (HashMap.get tx.from s.account_id_by_address)) [
        | inl e ↦ ground arith
        | inr (id, e) ↦ let (a, f, d) = backed_account s valid tx.from id e in ground arith
      ]

  withdraw_runs : (tx : Withdraw) → withdraw_signer c tx ≢ none → (apply_withdraw c tx s).0 ≢ panic
  unfolding apply_withdraw apply_withdraw_op insert_account sub_balance
  withdraw_runs tx signer =
      apply_created-runs (create_withdraw c tx) apply_withdraw_op ZkSyncOp.withdraw s
        (create_withdraw-Reads c tx) (create_withdraw_runs tx signer)
        (λ op made h.
          let (a, owns, _, _, _, _, is) = withdraw_sender c tx s s op made in
          let d = found_within tx.account_id a s valid owns.1 in
          let e : get_account op.account_id s ≡ some a =
            ap (λ (o : WithdrawOp). get_account o.account_id s) is ∙ owns.1 in
          let there : op.account_id ≡ tx.account_id = ap (λ (o : WithdrawOp). o.account_id) is in
          ground arith)

  create_change_pub_key_runs :
      (tx : ChangePubKey)
      → change_pub_key_signer c tx ≢ none
      → (create_change_pub_key c tx s).0 ≢ panic
  unfolding create_change_pub_key
  create_change_pub_key_runs tx signer h =
      elim (Option-cases (HashMap.get tx.account s.account_id_by_address)) [
        | inl e ↦ ground arith
        | inr (id, e) ↦ let (a, f, d) = backed_account s valid tx.account id e in ground arith
      ]

  change_pub_key_runs :
      (tx : ChangePubKey)
      → change_pub_key_signer c tx ≢ none
      → (apply_change_pub_key c tx s).0 ≢ panic
  unfolding apply_change_pub_key apply_change_pub_key_op insert_account sub_balance get_balance
  change_pub_key_runs tx signer =
      apply_created-runs (create_change_pub_key c tx) apply_change_pub_key_op
        ZkSyncOp.change_pub_key_offchain s (create_change_pub_key-Reads c tx)
        (create_change_pub_key_runs tx signer)
        (λ op made h.
          let (a, owns, _, _, _, _, is) = change_pub_key_sender c tx s s op made in
          let d = found_within tx.account_id a s valid owns.1 in
          let e : get_account op.account_id s ≡ some a =
            ap (λ (o : ChangePubKeyOp). get_account o.account_id s) is ∙ owns.1 in
          let there : op.account_id ≡ tx.account_id =
            ap (λ (o : ChangePubKeyOp). o.account_id) is in
          ground arith)

  create_forced_exit_runs :
      (tx : ForcedExit) → forced_exit_signer c tx ≢ none → (create_forced_exit c tx s).0 ≢ panic
  unfolding create_forced_exit
  create_forced_exit_runs tx signer h =
      elim (Option-cases (HashMap.get tx.target s.account_id_by_address)) [
        | inl e ↦ ground arith
        | inr (id, e) ↦ let (a, f, d) = backed_account s valid tx.target id e in ground arith
      ]

  forced_exit_runs :
      (tx : ForcedExit) → forced_exit_signer c tx ≢ none → (apply_forced_exit c tx s).0 ≢ panic
  unfolding apply_forced_exit apply_forced_exit_op insert_account sub_balance
  forced_exit_runs tx signer =
      apply_created-runs (create_forced_exit c tx) apply_forced_exit_op ZkSyncOp.forced_exit s
        (create_forced_exit-Reads c tx) (create_forced_exit_runs tx signer)
        (λ op made h.
          let (a, b, e, owns, _, _, _, _, is, _) = forced_exit_parties c tx s s op made in
          let d = found_within tx.initiator_account_id a s valid e in
          let d' = found_within op.target_account_id b s valid owns.1 in
          let f : get_account op.tx.initiator_account_id s ≡ some a =
            ap (λ (x : ForcedExit). get_account x.initiator_account_id s) is ∙ e in
          let there : op.tx.initiator_account_id ≡ tx.initiator_account_id =
            ap (λ (x : ForcedExit). x.initiator_account_id) is in
          ground arith)

  create_transfer_runs :
      (tx : Transfer) → transfer_signer c tx ≢ none → (create_transfer c tx s).0 ≢ panic
  unfolding create_transfer
  create_transfer_runs tx signer h =
      elim (Option-cases (HashMap.get tx.from s.account_id_by_address)) [
        | inl e ↦ ground arith
        | inr (id, e) ↦
            let (a, f, d) = backed_account s valid tx.from id e in
            elim (Option-cases (HashMap.get tx.to s.account_id_by_address)) [
              | inl e2 ↦ ground arith
              | inr (to, e2) ↦ let (b, f2, d2) = backed_account s valid tx.to to e2 in ground arith
            ]
      ]

  transfer_op_runs :
      (op : TransferOp) (a b : Account)
      → get_account op.from s ≡ some a
      → get_account op.to s ≡ some b
      → (apply_transfer_op op s).0 ≢ panic
  unfolding apply_transfer_op apply_transfer_op_to_self insert_account sub_balance
  transfer_op_runs op a b e f h =
      let d = found_within op.from a s valid e in
      let d' = found_within op.to b s valid f in ground arith

  transfer_to_new_op_runs :
      (op : TransferToNewOp) (a : Account)
      → get_account op.from s ≡ some a
      → get_account op.to s ≡ none
      → op.to < 2 ^ s.balance_tree.tree_depth
      → (apply_transfer_to_new_op op s).0 ≢ panic
  unfolding apply_transfer_to_new_op insert_account sub_balance
  transfer_to_new_op_runs op a e f d' h = let d = found_within op.from a s valid e in ground arith

  module _ (free : get_account (get_free_account_id s) s ≡ none)
      (room : get_free_account_id s < 2 ^ s.balance_tree.tree_depth) where
    transfer_outcome_runs :
        (tx : Transfer) (out : TransferOutcome)
        → create_transfer c tx s ≡ (ok out, s)
        → (apply_transfer_outcome out s).0 ≢ panic
    unfolding apply_transfer_outcome
    transfer_outcome_runs tx out made =
        let (a, owns, _, _, _, _, _) = transfer_sender c tx s s out made in
        elim (transfer_recipient c tx s s out made) [
          | inl (to, b, owned, is) ↦ rw is (
              transfer_op_runs (record { tx = tx; from = tx.account_id; to = to }) a b owns.1
                owned.1)
          | inr (_, is) ↦ rw is (
              transfer_to_new_op_runs
                (record { tx = tx; from = tx.account_id; to = get_free_account_id s }) a owns.1 free
                room)
        ]

    transfer_runs :
        (tx : Transfer) → transfer_signer c tx ≢ none → (apply_transfer c tx s).0 ≢ panic
    unfolding apply_transfer
    transfer_runs tx signer =
        apply_created-runs (create_transfer c tx) apply_transfer_outcome into_franklin_op s
          (create_transfer-Reads c tx) (create_transfer_runs tx signer) (transfer_outcome_runs tx)

-- The recovery of the signer does not panic: the amounts of the transaction can be packed.
abbrev pub SignerRuns : Crypto → ZkSyncTx → Type 0
SignerRuns c (transfer tx) = transfer_signer c tx ≢ none
SignerRuns c (withdraw tx) = withdraw_signer c tx ≢ none
SignerRuns c (close tx) = Unit
SignerRuns c (change_pub_key tx) = change_pub_key_signer c tx ≢ none
SignerRuns c (forced_exit tx) = forced_exit_signer c tx ≢ none

-- No transaction makes a valid state panic, if its signer can be recovered, and the free id is free
-- and in the tree: it succeeds or it is refused.
pub execute_tx-no_panic :
    (c : Crypto) (tx : ZkSyncTx) (s : ZkSyncState)
    → IsValid s
    → get_account (get_free_account_id s) s ≡ none
    → get_free_account_id s < 2 ^ s.balance_tree.tree_depth
    → SignerRuns c tx
    → (execute_tx c tx s).0 ≢ panic
unfolding execute_tx apply_close
execute_tx-no_panic c (transfer tx) s valid free room signer =
    transfer_runs c s valid free room tx signer
execute_tx-no_panic c (withdraw tx) s valid free room signer = withdraw_runs c s valid tx signer
execute_tx-no_panic c (close tx) s valid free room signer = λ h. cc
execute_tx-no_panic c (change_pub_key tx) s valid free room signer =
    change_pub_key_runs c s valid tx signer
execute_tx-no_panic c (forced_exit tx) s valid free room signer =
    forced_exit_runs c s valid tx signer
