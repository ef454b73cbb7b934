-- ===== src/State/Conservation.antt =====
-- Transactions and the sum of a token over all accounts: fees, and what leaves the network.
use qs_react_native_zksync.Prelude.{
  ℕ, ◌+◌, ◌≡◌, ◌≢◌, sym, ap, ◌∙◌, arith, Option, none, some, inl, inr, eq_cases,
}
use qs_react_native_zksync.Account.{AccountUpdates, get_balance, or_zero}
use qs_react_native_zksync.Tx.{
  Crypto, ZkSyncTx, transfer, withdraw, close, change_pub_key, forced_exit, Transfer,
}
use qs_react_native_zksync.State.Defs.{
  ZkSyncState, Applied, CollectedFee, OpSuccess, ZkSyncOp, ok, get_account, inserted, TransferOp,
  TransferToNewOp, TransferOutcome, WithdrawOp, ChangePubKeyOp, ForcedExitOp, into_franklin_op,
}
use qs_react_native_zksync.State.Handler.Transfer.{
  create_transfer, apply_transfer_op, apply_transfer_to_new_op, apply_transfer_outcome,
  apply_transfer,
}
use qs_react_native_zksync.State.Handler.Withdraw.{
  create_withdraw, apply_withdraw_op, apply_withdraw,
}
use qs_react_native_zksync.State.Handler.ChangePubKey.{
  create_change_pub_key, apply_change_pub_key_op, apply_change_pub_key,
}
use qs_react_native_zksync.State.Handler.ForcedExit.{
  create_forced_exit, apply_forced_exit_op, apply_forced_exit,
}
use qs_react_native_zksync.State.Steps.{get_account_there}
use qs_react_native_zksync.State.Execute.{execute_tx}
use qs_react_native_zksync.State.Supply.{
  supply, counted, supply-payer, supply-payee, supply-new, supply-rebalanced, supply-rekeyed,
}
use qs_react_native_zksync.State.Explains.Handlers.{SignerIsSet}
use qs_react_native_zksync.State.Authority.{close_fails}
use qs_react_native_zksync.State.Inversion.Bind.{apply_created_ok}
use qs_react_native_zksync.State.Inversion.Create.{
  transfer_sender, withdraw_sender, change_pub_key_sender, forced_exit_parties, forced_exit_differ,
}
use qs_react_native_zksync.State.Inversion.Transfers.{
  next, payer, transfer_inv, to_self_inv, transfer_self, to_new_inv, withdraw_inv,
}
use qs_react_native_zksync.State.Inversion.Others.{change_pub_key_inv, forced_exit_inv}

-- The fee of an operation, counted for a token.
abbrev pub fee_part : Option CollectedFee → ℕ → ℕ
fee_part none t = 0
fee_part (some fee) t = counted fee.token fee.amount t

-- What an operation takes out of the network, counted for a token.
abbrev pub exit_part : ZkSyncOp → ℕ → ℕ
exit_part (ZkSyncOp.withdraw op) t = counted op.tx.token op.tx.amount t
exit_part (ZkSyncOp.forced_exit op) t = counted op.tx.token (or_zero op.withdraw_amount) t
exit_part (ZkSyncOp.full_exit op) t = counted op.priority_op.token (or_zero op.withdraw_amount) t
exit_part (ZkSyncOp.deposit op) t = 0
exit_part (ZkSyncOp.transfer op) t = 0
exit_part (ZkSyncOp.transfer_to_new op) t = 0
exit_part (ZkSyncOp.close op) t = 0
exit_part (ZkSyncOp.change_pub_key_offchain op) t = 0
exit_part ZkSyncOp.noop t = 0

module _ (s s' : ZkSyncState) (done : Applied) (t : ℕ) where
  -- What an operation reports as its fee and takes out is missing afterwards.
  abbrev Balanced : ℕ → Type 0
  Balanced exit = supply t s' + (fee_part done.0 t + exit) ≡ supply t s

  balanced :
      (exit : ℕ) {fee : CollectedFee} {us : AccountUpdates} {u : ZkSyncState}
      → done ≡ (some fee, us)
      → s' ≡ u
      → supply t u + (counted fee.token fee.amount t + exit) ≡ supply t s
      → Balanced exit
  balanced exit e f h = rw (e, f) h

  transfer_op-Balanced : (op : TransferOp) → apply_transfer_op op s ≡ (ok done, s') → Balanced 0
  transfer_op-Balanced op h = elim (eq_cases op.from op.to) [
    | inl same ↦
        let (a, e, _, _, d, reported, left) =
          to_self_inv op s s' done (transfer_self op s s' done same h) in
        balanced _ reported left
          (ground (arith, supply-payer op.from op.tx.token t a s op.tx.fee e (omega arith)))
    | inr differ ↦
        let (a, b, e, f, _, d, reported, left) = transfer_inv op s s' done differ h in
        let cost = op.tx.amount + op.tx.fee in
        let s1 : ZkSyncState = inserted op.from (payer op.tx.token cost a) s in
        balanced _ reported left (
          ground (
            arith,
            supply-payer op.from op.tx.token t a s cost e d,
            supply-payee op.to op.tx.token t b s1 op.tx.amount
                (get_account_there op.from op.to _ s differ ∙ f),
          ))
  ]

  transfer_to_new_op-Balanced :
      (op : TransferToNewOp) → apply_transfer_to_new_op op s ≡ (ok done, s') → Balanced 0
  transfer_to_new_op-Balanced op h =
      let (a, e, free, _, d, _, reported, left) = to_new_inv op s s' done h in
      let differ : op.from ≢ op.to = λ same. cc (sym e ∙ ap (λ j. get_account j s) same ∙ free) in
      let cost = op.tx.amount + op.tx.fee in
      let s1 : ZkSyncState = inserted op.from (payer op.tx.token cost a) s in
      balanced _ reported left (
        ground (
          arith,
          supply-payer op.from op.tx.token t a s cost e d,
          supply-new op.to op.tx.token t a s1 op.tx.amount op.tx.to
              (get_account_there op.from op.to _ s differ ∙ free),
        ))

  withdraw_op-Balanced :
      (op : WithdrawOp)
      → apply_withdraw_op op s ≡ (ok done, s')
      → Balanced (counted op.tx.token op.tx.amount t)
  withdraw_op-Balanced op h =
      let (a, e, _, d, reported, left) = withdraw_inv op s s' done h in
      balanced _ reported left (
        ground (arith, supply-payer op.account_id op.tx.token t a s (op.tx.amount + op.tx.fee) e d))

  forced_exit_op-Balanced :
      (op : ForcedExitOp)
      → op.tx.initiator_account_id ≢ op.target_account_id
      → apply_forced_exit_op op s ≡ (ok done, s')
      → Balanced (counted op.tx.token (or_zero op.withdraw_amount) t)
  forced_exit_op-Balanced op differ h =
      let (a, b, e, f, _, d, whole, reported, left) = forced_exit_inv op s s' done h in
      let s1 : ZkSyncState =
        inserted op.tx.initiator_account_id (payer op.tx.token op.tx.fee a) s in
      balanced _ reported left (
        ground (
          arith,
          supply-payer op.tx.initiator_account_id op.tx.token t a s op.tx.fee e d,
          supply-rebalanced op.target_account_id op.tx.token t b s1 0 b.nonce
              (get_account_there op.tx.initiator_account_id op.target_account_id _ s differ ∙ f),
          whole,
        ))

  change_pub_key_op-Balanced :
      (op : ChangePubKeyOp) → apply_change_pub_key_op op s ≡ (ok done, s') → Balanced 0
  unfolding get_balance
  change_pub_key_op-Balanced op h =
      let (a, e, _, d, reported, left) = change_pub_key_inv op s s' done h in
      balanced _ reported left (
        ground (
          arith,
          supply-rekeyed op.account_id op.tx.fee_token t a s op.tx.new_pk_hash (next a.nonce)
              op.tx.fee e d,
        ))

module _ (c : Crypto) (s s' : ZkSyncState) (r : OpSuccess) (t : ℕ) where
  -- What `apply_op` leaves balanced is balanced as `apply_tx` reports it.
  reported :
      {done : Applied} {op : ZkSyncOp}
      → r ≡ record { fee = done.0; updates = done.1; executed_op = op }
      → supply t s' + (fee_part done.0 t + exit_part op t) ≡ supply t s
      → supply t s' + (fee_part r.fee t + exit_part r.executed_op t) ≡ supply t s
  reported is h = rw is h

  transfer_outcome-Balanced :
      (tx : Transfer) (out : TransferOutcome) (done : Applied) {u : ZkSyncState}
      → create_transfer c tx s ≡ (ok out, u)
      → apply_transfer_outcome out s ≡ (ok done, s')
      → supply t s' + (fee_part done.0 t + exit_part (into_franklin_op out) t) ≡ supply t s
  unfolding apply_transfer_outcome
  transfer_outcome-Balanced tx (TransferOutcome.transfer op) done h k =
      transfer_op-Balanced s s' done t op k
  transfer_outcome-Balanced tx (TransferOutcome.transfer_to_new op) done h k =
      transfer_to_new_op-Balanced s s' done t op k

  -- A transaction that succeeds conserves every token: what all accounts hold after it, with the
  -- reported fee and the amount that a withdrawal or a forced exit takes out, is what they held
  -- before. The signer of a forced exit is assumed not to be the hash that stands for no key.
  pub execute_tx-conserves :
      (tx : ZkSyncTx)
      → SignerIsSet c tx
      → execute_tx c tx s ≡ (ok r, s')
      → supply t s' + (fee_part r.fee t + exit_part r.executed_op t) ≡ supply t s
  unfolding execute_tx apply_transfer apply_withdraw apply_change_pub_key apply_forced_exit
  execute_tx-conserves (transfer tx) set h =
      let (out, u, done, made, applied, is) =
        apply_created_ok (create_transfer c tx) apply_transfer_outcome into_franklin_op s h in
      let (_, _, _, _, _, _, same) = transfer_sender c tx s u out made in
      reported is (transfer_outcome-Balanced tx out done made (rw same at applied))
  execute_tx-conserves (withdraw tx) set h =
      let (op, u, done, made, applied, is) =
        apply_created_ok (create_withdraw c tx) apply_withdraw_op ZkSyncOp.withdraw s h in
      let (_, _, _, _, _, same, _) = withdraw_sender c tx s u op made in
      reported is (withdraw_op-Balanced s s' done t op (rw same at applied))
  execute_tx-conserves (close tx) set h = absurd (close_fails tx s s' r h)
  execute_tx-conserves (change_pub_key tx) set h =
      let (op, u, done, made, applied, is) =
        apply_created_ok (create_change_pub_key c tx) apply_change_pub_key_op
          ZkSyncOp.change_pub_key_offchain s h in
      let (_, _, _, _, _, same, _) = change_pub_key_sender c tx s u op made in
      reported is (change_pub_key_op-Balanced s s' done t op (rw same at applied))
  execute_tx-conserves (forced_exit tx) set h =
      let (op, u, done, made, applied, is) =
        apply_created_ok (create_forced_exit c tx) apply_forced_exit_op ZkSyncOp.forced_exit s h in
      let (_, _, _, _, _, _, _, same, _, _) = forced_exit_parties c tx s u op made in
      reported is (
        forced_exit_op-Balanced s s' done t op (forced_exit_differ c tx s u op set made)
          (rw same at applied))
