-- ===== src/State/Explains/Handlers.antt =====
-- The reported updates of whole transactions: `apply_tx` of each handler.
use qs_react_native_zksync.Prelude.{◌≡◌, ◌≢◌, sym, subst, some, Option, inl, inr}
use qs_react_native_zksync.Account.{AccountUpdates, default_pub_key_hash}
use qs_react_native_zksync.Tx.{
  Crypto, Transfer, Withdraw, ChangePubKey, ForcedExit, Close, ZkSyncTx, transfer, withdraw, close,
  change_pub_key, forced_exit,
}
use qs_react_native_zksync.Tx.Verify.{forced_exit_signer}
use qs_react_native_zksync.State.Defs.{
  ZkSyncState, Applied, OpSuccess, CollectedFee, ZkSyncOp, into_franklin_op, get_free_account_id,
  TransferOutcome, ok,
}
use qs_react_native_zksync.State.Execute.{execute_tx}
use qs_react_native_zksync.State.Handler.Transfer.{
  create_transfer, apply_transfer_outcome, apply_transfer,
}
use qs_react_native_zksync.State.Handler.Withdraw.{
  create_withdraw, apply_withdraw_op, apply_withdraw,
}
use qs_react_native_zksync.State.Handler.ChangePubKey.{
  create_change_pub_key, apply_change_pub_key_op, apply_change_pub_key,
}
use qs_react_native_zksync.State.Handler.ForcedExit.{
  create_forced_exit, apply_forced_exit_op, apply_forced_exit,
}
use qs_react_native_zksync.State.Handler.Close.{apply_close}
use qs_react_native_zksync.State.Inversion.Create.{
  transfer_sender, transfer_recipient, withdraw_sender, change_pub_key_sender, forced_exit_parties,
  forced_exit_differ,
}
use qs_react_native_zksync.State.Inversion.Bind.{apply_created_ok}
use qs_react_native_zksync.State.Explains.{Explains, IsValid}
use qs_react_native_zksync.State.Explains.Operations.{
  transfer_op-Explains, transfer_to_new_op-Explains, withdraw_op-Explains,
  change_pub_key_op-Explains, forced_exit_op-Explains,
}

-- What `apply_tx` reports is explained if what `apply_op` reports is.
pub reported :
    {us : AccountUpdates} {fee : Option CollectedFee} {op : ZkSyncOp} {r : OpSuccess}
    {s s' : ZkSyncState}
    → r ≡ record { fee = fee; updates = us; executed_op = op }
    → Explains us s s'
    → Explains r.updates s s'
reported {s = s} {s' = s'} e x = subst (λ (u : OpSuccess). Explains u.updates s s') (sym e) x

module _ (c : Crypto) (s s' : ZkSyncState) (valid : IsValid s) (r : OpSuccess) where
  transfer_outcome-Explains :
      (tx : Transfer) (out : TransferOutcome) (done : Applied) {t : ZkSyncState}
      → create_transfer c tx s ≡ (ok out, t)
      → apply_transfer_outcome out s ≡ (ok done, s')
      → Explains done.1 s s'
  unfolding apply_transfer_outcome
  transfer_outcome-Explains tx out done {t} h k = elim (transfer_recipient c tx s t out h) [
    | inl (to, b, owns, is) ↦
        transfer_op-Explains s s' valid done (record { tx = tx; from = tx.account_id; to = to })
          (rw is at k)
    | inr (unknown, is) ↦
        transfer_to_new_op-Explains s s' valid done
          (record { tx = tx; from = tx.account_id; to = get_free_account_id s }) unknown
          (rw is at k)
  ]

  pub transfer-Explains :
      (tx : Transfer) → apply_transfer c tx s ≡ (ok r, s') → Explains r.updates s s'
  unfolding apply_transfer
  transfer-Explains tx h =
      let (out, t, done, made, applied, is) =
        apply_created_ok (create_transfer c tx) apply_transfer_outcome into_franklin_op s h in
      let (_, _, _, _, _, _, same) = transfer_sender c tx s t out made in
      reported is (transfer_outcome-Explains tx out done made (rw same at applied))

  pub withdraw-Explains :
      (tx : Withdraw) → apply_withdraw c tx s ≡ (ok r, s') → Explains r.updates s s'
  unfolding apply_withdraw
  withdraw-Explains tx h =
      let (op, t, done, made, applied, is) =
        apply_created_ok (create_withdraw c tx) apply_withdraw_op ZkSyncOp.withdraw s h in
      let (_, _, _, _, _, same, _) = withdraw_sender c tx s t op made in
      reported is (withdraw_op-Explains s s' valid done op (rw same at applied))

  pub change_pub_key-Explains :
      (tx : ChangePubKey) → apply_change_pub_key c tx s ≡ (ok r, s') → Explains r.updates s s'
  unfolding apply_change_pub_key
  change_pub_key-Explains tx h =
      let (op, t, done, made, applied, is) =
        apply_created_ok (create_change_pub_key c tx) apply_change_pub_key_op
          ZkSyncOp.change_pub_key_offchain s h in
      let (_, _, _, _, _, same, _) = change_pub_key_sender c tx s t op made in
      reported is (change_pub_key_op-Explains s s' valid done op (rw same at applied))

  pub forced_exit-Explains :
      (tx : ForcedExit)
      → forced_exit_signer c tx ≢ some (some default_pub_key_hash)
      → apply_forced_exit c tx s ≡ (ok r, s')
      → Explains r.updates s s'
  unfolding apply_forced_exit
  forced_exit-Explains tx signer h =
      let (op, t, done, made, applied, is) =
        apply_created_ok (create_forced_exit c tx) apply_forced_exit_op ZkSyncOp.forced_exit s h in
      let (_, _, _, _, _, _, _, same, _, _) = forced_exit_parties c tx s t op made in
      let differ = forced_exit_differ c tx s t op signer made in
      reported is (forced_exit_op-Explains s s' valid done op differ (rw same at applied))

-- Every transaction that succeeds is explained by its updates.
abbrev pub SignerIsSet : Crypto → ZkSyncTx → Type 0
SignerIsSet c (forced_exit tx) = forced_exit_signer c tx ≢ some (some default_pub_key_hash)
SignerIsSet c (transfer tx) = Unit
SignerIsSet c (withdraw tx) = Unit
SignerIsSet c (close tx) = Unit
SignerIsSet c (change_pub_key tx) = Unit

pub execute_tx-Explains :
    (c : Crypto) (tx : ZkSyncTx) (s s' : ZkSyncState) (r : OpSuccess)
    → IsValid s
    → SignerIsSet c tx
    → execute_tx c tx s ≡ (ok r, s')
    → Explains r.updates s s'
unfolding execute_tx
execute_tx-Explains c (transfer tx) s s' r valid set h = transfer-Explains c s s' valid r tx h
execute_tx-Explains c (withdraw tx) s s' r valid set h = withdraw-Explains c s s' valid r tx h
execute_tx-Explains c (close tx) s s' r valid set h = absurd (closed tx h)
  where
    closed : (tx : Close) → apply_close tx s ≡ (ok r, s') → ⊥
    closed tx e = unfold apply_close in cc
execute_tx-Explains c (change_pub_key tx) s s' r valid set h =
    change_pub_key-Explains c s s' valid r tx h
execute_tx-Explains c (forced_exit tx) s s' r valid set h =
    forced_exit-Explains c s s' valid r tx set h
