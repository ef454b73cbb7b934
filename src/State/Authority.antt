-- ===== src/State/Authority.antt =====
-- Who has signed a transaction that succeeds, and what happens to its nonce.
use qs_react_native_zksync.Prelude.{
  ℕ, ◌+◌, ◌≡◌, ◌≢◌, ◌≤◌, ◌<◌, ◌⊎◌, refl, sym, ap, ◌∙◌, none, some, inl, inr,
}
use qs_react_native_zksync.Params.{u32_mod, max_token_id}
use qs_react_native_zksync.Account.{Account, default_pub_key_hash, zero_address}
use qs_react_native_zksync.Tx.{
  Crypto, ZkSyncTx, transfer, withdraw, close, change_pub_key, forced_exit, Transfer, Close,
}
use qs_react_native_zksync.Tx.Verify.{
  transfer_signer, withdraw_signer, change_pub_key_signer, forced_exit_signer, eth_signer,
}
use qs_react_native_zksync.State.Defs.{
  ZkSyncState, Applied, OpSuccess, ok, get_account, TransferOutcome, into_franklin_op, ZkSyncOp,
  get_free_account_id,
}
use qs_react_native_zksync.State.Handler.Transfer.{
  create_transfer, apply_transfer_outcome, apply_transfer,
}
use qs_react_native_zksync.State.Handler.Withdraw.{
  create_withdraw, apply_withdraw_op, apply_withdraw,
}
use qs_react_native_zksync.State.Handler.ChangePubKey.{
  create_change_pub_key, apply_change_pub_key_op, apply_change_pub_key,
}
use qs_react_native_zksync.State.Handler.ForcedExit.{
  create_forced_exit, apply_forced_exit_op, apply_forced_exit,
}
use qs_react_native_zksync.State.Handler.Close.{apply_close}
use qs_react_native_zksync.State.Execute.{execute_tx}
use qs_react_native_zksync.State.Inversion.Create.{
  Owns, transfer_sender, transfer_recipient, withdraw_sender, change_pub_key_sender,
  forced_exit_parties, forced_exit_differ, some_eq,
}
use qs_react_native_zksync.State.Inversion.Bind.{apply_created_ok}
use qs_react_native_zksync.State.Explains.Handlers.{SignerIsSet}
use qs_react_native_zksync.State.Spending

-- What the signatures of a transaction say of the state it runs in.
abbrev pub Signed : Crypto → ZkSyncTx → ZkSyncState → Type 0
Signed c (transfer tx) s =
    (a : Account) × Owns tx.from tx.account_id a s
    × (a.pub_key_hash ≢ default_pub_key_hash)
    × (transfer_signer c tx ≡ some (some a.pub_key_hash))
    × (tx.token ≤ max_token_id)
    × (tx.to ≢ zero_address)
Signed c (withdraw tx) s =
    (a : Account) × Owns tx.from tx.account_id a s
    × (a.pub_key_hash ≢ default_pub_key_hash)
    × (withdraw_signer c tx ≡ some (some a.pub_key_hash))
    × (tx.token ≤ max_token_id)
Signed c (close tx) s = ⊥
Signed c (change_pub_key tx) s =
    (a : Account) × Owns tx.account tx.account_id a s
    × ((tx.eth_signature ≡ none) ⊎ (eth_signer c tx ≡ some a.address))
    × (change_pub_key_signer c tx ≡ some (some tx.new_pk_hash))
Signed c (forced_exit tx) s =
    (a : Account) × (id : ℕ) × (b : Account) × (get_account tx.initiator_account_id s ≡ some a)
    × (forced_exit_signer c tx ≡ some (some a.pub_key_hash))
    × Owns tx.target id b s
    × (b.pub_key_hash ≡ default_pub_key_hash)
    × (tx.token ≤ max_token_id)

pub close_fails :
    (tx : Close) (s s' : ZkSyncState) (r : OpSuccess) → apply_close tx s ≡ (ok r, s') → ⊥
close_fails tx s s' r e = unfold apply_close in cc

-- A transfer or a withdrawal succeeds only from the account that its sender's address stands for,
-- signed with the key of that account, which is set; a change of the key only for the account that
-- its address stands for, signed with the new key and, if it carries one, with the Ethereum
-- signature of the address; a forced exit only signed with the initiator's key, and from a target
-- that has no key. A `Close` never succeeds.
pub execute_tx-Signed :
    (c : Crypto) (tx : ZkSyncTx) (s s' : ZkSyncState) (r : OpSuccess)
    → execute_tx c tx s ≡ (ok r, s')
    → Signed c tx s
unfolding execute_tx apply_transfer apply_withdraw apply_change_pub_key apply_forced_exit
execute_tx-Signed c (transfer tx) s s' r h =
    let (out, t, done, made, applied, is) =
      apply_created_ok (create_transfer c tx) apply_transfer_outcome into_franklin_op s h in
    let (a, owns, key, signed, token, to, same) = transfer_sender c tx s t out made in
    (a, owns, key, signed, token, to)
execute_tx-Signed c (withdraw tx) s s' r h =
    let (op, t, done, made, applied, is) =
      apply_created_ok (create_withdraw c tx) apply_withdraw_op ZkSyncOp.withdraw s h in
    let (a, owns, key, signed, token, _, _) = withdraw_sender c tx s t op made in
    (a, owns, key, signed, token)
execute_tx-Signed c (close tx) s s' r h = close_fails tx s s' r h
execute_tx-Signed c (change_pub_key tx) s s' r h =
    let (op, t, done, made, applied, is) =
      apply_created_ok (create_change_pub_key c tx) apply_change_pub_key_op
        ZkSyncOp.change_pub_key_offchain s h in
    let (a, owns, eth, signed, _, _, _) = change_pub_key_sender c tx s t op made in
    (a, owns, eth, signed)
execute_tx-Signed c (forced_exit tx) s s' r h =
    let (op, t, done, made, applied, is) =
      apply_created_ok (create_forced_exit c tx) apply_forced_exit_op ZkSyncOp.forced_exit s h in
    let (a, b, e, owns, locked, signed, token, _, _, _) = forced_exit_parties c tx s t op made in
    (a, op.target_account_id, b, e, signed, owns, locked, token)

-- The token and the amount that a transaction takes from the account that pays.
abbrev pub cost_token : ZkSyncTx → ℕ
cost_token (transfer tx) = tx.token
cost_token (withdraw tx) = tx.token
cost_token (close tx) = 0
cost_token (change_pub_key tx) = tx.fee_token
cost_token (forced_exit tx) = tx.token

abbrev pub cost : ZkSyncTx → ℕ
cost (transfer tx) = tx.amount + tx.fee
cost (withdraw tx) = tx.amount + tx.fee
cost (close tx) = 0
cost (change_pub_key tx) = tx.fee
cost (forced_exit tx) = tx.fee

module _ (c : Crypto) (s s' : ZkSyncState) (r : OpSuccess) where
  transfer_outcome-Spent :
      (tx : Transfer) (out : TransferOutcome) (done : Applied) {t : ZkSyncState}
      → create_transfer c tx s ≡ (ok out, t)
      → apply_transfer_outcome out s ≡ (ok done, s')
      → Spending.Spent tx.account_id tx.nonce tx.token (tx.amount + tx.fee) s s'
  unfolding apply_transfer_outcome
  transfer_outcome-Spent tx out done {t} h k = elim (transfer_recipient c tx s t out h) [
    | inl (to, b, owns, is) ↦
        Spending.transfer_op-Spent s s' done (record { tx = tx; from = tx.account_id; to = to })
          (rw is at k)
    | inr (unknown, is) ↦
        Spending.transfer_to_new_op-Spent s s' done
          (record { tx = tx; from = tx.account_id; to = get_free_account_id s }) (rw is at k)
  ]

  -- A transaction succeeds only with the nonce of the account that pays, and if the account covers
  -- the cost; it leaves the account with the next nonce. The signer of a forced exit is assumed not
  -- to be the hash that stands for no key.
  pub execute_tx-Spent :
      (tx : ZkSyncTx)
      → SignerIsSet c tx
      → execute_tx c tx s ≡ (ok r, s')
      → (id : ℕ) × (Spending.paying_account tx ≡ some id)
        × Spending.Spent id (Spending.nonce tx) (cost_token tx) (cost tx) s s'
  unfolding execute_tx apply_transfer apply_withdraw apply_change_pub_key apply_forced_exit
  execute_tx-Spent (transfer tx) set h =
      let (out, t, done, made, applied, is) =
        apply_created_ok (create_transfer c tx) apply_transfer_outcome into_franklin_op s h in
      let (_, _, _, _, _, _, same) = transfer_sender c tx s t out made in
      (tx.account_id, refl, transfer_outcome-Spent tx out done made (rw same at applied))
  execute_tx-Spent (withdraw tx) set h =
      let (op, t, done, made, applied, is) =
        apply_created_ok (create_withdraw c tx) apply_withdraw_op ZkSyncOp.withdraw s h in
      let (_, _, _, _, _, same, is_op) = withdraw_sender c tx s t op made in
      (
        tx.account_id,
        refl,
        Spending.withdraw_op-Spent s s' done (record { tx = tx; account_id = tx.account_id })
            (rw (same, is_op) at applied),
      )
  execute_tx-Spent (close tx) set h = absurd (close_fails tx s s' r h)
  execute_tx-Spent (change_pub_key tx) set h =
      let (op, t, done, made, applied, is) =
        apply_created_ok (create_change_pub_key c tx) apply_change_pub_key_op
          ZkSyncOp.change_pub_key_offchain s h in
      let (_, _, _, _, _, same, is_op) = change_pub_key_sender c tx s t op made in
      (
        tx.account_id,
        refl,
        Spending.change_pub_key_op-Spent s s' done (record { tx = tx; account_id = tx.account_id })
            (rw (same, is_op) at applied),
      )
  execute_tx-Spent (forced_exit tx) set h =
      let (op, t, done, made, applied, is) =
        apply_created_ok (create_forced_exit c tx) apply_forced_exit_op ZkSyncOp.forced_exit s h in
      let (_, _, _, _, _, _, _, same, is_tx, _) = forced_exit_parties c tx s t op made in
      (
        tx.initiator_account_id,
        refl,
        rw is_tx at (
            Spending.forced_exit_op-Spent s s' done op (forced_exit_differ c tx s t op set made)
              (rw same at applied)),
      )

-- After a transaction has succeeded, no transaction of the same account with the same nonce does, the
-- same one included: nonces are below 2 ^ 32, and the signers of forced exits are set.
pub execute_tx-no_replay :
    (c : Crypto) (tx again : ZkSyncTx) (s s' s'' : ZkSyncState) (r r' : OpSuccess)
    → SignerIsSet c tx
    → SignerIsSet c again
    → Spending.nonce tx < u32_mod
    → Spending.paying_account again ≡ Spending.paying_account tx
    → Spending.nonce again ≡ Spending.nonce tx
    → execute_tx c tx s ≡ (ok r, s')
    → execute_tx c again s' ≢ (ok r', s'')
execute_tx-no_replay c tx again s s' s'' r r' set set' small payer nonce h k =
    let (id, pays, first) = execute_tx-Spent c s s' r tx set h in
    let (id', pays', second) = execute_tx-Spent c s' s'' r' again set' k in
    let same : id' ≡ id = some_eq (sym pays' ∙ payer ∙ pays) in
    let account : first.after ≡ second.before =
      some_eq (sym first.found_after ∙ ap (λ j. get_account j s') (sym same) ∙ second.found) in
    Spending.next_ne (Spending.nonce tx) small
      (sym first.used ∙ ap (λ (a : Account). a.nonce) account ∙ sym second.matches ∙ nonce)
