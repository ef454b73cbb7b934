-- ===== src/State/Conversion.antt =====
-- The conversions into operations and the numbers of chunks, against what is then executed.
use qs_react_native_zksync.Prelude.{ℕ, ◌≡◌, ap, sym, ◌∙◌, arith, inl, inr}
use qs_react_native_zksync.Tx.{
  Crypto, ZkSyncTx, transfer, withdraw, close, change_pub_key, forced_exit,
}
use qs_react_native_zksync.State.Defs.{
  ZkSyncState, ZkSyncOp, ZkSyncPriorityOp, Action, Applied, OpSuccess, ok, into_franklin_op,
  get_account_by_address, ◌>>=◌, pure,
}
use qs_react_native_zksync.State.Execute.{
  execute_tx, execute_priority_op, chunks, chunks_for_tx, zksync_tx_to_zksync_op,
  priority_op_to_zksync_op, expect_ok,
}
use qs_react_native_zksync.State.Handler.Base.{apply_created}
use qs_react_native_zksync.State.Handler.Transfer.{
  create_transfer, apply_transfer, apply_transfer_outcome,
}
use qs_react_native_zksync.State.Handler.Withdraw.{
  create_withdraw, apply_withdraw, apply_withdraw_op,
}
use qs_react_native_zksync.State.Handler.ChangePubKey.{
  create_change_pub_key, apply_change_pub_key, apply_change_pub_key_op,
}
use qs_react_native_zksync.State.Handler.ForcedExit.{
  create_forced_exit, apply_forced_exit, apply_forced_exit_op,
}
use qs_react_native_zksync.State.Handler.Close.{apply_close}
use qs_react_native_zksync.State.Handler.Priority.{
  create_deposit, apply_deposit, apply_deposit_op, create_full_exit, apply_full_exit,
  apply_full_exit_op,
}
use qs_react_native_zksync.State.Priority.{expect_ok_inv}
use qs_react_native_zksync.State.Inversion.Bind.{apply_created_ok}
use qs_react_native_zksync.State.Inversion.Create.{transfer_recipient}

bind_pure_ok :
    {A B : Type 0} (m : Action A) (f : A → B) (s t : ZkSyncState) {a : A}
    → m s ≡ (ok a, t)
    → ((m >>= λ x. pure (f x)) s) ≡ (ok (f a), t)
bind_pure_ok m f s t h = ground (arith, h)

-- An operation that has been created and applied is the one that the conversion returns.
created_is_converted :
    {Op : Type 0} (create : Action Op) (apply_op : Op → Action Applied) (wrap : Op → ZkSyncOp)
    (s : ZkSyncState) (r : OpSuccess) (s' : ZkSyncState)
    → apply_created create apply_op wrap s ≡ (ok r, s')
    → ((create >>= λ op. pure (wrap op)) s).0 ≡ ok r.executed_op
created_is_converted create apply_op wrap s r s' h =
    let (op, t, done, made, applied, is) = apply_created_ok create apply_op wrap s h in
    ap (λ p. p.0) (bind_pure_ok create wrap s t made)
    ∙ ap (λ (q : OpSuccess). ok q.executed_op) (sym is)

-- A transaction that succeeds runs the operation that the conversion returns in the state before it.
pub execute_tx-converted :
    (c : Crypto) (tx : ZkSyncTx) (s s' : ZkSyncState) (r : OpSuccess)
    → execute_tx c tx s ≡ (ok r, s')
    → (zksync_tx_to_zksync_op c tx s).0 ≡ ok r.executed_op
unfolding execute_tx zksync_tx_to_zksync_op
execute_tx-converted c (transfer tx) s s' r h =
    created_is_converted (create_transfer c tx) apply_transfer_outcome into_franklin_op s r s'
      (unfold apply_transfer in h)
execute_tx-converted c (withdraw tx) s s' r h =
    created_is_converted (create_withdraw c tx) apply_withdraw_op ZkSyncOp.withdraw s r s'
      (unfold apply_withdraw in h)
execute_tx-converted c (close tx) s s' r h = unfold apply_close in cc
execute_tx-converted c (change_pub_key tx) s s' r h =
    created_is_converted (create_change_pub_key c tx) apply_change_pub_key_op
      ZkSyncOp.change_pub_key_offchain s r s' (unfold apply_change_pub_key in h)
execute_tx-converted c (forced_exit tx) s s' r h =
    created_is_converted (create_forced_exit c tx) apply_forced_exit_op ZkSyncOp.forced_exit s r s'
      (unfold apply_forced_exit in h)

-- A transaction that succeeds takes the chunks that were asked for it in the state before it.
pub execute_tx-chunks :
    (c : Crypto) (tx : ZkSyncTx) (s s' : ZkSyncState) (r : OpSuccess) (n : ℕ)
    → execute_tx c tx s ≡ (ok r, s')
    → chunks_for_tx tx s ≡ ok n
    → chunks r.executed_op ≡ n
unfolding execute_tx chunks_for_tx get_account_by_address
execute_tx-chunks c (transfer tx) s s' r n h e =
    let (out, t, done, made, applied, is) =
      apply_created_ok (create_transfer c tx) apply_transfer_outcome into_franklin_op s
        (unfold apply_transfer in h) in
    let op_is : r.executed_op ≡ into_franklin_op out = ap (λ (q : OpSuccess). q.executed_op) is in
    elim (transfer_recipient c tx s t out made) [
      | inl (to, b, owns, shape) ↦
          let two : chunks r.executed_op ≡ 2 = ap chunks (op_is ∙ ap into_franklin_op shape) in
          ground (arith, two, owns.0, owns.1)
      | inr (free, shape) ↦
          let six : chunks r.executed_op ≡ 6 = ap chunks (op_is ∙ ap into_franklin_op shape) in
          ground (arith, six)
    ]
execute_tx-chunks c (withdraw tx) s s' r n h e =
    let (op, t, done, made, applied, is) =
      apply_created_ok (create_withdraw c tx) apply_withdraw_op ZkSyncOp.withdraw s
        (unfold apply_withdraw in h) in
    ground (arith, ap (λ (q : OpSuccess). chunks q.executed_op) is)
execute_tx-chunks c (close tx) s s' r n h e = unfold apply_close in absurd (ground arith)
execute_tx-chunks c (change_pub_key tx) s s' r n h e =
    let (op, t, done, made, applied, is) =
      apply_created_ok (create_change_pub_key c tx) apply_change_pub_key_op
        ZkSyncOp.change_pub_key_offchain s (unfold apply_change_pub_key in h) in
    ground (arith, ap (λ (q : OpSuccess). chunks q.executed_op) is)
execute_tx-chunks c (forced_exit tx) s s' r n h e =
    let (op, t, done, made, applied, is) =
      apply_created_ok (create_forced_exit c tx) apply_forced_exit_op ZkSyncOp.forced_exit s
        (unfold apply_forced_exit in h) in
    ground (arith, ap (λ (q : OpSuccess). chunks q.executed_op) is)

expect_ok-ok :
    {A : Type 0} (m : Action A) (s : ZkSyncState) {a : A}
    → (m s).0 ≡ ok a
    → (expect_ok m s).0 ≡ ok a
expect_ok-ok m s h = ground (arith, h)

-- The same of a priority operation, which always takes six chunks.
pub execute_priority_op-converted :
    (op : ZkSyncPriorityOp) (s s' : ZkSyncState) (r : OpSuccess)
    → execute_priority_op op s ≡ (ok r, s')
    → ((priority_op_to_zksync_op op s).0 ≡ ok r.executed_op) × (chunks r.executed_op ≡ 6)
unfolding execute_priority_op priority_op_to_zksync_op apply_deposit apply_full_exit
execute_priority_op-converted (ZkSyncPriorityOp.deposit op) s s' r h =
    let ran = expect_ok_inv (apply_deposit op) s h in
    let (_, _, _, _, _, is) =
      apply_created_ok (create_deposit op) apply_deposit_op ZkSyncOp.deposit s ran in
    (
      expect_ok-ok (create_deposit op >>= λ made. pure (ZkSyncOp.deposit made)) s
          (created_is_converted (create_deposit op) apply_deposit_op ZkSyncOp.deposit s r s' ran),
      ap (λ (q : OpSuccess). chunks q.executed_op) is,
    )
execute_priority_op-converted (ZkSyncPriorityOp.full_exit op) s s' r h =
    let ran = expect_ok_inv (apply_full_exit op) s h in
    let (_, _, _, _, _, is) =
      apply_created_ok (create_full_exit op) apply_full_exit_op ZkSyncOp.full_exit s ran in
    (
      expect_ok-ok (create_full_exit op >>= λ made. pure (ZkSyncOp.full_exit made)) s (
          created_is_converted (create_full_exit op) apply_full_exit_op ZkSyncOp.full_exit s r s'
            ran),
      ap (λ (q : OpSuccess). chunks q.executed_op) is,
    )
