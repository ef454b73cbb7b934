-- ===== src/State/Errors.antt =====
-- The errors of execute_tx: where `create_op`, which reads, and `apply_op`, which checks before it
-- writes, may return one, and what the state is then.
use qs_react_native_zksync.Prelude.{◌≡◌, refl, sym, ap, ◌∙◌, arith}
use qs_react_native_zksync.Tx.{
  Crypto, ZkSyncTx, transfer, withdraw, close, change_pub_key, forced_exit, Transfer, Withdraw,
  ChangePubKey, ForcedExit,
}
use qs_react_native_zksync.State.Defs.{
  ZkSyncState, Result, ok, err, panic, Error, Action, Applied, ZkSyncOp, into_franklin_op, pure,
  ◌>>=◌, TransferOp, TransferToNewOp, TransferOutcome, WithdrawOp, ChangePubKeyOp, ForcedExitOp,
}
use qs_react_native_zksync.State.Execute.{execute_tx}
use qs_react_native_zksync.State.Handler.Base.{apply_created}
use qs_react_native_zksync.State.Handler.Transfer.{
  create_transfer, apply_transfer_op_to_self, apply_transfer_op, apply_transfer_to_new_op,
  apply_transfer_outcome, apply_transfer,
}
use qs_react_native_zksync.State.Handler.Withdraw.{
  create_withdraw, apply_withdraw_op, apply_withdraw,
}
use qs_react_native_zksync.State.Handler.ChangePubKey.{
  create_change_pub_key, apply_change_pub_key_op, apply_change_pub_key,
}
use qs_react_native_zksync.State.Handler.ForcedExit.{
  create_forced_exit, apply_forced_exit_op, apply_forced_exit,
}
use qs_react_native_zksync.State.Handler.Close.{apply_close}

-- An action that only reads.
abbrev pub Reads : {A : Type 0} → Action A → Type 0
Reads m = (s : ZkSyncState) → (m s).1 ≡ s

-- An action whose errors leave the state as it was.
abbrev pub FailsClean : {A : Type 0} → Action A → Type 0
FailsClean m = (s s' : ZkSyncState) (e : Error) → m s ≡ (err e, s') → s' ≡ s

pub bind-FailsClean :
    {A B : Type 0} (m : Action A) (f : A → Action B)
    → Reads m
    → ((a : A) → FailsClean (f a))
    → FailsClean (m >>= f)
bind-FailsClean {A} {B} m f reads clean s s' e = go (m s) (reads s)
  where
    go :
        (p : Result A × ZkSyncState)
        → p.1 ≡ s
        → ((λ (t : ZkSyncState). p) >>= f) s ≡ (err e, s')
        → s' ≡ s
    go (ok a, t) same h = clean a t s' e h ∙ same
    go (err e, t) same h = let e : t ≡ s' = cc in sym e ∙ same
    go (panic, t) same h = cc

-- What follows an action and cannot fail leaves its errors clean.
pub then-FailsClean :
    {A B : Type 0} (m : Action A) (f : A → B) → FailsClean m → FailsClean (m >>= λ a. pure (f a))
then-FailsClean {A} {B} m f clean s s' e = go (m s) (clean s)
  where
    go :
        (p : Result A × ZkSyncState)
        → ((t : ZkSyncState) (e : Error) → p ≡ (err e, t) → t ≡ s)
        → ((λ (t : ZkSyncState). p) >>= λ a. pure (f a)) s ≡ (err e, s')
        → s' ≡ s
    go (ok a, t) c h = cc
    go (err e, t) c h = let same : t ≡ s' = cc in sym same ∙ c t e refl
    go (panic, t) c h = cc

apply_created-FailsClean :
    {Op : Type 0} (create : Action Op) (apply_op : Op → Action Applied) (wrap : Op → ZkSyncOp)
    → Reads create
    → ((op : Op) → FailsClean (apply_op op))
    → FailsClean (apply_created create apply_op wrap)
apply_created-FailsClean create apply_op wrap reads clean =
    bind-FailsClean create
      (λ op. apply_op op >>= λ done.
        pure (record { fee = done.0; updates = done.1; executed_op = wrap op }))
      reads
      (λ op.
        then-FailsClean (apply_op op)
          (λ done. record { fee = done.0; updates = done.1; executed_op = wrap op }) (clean op))

pub create_withdraw-Reads : (c : Crypto) (tx : Withdraw) → Reads (create_withdraw c tx)
unfolding create_withdraw
create_withdraw-Reads c tx s = ground arith

apply_withdraw_op-FailsClean : (op : WithdrawOp) → FailsClean (apply_withdraw_op op)
unfolding apply_withdraw_op
apply_withdraw_op-FailsClean op s s' e h = ground arith

pub create_transfer-Reads : (c : Crypto) (tx : Transfer) → Reads (create_transfer c tx)
unfolding create_transfer
create_transfer-Reads c tx s = ground arith

pub create_change_pub_key-Reads :
    (c : Crypto) (tx : ChangePubKey) → Reads (create_change_pub_key c tx)
unfolding create_change_pub_key
create_change_pub_key-Reads c tx s = ground arith

pub create_forced_exit-Reads : (c : Crypto) (tx : ForcedExit) → Reads (create_forced_exit c tx)
unfolding create_forced_exit
create_forced_exit-Reads c tx s = ground arith

apply_change_pub_key_op-FailsClean : (op : ChangePubKeyOp) → FailsClean (apply_change_pub_key_op op)
unfolding apply_change_pub_key_op
apply_change_pub_key_op-FailsClean op s s' e h = ground arith

apply_forced_exit_op-FailsClean : (op : ForcedExitOp) → FailsClean (apply_forced_exit_op op)
unfolding apply_forced_exit_op
apply_forced_exit_op-FailsClean op s s' e h = ground arith

to_self-FailsClean : (op : TransferOp) → FailsClean (apply_transfer_op_to_self op)
unfolding apply_transfer_op_to_self
to_self-FailsClean op s s' e h = ground arith

apply_transfer_op-FailsClean : (op : TransferOp) → FailsClean (apply_transfer_op op)
unfolding apply_transfer_op
apply_transfer_op-FailsClean op s s' e h = ground (arith, to_self-FailsClean op s s' e)

to_new-FailsClean : (op : TransferToNewOp) → FailsClean (apply_transfer_to_new_op op)
unfolding apply_transfer_to_new_op
to_new-FailsClean op s s' e h = ground arith

outcome-FailsClean : (out : TransferOutcome) → FailsClean (apply_transfer_outcome out)
unfolding apply_transfer_outcome
outcome-FailsClean (TransferOutcome.transfer op) = apply_transfer_op-FailsClean op
outcome-FailsClean (TransferOutcome.transfer_to_new op) = to_new-FailsClean op

-- A transaction that is refused leaves the state exactly as it was.
pub execute_tx-FailsClean :
    (c : Crypto) (tx : ZkSyncTx) (s s' : ZkSyncState) (e : Error)
    → execute_tx c tx s ≡ (err e, s')
    → s' ≡ s
unfolding execute_tx apply_transfer apply_withdraw apply_change_pub_key apply_forced_exit
    apply_close
execute_tx-FailsClean c (transfer tx) =
    apply_created-FailsClean (create_transfer c tx) apply_transfer_outcome into_franklin_op
      (create_transfer-Reads c tx) outcome-FailsClean
execute_tx-FailsClean c (withdraw tx) =
    apply_created-FailsClean (create_withdraw c tx) apply_withdraw_op ZkSyncOp.withdraw
      (create_withdraw-Reads c tx) apply_withdraw_op-FailsClean
execute_tx-FailsClean c (change_pub_key tx) =
    apply_created-FailsClean (create_change_pub_key c tx) apply_change_pub_key_op
      ZkSyncOp.change_pub_key_offchain (create_change_pub_key-Reads c tx)
      apply_change_pub_key_op-FailsClean
execute_tx-FailsClean c (forced_exit tx) =
    apply_created-FailsClean (create_forced_exit c tx) apply_forced_exit_op ZkSyncOp.forced_exit
      (create_forced_exit-Reads c tx) apply_forced_exit_op-FailsClean
execute_tx-FailsClean c (close tx) = λ s s' e h. sym (ap (λ p. p.1) h)
