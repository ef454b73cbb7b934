-- ===== src/State/Undo.antt =====
-- What a transaction reports, applied again to the state before it, and reversed after it.
use qs_react_native_zksync.Prelude.{◌≡◌, ◌∙◌}
use qs_react_native_zksync.HashMap.Laws.{IsUnique}
use qs_react_native_zksync.Tx.{Crypto, ZkSyncTx}
use qs_react_native_zksync.State.Defs.{ZkSyncState, ZkSyncPriorityOp, OpSuccess, ok}
use qs_react_native_zksync.State.Updates.{apply_account_updates, reverse_updates}
use qs_react_native_zksync.State.Execute.{execute_tx, execute_priority_op}
use qs_react_native_zksync.State.View.{view}
use qs_react_native_zksync.State.Refine.{apply_account_updates-refines}
use qs_react_native_zksync.State.RoundTrip.{undo, outcome_inv}
use qs_react_native_zksync.State.Explains.{IsValid}
use qs_react_native_zksync.State.Explains.Handlers.{SignerIsSet, execute_tx-Explains}
use qs_react_native_zksync.State.Priority.{execute_priority_op-Explains}
use qs_react_native_zksync.State.Batch.{Explains-IsValid}

module _ (c : Crypto) (tx : ZkSyncTx) (s s' : ZkSyncState) (r : OpSuccess) where
  -- A transaction that succeeds in a valid state leaves a valid state. The signer of a forced exit is
  -- assumed not to be the hash that stands for no key.
  pub execute_tx-IsValid :
      IsValid s → SignerIsSet c tx → execute_tx c tx s ≡ (ok r, s') → IsValid s'
  execute_tx-IsValid valid set h =
      Explains-IsValid r.updates s s' valid (execute_tx-Explains c tx s s' r valid set h)

  -- The updates that a transaction reports in a valid state are applied, without a panic, to the
  -- state before it, and lead to what the state after it shows. The signer of a forced exit is assumed
  -- not to be the hash that stands for no key.
  pub execute_tx-replayed :
      IsValid s
      → SignerIsSet c tx
      → execute_tx c tx s ≡ (ok r, s')
      → (t : ZkSyncState) × (apply_account_updates r.updates s ≡ (ok tt, t)) × (view t ≡ view s')
  execute_tx-replayed valid set h = outcome_inv _ _ (
      apply_account_updates-refines r.updates s valid.unique
      ∙ (execute_tx-Explains c tx s s' r valid set h).agrees)

  -- The updates that a transaction reports in a valid state, reversed, are applied without a panic to
  -- the state after it, and lead to what the state before it showed. The signer of a forced exit is
  -- assumed not to be the hash that stands for no key.
  pub execute_tx-reverted :
      IsValid s
      → SignerIsSet c tx
      → execute_tx c tx s ≡ (ok r, s')
      → (t : ZkSyncState) × (apply_account_updates (reverse_updates r.updates) s' ≡ (ok tt, t))
        × (view t ≡ view s)
        × IsUnique t.balance_tree.items
  execute_tx-reverted valid set h =
      let x = execute_tx-Explains c tx s s' r valid set h in
      undo r.updates s s' s' valid.consistent x.reversible x.agrees (λ i. view s') x.unique

-- A priority operation that succeeds in a valid state leaves a valid state.
pub execute_priority_op-IsValid :
    (op : ZkSyncPriorityOp) (s s' : ZkSyncState) (r : OpSuccess)
    → IsValid s
    → execute_priority_op op s ≡ (ok r, s')
    → IsValid s'
execute_priority_op-IsValid op s s' r valid h =
    Explains-IsValid r.updates s s' valid (execute_priority_op-Explains s s' r op valid h)
