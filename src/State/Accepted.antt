-- ===== src/State/Accepted.antt =====
-- Transactions that `check_correctness` has accepted, as the state runs them.
use qs_react_native_zksync.Prelude.{◌≡◌, ◌≢◌, ◌^◌, ◌<◌, sym, subst, true, none, some, ◌∙◌}
use qs_react_native_zksync.Tx.{
  Crypto, ZkSyncTx, transfer, withdraw, close, change_pub_key, forced_exit,
}
use qs_react_native_zksync.Tx.Verify.{transfer_signer, withdraw_signer, forced_exit_signer}
use qs_react_native_zksync.Tx.Check.{check_correctness}
use qs_react_native_zksync.Tx.Checks.{Checked}
use qs_react_native_zksync.Tx.Checked.{check_correctness-Checked}
use qs_react_native_zksync.State.Defs.{ZkSyncState, panic, get_account, get_free_account_id}
use qs_react_native_zksync.State.Execute.{execute_tx}
use qs_react_native_zksync.State.Explains.{IsValid}
use qs_react_native_zksync.State.NoPanic.{SignerRuns, execute_tx-no_panic}

Checked-SignerRuns : (c : Crypto) (tx tx' : ZkSyncTx) → Checked c tx tx' → SignerRuns c tx'
unfolding transfer_signer withdraw_signer forced_exit_signer
Checked-SignerRuns c (transfer tx) tx' (k, _, is) = subst (SignerRuns c) (sym is) (λ e. cc)
Checked-SignerRuns c (withdraw tx) tx' (k, _, is) = subst (SignerRuns c) (sym is) (λ e. cc)
Checked-SignerRuns c (close tx) tx' (_, is) = subst (SignerRuns c) (sym is) tt
Checked-SignerRuns c (change_pub_key tx) tx' ((_, signer, _, _, _), is) =
    subst (SignerRuns c) (sym is) (λ e. cc (sym signer ∙ e))
Checked-SignerRuns c (forced_exit tx) tx' (k, _, is) = subst (SignerRuns c) (sym is) (λ e. cc)

-- A transaction that `check_correctness` has accepted, with its cache filled, never makes a valid
-- state panic, if the free id is free and in the tree.
pub accepted_tx-no_panic :
    (c : Crypto) (tx tx' : ZkSyncTx) (s : ZkSyncState)
    → check_correctness c tx ≡ some (true, tx')
    → IsValid s
    → get_account (get_free_account_id s) s ≡ none
    → get_free_account_id s < 2 ^ s.balance_tree.tree_depth
    → (execute_tx c tx' s).0 ≢ panic
accepted_tx-no_panic c tx tx' s accepted valid free room =
    execute_tx-no_panic c tx' s valid free room
      (Checked-SignerRuns c tx tx' (check_correctness-Checked c tx tx' accepted))
