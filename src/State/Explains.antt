-- ===== src/State/Explains.antt =====
-- The reported updates of an operation against the states before and after it.
pub mod Operations
pub mod Handlers
use qs_react_native_zksync.Prelude.{
  ℕ, ◌+◌, ◌-◌, ◌^◌, ◌≡◌, ◌≢◌, ◌<◌, refl, ap, ◌∙◌, sym, none, some, [], ◌∷◌, arith, inl, inr,
  eq_cases,
}
use qs_react_native_zksync.HashMap
use qs_react_native_zksync.HashMap.Laws.{IsUnique, insert-IsUnique}
use qs_react_native_zksync.Account.{Account, AccountUpdates, get_balance}
use qs_react_native_zksync.Account.View.{view_account}
use qs_react_native_zksync.State.Defs.{
  ZkSyncState, Applied, TransferOp, TransferToNewOp, WithdrawOp, ok, get_account, inserted,
}
use qs_react_native_zksync.State.Handler.Transfer.{
  apply_transfer_op, apply_transfer_op_to_self, apply_transfer_to_new_op,
}
use qs_react_native_zksync.State.Handler.Withdraw.{apply_withdraw_op}
use qs_react_native_zksync.State.View.{StateView, view}
use qs_react_native_zksync.State.Refine.{update_views}
use qs_react_native_zksync.State.Reverse.{IsConsistent}
use qs_react_native_zksync.State.RoundTrip.{AllReversible}
use qs_react_native_zksync.State.Steps.{balance_step, rebalanced, get_account_there}
use qs_react_native_zksync.State.Inversion.Transfers.{
  change, transfer_inv, to_self_inv, transfer_self, withdraw_inv, payer, payee,
}

pub record Explains (us : AccountUpdates) (s s' : ZkSyncState) : Type 0 where
  pub agrees : update_views us (view s) ≡ some (view s')
  pub reversible : AllReversible us (view s)
  pub unique : IsUnique s'.balance_tree.items

-- A state whose maps are maps, and whose index and accounts agree.
pub record IsValid (s : ZkSyncState) : Type 0 where
  pub unique : IsUnique s.balance_tree.items
  pub consistent : IsConsistent (view s)

-- An account that is found lies in the tree.
pub found_within :
    (id : ℕ) (a : Account) (s : ZkSyncState)
    → IsValid s
    → get_account id s ≡ some a
    → id < 2 ^ s.balance_tree.tree_depth
found_within id a s valid e = valid.consistent.within id (view_account a) (rw e)

-- One account changed.
pub one_change :
    (id t x n : ℕ) (a : Account) (s : ZkSyncState)
    → IsValid s
    → get_account id s ≡ some a
    → Explains (change id t a (rebalanced t x n a) ∷ []) s (inserted id (rebalanced t x n a) s)
one_change id t x n a s valid e = record {
  agrees = rw (balance_step id t x n a s e (found_within id a s valid e));
  reversible = (tt, λ w h. tt);
  unique = insert-IsUnique id (rebalanced t x n a) s.balance_tree.items valid.unique;
}

-- Two accounts changed, the first one stored first.
pub two_changes :
    (id t x n j y m : ℕ) (a b : Account) (s : ZkSyncState)
    → IsValid s
    → id ≢ j
    → get_account id s ≡ some a
    → get_account j s ≡ some b
    → Explains
        (change id t a (rebalanced t x n a) ∷ change j t b (rebalanced t y m b) ∷ [])
        s
        (inserted j (rebalanced t y m b) (inserted id (rebalanced t x n a) s))
two_changes id t x n j y m a b s valid ne e f = record {
  agrees = rw (balance_step id t x n a s e (found_within id a s valid e)) (
      rw (
        balance_step j t y m b (inserted id (rebalanced t x n a) s)
          (get_account_there id j (rebalanced t x n a) s ne ∙ f) (found_within j b s valid f)));
  reversible = (tt, λ w h. (tt, λ w h. tt));
  unique =
      insert-IsUnique j (rebalanced t y m b)
        (HashMap.insert id (rebalanced t x n a) s.balance_tree.items)
        (insert-IsUnique id (rebalanced t x n a) s.balance_tree.items valid.unique);
}
