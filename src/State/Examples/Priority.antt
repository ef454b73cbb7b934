-- ===== src/State/Examples/Priority.antt =====
-- Priority operations, fees and account ids on the state with two accounts.
use qs_react_native_zksync.Prelude.{◌+◌, ◌≡◌, ◌<◌, refl, arith, none, some, List, [], ◌∷◌}
use qs_react_native_zksync.HashMap
use qs_react_native_zksync.Params.{u32_mod}
use qs_react_native_zksync.Account.{
  AccountUpdates, create, update_balance, default_account, replace_balance,
}
use qs_react_native_zksync.State.Defs.{
  ZkSyncState, CollectedFee, OpSuccess, ZkSyncOp, ZkSyncPriorityOp, ok,
}
use qs_react_native_zksync.State.Execute.{execute_priority_op, collect_fee}
use qs_react_native_zksync.State.View.{view, outcome}
use qs_react_native_zksync.State.Updates.{apply_account_updates}
use qs_react_native_zksync.State.Refine.{update_views, apply_account_updates-refines}
use qs_react_native_zksync.State.Explains.{Explains, IsValid}
use qs_react_native_zksync.State.Supply.{supply}
use qs_react_native_zksync.State.Conservation.{exit_part}
use qs_react_native_zksync.State.Priority.{execute_priority_op-Explains, execute_priority_op-runs}
use qs_react_native_zksync.State.PriorityBalance.{entry_part, execute_priority_op-conserves}
use qs_react_native_zksync.State.Undo.{execute_priority_op-IsValid}
use qs_react_native_zksync.State.Density.{IsDense}
use qs_react_native_zksync.State.Growth.{execute_tx-IsDense, execute_priority_op-IsDense}
use qs_react_native_zksync.State.Fees.{total, collect_fee-collects}
use qs_react_native_zksync.State.Examples.{
  toy_crypto, alice, bob, two_accounts, two_accounts-IsValid, room_left, pay, paid_success,
  after_payment, pay_runs,
}

-- A deposit for an address that has no account yet.
abbrev pub deposit : ZkSyncPriorityOp
deposit = ZkSyncPriorityOp.deposit (record { from = 300; token = 0; amount = 5; to = 300 })

abbrev pub deposit_success : OpSuccess
deposit_success = record {
  fee = none;
  updates = (2, create 300 0) ∷ (2, update_balance 0 0 0 0 5) ∷ [];
  executed_op = ZkSyncOp.deposit (record {
    priority_op = record { from = 300; token = 0; amount = 5; to = 300 };
    account_id = 2;
  });
}

abbrev after_deposit : ZkSyncState
after_deposit = record two_accounts {
  balance_tree = record two_accounts.balance_tree {
    items =
        (0, alice)
        ∷ (1, bob)
        ∷ (2, record default_account { address = 300; balances = (0, 5) ∷ [] })
        ∷ [];
  };
  account_id_by_address = (100, 0) ∷ (200, 1) ∷ (300, 2) ∷ [];
}

deposit_runs : execute_priority_op deposit two_accounts ≡ (ok deposit_success, after_deposit)
unfolding execute_priority_op HashMap.get replace_balance HashMap.insert HashMap.remove
deposit_runs = refl

execute_priority_op-Explains_example : Explains deposit_success.updates two_accounts after_deposit
execute_priority_op-Explains_example =
    execute_priority_op-Explains two_accounts after_deposit deposit_success deposit
      two_accounts-IsValid deposit_runs

execute_priority_op-runs_example :
    (r : OpSuccess) × (s' : ZkSyncState) × (execute_priority_op deposit two_accounts ≡ (ok r, s'))
execute_priority_op-runs_example =
    execute_priority_op-runs two_accounts two_accounts-IsValid deposit (omega arith) room_left

apply_account_updates-refines_example :
    outcome (apply_account_updates deposit_success.updates two_accounts)
    ≡ update_views deposit_success.updates (view two_accounts)
apply_account_updates-refines_example =
    apply_account_updates-refines deposit_success.updates two_accounts two_accounts-IsValid.unique

execute_priority_op-IsValid_example : IsValid after_deposit
execute_priority_op-IsValid_example =
    execute_priority_op-IsValid deposit two_accounts after_deposit deposit_success
      two_accounts-IsValid deposit_runs

execute_priority_op-conserves_example :
    supply 0 after_deposit + exit_part deposit_success.executed_op 0
    ≡ supply 0 two_accounts + entry_part deposit 0
execute_priority_op-conserves_example =
    execute_priority_op-conserves two_accounts after_deposit 0 deposit deposit_success deposit_runs

two_accounts-IsDense : IsDense two_accounts
unfolding HashMap.get
two_accounts-IsDense id a h = ground arith

few_accounts : HashMap.len two_accounts.balance_tree.items < u32_mod
few_accounts = omega arith

execute_tx-IsDense_example : IsDense after_payment
execute_tx-IsDense_example =
    execute_tx-IsDense toy_crypto two_accounts after_payment two_accounts-IsDense few_accounts
      paid_success pay pay_runs

execute_priority_op-IsDense_example : IsDense after_deposit
execute_priority_op-IsDense_example =
    execute_priority_op-IsDense two_accounts after_deposit two_accounts-IsDense few_accounts
      deposit_success deposit deposit_runs

abbrev fees : List CollectedFee
fees = record { token = 0; amount = 3 } ∷ record { token = 0; amount = 0 } ∷ []

alice_found : HashMap.get 0 two_accounts.balance_tree.items ≡ some alice
unfolding HashMap.get
alice_found = refl

collect_fee-collects_example :
    (us : AccountUpdates) × (s' : ZkSyncState) × (collect_fee fees 0 two_accounts ≡ (ok us, s'))
    × (supply 0 s' ≡ supply 0 two_accounts + total fees 0)
    × Explains us two_accounts s'
collect_fee-collects_example =
    collect_fee-collects fees 0 alice two_accounts 0 two_accounts-IsValid alice_found
