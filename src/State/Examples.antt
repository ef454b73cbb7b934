-- ===== src/State/Examples.antt =====
-- A state with two accounts, transactions on it, and what the theorems say of them.
pub mod Priority
use qs_react_native_zksync.Prelude.{
  ℕ, ◌+◌, ◌^◌, ◌≡◌, ◌≢◌, ◌<◌, refl, arith, none, some, List, [], ◌∷◌, inl, inr, eq_cases,
}
use qs_react_native_zksync.HashMap
use qs_react_native_zksync.HashMap.Laws.{IsUnique}
use qs_react_native_zksync.Account.{
  Account, update_balance, create, default_account, replace_balance,
}
use qs_react_native_zksync.Account.View.{AccountView, view_account}
use qs_react_native_zksync.Tx.{
  Crypto, TxSignature, Transfer, ForcedExit, ZkSyncTx, transfer, forced_exit, not_cached,
}
use qs_react_native_zksync.Tx.Verify.{transfer_signer, forced_exit_signer}
use qs_react_native_zksync.Prelude.{true}
use qs_react_native_zksync.Float.{is_token_amount_packable, is_fee_amount_packable}
use qs_react_native_zksync.Tx.{cached}
use qs_react_native_zksync.Tx.Check.{check_correctness}
use qs_react_native_zksync.State.Accepted.{accepted_tx-no_panic}
use qs_react_native_zksync.State.Defs.{
  ZkSyncState, ok, err, panic, OpSuccess, ZkSyncOp, ZkSyncPriorityOp, not_enough_balance,
  get_account, get_free_account_id,
}
use qs_react_native_zksync.State.View.{view, outcome}
use qs_react_native_zksync.State.Execute.{
  SignedZkSyncTx, execute_tx, execute_txs_batch, execute_priority_op,
}
use qs_react_native_zksync.State.Updates.{apply_account_updates, reverse_updates}
use qs_react_native_zksync.State.Batch.{BatchEnds, execute_txs_batch-atomic}
use qs_react_native_zksync.State.Supply.{supply}
use qs_react_native_zksync.State.Conservation.{fee_part, exit_part, execute_tx-conserves}
use qs_react_native_zksync.State.Undo.{execute_tx-IsValid, execute_tx-replayed, execute_tx-reverted}
use qs_react_native_zksync.State.Spending
use qs_react_native_zksync.State.Authority.{
  Signed, cost, cost_token, execute_tx-Signed, execute_tx-Spent, execute_tx-no_replay,
}
use qs_react_native_zksync.State.Errors.{execute_tx-FailsClean}
use qs_react_native_zksync.State.NoPanic.{SignerRuns, execute_tx-no_panic}
use qs_react_native_zksync.State.Priority.{execute_priority_op-Explains, execute_priority_op-runs}
use qs_react_native_zksync.State.Refine.{update_views, apply_account_updates-refines}
use qs_react_native_zksync.State.Explains.{Explains, IsValid}
use qs_react_native_zksync.State.Explains.Handlers.{SignerIsSet}

-- Any signature verifies; the hash of a key is the first byte of the key.
abbrev first : List ℕ → ℕ
first [] = 0
first (b ∷ bs) = b

abbrev pub toy_crypto : Crypto
toy_crypto = record {
  verify_musig = λ signature msg. some signature.pub_key;
  from_pubkey = first;
  recover_signer = λ signature msg. none;
}

abbrev signature : TxSignature
signature = record { pub_key = 7 ∷ []; signature = [] }

abbrev pub alice : Account
alice = record { pub_key_hash = 7; address = 100; balances = (0, 1000) ∷ []; nonce = 5 }

abbrev pub bob : Account
bob = record { pub_key_hash = 0; address = 200; balances = (0, 50) ∷ []; nonce = 0 }

abbrev pub two_accounts : ZkSyncState
two_accounts = record {
  balance_tree = record { items = (0, alice) ∷ (1, bob) ∷ []; tree_depth = 32 };
  account_id_by_address = (100, 0) ∷ (200, 1) ∷ [];
  block_number = 0;
}

two_accounts-backed :
    (address id : ℕ)
    → (view two_accounts).ids address ≡ some id
    → (a : AccountView) × ((view two_accounts).accounts id ≡ some a) × (a.address ≡ address)
unfolding HashMap.get
two_accounts-backed address id h = elim (eq_cases 100 address) [
  | inl e ↦ (view_account alice, ground arith, ground arith)
  | inr n ↦ elim (eq_cases 200 address) [
    | inl e ↦ (view_account bob, ground arith, ground arith)
    | inr m ↦ absurd (ground arith)
  ]
]

pub two_accounts-IsValid : IsValid two_accounts
unfolding HashMap.get
two_accounts-IsValid = record {
  unique = (refl, (refl, tt));
  consistent = record {
    indexed = λ id a h. ground arith;
    backed = two_accounts-backed;
    within = λ id a h. ground arith;
  };
}

abbrev pub payment : Transfer
payment = record {
  account_id = 0;
  from = 100;
  to = 200;
  token = 0;
  amount = 10;
  fee = 1;
  nonce = 5;
  signature = signature;
  cached_signer = not_cached;
}

abbrev pub pay : ZkSyncTx
pay = transfer payment

-- The state and the report after the payment.
abbrev pub paid_success : OpSuccess
paid_success = record {
  fee = some (record { token = 0; amount = 1 });
  updates = (0, update_balance 5 6 0 1000 989) ∷ (1, update_balance 0 0 0 50 60) ∷ [];
  executed_op = ZkSyncOp.transfer (record { tx = payment; from = 0; to = 1 });
}

abbrev pub after_payment : ZkSyncState
after_payment = record two_accounts {
  balance_tree = record two_accounts.balance_tree {
    items =
        (0, record alice { balances = (0, 989) ∷ []; nonce = 6 })
        ∷ (1, record bob { balances = (0, 60) ∷ [] })
        ∷ [];
  };
}

pub pay_runs : execute_tx toy_crypto pay two_accounts ≡ (ok paid_success, after_payment)
unfolding execute_tx transfer_signer HashMap.get replace_balance HashMap.insert HashMap.remove
pay_runs = refl

-- The payment, and one that the balance does not cover.
abbrev too_much : ZkSyncTx
too_much = transfer (record payment { amount = 5000; nonce = 6 })

abbrev pub batch : List SignedZkSyncTx
batch =
    record { tx = pay; eth_sign_data = none } ∷ record { tx = too_much; eth_sign_data = none } ∷ []

execute_txs_batch-atomic_example :
    BatchEnds toy_crypto batch two_accounts (execute_txs_batch toy_crypto batch two_accounts)
execute_txs_batch-atomic_example =
    execute_txs_batch-atomic toy_crypto batch two_accounts (tt, (tt, tt)) two_accounts-IsValid

execute_tx-IsValid_example : IsValid after_payment
execute_tx-IsValid_example =
    execute_tx-IsValid toy_crypto pay two_accounts after_payment paid_success two_accounts-IsValid
      tt pay_runs

execute_tx-replayed_example :
    (t : ZkSyncState) × (apply_account_updates paid_success.updates two_accounts ≡ (ok tt, t))
    × (view t ≡ view after_payment)
execute_tx-replayed_example =
    execute_tx-replayed toy_crypto pay two_accounts after_payment paid_success two_accounts-IsValid
      tt pay_runs

execute_tx-reverted_example :
    (t : ZkSyncState) × (apply_account_updates (reverse_updates paid_success.updates) after_payment
      ≡ (ok tt, t))
    × (view t ≡ view two_accounts)
    × IsUnique t.balance_tree.items
execute_tx-reverted_example =
    execute_tx-reverted toy_crypto pay two_accounts after_payment paid_success two_accounts-IsValid
      tt pay_runs

execute_tx-Signed_example : Signed toy_crypto pay two_accounts
execute_tx-Signed_example =
    execute_tx-Signed toy_crypto pay two_accounts after_payment paid_success pay_runs

execute_tx-Spent_example :
    (id : ℕ) × (Spending.paying_account pay ≡ some id)
    × Spending.Spent id (Spending.nonce pay) (cost_token pay) (cost pay) two_accounts after_payment
execute_tx-Spent_example =
    execute_tx-Spent toy_crypto two_accounts after_payment paid_success pay tt pay_runs

-- Another payment of the same account with the same nonce
abbrev pay_again : ZkSyncTx
pay_again = transfer (record payment { amount = 20 })

execute_tx-no_replay_example :
    execute_tx toy_crypto pay_again after_payment ≢ (ok paid_success, after_payment)
execute_tx-no_replay_example =
    execute_tx-no_replay toy_crypto pay pay_again two_accounts after_payment after_payment
      paid_success paid_success tt tt (omega arith) refl refl pay_runs

too_much_fails :
    execute_tx toy_crypto too_much after_payment ≡ (err not_enough_balance, after_payment)
unfolding execute_tx transfer_signer HashMap.get
too_much_fails = refl

execute_tx-FailsClean_example : after_payment ≡ after_payment
execute_tx-FailsClean_example =
    execute_tx-FailsClean toy_crypto too_much after_payment after_payment not_enough_balance
      too_much_fails

pub room_left : get_free_account_id two_accounts < 2 ^ two_accounts.balance_tree.tree_depth
unfolding get_free_account_id
room_left = omega arith

free_left : get_account (get_free_account_id two_accounts) two_accounts ≡ none
unfolding get_free_account_id HashMap.get
free_left = refl

pay-SignerRuns : SignerRuns toy_crypto pay
unfolding transfer_signer
pay-SignerRuns h = cc

execute_tx-no_panic_example : (execute_tx toy_crypto pay two_accounts).0 ≢ panic
execute_tx-no_panic_example =
    execute_tx-no_panic toy_crypto pay two_accounts two_accounts-IsValid free_left room_left
      pay-SignerRuns

-- Alice lets the account of Bob, who has set no key, exit.
abbrev exit : ForcedExit
exit = record {
  initiator_account_id = 0;
  target = 200;
  token = 0;
  fee = 1;
  nonce = 5;
  signature = signature;
  cached_signer = not_cached;
}

abbrev exit_success : OpSuccess
exit_success = record {
  fee = some (record { token = 0; amount = 1 });
  updates = (0, update_balance 5 6 0 1000 999) ∷ (1, update_balance 0 0 0 50 0) ∷ [];
  executed_op =
      ZkSyncOp.forced_exit (record { tx = exit; target_account_id = 1; withdraw_amount = some 50 });
}

abbrev after_exit : ZkSyncState
after_exit = record two_accounts {
  balance_tree = record two_accounts.balance_tree {
    items =
        (0, record alice { balances = (0, 999) ∷ []; nonce = 6 })
        ∷ (1, record bob { balances = (0, 0) ∷ [] })
        ∷ [];
  };
}

exit_runs : execute_tx toy_crypto (forced_exit exit) two_accounts ≡ (ok exit_success, after_exit)
unfolding execute_tx forced_exit_signer HashMap.get replace_balance HashMap.insert HashMap.remove
exit_runs = refl

exit-SignerIsSet : SignerIsSet toy_crypto (forced_exit exit)
unfolding forced_exit_signer
exit-SignerIsSet h = cc

execute_tx-conserves_example :
    supply 0 after_exit + (fee_part exit_success.fee 0 + exit_part exit_success.executed_op 0)
    ≡ supply 0 two_accounts
execute_tx-conserves_example =
    execute_tx-conserves toy_crypto two_accounts after_exit exit_success 0 (forced_exit exit)
      exit-SignerIsSet exit_runs

abbrev cached_pay : ZkSyncTx
cached_pay = transfer (record payment { cached_signer = cached (some 7) })

pay_accepted : check_correctness toy_crypto pay ≡ some (true, cached_pay)
unfolding check_correctness transfer_signer is_token_amount_packable is_fee_amount_packable
pay_accepted = refl

accepted_tx-no_panic_example : (execute_tx toy_crypto cached_pay two_accounts).0 ≢ panic
accepted_tx-no_panic_example =
    accepted_tx-no_panic toy_crypto pay cached_pay two_accounts pay_accepted two_accounts-IsValid
      free_left room_left
