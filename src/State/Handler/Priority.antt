-- ===== src/State/Handler/Priority.antt =====
-- handler/deposit.rs and handler/full_exit.rs: operations that come from the contract, which has
-- authorized them.
use qs_react_native_zksync.Prelude.{ℕ, Option, none, some, [], ◌∷◌, ◌++◌, leb, ◌==◌}
use qs_react_native_zksync.Params.{max_token_id}
use qs_react_native_zksync.Account.{
  Account, AccountUpdates, create_account, update_balance, get_balance, add_balance, sub_balance,
}
use qs_react_native_zksync.State.Defs.{
  Action, Applied, OpSuccess, Deposit, FullExit, DepositOp, FullExitOp, ZkSyncOp, ◌>>=◌, ◌>>◌, pure,
  gets, reads, assert, unwrap, get_account, get_account_by_address, insert_account,
  get_free_account_id,
}
use qs_react_native_zksync.State.Handler.Base.{apply_created}
use qs_react_native_zksync.State.Handler.ForcedExit.{balance_of_address}

-- `create_op` of a deposit
unfoldable pub create_deposit : Deposit → Action DepositOp
unfolding get_account_by_address get_free_account_id
create_deposit priority_op = do
  assert (leb priority_op.token max_token_id)
  found ← reads (get_account_by_address priority_op.to)
  free_id ← gets get_free_account_id
  pure (record {
    priority_op = priority_op;
    account_id = elim found [ some account ↦ account.0 | none ↦ free_id ];
  })

-- The account, or a new one with the update that creates it.
abbrev pub account_or_created : ℕ → ℕ → Option Account → Account × AccountUpdates
account_or_created id address (some a) = (a, [])
account_or_created id address none = create_account id address

-- `apply_op` of a deposit
unfoldable pub apply_deposit_op : DepositOp → Action Applied
unfolding insert_account get_balance add_balance
apply_deposit_op op = do
  found ← gets (get_account op.account_id)
  let target = account_or_created op.account_id op.priority_op.to found
  let account = target.0
  let account' = add_balance op.priority_op.token op.priority_op.amount account
  insert_account op.account_id account'
  pure (
    none,
    target.1
        ++ ((
          op.account_id,
          update_balance account.nonce account.nonce op.priority_op.token
              (get_balance op.priority_op.token account)
              (get_balance op.priority_op.token account'),
        )
            ∷ []),
  )

-- `apply_tx` of a deposit
unfoldable pub apply_deposit : Deposit → Action OpSuccess
unfolding create_deposit apply_deposit_op
apply_deposit priority_op =
    apply_created (create_deposit priority_op) apply_deposit_op ZkSyncOp.deposit

-- `create_op` of a full exit
unfoldable pub create_full_exit : FullExit → Action FullExitOp
unfolding get_balance
create_full_exit priority_op = do
  assert (leb priority_op.token max_token_id)
  balance ← gets (λ s.
      balance_of_address priority_op.eth_address priority_op.token
        (get_account priority_op.account_id s))
  pure (record { priority_op = priority_op; withdraw_amount = balance })

-- the branch of `apply_op` with an amount
unfoldable pub withdraw_all : FullExit → ℕ → Action Applied
unfolding insert_account get_balance sub_balance
withdraw_all priority_op amount = do
  account ← unwrap (← gets (get_account priority_op.account_id))
  let old_balance = get_balance priority_op.token account
  account' ← unwrap (sub_balance priority_op.token amount account)
  let new_balance = get_balance priority_op.token account'
  assert (new_balance == 0)
  insert_account priority_op.account_id account'
  pure (
    none,
    (
      priority_op.account_id,
      update_balance account.nonce account'.nonce priority_op.token old_balance new_balance,
    )
        ∷ [],
  )

-- `apply_op` of a full exit
unfoldable pub apply_full_exit_op : FullExitOp → Action Applied
unfolding withdraw_all
apply_full_exit_op op = elim op.withdraw_amount [
  | none ↦ pure (none, [])
  | some amount ↦ withdraw_all op.priority_op amount
]

-- `apply_tx` of a full exit
unfoldable pub apply_full_exit : FullExit → Action OpSuccess
unfolding create_full_exit apply_full_exit_op
apply_full_exit priority_op =
    apply_created (create_full_exit priority_op) apply_full_exit_op ZkSyncOp.full_exit
