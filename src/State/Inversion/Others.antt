-- ===== src/State/Inversion/Others.antt =====
-- The operations of handler/change_pubkey.rs, forced_exit.rs, deposit.rs and full_exit.rs.
use qs_react_native_zksync.Prelude.{
  ℕ, ◌-◌, ◌^◌, ◌≡◌, ◌≤◌, ◌<◌, arith, none, some, [], ◌∷◌, ◌++◌, Option-cases, inl, inr,
}
use qs_react_native_zksync.Account.{
  Account, change_pub_key_hash, get_balance, add_balance, sub_balance, replace_balance, or_zero,
}
use qs_react_native_zksync.Account.View.{get_balance-replace_self}
use qs_react_native_zksync.State.Defs.{
  ZkSyncState, Applied, ChangePubKeyOp, ForcedExitOp, DepositOp, FullExit, ok, get_account,
  inserted, insert_account,
}
use qs_react_native_zksync.State.Handler.ChangePubKey.{apply_change_pub_key_op}
use qs_react_native_zksync.State.Handler.ForcedExit.{apply_forced_exit_op}
use qs_react_native_zksync.State.Handler.Priority.{
  apply_deposit_op, withdraw_all, account_or_created,
}
use qs_react_native_zksync.State.Steps.{rebalanced, rekeyed}
use qs_react_native_zksync.State.Inversion.Transfers.{next, payer, payee, change}

-- The account of a `ChangePubKey` with its new key and nonce, before the fee is taken.
abbrev pub with_new_key : ChangePubKeyOp → Account → Account
with_new_key op a = rekeyed op.tx.new_pk_hash (next a.nonce) a

-- The same account after the fee.
abbrev pub with_fee_paid : ChangePubKeyOp → Account → Account
with_fee_paid op a =
    rebalanced op.tx.fee_token (get_balance op.tx.fee_token (with_new_key op a) - op.tx.fee)
      (next a.nonce) (with_new_key op a)

module _ (op : ChangePubKeyOp) (s s' : ZkSyncState) (r : Applied) where
  pub change_pub_key_inv :
      apply_change_pub_key_op op s ≡ (ok r, s')
      → (a : Account) × (get_account op.account_id s ≡ some a)
        × (op.tx.nonce ≡ a.nonce)
        × (op.tx.fee ≤ get_balance op.tx.fee_token a)
        × (r ≡ (
          some (record { token = op.tx.fee_token; amount = op.tx.fee }),
          (
            op.account_id,
            change_pub_key_hash a.pub_key_hash op.tx.new_pk_hash a.nonce (next a.nonce),
          )
              ∷ change op.account_id op.tx.fee_token (with_new_key op a) (with_fee_paid op a)
              ∷ [],
        ))
        × (s' ≡ inserted op.account_id (with_fee_paid op a) s)
  unfolding apply_change_pub_key_op insert_account sub_balance replace_balance get_balance
  change_pub_key_inv h = elim (Option-cases (get_account op.account_id s)) [
    | inl e ↦ absurd (ground arith)
    | inr (f, e) ↦ (f, e, ground arith, ground arith, ground arith, ground arith)
  ]

module _ (op : ForcedExitOp) (s s' : ZkSyncState) (r : Applied) where
  pub forced_exit_inv :
      apply_forced_exit_op op s ≡ (ok r, s')
      → (initiator : Account) × (target : Account) × (get_account op.tx.initiator_account_id s
          ≡ some initiator)
        × (get_account op.target_account_id s ≡ some target)
        × (op.tx.nonce ≡ initiator.nonce)
        × (op.tx.fee ≤ get_balance op.tx.token initiator)
        × (get_balance op.tx.token target ≡ or_zero op.withdraw_amount)
        × (r ≡ (
          some (record { token = op.tx.token; amount = op.tx.fee }),
          change op.tx.initiator_account_id op.tx.token initiator
                (payer op.tx.token op.tx.fee initiator)
              ∷ change op.target_account_id op.tx.token target
                  (rebalanced op.tx.token 0 target.nonce target)
              ∷ [],
        ))
        × (s'
            ≡ inserted op.target_account_id
                (rebalanced op.tx.token 0 target.nonce target)
                (inserted op.tx.initiator_account_id (payer op.tx.token op.tx.fee initiator) s))
  unfolding apply_forced_exit_op insert_account sub_balance replace_balance
  forced_exit_inv h = elim (Option-cases (get_account op.tx.initiator_account_id s)) [
    | inl e ↦ absurd (ground arith)
    | inr (f, e) ↦ elim (Option-cases (get_account op.target_account_id s)) [
      | inl e2 ↦ absurd (ground arith)
      | inr (t, e2) ↦
          (f, t, e, e2, ground arith, ground arith, ground arith, ground arith, ground arith)
    ]
  ]

-- A deposit takes the account that is there, or creates it.
module _ (op : DepositOp) (s s' : ZkSyncState) (r : Applied) where
  pub deposit_inv :
      apply_deposit_op op s ≡ (ok r, s')
      → let target =
          account_or_created op.account_id op.priority_op.to (get_account op.account_id s) in
        (op.account_id < 2 ^ s.balance_tree.tree_depth)
        × (r ≡ (
          none,
          target.1
              ++ (change op.account_id op.priority_op.token target.0
                    (payee op.priority_op.token op.priority_op.amount target.0)
                  ∷ []),
        ))
        × (s'
            ≡ inserted op.account_id (payee op.priority_op.token op.priority_op.amount target.0) s)
  unfolding apply_deposit_op insert_account add_balance replace_balance
  deposit_inv h = ground arith

module _ (op : FullExit) (amount : ℕ) (s s' : ZkSyncState) (r : Applied) where
  -- The amount that leaves is the whole balance.
  withdraw_all_exact :
      (a : Account)
      → get_account op.account_id s ≡ some a
      → withdraw_all op amount s ≡ (ok r, s')
      → amount ≡ get_balance op.token a
  unfolding withdraw_all insert_account sub_balance
  withdraw_all_exact a e h =
      ground (arith, get_balance-replace_self op.token (get_balance op.token a - amount) a)

  pub withdraw_all_inv :
      withdraw_all op amount s ≡ (ok r, s')
      → (a : Account) × (get_account op.account_id s ≡ some a)
        × (amount ≡ get_balance op.token a)
        × (r ≡ (none, change op.account_id op.token a (rebalanced op.token 0 a.nonce a) ∷ []))
        × (s' ≡ inserted op.account_id (rebalanced op.token 0 a.nonce a) s)
  unfolding withdraw_all insert_account sub_balance replace_balance
  withdraw_all_inv h = elim (Option-cases (get_account op.account_id s)) [
    | inl e ↦ absurd (ground arith)
    | inr (a, e) ↦
        let exact : amount ≡ get_balance op.token a = withdraw_all_exact a e h in
        let empty : get_balance op.token a - amount ≡ 0 = omega arith in
        (a, e, exact, ground arith, ground arith)
  ]
