-- ===== src/State/Inversion/Transfers.antt =====
-- The operations of handler/transfer.rs and handler/withdraw.rs.
use qs_react_native_zksync.Prelude.{
  ℕ, ◌+◌, ◌-◌, ◌%◌, ◌^◌, ◌≡◌, ◌≢◌, ◌≤◌, ◌<◌, arith, none, some, [], ◌∷◌, Option-cases, inl, inr,
}
use qs_react_native_zksync.Params.{u32_mod}
use qs_react_native_zksync.Account.{
  Account, AccountUpdate, create, update_balance, get_balance, add_balance, sub_balance,
  replace_balance,
}
use qs_react_native_zksync.State.Defs.{
  ZkSyncState, Applied, TransferOp, TransferToNewOp, WithdrawOp, CollectedFee, ok, get_account,
  inserted, insert_account,
}
use qs_react_native_zksync.State.Handler.Transfer.{
  apply_transfer_op, apply_transfer_op_to_self, apply_transfer_to_new_op,
}
use qs_react_native_zksync.State.Handler.Withdraw.{apply_withdraw_op}
use qs_react_native_zksync.State.Steps.{rebalanced, fresh_account}

-- The nonce after one more operation.
abbrev pub next : ℕ → ℕ
next n = (n + 1) % u32_mod

-- The account after it has paid, and after it has received.
abbrev pub payer : ℕ → ℕ → Account → Account
payer token cost a = rebalanced token (get_balance token a - cost) (next a.nonce) a

abbrev pub payee : ℕ → ℕ → Account → Account
payee token amount a = rebalanced token (get_balance token a + amount) a.nonce a

-- The update that stands for a change of one account's balance and nonce.
abbrev pub change : ℕ → ℕ → Account → Account → ℕ × AccountUpdate
change id token a b =
    (id, update_balance a.nonce b.nonce token (get_balance token a) (get_balance token b))

module _ (op : TransferOp) (s s' : ZkSyncState) (r : Applied) where
  abbrev pub cost : ℕ
  cost = op.tx.amount + op.tx.fee

  abbrev pub fee_of : CollectedFee
  fee_of = record { token = op.tx.token; amount = op.tx.fee }

  pub transfer_inv :
      op.from ≢ op.to
      → apply_transfer_op op s ≡ (ok r, s')
      → (from : Account) × (to : Account) × (get_account op.from s ≡ some from)
        × (get_account op.to s ≡ some to)
        × (op.tx.nonce ≡ from.nonce)
        × (op.tx.amount + op.tx.fee ≤ get_balance op.tx.token from)
        × (r ≡ (
          some fee_of,
          change op.from op.tx.token from (payer op.tx.token (op.tx.amount + op.tx.fee) from)
              ∷ change op.to op.tx.token to (payee op.tx.token op.tx.amount to)
              ∷ [],
        ))
        × (s'
            ≡ inserted op.to
                (payee op.tx.token op.tx.amount to)
                (inserted op.from (payer op.tx.token (op.tx.amount + op.tx.fee) from) s))
  unfolding apply_transfer_op insert_account sub_balance add_balance replace_balance
  transfer_inv ne h = elim (Option-cases (get_account op.from s)) [
    | inl e ↦ absurd (ground arith)
    | inr (f, e) ↦ elim (Option-cases (get_account op.to s)) [
      | inl e2 ↦ absurd (ground arith)
      | inr (t, e2) ↦ (f, t, e, e2, ground arith, ground arith, ground arith, ground arith)
    ]
  ]

  pub to_self_inv :
      apply_transfer_op_to_self op s ≡ (ok r, s')
      → (account : Account) × (get_account op.from s ≡ some account)
        × (op.from ≡ op.to)
        × (op.tx.nonce ≡ account.nonce)
        × (op.tx.amount + op.tx.fee ≤ get_balance op.tx.token account)
        × (r ≡ (
          some fee_of,
          change op.from op.tx.token account (payer op.tx.token op.tx.fee account) ∷ [],
        ))
        × (s' ≡ inserted op.from (payer op.tx.token op.tx.fee account) s)
  unfolding apply_transfer_op_to_self insert_account sub_balance replace_balance
  to_self_inv h = elim (Option-cases (get_account op.from s)) [
    | inl e ↦ absurd (ground arith)
    | inr (f, e) ↦ (f, e, ground arith, ground arith, ground arith, ground arith, ground arith)
  ]

  -- A transfer between one account is the transfer to itself.
  pub transfer_self :
      op.from ≡ op.to
      → apply_transfer_op op s ≡ (ok r, s')
      → apply_transfer_op_to_self op s ≡ (ok r, s')
  unfolding apply_transfer_op
  transfer_self e h = ground arith

module _ (op : TransferToNewOp) (s s' : ZkSyncState) (r : Applied) where
  pub to_new_inv :
      apply_transfer_to_new_op op s ≡ (ok r, s')
      → (from : Account) × (get_account op.from s ≡ some from)
        × (get_account op.to s ≡ none)
        × (op.tx.nonce ≡ from.nonce)
        × (op.tx.amount + op.tx.fee ≤ get_balance op.tx.token from)
        × (op.to < 2 ^ s.balance_tree.tree_depth)
        × (r ≡ (
          some (record { token = op.tx.token; amount = op.tx.fee }),
          (op.to, create op.tx.to 0)
              ∷ change op.from op.tx.token from (payer op.tx.token (op.tx.amount + op.tx.fee) from)
              ∷ change op.to op.tx.token
                  (fresh_account op.tx.to)
                  (payee op.tx.token op.tx.amount (fresh_account op.tx.to))
              ∷ [],
        ))
        × (s'
            ≡ inserted op.to
                (payee op.tx.token op.tx.amount (fresh_account op.tx.to))
                (inserted op.from (payer op.tx.token (op.tx.amount + op.tx.fee) from) s))
  unfolding apply_transfer_to_new_op insert_account sub_balance add_balance replace_balance
  to_new_inv h = elim (Option-cases (get_account op.from s)) [
    | inl e ↦ absurd (ground arith)
    | inr (f, e) ↦ elim (Option-cases (get_account op.to s)) [
      | inr (t, e2) ↦ absurd (ground arith)
      | inl e2 ↦ (f, e, e2, ground arith, ground arith, ground arith, ground arith, ground arith)
    ]
  ]

module _ (op : WithdrawOp) (s s' : ZkSyncState) (r : Applied) where
  pub withdraw_inv :
      apply_withdraw_op op s ≡ (ok r, s')
      → (from : Account) × (get_account op.account_id s ≡ some from)
        × (op.tx.nonce ≡ from.nonce)
        × (op.tx.amount + op.tx.fee ≤ get_balance op.tx.token from)
        × (r ≡ (
          some (record { token = op.tx.token; amount = op.tx.fee }),
          change op.account_id op.tx.token from (payer op.tx.token (op.tx.amount + op.tx.fee) from)
              ∷ [],
        ))
        × (s' ≡ inserted op.account_id (payer op.tx.token (op.tx.amount + op.tx.fee) from) s)
  unfolding apply_withdraw_op insert_account sub_balance replace_balance
  withdraw_inv h = elim (Option-cases (get_account op.account_id s)) [
    | inl e ↦ absurd (ground arith)
    | inr (f, e) ↦ (f, e, ground arith, ground arith, ground arith, ground arith)
  ]
