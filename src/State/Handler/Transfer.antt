-- ===== src/State/Handler/Transfer.antt =====
-- handler/transfer.rs
use qs_react_native_zksync.Prelude.{
  ◌+◌, none, some, [], ◌∷◌, ◌++◌, leb, ◌==◌, not, eq_some, is_some, if◌then◌else◌,
}
use qs_react_native_zksync.Params.{max_account_id, max_token_id}
use qs_react_native_zksync.Account.{
  zero_address, default_pub_key_hash, create_account, update_balance, get_balance, add_balance,
  sub_balance,
}
use qs_react_native_zksync.Tx.{Crypto, Transfer}
use qs_react_native_zksync.Tx.Verify.{transfer_signer}
use qs_react_native_zksync.State.Defs.{
  Action, Applied, OpSuccess, TransferOp, TransferToNewOp, TransferOutcome, into_franklin_op, ◌>>=◌,
  ◌>>◌, pure, gets, reads, ensure, assert, unwrap, get_account, get_account_by_address,
  insert_account, get_free_account_id, token_not_supported, transfer_to_zero_address,
  account_does_not_exist, account_is_locked, signature_is_incorrect, account_id_is_incorrect,
  account_id_too_big, nonce_mismatch, not_enough_balance, not_a_transfer_to_self,
}
use qs_react_native_zksync.State.Handler.Base.{apply_created, ok_or, next_nonce}

-- `create_op`: the checks on the sender, then the recipient decides the kind.
unfoldable pub create_transfer : Crypto → Transfer → Action TransferOutcome
unfolding get_account_by_address get_free_account_id
create_transfer c tx = do
  ensure (leb tx.token max_token_id) token_not_supported
  ensure (not (tx.to == zero_address)) transfer_to_zero_address
  found ← reads (get_account_by_address tx.from)
  from ← ok_or found account_does_not_exist
  ensure (not (from.1.pub_key_hash == default_pub_key_hash)) account_is_locked
  signer ← unwrap (transfer_signer c tx)
  ensure (eq_some signer from.1.pub_key_hash) signature_is_incorrect
  ensure (from.0 == tx.account_id) account_id_is_incorrect
  recipient ← reads (get_account_by_address tx.to)
  free_id ← gets get_free_account_id
  pure (elim recipient [
    | some to ↦ TransferOutcome.transfer (record { tx = tx; from = from.0; to = to.0 })
    | none ↦ TransferOutcome.transfer_to_new (record { tx = tx; from = from.0; to = free_id })
  ])

unfoldable pub apply_transfer_op_to_self : TransferOp → Action Applied
unfolding insert_account get_balance sub_balance
apply_transfer_op_to_self op = do
  ensure (leb op.from max_account_id) account_id_too_big
  ensure (op.from == op.to) not_a_transfer_to_self
  account ← unwrap (← gets (get_account op.from))
  let old_balance = get_balance op.tx.token account
  ensure (op.tx.nonce == account.nonce) nonce_mismatch
  ensure (leb (op.tx.amount + op.tx.fee) old_balance) not_enough_balance
  paid ← unwrap (sub_balance op.tx.token op.tx.fee account)
  let account' = next_nonce paid
  insert_account op.from account'
  pure (
    some (record { token = op.tx.token; amount = op.tx.fee }),
    (
      op.from,
      update_balance account.nonce account'.nonce op.tx.token old_balance
          (get_balance op.tx.token account'),
    )
        ∷ [],
  )

unfoldable pub apply_transfer_op : TransferOp → Action Applied
unfolding insert_account get_balance add_balance sub_balance apply_transfer_op_to_self
apply_transfer_op op = do
  ensure (leb op.from max_account_id) account_id_too_big
  ensure (leb op.to max_account_id) account_id_too_big
  let to_other = do
    from ← unwrap (← gets (get_account op.from))
    to ← unwrap (← gets (get_account op.to))
    let from_old_balance = get_balance op.tx.token from
    ensure (op.tx.nonce == from.nonce) nonce_mismatch
    ensure (leb (op.tx.amount + op.tx.fee) from_old_balance) not_enough_balance
    paid ← unwrap (sub_balance op.tx.token (op.tx.amount + op.tx.fee) from)
    let from' = next_nonce paid
    let to' = add_balance op.tx.token op.tx.amount to
    insert_account op.from from'
    insert_account op.to to'
    pure (
      some (record { token = op.tx.token; amount = op.tx.fee }),
      (
        op.from,
        update_balance from.nonce from'.nonce op.tx.token from_old_balance
            (get_balance op.tx.token from'),
      )
          ∷ (
            op.to,
            update_balance to.nonce to.nonce op.tx.token (get_balance op.tx.token to)
                (get_balance op.tx.token to'),
          )
          ∷ [],
    )
  if op.from == op.to then apply_transfer_op_to_self op else to_other

unfoldable pub apply_transfer_to_new_op : TransferToNewOp → Action Applied
unfolding insert_account get_balance add_balance sub_balance
apply_transfer_to_new_op op = do
  ensure (leb op.from max_account_id) account_id_too_big
  ensure (leb op.to max_account_id) account_id_too_big
  existing ← gets (get_account op.to)
  assert (not (is_some existing))
  let (to, created) = create_account op.to op.tx.to
  from ← unwrap (← gets (get_account op.from))
  let from_old_balance = get_balance op.tx.token from
  ensure (op.tx.nonce == from.nonce) nonce_mismatch
  ensure (leb (op.tx.amount + op.tx.fee) from_old_balance) not_enough_balance
  paid ← unwrap (sub_balance op.tx.token (op.tx.amount + op.tx.fee) from)
  let from' = next_nonce paid
  let to' = add_balance op.tx.token op.tx.amount to
  insert_account op.from from'
  insert_account op.to to'
  pure (
    some (record { token = op.tx.token; amount = op.tx.fee }),
    created
        ++ ((
          op.from,
          update_balance from.nonce from'.nonce op.tx.token from_old_balance
              (get_balance op.tx.token from'),
        )
            ∷ (
              op.to,
              update_balance to.nonce to.nonce op.tx.token (get_balance op.tx.token to)
                  (get_balance op.tx.token to'),
            )
            ∷ []),
  )

unfoldable pub apply_transfer_outcome : TransferOutcome → Action Applied
unfolding apply_transfer_op apply_transfer_to_new_op
apply_transfer_outcome (TransferOutcome.transfer op) = apply_transfer_op op
apply_transfer_outcome (TransferOutcome.transfer_to_new op) = apply_transfer_to_new_op op

-- `apply_tx`
unfoldable pub apply_transfer : Crypto → Transfer → Action OpSuccess
unfolding create_transfer apply_transfer_outcome
apply_transfer c tx = apply_created (create_transfer c tx) apply_transfer_outcome into_franklin_op
