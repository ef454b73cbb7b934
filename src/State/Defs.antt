-- ===== src/State/Defs.antt =====
-- zksync/core/lib/state/src/state.rs, zksync/core/lib/types/src/operations/ and priority_ops/: the
-- state, the operations and what an execution returns. Of the account tree
-- (zksync/core/lib/crypto/src/merkle_tree/parallel_smt.rs) these are the items and the depth.
use qs_react_native_zksync.Prelude.{ℕ, ◌%◌, ◌^◌, Bool, Option, none, some, [], ltb, if◌then◌else◌}
use qs_react_native_zksync.Params.{u32_mod, account_tree_depth}
use qs_react_native_zksync.HashMap
use qs_react_native_zksync.HashMap.{HashMap}
use qs_react_native_zksync.Account.{Account, Address, AccountUpdates}
use qs_react_native_zksync.Tx.{Transfer, Withdraw, Close, ChangePubKey, ForcedExit}

pub record AccountTree : Type 0 where
  pub items : HashMap Account
  pub tree_depth : ℕ

pub record ZkSyncState : Type 0 where
  pub balance_tree : AccountTree
  pub account_id_by_address : HashMap ℕ
  pub block_number : ℕ

-- The reasons of `ensure!`, `bail!` and `ok_or_else`.
pub data Error : Type 0 where
  token_not_supported transfer_to_zero_address account_does_not_exist account_is_locked : Error
  signature_is_incorrect account_id_is_incorrect account_id_too_big nonce_mismatch : Error
  not_enough_balance eth_signature_is_incorrect target_does_not_exist target_is_not_locked : Error
  target_balance_mismatch closing_is_disabled account_is_not_empty not_a_transfer_to_self : Error
  batch_failed : (number : ℕ) → Error → Error

pub data Result {ℓ} (A : Type ℓ) : Type ℓ where
  ok : A → Result A
  err : Error → Result A
  panic : Result A

-- What runs on the state and changes it. After an error the state is what was written until then.
abbrev pub Action {ℓ} : Type ℓ → Type ℓ
Action A = ZkSyncState → Result A × ZkSyncState

infixl 5 ◌>>=◌ ◌>>◌
abbrev pub ◌>>=◌ : {A B : Type 0} → Action A → (A → Action B) → Action B
◌>>=◌ m f s =
    let (r, s') = m s in elim r [ ok a ↦ f a s' | err e ↦ (err e, s') | panic ↦ (panic, s') ]

abbrev pub ◌>>◌ : {A B : Type 0} → Action A → Action B → Action B
m >> k = m >>= λ _. k

abbrev pub pure : {A : Type 0} → A → Action A
pure a s = (ok a, s)

abbrev pub gets : {A : Type 0} → (ZkSyncState → A) → Action A
gets f s = (ok (f s), s)

-- A `Result` computed from the state, which is left alone.
abbrev pub reads : {A : Type 0} → (ZkSyncState → Result A) → Action A
reads f s = (f s, s)

abbrev pub ensure : Bool → Error → Action (Unit {0})
ensure b e s = (if b then ok tt else err e, s)

-- `assert!`
abbrev pub assert : Bool → Action (Unit {0})
assert b s = (if b then ok tt else panic, s)

-- `unwrap` and `expect` of an option
abbrev pub unwrap : {A : Type 0} → Option A → Action A
unwrap none s = (panic, s)
unwrap (some a) s = (ok a, s)

pub record CollectedFee : Type 0 where
  pub token : ℕ
  pub amount : ℕ

-- priority operations
pub record Deposit : Type 0 where
  pub from : Address
  pub token : ℕ
  pub amount : ℕ
  pub to : Address

pub record FullExit : Type 0 where
  pub account_id : ℕ
  pub eth_address : Address
  pub token : ℕ

pub data ZkSyncPriorityOp : Type 0 where
  deposit : Deposit → ZkSyncPriorityOp
  full_exit : FullExit → ZkSyncPriorityOp

pub record DepositOp : Type 0 where
  pub priority_op : Deposit
  pub account_id : ℕ

pub record FullExitOp : Type 0 where
  pub priority_op : FullExit
  pub withdraw_amount : Option ℕ

pub record TransferOp : Type 0 where
  pub tx : Transfer
  pub from : ℕ
  pub to : ℕ

pub record TransferToNewOp : Type 0 where
  pub tx : Transfer
  pub from : ℕ
  pub to : ℕ

pub record WithdrawOp : Type 0 where
  pub tx : Withdraw
  pub account_id : ℕ

pub record CloseOp : Type 0 where
  pub tx : Close
  pub account_id : ℕ

pub record ChangePubKeyOp : Type 0 where
  pub tx : ChangePubKey
  pub account_id : ℕ

pub record ForcedExitOp : Type 0 where
  pub tx : ForcedExit
  pub target_account_id : ℕ
  pub withdraw_amount : Option ℕ

pub data ZkSyncOp : Type 0 where
  deposit : DepositOp → ZkSyncOp
  transfer : TransferOp → ZkSyncOp
  transfer_to_new : TransferToNewOp → ZkSyncOp
  withdraw : WithdrawOp → ZkSyncOp
  close : CloseOp → ZkSyncOp
  full_exit : FullExitOp → ZkSyncOp
  change_pub_key_offchain : ChangePubKeyOp → ZkSyncOp
  forced_exit : ForcedExitOp → ZkSyncOp
  noop : ZkSyncOp

pub data TransferOutcome : Type 0 where
  transfer : TransferOp → TransferOutcome
  transfer_to_new : TransferToNewOp → TransferOutcome

-- `TransferOutcome::into_franklin_op`
abbrev pub into_franklin_op : TransferOutcome → ZkSyncOp
into_franklin_op (TransferOutcome.transfer op) = ZkSyncOp.transfer op
into_franklin_op (TransferOutcome.transfer_to_new op) = ZkSyncOp.transfer_to_new op

pub record OpSuccess : Type 0 where
  pub fee : Option CollectedFee
  pub updates : AccountUpdates
  pub executed_op : ZkSyncOp

-- what `apply_op` returns
abbrev pub Applied : Type 0
Applied = Option CollectedFee × AccountUpdates

unfoldable pub empty : ZkSyncState
empty = record {
  balance_tree = record { items = []; tree_depth = account_tree_depth };
  account_id_by_address = [];
  block_number = 0;
}

abbrev pub get_account : ℕ → ZkSyncState → Option Account
get_account id s = HashMap.get id s.balance_tree.items

-- `expect` panics where the cached id has no account
unfoldable pub get_account_by_address : Address → ZkSyncState → Result (Option (ℕ × Account))
get_account_by_address address s = elim (HashMap.get address s.account_id_by_address) [
  | none ↦ ok none
  | some id ↦ elim (get_account id s) [ none ↦ panic | some a ↦ ok (some (id, a)) ]
]

-- The state with the account under its id and the id under its address.
abbrev pub inserted : ℕ → Account → ZkSyncState → ZkSyncState
inserted id a s = record s {
  balance_tree = record s.balance_tree { items = HashMap.insert id a s.balance_tree.items };
  account_id_by_address = HashMap.insert a.address id s.account_id_by_address;
}

-- `insert_account`: the tree asserts that the index is below its capacity, `1 << tree_depth`.
unfoldable pub insert_account : ℕ → Account → Action (Unit {0})
insert_account id a s =
    (if ltb id (2 ^ s.balance_tree.tree_depth) then ok tt else panic, inserted id a s)

unfoldable pub remove_account : ℕ → Action (Unit {0})
remove_account id s = elim (get_account id s) [
  | none ↦ (ok tt, s)
  | some a ↦ (
    ok tt,
    record s {
      balance_tree = record s.balance_tree { items = HashMap.remove id s.balance_tree.items };
      account_id_by_address = HashMap.remove a.address s.account_id_by_address;
    },
  )
]

-- `balance_tree.items.len() as u32`
unfoldable pub get_free_account_id : ZkSyncState → ℕ
get_free_account_id s = HashMap.len s.balance_tree.items % u32_mod
