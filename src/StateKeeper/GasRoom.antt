-- ===== src/StateKeeper/GasRoom.antt =====
-- The gas counter of a fresh block, against the costs of operations.
use qs_react_native_zksync.Prelude.{ℕ, ◌+◌, ◌*◌, ◌≡◌, ◌≢◌, ◌≤◌, ◌<◌, arith, inl, inr}
use qs_react_native_zksync.State.Defs.{ZkSyncOp, Result, ok, err, panic}
use qs_react_native_zksync.Gas.{
  GasCounter, new_gas_counter, add_op, done, refused, commit_op_cost, verify_op_cost, scale_up,
}
use qs_react_native_zksync.StateKeeper.Apply.{count_gas}
use qs_react_native_zksync.StateKeeper.Inversion.{Result-cases}

-- Costs of one operation.
commit_op_cost-bound : (op : ZkSyncOp) (n : ℕ) → commit_op_cost op ≡ ok n → n ≤ 15866
unfolding commit_op_cost
commit_op_cost-bound ZkSyncOp.noop n h = ground arith
commit_op_cost-bound (ZkSyncOp.deposit op) n h = ground arith
commit_op_cost-bound (ZkSyncOp.transfer op) n h = ground arith
commit_op_cost-bound (ZkSyncOp.transfer_to_new op) n h = ground arith
commit_op_cost-bound (ZkSyncOp.withdraw op) n h = ground arith
commit_op_cost-bound (ZkSyncOp.close op) n h = ground arith
commit_op_cost-bound (ZkSyncOp.full_exit op) n h = ground arith
commit_op_cost-bound (ZkSyncOp.change_pub_key_offchain op) n h = ground arith
commit_op_cost-bound (ZkSyncOp.forced_exit op) n h = ground arith

verify_op_cost-bound : (op : ZkSyncOp) (n : ℕ) → verify_op_cost op ≡ ok n → n ≤ 45668
unfolding verify_op_cost
verify_op_cost-bound ZkSyncOp.noop n h = ground arith
verify_op_cost-bound (ZkSyncOp.deposit op) n h = ground arith
verify_op_cost-bound (ZkSyncOp.transfer op) n h = ground arith
verify_op_cost-bound (ZkSyncOp.transfer_to_new op) n h = ground arith
verify_op_cost-bound (ZkSyncOp.withdraw op) n h = ground arith
verify_op_cost-bound (ZkSyncOp.close op) n h = ground arith
verify_op_cost-bound (ZkSyncOp.full_exit op) n h = ground arith
verify_op_cost-bound (ZkSyncOp.change_pub_key_offchain op) n h = ground arith
verify_op_cost-bound (ZkSyncOp.forced_exit op) n h = ground arith

-- The gas that at most so many operations have used.
pub record UsedBy (n : ℕ) (gas : GasCounter) : Type 0 where
  commit : gas.commit_cost ≤ 300000 + 15866 * n
  verify : gas.verify_cost ≤ 1000000 + 45668 * n

-- Up to 45 operations, one more has room.
pub add_op-room :
    (op : ZkSyncOp) (n : ℕ) (gas : GasCounter)
    → UsedBy n gas
    → n < 45
    → (add_op op gas ≢ refused tt)
      × ((gas' : GasCounter) → add_op op gas ≡ done gas' → UsedBy (n + 1) gas')
unfolding add_op scale_up
add_op-room op n gas used few = elim (Result-cases (commit_op_cost op)) [
  | inr (inl (e, is)) ↦ ground arith
  | inr (inr is) ↦ ground arith
  | inl (commit, is) ↦ elim (Result-cases (verify_op_cost op)) [
    | inr (inl (e, v)) ↦ ground arith
    | inr (inr v) ↦ ground arith
    | inl (verify, v) ↦
        ground (arith, commit_op_cost-bound op commit is, verify_op_cost-bound op verify v)
  ]
]

pub new_gas_counter-UsedBy : UsedBy 0 new_gas_counter
new_gas_counter-UsedBy = record { commit = ground arith; verify = ground arith }

pub count_gas-room :
    (r : Result ZkSyncOp) (n : ℕ) (gas : GasCounter)
    → UsedBy n gas
    → n < 45
    → (count_gas r gas ≢ refused tt)
      × ((gas' : GasCounter) → count_gas r gas ≡ done gas' → UsedBy (n + 1) gas')
unfolding count_gas
count_gas-room (ok op) n gas used few = add_op-room op n gas used few
count_gas-room (err e) n gas used few = ground (arith, used.commit, used.verify)
count_gas-room panic n gas used few = ground arith
