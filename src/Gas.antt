-- ===== src/Gas.antt =====
-- zksync/core/lib/types/src/gas_counter.rs: the estimated gas of the contract calls for a block.
use qs_react_native_zksync.Prelude.{ℕ, ◌+◌, ◌*◌, ◌/◌, ltb, is_some, if◌then◌else◌}
use qs_react_native_zksync.State.Defs.{ZkSyncOp, Result, ok, err, panic}

abbrev pub tx_gas_limit : ℕ
tx_gas_limit = 4000000

abbrev pub commit_base_cost : ℕ
commit_base_cost = 300000

-- closing is disabled: `unreachable!`
unfoldable pub commit_op_cost : ZkSyncOp → Result ℕ
commit_op_cost ZkSyncOp.noop = ok 0
commit_op_cost (ZkSyncOp.deposit op) = ok 10397
commit_op_cost (ZkSyncOp.change_pub_key_offchain op) =
    if is_some op.tx.eth_signature then ok 15866 else ok 3929
commit_op_cost (ZkSyncOp.transfer op) = ok 334
commit_op_cost (ZkSyncOp.transfer_to_new op) = ok 862
commit_op_cost (ZkSyncOp.full_exit op) = ok 10165
commit_op_cost (ZkSyncOp.withdraw op) = ok 2167
commit_op_cost (ZkSyncOp.forced_exit op) = ok 2167
commit_op_cost (ZkSyncOp.close op) = panic

abbrev pub verify_base_cost : ℕ
verify_base_cost = 1000000

unfoldable pub verify_op_cost : ZkSyncOp → Result ℕ
verify_op_cost ZkSyncOp.noop = ok 0
verify_op_cost (ZkSyncOp.deposit op) = ok 0
verify_op_cost (ZkSyncOp.change_pub_key_offchain op) = ok 0
verify_op_cost (ZkSyncOp.transfer op) = ok 0
verify_op_cost (ZkSyncOp.transfer_to_new op) = ok 0
verify_op_cost (ZkSyncOp.full_exit op) = ok 2499
verify_op_cost (ZkSyncOp.withdraw op) = ok 45668
verify_op_cost (ZkSyncOp.forced_exit op) = ok 45668
verify_op_cost (ZkSyncOp.close op) = panic

pub record GasCounter : Type 0 where
  pub commit_cost : ℕ
  pub verify_cost : ℕ

abbrev pub new_gas_counter : GasCounter
new_gas_counter = record { commit_cost = commit_base_cost; verify_cost = verify_base_cost }

-- increases the value by 30%
unfoldable pub scale_up : ℕ → ℕ
scale_up value = value * 130 / 100

-- A call that can refuse with a value of `E`, or panic.
pub data Outcome (E : Type 0) (A : Type 0) : Type 0 where
  done : A → Outcome E A
  refused : E → Outcome E A
  crash : Outcome E A

-- `add_op`, which leaves the counter alone when it refuses
unfoldable pub add_op : ZkSyncOp → GasCounter → Outcome (Unit {0}) GasCounter
unfolding commit_op_cost verify_op_cost scale_up
add_op op gas = elim (commit_op_cost op) [
  | ok commit ↦
      if ltb tx_gas_limit (scale_up (gas.commit_cost + commit))
      then refused tt
      else elim (verify_op_cost op) [
        | ok verify ↦
            if ltb tx_gas_limit (scale_up (gas.verify_cost + verify))
            then refused tt
            else done (record {
              commit_cost = gas.commit_cost + commit;
              verify_cost = gas.verify_cost + verify;
            })
        | err e ↦ crash
        | panic ↦ crash
      ]
  | err e ↦ crash
  | panic ↦ crash
]

unfoldable pub commit_gas_limit : GasCounter → ℕ
commit_gas_limit gas = gas.commit_cost * 130 / 100

unfoldable pub verify_gas_limit : GasCounter → ℕ
verify_gas_limit gas = gas.verify_cost * 130 / 100

-- base cost, and twenty withdrawals of a call
unfoldable pub complete_withdrawals_gas_limit : ℕ
unfolding scale_up
complete_withdrawals_gas_limit = scale_up (30307 + 20 * 41641)
