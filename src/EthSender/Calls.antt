-- ===== src/EthSender/Calls.antt =====
-- The calls that the sender makes on its queue, in any order: what is added has the type of its queue,
-- and a transaction is returned right after it has been given out, when it could not be sent
-- (proceed_next_operations of lib.rs).
use qs_react_native_zksync.Prelude.{ℕ, ◌≡◌, some}
use qs_react_native_zksync.HashMap
use qs_react_native_zksync.EthSender.CounterQueue
use qs_react_native_zksync.EthSender.CounterQueue.{CounterQueue}
use qs_react_native_zksync.EthSender.SparseQueue
use qs_react_native_zksync.EthSender.SparseQueue.{SparseQueue}
use qs_react_native_zksync.EthSender.TxQueue.{
  TxData, TxQueue, commit, verify, withdraw, add_commit_operation, add_verify_operation,
  add_withdraw_operation, pop_front, return_popped, report_commitment,
}
use qs_react_native_zksync.EthSender.Order.{Countable}

-- One call of the sender, while fewer commits are sent than a usize counts. `pop_and_return` is a
-- transaction that is given out, could not be sent and is returned.
pub data Step : TxQueue → TxQueue → Type 0 where
  add_commit :
      (op : TxData) (q : TxQueue) → op.op_type ≡ commit → Step q (add_commit_operation op q)
  add_verify :
      (block_idx : ℕ) (op : TxData) (q q' : TxQueue)
      → op.op_type ≡ verify
      → add_verify_operation block_idx op q ≡ some q'
      → Step q q'
  add_withdraw :
      (op : TxData) (q : TxQueue) → op.op_type ≡ withdraw → Step q (add_withdraw_operation op q)
  pop : (q : TxQueue) → Countable q → Step q (pop_front q).1
  pop_and_return :
      (op : TxData) (q popped q' : TxQueue)
      → Countable q
      → pop_front q ≡ (some op, popped)
      → return_popped op popped ≡ some q'
      → Step q q'
  report : (q q' : TxQueue) → report_commitment q ≡ some q' → Step q q'

pub data Reaches : TxQueue → TxQueue → Type 0 where
  stop : (q : TxQueue) → Reaches q q
  step : (q q' q'' : TxQueue) → Step q q' → Reaches q' q'' → Reaches q q''
