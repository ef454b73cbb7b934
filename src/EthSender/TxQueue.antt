-- ===== src/EthSender/TxQueue.antt =====
-- tx_queue/mod.rs: which transaction is sent next. An operation of the network is known by the number
-- of its block, all that the queue reads of it.
use qs_react_native_zksync.Prelude.{
  ℕ, usize_add, ◌+◌, ◌-◌, Bool, true, false, ◌&&◌, Option, none, some, List, [], ◌∷◌, ◌==◌, ltb,
  leb, is_some, if◌then◌else◌, map_some,
}
use qs_react_native_zksync.HashMap
use qs_react_native_zksync.Tx.{Bytes}
use qs_react_native_zksync.EthSender.CounterQueue
use qs_react_native_zksync.EthSender.CounterQueue.{CounterQueue}
use qs_react_native_zksync.EthSender.SparseQueue
use qs_react_native_zksync.EthSender.SparseQueue.{SparseQueue}

pub data OperationType : Type 0 where
  commit verify withdraw : OperationType

pub record TxData : Type 0 where
  pub op_type : OperationType
  pub raw : Bytes
  pub operation : Option ℕ

pub record TxQueue : Type 0 where
  pub max_pending_txs : ℕ
  pub sent_pending_txs : ℕ
  pub commit_operations : CounterQueue TxData
  pub verify_operations : SparseQueue TxData
  pub withdraw_operations : CounterQueue TxData

pub record TxQueueBuilder : Type 0 where
  pub max_pending_txs : ℕ
  pub sent_pending_txs : ℕ
  pub commit_operations_count : ℕ
  pub verify_operations_count : ℕ
  pub withdraw_operations_count : ℕ

unfoldable pub build : TxQueueBuilder → TxQueue
unfolding CounterQueue.new SparseQueue.new
build b = record {
  max_pending_txs = b.max_pending_txs;
  sent_pending_txs = b.sent_pending_txs;
  commit_operations = CounterQueue.new b.commit_operations_count;
  verify_operations = SparseQueue.new (usize_add b.verify_operations_count 1);
  withdraw_operations = CounterQueue.new b.withdraw_operations_count;
}

-- `any` over the queue, where `block` panics on a transaction without an operation: that is `none`
unfoldable pub any_block : ℕ → List TxData → Option Bool
any_block block_idx [] = some false
any_block block_idx (item ∷ items) = elim item.operation [
  | none ↦ none
  | some number ↦ elim (number == block_idx) [
    | true ↦ some true
    | false ↦ any_block block_idx items
  ]
]

unfoldable pub commit_operation_exists : ℕ → TxQueue → Option Bool
unfolding any_block
commit_operation_exists block_idx q = any_block block_idx q.commit_operations.elements

unfoldable pub verify_operation_exists : ℕ → TxQueue → Bool
unfolding HashMap.get
verify_operation_exists block_idx q = is_some (HashMap.get block_idx q.verify_operations.elements)

unfoldable pub add_commit_operation : TxData → TxQueue → TxQueue
unfolding CounterQueue.push_back
add_commit_operation op q = record q {
  commit_operations = CounterQueue.push_back op q.commit_operations;
}

unfoldable pub add_verify_operation : ℕ → TxData → TxQueue → Option TxQueue
unfolding SparseQueue.insert
add_verify_operation block_idx op q =
    map_some (SparseQueue.insert block_idx op q.verify_operations)
      (λ verify. record q { verify_operations = verify })

unfoldable pub add_withdraw_operation : TxData → TxQueue → TxQueue
unfolding CounterQueue.push_back
add_withdraw_operation op q = record q {
  withdraw_operations = CounterQueue.push_back op q.withdraw_operations;
}

-- the queue of the element's type, with the element at its front
unfoldable pub return_by_type : TxData → TxQueue → TxQueue
unfolding CounterQueue.return_popped SparseQueue.return_popped
return_by_type element q = elim element.op_type [
  | commit ↦ record q { commit_operations = CounterQueue.return_popped element q.commit_operations }
  | verify ↦ record q { verify_operations = SparseQueue.return_popped element q.verify_operations }
  | withdraw ↦ record q {
    withdraw_operations = CounterQueue.return_popped element q.withdraw_operations;
  }
]

-- `none` where the assertion fails
unfoldable pub return_popped : TxData → TxQueue → Option TxQueue
unfolding return_by_type
return_popped element q =
    let r = return_by_type element q in
    if ltb 0 q.sent_pending_txs
    then some (record r { sent_pending_txs = r.sent_pending_txs - 1 })
    else none

unfoldable pub get_next_operation : TxQueue → Option TxData × TxQueue
unfolding CounterQueue.pop_front SparseQueue.pop_front SparseQueue.has_next
get_next_operation q =
    let next_verify_op_id = q.verify_operations.next_expected_idx in
    let next_commit_op_id = usize_add (CounterQueue.get_count q.commit_operations) 1 in
    let next_withdraw_op_id = usize_add (CounterQueue.get_count q.withdraw_operations) 1 in
    let (to_verify, verifies) = SparseQueue.pop_front q.verify_operations in
    let (to_withdraw, withdraws) = CounterQueue.pop_front q.withdraw_operations in
    let (to_commit, commits) = CounterQueue.pop_front q.commit_operations in
    let from_commit : Option TxData × TxQueue =
      (to_commit, record q { commit_operations = commits }) in
    if ltb next_verify_op_id next_commit_op_id && SparseQueue.has_next q.verify_operations
    then (to_verify, record q { verify_operations = verifies })
    else if ltb next_withdraw_op_id next_verify_op_id && is_some to_withdraw
    then (to_withdraw, record q { withdraw_operations = withdraws })
    else from_commit

-- The sum does not wrap: it is at most `max_pending_txs`.
unfoldable pub pop_front : TxQueue → Option TxData × TxQueue
unfolding get_next_operation
pop_front q =
    if leb q.max_pending_txs q.sent_pending_txs
    then (none, q)
    else let (op, next) = get_next_operation q in
      elim op [
        | none ↦ (none, next)
        | some tx ↦ (some tx, record next { sent_pending_txs = next.sent_pending_txs + 1 })
      ]

-- `none` where the assertion fails
unfoldable pub report_commitment : TxQueue → Option TxQueue
report_commitment q =
    if ltb 0 q.sent_pending_txs
    then some (record q { sent_pending_txs = q.sent_pending_txs - 1 })
    else none
