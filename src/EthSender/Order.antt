-- ===== src/EthSender/Order.antt =====
-- Commit, verify and withdraw operations of a block, through each call of the queue.
use qs_react_native_zksync.Prelude.{ℕ, u64_mod, ◌+◌, ◌≡◌, ◌≤◌, ◌<◌, arith, some}
use qs_react_native_zksync.EthSender.CounterQueue
use qs_react_native_zksync.EthSender.SparseQueue
use qs_react_native_zksync.EthSender.TxQueue.{
  TxData, TxQueue, TxQueueBuilder, build, add_commit_operation, add_verify_operation,
  add_withdraw_operation, get_next_operation, pop_front, report_commitment,
}

-- Only blocks whose commit has been sent are verified, only blocks whose verification has been sent are
-- withdrawn from, and no more transactions are in flight than allowed.
pub record IsOrdered (q : TxQueue) : Type 0 where
  pub verified : q.verify_operations.next_expected_idx ≤ q.commit_operations.counter + 1
  pub withdrawn : q.withdraw_operations.counter < q.verify_operations.next_expected_idx
  pub within : q.sent_pending_txs ≤ q.max_pending_txs

-- Fewer commits are sent than a usize counts.
abbrev pub Countable : TxQueue → Type 0
Countable q = q.commit_operations.counter + 2 < u64_mod

pub build-IsOrdered :
    (b : TxQueueBuilder)
    → b.verify_operations_count ≤ b.commit_operations_count
    → b.withdraw_operations_count ≤ b.verify_operations_count
    → b.sent_pending_txs ≤ b.max_pending_txs
    → b.commit_operations_count + 2 < u64_mod
    → IsOrdered (build b)
unfolding build CounterQueue.new SparseQueue.new
build-IsOrdered b v w s c = ground arith

pub get_next_operation-ordered :
    (q : TxQueue)
    → IsOrdered q
    → Countable q
    → (let q' = (get_next_operation q).1 in
        (q'.verify_operations.next_expected_idx ≤ q'.commit_operations.counter + 1)
        × (q'.withdraw_operations.counter < q'.verify_operations.next_expected_idx)
        × (q'.sent_pending_txs ≡ q.sent_pending_txs)
        × (q'.max_pending_txs ≡ q.max_pending_txs))
unfolding get_next_operation CounterQueue.pop_front SparseQueue.pop_front SparseQueue.has_next
get_next_operation-ordered q o c = ground (arith, o.verified, o.withdrawn)

pub pop_front-IsOrdered : (q : TxQueue) → IsOrdered q → Countable q → IsOrdered (pop_front q).1
unfolding pop_front
pop_front-IsOrdered q o c = ground (arith, get_next_operation-ordered q o c, o.within)

pub add_commit-IsOrdered :
    (op : TxData) (q : TxQueue) → IsOrdered q → IsOrdered (add_commit_operation op q)
unfolding add_commit_operation CounterQueue.push_back
add_commit-IsOrdered op q o = record {
  verified = o.verified;
  withdrawn = o.withdrawn;
  within = o.within;
}

pub add_withdraw-IsOrdered :
    (op : TxData) (q : TxQueue) → IsOrdered q → IsOrdered (add_withdraw_operation op q)
unfolding add_withdraw_operation CounterQueue.push_back
add_withdraw-IsOrdered op q o = record {
  verified = o.verified;
  withdrawn = o.withdrawn;
  within = o.within;
}

pub add_verify-IsOrdered :
    (block_idx : ℕ) (op : TxData) (q q' : TxQueue)
    → IsOrdered q
    → add_verify_operation block_idx op q ≡ some q'
    → IsOrdered q'
unfolding add_verify_operation SparseQueue.insert
add_verify-IsOrdered block_idx op q q' o h = ground (arith, o.verified, o.withdrawn, o.within)

pub report-IsOrdered : (q q' : TxQueue) → IsOrdered q → report_commitment q ≡ some q' → IsOrdered q'
unfolding report_commitment
report-IsOrdered q q' o h = ground (arith, o.verified, o.withdrawn, o.within)
