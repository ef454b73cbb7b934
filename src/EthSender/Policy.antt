-- ===== src/EthSender/Policy.antt =====
-- `pop_front`, by what waits in the three queues.
use qs_react_native_zksync.Prelude.{
  ◌+◌, ◌≡◌, ◌≢◌, ◌≤◌, ◌<◌, ◌⊎◌, arith, inl, inr, none, some, Option-cases, List, ◌∷◌,
}
use qs_react_native_zksync.HashMap
use qs_react_native_zksync.EthSender.CounterQueue
use qs_react_native_zksync.EthSender.SparseQueue
use qs_react_native_zksync.EthSender.TxQueue.{TxData, TxQueue, get_next_operation, pop_front}
use qs_react_native_zksync.EthSender.Order.{IsOrdered, Countable, get_next_operation-ordered}

-- Some operation can go: a commit waits; or the next block to verify is there and its commit has been
-- sent; or a withdrawal waits and the verification of its block has been sent.
abbrev pub CanSend : TxQueue → Type 0
CanSend q =
    ((op : TxData) × (rest : List TxData) × (q.commit_operations.elements ≡ op ∷ rest))
    ⊎ (((op : TxData) × (HashMap.get q.verify_operations.next_expected_idx
              q.verify_operations.elements
            ≡ some op)
          × (q.verify_operations.next_expected_idx ≤ q.commit_operations.counter))
        ⊎ ((op : TxData) × (rest : List TxData) × (q.withdraw_operations.elements ≡ op ∷ rest)
            × (q.withdraw_operations.counter + 1 < q.verify_operations.next_expected_idx)))

get_next_operation-yields :
    (q : TxQueue) → IsOrdered q → Countable q → CanSend q → (get_next_operation q).0 ≢ none
unfolding get_next_operation CounterQueue.pop_front SparseQueue.pop_front SparseQueue.has_next
get_next_operation-yields q o c (inl (op, rest, e)) h = ground (arith, o.verified, o.withdrawn)
get_next_operation-yields q o c (inr (inl (op, e, le))) h = ground (arith, o.verified, o.withdrawn)
get_next_operation-yields q o c (inr (inr (op, rest, e, lt))) h =
    ground (arith, o.verified, o.withdrawn)

-- The queue is never stuck: while fewer transactions are in flight than allowed and some operation can
-- go, one is given out, and it is in flight.
pub pop_front-yields :
    (q : TxQueue)
    → IsOrdered q
    → Countable q
    → q.sent_pending_txs < q.max_pending_txs
    → CanSend q
    → (op : TxData) × ((pop_front q).0 ≡ some op)
      × ((pop_front q).1.sent_pending_txs ≡ q.sent_pending_txs + 1)
unfolding pop_front
pop_front-yields q o c room can = elim (Option-cases (get_next_operation q).0) [
  | inl e ↦ absurd (get_next_operation-yields q o c can e)
  | inr (op, e) ↦ (op, ground arith, ground (arith, get_next_operation-ordered q o c))
]
