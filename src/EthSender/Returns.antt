-- ===== src/EthSender/Returns.antt =====
-- `return_popped` after `pop_front`.
use qs_react_native_zksync.Prelude.{
  ℕ, usize_add, ◌+◌, ◌≡◌, ◌⊎◌, refl, ap, sym, ◌∙◌, subst, arith, inl, inr, some, Option-cases,
  List-cases, List, [], ◌∷◌, Bool-cases, is_some, ltb, ◌&&◌, eq_cases,
}
use qs_react_native_zksync.HashMap
use qs_react_native_zksync.HashMap.Laws.{get-insert, get-remove}
use qs_react_native_zksync.EthSender.CounterQueue
use qs_react_native_zksync.EthSender.SparseQueue
use qs_react_native_zksync.EthSender.TxQueue.{
  TxData, TxQueue, OperationType, commit, verify, withdraw, get_next_operation, pop_front,
  return_by_type, return_popped,
}
use qs_react_native_zksync.EthSender.Order.{IsOrdered, Countable}

-- Every transaction of a list has the type.
abbrev pub AllOfType : OperationType → List TxData → Type 0
AllOfType t [] = Unit
AllOfType t (op ∷ ops) = (op.op_type ≡ t) × AllOfType t ops

-- Each queue holds the transactions of its type.
pub record IsTyped (q : TxQueue) : Type 0 where
  pub commits : AllOfType commit q.commit_operations.elements
  pub verifies :
      (i : ℕ) (op : TxData)
      → HashMap.get i q.verify_operations.elements ≡ some op
      → op.op_type ≡ verify
  pub withdraws : AllOfType withdraw q.withdraw_operations.elements

-- Two queues that no call can tell apart: the verify operations are the same at every index.
pub record SameQueue (q q' : TxQueue) : Type 0 where
  pub commits : q.commit_operations ≡ q'.commit_operations
  pub withdraws : q.withdraw_operations ≡ q'.withdraw_operations
  pub next_verify : q.verify_operations.next_expected_idx ≡ q'.verify_operations.next_expected_idx
  pub verifies :
      (i : ℕ)
      → HashMap.get i q.verify_operations.elements ≡ HashMap.get i q'.verify_operations.elements
  pub in_flight : q.sent_pending_txs ≡ q'.sent_pending_txs
  pub allowed : q.max_pending_txs ≡ q'.max_pending_txs

-- An entry that is removed and inserted again.
get-insert_removed :
    (k i : ℕ) (op : TxData) (m : HashMap.HashMap TxData)
    → HashMap.get k m ≡ some op
    → HashMap.get i (HashMap.insert k op (HashMap.remove k m)) ≡ HashMap.get i m
get-insert_removed k i op m h = elim (eq_cases k i) [
  | inl e ↦
      ground (
        arith,
        get-insert k i op (HashMap.remove k m),
        get-remove k i m,
        ap (λ j. HashMap.get j m) e,
      )
  | inr n ↦ ground (arith, get-insert k i op (HashMap.remove k m), get-remove k i m)
]

module _ (q n : TxQueue) (op : TxData) where
  abbrev FromCommit : Type 0
  FromCommit =
      (rest : List TxData) × (q.commit_operations.elements ≡ op ∷ rest)
      × (n ≡ record q {
        commit_operations = record {
          elements = rest;
          counter = usize_add q.commit_operations.counter 1;
        };
      })

  abbrev FromVerify : Type 0
  FromVerify =
      (HashMap.get q.verify_operations.next_expected_idx q.verify_operations.elements ≡ some op)
      × (n ≡ record q {
        verify_operations = record {
          next_expected_idx = usize_add q.verify_operations.next_expected_idx 1;
          elements =
              HashMap.remove q.verify_operations.next_expected_idx q.verify_operations.elements;
        };
      })

  abbrev FromWithdraw : Type 0
  FromWithdraw =
      (rest : List TxData) × (q.withdraw_operations.elements ≡ op ∷ rest)
      × (n ≡ record q {
        withdraw_operations = record {
          elements = rest;
          counter = usize_add q.withdraw_operations.counter 1;
        };
      })

  -- Which queue an operation comes from.
  get_next_operation_inv :
      get_next_operation q ≡ (some op, n) → FromCommit ⊎ (FromVerify ⊎ FromWithdraw)
  unfolding get_next_operation CounterQueue.pop_front SparseQueue.pop_front SparseQueue.has_next
  get_next_operation_inv h =
      let verifies =
        ltb q.verify_operations.next_expected_idx (usize_add q.commit_operations.counter 1)
        && SparseQueue.has_next q.verify_operations in
      let withdraws =
        ltb (usize_add q.withdraw_operations.counter 1) q.verify_operations.next_expected_idx
        && is_some (CounterQueue.pop_front q.withdraw_operations).0 in
      elim (Bool-cases verifies) [
        | inl v ↦ inr (inl (ground arith, ground arith))
        | inr v ↦ elim (Bool-cases withdraws) [
          | inl w ↦ elim (List-cases q.withdraw_operations.elements) [
            | inl e ↦ absurd (ground arith)
            | inr (x, rest, e) ↦ inr (inr (rest, ground arith, ground arith))
          ]
          | inr w ↦ elim (List-cases q.commit_operations.elements) [
            | inl e ↦ absurd (ground arith)
            | inr (x, rest, e) ↦ inl (rest, ground arith, ground arith)
          ]
        ]
      ]

-- The queue after giving out an operation.
abbrev in_flight : TxQueue → TxQueue
in_flight n = record n { sent_pending_txs = n.sent_pending_txs + 1 }

-- What a return makes of the queue.
abbrev Undone : TxData → TxQueue → TxQueue → Type 0
Undone op n q = (r : TxQueue) × (return_popped op (in_flight n) ≡ some r) × SameQueue r q

module _ (q n : TxQueue) (op : TxData) (o : IsOrdered q) (c : Countable q) where
  commit_returned : op.op_type ≡ commit → FromCommit q n op → Undone op n q
  unfolding return_popped return_by_type CounterQueue.return_popped
  commit_returned t (rest, e, is) =
      let counted : usize_add q.commit_operations.counter 1 ≡ q.commit_operations.counter + 1 =
        ground arith in
      (
        record (return_by_type op n) { sent_pending_txs = q.sent_pending_txs },
        ground arith,
        record {
          commits = ground arith;
          withdraws = ground arith;
          next_verify = ground arith;
          verifies = λ i. ground arith;
          in_flight = refl;
          allowed = ground arith;
        },
      )

  withdraw_returned : op.op_type ≡ withdraw → FromWithdraw q n op → Undone op n q
  unfolding return_popped return_by_type CounterQueue.return_popped
  withdraw_returned t (rest, e, is) =
      let counted : usize_add q.withdraw_operations.counter 1 ≡ q.withdraw_operations.counter + 1 =
        ground (arith, o.withdrawn, o.verified) in
      (
        record (return_by_type op n) { sent_pending_txs = q.sent_pending_txs },
        ground arith,
        record {
          commits = ground arith;
          withdraws = ground arith;
          next_verify = ground arith;
          verifies = λ i. ground arith;
          in_flight = refl;
          allowed = ground arith;
        },
      )

  verify_returned : op.op_type ≡ verify → FromVerify q n op → Undone op n q
  unfolding return_popped return_by_type SparseQueue.return_popped
  verify_returned t (e, is) =
      let counted : usize_add q.verify_operations.next_expected_idx 1
          ≡ q.verify_operations.next_expected_idx + 1 =
        ground (arith, o.verified) in
      (
        record (return_by_type op n) { sent_pending_txs = q.sent_pending_txs },
        ground arith,
        record {
          commits = ground arith;
          withdraws = ground arith;
          next_verify = ground arith;
          verifies = λ i. ground (
            arith,
            get-insert_removed q.verify_operations.next_expected_idx i op
                q.verify_operations.elements e,
          );
          in_flight = refl;
          allowed = ground arith;
        },
      )

first_type :
    {t : OperationType} {op : TxData} {ops rest : List TxData}
    → ops ≡ op ∷ rest
    → AllOfType t ops
    → op.op_type ≡ t
first_type {t = t} e all = (subst (AllOfType t) e all).0

-- In a queue that keeps to the order, and whose queues hold transactions of their type, an operation
-- that has been given out is taken back without a panic, and the queue is what it was before.
pub return_popped-pop_front :
    (q q' : TxQueue) (op : TxData)
    → IsOrdered q
    → Countable q
    → IsTyped q
    → pop_front q ≡ (some op, q')
    → (r : TxQueue) × (return_popped op q' ≡ some r) × SameQueue r q
unfolding pop_front
return_popped-pop_front q q' op o c t h =
    let n = (get_next_operation q).1 in
    elim (Option-cases (get_next_operation q).0) [
      | inl e ↦ absurd (ground arith)
      | inr (x, e) ↦
          let same : x ≡ op = ground arith in
          let sent : q' ≡ in_flight n = ground arith in
          let got : get_next_operation q ≡ (some op, n) = λ i. ((e ∙ ap some same) i, n) in
          subst (λ p. (r : TxQueue) × (return_popped op p ≡ some r) × SameQueue r q) (sym sent)
            (elim (get_next_operation_inv q n op got) [
              | inl from ↦ commit_returned q n op o c (first_type from.1 t.commits) from
              | inr (inl from) ↦ verify_returned q n op o c (t.verifies _ op from.0) from
              | inr (inr from) ↦ withdraw_returned q n op o c (first_type from.1 t.withdraws) from
            ])
    ]
