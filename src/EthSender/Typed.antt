-- ===== src/EthSender/Typed.antt =====
-- The types of the transactions in each queue, through each call.
use qs_react_native_zksync.Prelude.{
  ℕ, usize_add, ◌+◌, ◌-◌, leb, ◌≡◌, ap, sym, ◌∙◌, subst, arith, inl, inr, some, Option-cases,
  List-cases, List, [], ◌∷◌, ◌++◌, Bool-cases, is_some, ltb, ◌&&◌, eq_cases,
}
use qs_react_native_zksync.HashMap
use qs_react_native_zksync.HashMap.Laws.{get-insert, get-remove}
use qs_react_native_zksync.EthSender.CounterQueue
use qs_react_native_zksync.EthSender.CounterQueue.{CounterQueue}
use qs_react_native_zksync.EthSender.SparseQueue
use qs_react_native_zksync.EthSender.SparseQueue.{SparseQueue}
use qs_react_native_zksync.EthSender.TxQueue.{
  TxData, TxQueue, OperationType, commit, verify, withdraw, add_commit_operation,
  add_verify_operation, add_withdraw_operation, get_next_operation, pop_front, report_commitment,
}
use qs_react_native_zksync.EthSender.Returns.{AllOfType, IsTyped}

AllOfType-append :
    {t : OperationType} (ops : List TxData) (op : TxData)
    → AllOfType t ops
    → op.op_type ≡ t
    → AllOfType t (ops ++ op ∷ [])
AllOfType-append [] op h e = (e, tt)
AllOfType-append (o ∷ ops) op (first, h) e = (first, AllOfType-append ops op h e)

AllOfType-pop_front :
    (t : OperationType) (q : CounterQueue TxData)
    → AllOfType t q.elements
    → AllOfType t (CounterQueue.pop_front q).1.elements
unfolding CounterQueue.pop_front
AllOfType-pop_front t q h = elim (List-cases q.elements) [
  | inl e ↦ ground (arith, h)
  | inr (op, rest, e) ↦
      let popped : (CounterQueue.pop_front q).1.elements ≡ rest = ground arith in
      subst (AllOfType t) (sym popped) (subst (AllOfType t) e h).1
]

get-pop_front :
    (i : ℕ) (q : SparseQueue TxData) (op : TxData)
    → HashMap.get i (SparseQueue.pop_front q).1.elements ≡ some op
    → HashMap.get i q.elements ≡ some op
unfolding SparseQueue.pop_front
get-pop_front i q op h = elim (Option-cases (HashMap.get q.next_expected_idx q.elements)) [
  | inl e ↦ ground arith
  | inr (x, e) ↦ ground (arith, get-remove q.next_expected_idx i q.elements)
]

get_next_operation-IsTyped : (q : TxQueue) → IsTyped q → IsTyped (get_next_operation q).1
unfolding get_next_operation
get_next_operation-IsTyped q t =
    let commits = AllOfType-pop_front commit q.commit_operations t.commits in
    let withdraws = AllOfType-pop_front withdraw q.withdraw_operations t.withdraws in
    elim (Bool-cases (
      ltb q.verify_operations.next_expected_idx (usize_add q.commit_operations.counter 1)
      && SparseQueue.has_next q.verify_operations)) [
        | inl v ↦
            let is : (get_next_operation q).1
                ≡ record q { verify_operations = (SparseQueue.pop_front q.verify_operations).1 } =
              ground arith in
            subst IsTyped (sym is) (record {
              commits = t.commits;
              verifies = λ i op h. t.verifies i op (get-pop_front i q.verify_operations op h);
              withdraws = t.withdraws;
            })
        | inr v ↦
            elim (Bool-cases (
              ltb (usize_add q.withdraw_operations.counter 1) q.verify_operations.next_expected_idx
              && is_some (CounterQueue.pop_front q.withdraw_operations).0)) [
                | inl w ↦
                    let is : (get_next_operation q).1 ≡ record q {
                      withdraw_operations = (CounterQueue.pop_front q.withdraw_operations).1;
                    } =
                      ground arith in
                    subst IsTyped (sym is)
                      (record { commits = t.commits; verifies = t.verifies; withdraws = withdraws })
                | inr w ↦
                    let is : (get_next_operation q).1 ≡ record q {
                      commit_operations = (CounterQueue.pop_front q.commit_operations).1;
                    } =
                      ground arith in
                    subst IsTyped (sym is)
                      (record { commits = commits; verifies = t.verifies; withdraws = t.withdraws })
              ]
      ]

pub pop_front-IsTyped : (q : TxQueue) → IsTyped q → IsTyped (pop_front q).1
unfolding pop_front
pop_front-IsTyped q t =
    let next = get_next_operation-IsTyped q t in
    let next' = (get_next_operation q).1 in
    elim (Bool-cases (leb q.max_pending_txs q.sent_pending_txs)) [
      | inl e ↦ let is : (pop_front q).1 ≡ q = ground arith in subst IsTyped (sym is) t
      | inr e ↦ elim (Option-cases (get_next_operation q).0) [
        | inl f ↦ let is : (pop_front q).1 ≡ next' = ground arith in subst IsTyped (sym is) next
        | inr (op, f) ↦
            let is : (pop_front q).1
                ≡ record next' { sent_pending_txs = next'.sent_pending_txs + 1 } =
              ground arith in
            subst IsTyped (sym is) (record {
              commits = next.commits;
              verifies = next.verifies;
              withdraws = next.withdraws;
            })
      ]
    ]

pub add_commit-IsTyped :
    (op : TxData) (q : TxQueue)
    → op.op_type ≡ commit
    → IsTyped q
    → IsTyped (add_commit_operation op q)
unfolding add_commit_operation CounterQueue.push_back
add_commit-IsTyped op q e t = record {
  commits = AllOfType-append q.commit_operations.elements op t.commits e;
  verifies = t.verifies;
  withdraws = t.withdraws;
}

pub add_withdraw-IsTyped :
    (op : TxData) (q : TxQueue)
    → op.op_type ≡ withdraw
    → IsTyped q
    → IsTyped (add_withdraw_operation op q)
unfolding add_withdraw_operation CounterQueue.push_back
add_withdraw-IsTyped op q e t = record {
  commits = t.commits;
  verifies = t.verifies;
  withdraws = AllOfType-append q.withdraw_operations.elements op t.withdraws e;
}

pub add_verify-IsTyped :
    (block_idx : ℕ) (op : TxData) (q q' : TxQueue)
    → op.op_type ≡ verify
    → add_verify_operation block_idx op q ≡ some q'
    → IsTyped q
    → IsTyped q'
unfolding add_verify_operation SparseQueue.insert
add_verify-IsTyped block_idx op q q' is h t =
    let verifies = q.verify_operations in
    let added : q' ≡ record q {
      verify_operations = record verifies {
        elements = HashMap.insert block_idx op verifies.elements;
      };
    } =
      ground arith in
    subst IsTyped (sym added) (record {
      commits = t.commits;
      verifies = λ i o found. elim (eq_cases block_idx i) [
        | inl e ↦
            let same : op ≡ o = ground (arith, get-insert block_idx i op verifies.elements) in
            ap (λ (o : TxData). o.op_type) (sym same) ∙ is
        | inr n ↦ t.verifies i o (ground (arith, get-insert block_idx i op verifies.elements))
      ];
      withdraws = t.withdraws;
    })

pub report-IsTyped : (q q' : TxQueue) → report_commitment q ≡ some q' → IsTyped q → IsTyped q'
unfolding report_commitment
report-IsTyped q q' h t =
    let is : q' ≡ record q { sent_pending_txs = q.sent_pending_txs - 1 } = ground arith in
    subst IsTyped (sym is)
      (record { commits = t.commits; verifies = t.verifies; withdraws = t.withdraws })
