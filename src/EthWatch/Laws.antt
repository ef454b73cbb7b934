-- ===== src/EthWatch/Laws.antt =====
-- What the watcher answers to a request for priority operations.
use qs_react_native_zksync.Prelude.{
  ℕ, zero, suc, usize_add, ◌+◌, ◌-◌, ◌≡◌, ◌≤◌, ◌<◌, ◌⊎◌, refl, sym, subst, arith, inl, inr, none,
  some, Option-cases, List, [], ◌∷◌, Bool-cases, leb,
}
use qs_react_native_zksync.HashMap
use qs_react_native_zksync.HashMap.{HashMap}
use qs_react_native_zksync.Block.{PriorityOp, priority_chunks}
use qs_react_native_zksync.Mempool.{priority_ops_chunks}
use qs_react_native_zksync.StateKeeper.Invariant.{priority_chunks_is_six}
use qs_react_native_zksync.EthWatch.{
  ReceivedPriorityOp, EthState, priority_loop, get_priority_requests,
}

-- The operations stand in the queue under consecutive ids.
abbrev pub Consecutive : HashMap ReceivedPriorityOp → ℕ → List PriorityOp → Type 0
Consecutive queue id [] = Unit
Consecutive queue id (op ∷ ops) =
    ((r : ReceivedPriorityOp) × (HashMap.get id queue ≡ some r) × (r.op ≡ op))
    × Consecutive queue (usize_add id 1) ops

-- The id after a list of operations.
abbrev pub id_after : ℕ → List PriorityOp → ℕ
id_after id [] = id
id_after id (op ∷ ops) = id_after (usize_add id 1) ops

-- The operation under the id is missing, or does not fit in what is left.
abbrev pub StopsAt : HashMap ReceivedPriorityOp → ℕ → ℕ → Type 0
StopsAt queue left id =
    (HashMap.get id queue ≡ none)
    ⊎ ((r : ReceivedPriorityOp) × (HashMap.get id queue ≡ some r)
        × (left < priority_chunks r.op.«data»))

-- A list of operations that is a right answer, where some chunks are used.
abbrev Answers : HashMap ReceivedPriorityOp → ℕ → ℕ → ℕ → List PriorityOp → Type 0
Answers queue max used id ops =
    Consecutive queue id ops
    × (used + priority_ops_chunks ops ≤ max)
    × StopsAt queue (max - (used + priority_ops_chunks ops)) (id_after id ops)

answer_cons :
    (queue : HashMap ReceivedPriorityOp) (max used id : ℕ) (r : ReceivedPriorityOp)
    (ops : List PriorityOp)
    → HashMap.get id queue ≡ some r
    → Answers queue max (used + priority_chunks r.op.«data») (usize_add id 1) ops
    → Answers queue max used id (r.op ∷ ops)
unfolding priority_ops_chunks
answer_cons queue max used id r ops e (run, le, stop) =
    let n = priority_chunks r.op.«data» in
    let sum : (used + n) + priority_ops_chunks ops ≡ used + (n + priority_ops_chunks ops) =
      omega arith in
    (
      ((r, e, refl), run),
      omega arith,
      subst (λ k. StopsAt queue (max - k) (id_after (usize_add id 1) ops)) sum stop,
    )

priority_loop-Answers :
    (fuel max used id : ℕ) (queue : HashMap ReceivedPriorityOp)
    → used ≤ max
    → max < fuel + used
    → Answers queue max used id (priority_loop fuel max used id queue)
unfolding priority_loop priority_ops_chunks
priority_loop-Answers zero max used id queue le enough = absurd (omega arith)
priority_loop-Answers (suc fuel) max used id queue le enough =
    elim (Option-cases (HashMap.get id queue)) [
      | inl e ↦
          let done : priority_loop (suc fuel) max used id queue ≡ [] = ground arith in
          subst (Answers queue max used id) (sym done) (tt, ground arith, inl e)
      | inr (r, e) ↦
          let n = priority_chunks r.op.«data» in
          let six = priority_chunks_is_six r.op.«data» in
          elim (Bool-cases (leb (used + n) max)) [
            | inl fits ↦
                let rest = priority_loop fuel max (used + n) (usize_add id 1) queue in
                let more : priority_loop (suc fuel) max used id queue ≡ r.op ∷ rest =
                  ground arith in
                subst (Answers queue max used id) (sym more) (
                  answer_cons queue max used id r rest e (
                    priority_loop-Answers fuel max (used + n) (usize_add id 1) queue (ground arith)
                      (omega arith)))
            | inr large ↦
                let done : priority_loop (suc fuel) max used id queue ≡ [] = ground arith in
                subst (Answers queue max used id) (sym done)
                  (tt, ground arith, inr (r, e, ground arith))
          ]
    ]

-- The answer to a request has the operations under consecutive ids from the one that is asked for, in
-- at most the chunks that are asked for; it ends only where the next id is missing or the operation
-- under it does not fit.
pub get_priority_requests-Answers :
    (first max : ℕ) (st : EthState)
    → (let ops = get_priority_requests first max st in
        Consecutive st.priority_queue first ops
        × (priority_ops_chunks ops ≤ max)
        × StopsAt st.priority_queue (max - priority_ops_chunks ops) (id_after first ops))
unfolding get_priority_requests
get_priority_requests-Answers first max st =
    let ops = priority_loop (max + 1) max 0 first st.priority_queue in
    let (run, le, stop) =
      priority_loop-Answers (max + 1) max 0 first st.priority_queue (omega arith) (omega arith) in
    let sum : 0 + priority_ops_chunks ops ≡ priority_ops_chunks ops = omega arith in
    (
      run,
      omega arith,
      subst (λ k. StopsAt st.priority_queue (max - k) (id_after first ops)) sum stop,
    )
