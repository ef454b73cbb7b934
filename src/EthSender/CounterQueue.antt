-- ===== src/EthSender/CounterQueue.antt =====
-- tx_queue/counter_queue.rs: a queue that counts what it has given out.
use qs_react_native_zksync.Prelude.{
  ℕ, usize_add, usize_sub, Option, none, some, List, [], ◌∷◌, ◌++◌, length,
}

pub record CounterQueue {ℓ} (T : Type ℓ) : Type ℓ where
  pub elements : List T
  pub counter : ℕ

module _ {ℓ} {T : Type ℓ} where
  unfoldable pub new : ℕ → CounterQueue T
  new counter = record { elements = []; counter = counter }

  unfoldable pub return_popped : T → CounterQueue T → CounterQueue T
  return_popped element q = record {
    elements = element ∷ q.elements;
    counter = usize_sub q.counter 1;
  }

  unfoldable pub push_back : T → CounterQueue T → CounterQueue T
  push_back element q = record q { elements = q.elements ++ element ∷ [] }

  unfoldable pub pop_front : CounterQueue T → Option T × CounterQueue T
  pop_front q = elim q.elements [
    | [] ↦ (none, q)
    | element ∷ rest ↦ (some element, record { elements = rest; counter = usize_add q.counter 1 })
  ]

  abbrev pub get_count : CounterQueue T → ℕ
  get_count q = q.counter

  abbrev pub len : CounterQueue T → ℕ
  len q = length q.elements
