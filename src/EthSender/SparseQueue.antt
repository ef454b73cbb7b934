-- ===== src/EthSender/SparseQueue.antt =====
-- tx_queue/sparse_queue.rs: a queue in the order of indices, with gaps.
use qs_react_native_zksync.Prelude.{
  ℕ, usize_add, usize_sub, Bool, Option, none, some, [], ltb, is_some, if◌then◌else◌,
}
use qs_react_native_zksync.HashMap
use qs_react_native_zksync.HashMap.{HashMap}

pub record SparseQueue {ℓ} (T : Type ℓ) : Type ℓ where
  pub next_expected_idx : ℕ
  pub elements : HashMap T

module _ {ℓ} {T : Type ℓ} where
  unfoldable pub new : ℕ → SparseQueue T
  new next_expected_idx = record { next_expected_idx = next_expected_idx; elements = [] }

  unfoldable pub return_popped : T → SparseQueue T → SparseQueue T
  unfolding HashMap.insert
  return_popped element q = record {
    next_expected_idx = usize_sub q.next_expected_idx 1;
    elements = HashMap.insert (usize_sub q.next_expected_idx 1) element q.elements;
  }

  -- `none` where the assertion fails
  unfoldable pub insert : ℕ → T → SparseQueue T → Option (SparseQueue T)
  unfolding HashMap.insert
  insert idx element q =
      if ltb idx q.next_expected_idx
      then none
      else some (record q { elements = HashMap.insert idx element q.elements })

  unfoldable pub pop_front : SparseQueue T → Option T × SparseQueue T
  unfolding HashMap.get HashMap.remove
  pop_front q = elim (HashMap.get q.next_expected_idx q.elements) [
    | none ↦ (none, q)
    | some value ↦ (
      some value,
      record {
        next_expected_idx = usize_add q.next_expected_idx 1;
        elements = HashMap.remove q.next_expected_idx q.elements;
      },
    )
  ]

  unfoldable pub has_next : SparseQueue T → Bool
  unfolding HashMap.get
  has_next q = is_some (HashMap.get q.next_expected_idx q.elements)

  abbrev pub next_id : SparseQueue T → ℕ
  next_id q = q.next_expected_idx

  abbrev pub len : SparseQueue T → ℕ
  len q = HashMap.len q.elements
