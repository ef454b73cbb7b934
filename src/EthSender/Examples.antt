-- ===== src/EthSender/Examples.antt =====
-- A queue with one operation of each kind, a few gas prices, and what the theorems say of them.
use qs_react_native_zksync.Prelude.{
  ℕ, ◌≡◌, refl, arith, inl, inr, some, [], ◌∷◌, ◌++◌, replicate, eq_cases,
}
use qs_react_native_zksync.HashMap
use qs_react_native_zksync.Gas.{done}
use qs_react_native_zksync.EthSender.CounterQueue
use qs_react_native_zksync.EthSender.SparseQueue
use qs_react_native_zksync.EthSender.TxQueue.{
  TxData, TxQueue, TxQueueBuilder, commit, verify, withdraw, build, add_commit_operation, pop_front,
  return_popped, get_next_operation,
}
use qs_react_native_zksync.EthSender.Order.{IsOrdered}
use qs_react_native_zksync.EthSender.Policy.{pop_front-yields}
use qs_react_native_zksync.EthSender.Returns.{IsTyped, SameQueue, return_popped-pop_front}
use qs_react_native_zksync.EthSender.GasAdjuster.{
  GasStatistics, u256_mul, u256_div, scale_up, scaled_price, limit_max, get_gas_price, add_sample,
}
use qs_react_native_zksync.EthSender.GasPrice.{
  Samples, add_sample-Samples, get_gas_price-bounds, Wanted, Least,
}

abbrev commit_tx : TxData
commit_tx = record { op_type = commit; raw = 0 ∷ []; operation = some 3 }

abbrev verify_tx : TxData
verify_tx = record { op_type = verify; raw = 1 ∷ []; operation = some 2 }

abbrev withdraw_tx : TxData
withdraw_tx = record { op_type = withdraw; raw = 2 ∷ []; operation = some 1 }

abbrev builder : TxQueueBuilder
builder = record {
  max_pending_txs = 3;
  sent_pending_txs = 0;
  commit_operations_count = 2;
  verify_operations_count = 1;
  withdraw_operations_count = 0;
}

-- Two blocks are committed, one is verified, and one operation of each kind waits.
abbrev waiting : TxQueue
waiting = record {
  max_pending_txs = 3;
  sent_pending_txs = 0;
  commit_operations = record { elements = commit_tx ∷ []; counter = 2 };
  verify_operations = record { next_expected_idx = 2; elements = (2, verify_tx) ∷ [] };
  withdraw_operations = record { elements = withdraw_tx ∷ []; counter = 0 };
}

waiting-IsOrdered : IsOrdered waiting
waiting-IsOrdered = record { verified = omega arith; withdrawn = omega arith; within = omega arith }

waiting-IsTyped : IsTyped waiting
unfolding HashMap.get
waiting-IsTyped = record {
  commits = (refl, tt);
  verifies = λ i op h. elim (eq_cases 2 i) [ inl e ↦ ground arith | inr n ↦ absurd (ground arith) ];
  withdraws = (refl, tt);
}

-- The verification goes first.
abbrev after_verify : TxQueue
after_verify = record waiting {
  sent_pending_txs = 1;
  verify_operations = record { next_expected_idx = 3; elements = [] };
}

verify_first : pop_front waiting ≡ (some verify_tx, after_verify)
unfolding pop_front get_next_operation SparseQueue.pop_front SparseQueue.has_next
    CounterQueue.pop_front HashMap.get HashMap.remove
verify_first = refl

pop_front-yields_example :
    (op : TxData) × ((pop_front waiting).0 ≡ some op) × ((pop_front waiting).1.sent_pending_txs ≡ 1)
pop_front-yields_example =
    pop_front-yields waiting waiting-IsOrdered (omega arith) (omega arith)
      (inl (commit_tx, [], refl))

return_popped-pop_front_example :
    (r : TxQueue) × (return_popped verify_tx after_verify ≡ some r) × SameQueue r waiting
return_popped-pop_front_example =
    return_popped-pop_front waiting after_verify verify_tx waiting-IsOrdered (omega arith)
      waiting-IsTyped verify_first

abbrev added : TxQueue
added = add_commit_operation commit_tx (build builder)

-- The commit is given out, could not be sent, and is returned.
abbrev given_out : TxQueue
given_out = record added {
  sent_pending_txs = 1;
  commit_operations = record { elements = []; counter = 3 };
}

-- Ten samples of 20.
abbrev twenties : GasStatistics
twenties = record { samples = replicate 10 20; current_sum = 200; current_max_price = 50 }

twenties-Samples : Samples (30 ∷ replicate 10 20) twenties
twenties-Samples = record { window = refl; total = refl }

add_sample-Samples_example :
    (st : GasStatistics) × (add_sample 40 twenties ≡ some st)
    × Samples ((30 ∷ replicate 10 20) ++ 40 ∷ []) st
    × (st.current_max_price ≡ 50)
add_sample-Samples_example =
    add_sample-Samples (30 ∷ replicate 10 20) 40 twenties twenties-Samples (omega arith)

abbrev price : ℕ
price = 34

stuck_price : get_gas_price (some 25) (some 30) twenties ≡ done 34
unfolding get_gas_price scaled_price scale_up u256_mul u256_div limit_max
stuck_price = refl

get_gas_price-bounds_example : (wanted : ℕ) × Wanted 25 (some 30) wanted × Least wanted 50 price
get_gas_price-bounds_example = get_gas_price-bounds 25 34 (some 30) twenties stuck_price
