-- ===== src/EthWatch/Examples.antt =====
-- A node with one event, and what the theorems say of the watcher on it.
use qs_react_native_zksync.Prelude.{
  ℕ, ◌-◌, ◌≡◌, ◌≤◌, ◌&&◌, refl, ap, sym, ◌∙◌, subst, arith, inl, inr, none, some, [], ◌∷◌, true,
  Bool-cases, leb, if◌then◌else◌,
}
use qs_react_native_zksync.HashMap
use qs_react_native_zksync.State.Defs.{ZkSyncPriorityOp}
use qs_react_native_zksync.Block.{PriorityOp}
use qs_react_native_zksync.Mempool.{priority_ops_chunks}
use qs_react_native_zksync.EthWatch.{
  ReceivedPriorityOp, EthState, Watch, Logs, restore_state_from_eth, process_new_blocks,
  get_priority_requests, get_unconfirmed_ops, sift_outdated_ops, insert_all,
}
use qs_react_native_zksync.EthWatch.Laws.{
  Consecutive, StopsAt, id_after, get_priority_requests-Answers,
}
use qs_react_native_zksync.EthWatch.Received.{Listed, Reports}
use qs_react_native_zksync.EthWatch.Events.{
  QueuesEvents, KeepsFresh, OnlyFresh, process_new_blocks-Queued, restore_state_from_eth_misses,
}

abbrev exit_7 : PriorityOp
exit_7 = record {
  serial_id = 7;
  «data» = ZkSyncPriorityOp.full_exit (record { account_id = 0; eth_address = 100; token = 0 });
  deadline_block = 100;
  eth_hash = [];
  eth_block = 9;
}

-- The only event is in block 9.
Happened : ℕ → PriorityOp → Type 0
Happened b op = (9 ≡ b) × (exit_7 ≡ op)

abbrev node : Logs
node from none = some []
node from (some to) = if leb from 9 && leb 9 to then some ((9, exit_7) ∷ []) else some []

abbrev watch : Watch
watch = record {
  logs = node;
  stores_withdrawals = λ from to. true;
  number_of_confirmations_for_event = 1;
}

the_event : (b : ℕ) (op : PriorityOp) → Listed b op ((9, exit_7) ∷ []) → Happened b op
unfolding Happened
the_event b op (inl e) = (ap (λ (p : ℕ × PriorityOp). p.0) e, ap (λ (p : ℕ × PriorityOp). p.1) e)
the_event b op (inr l) = absurd l

node-Reports : Reports Happened node
unfolding Happened
node-Reports = record {
  complete = λ from to es b op h (at, is) low high.
      let all : (9, exit_7) ∷ [] ≡ es = ground (arith, h, at) in
      subst (Listed b op) all (inl (λ i. (at i, is i)));
  sound = λ from to es b op h l. elim (Bool-cases (leb from 9 && leb 9 to)) [
    | inl e ↦
        let all : es ≡ (9, exit_7) ∷ [] = ground (arith, h, e) in
        let (at, is) = the_event b op (subst (Listed b op) all l) in
        ((at, is), ground (arith, e, at), ground (arith, e, at))
    | inr e ↦ let empty : es ≡ [] = ground (arith, h, e) in absurd (subst (Listed b op) empty l)
  ];
  serial = λ b b' op op' (at, is) (at', is') same. sym is ∙ is';
}

abbrev at_8 : EthState
at_8 = record { last_ethereum_block = 8; unconfirmed_queue = []; priority_queue = [] }

abbrev queue_7 : HashMap.HashMap ReceivedPriorityOp
queue_7 = (7, record { op = exit_7; received_at = 50 }) ∷ []

abbrev at_11 : EthState
at_11 = record { last_ethereum_block = 11; unconfirmed_queue = []; priority_queue = queue_7 }

processed : process_new_blocks watch 50 11 at_8 ≡ some at_11
unfolding process_new_blocks get_unconfirmed_ops sift_outdated_ops insert_all HashMap.insert
processed = refl

process_new_blocks-Queued_example :
    QueuesEvents Happened 8 10 50 queue_7
    × KeepsFresh Happened 8 10 50 [] queue_7
    × OnlyFresh Happened 8 10 50 [] queue_7
    × (11 ≡ at_11.last_ethereum_block)
process_new_blocks-Queued_example =
    process_new_blocks-Queued Happened watch node-Reports 50 11 at_8 at_11 tt processed

-- A start at block 10, which has confirmed block 9.
abbrev restored : EthState
restored = record { last_ethereum_block = 10; unconfirmed_queue = []; priority_queue = [] }

restored_is : restore_state_from_eth watch 40 10 ≡ some restored
unfolding restore_state_from_eth get_unconfirmed_ops insert_all
restored_is = refl

abbrev next : EthState
next = record { last_ethereum_block = 20; unconfirmed_queue = []; priority_queue = [] }

next_is : process_new_blocks watch 50 20 restored ≡ some next
unfolding process_new_blocks get_unconfirmed_ops sift_outdated_ops insert_all
next_is = refl

restore_state_from_eth_misses_example : HashMap.get 7 next.priority_queue ≡ none
restore_state_from_eth_misses_example =
    restore_state_from_eth_misses Happened watch node-Reports 40 10 50 20 restored next 7
      restored_is next_is (omega arith)
      (unfold Happened in λ b op (at, is) same. (omega (arith, at), omega (arith, at)))

get_priority_requests-Answers_example :
    (let ops = get_priority_requests 7 30 at_11 in
      Consecutive queue_7 7 ops
      × (priority_ops_chunks ops ≤ 30)
      × StopsAt queue_7 (30 - priority_ops_chunks ops) (id_after 7 ops))
get_priority_requests-Answers_example = get_priority_requests-Answers 7 30 at_11
